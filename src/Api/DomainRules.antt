-- ===== src/Api/DomainRules.antt =====
-- backend/internal/handler/domainrulehandler/handler.go: the requests on domain rules, over the
-- cluster. Path parameters are texts; a body is `none` if DecodeJSONBody fails.
pub mod Laws
mod Tests
use Prim.Native.String.{◌++◌}
use pihole_cluster_admin.Prelude.{
  ℤ, String, Bool, true, false, Option, none, some, List, [], ◌∷◌, Map, ◌==◌, string_eq,
  if◌then◌else◌,
}
use pihole_cluster_admin.Httpx.{Reply, json, bad_request, parsed}
use pihole_cluster_admin.Domain.{NodeResult}
use pihole_cluster_admin.Pihole.Rule.{RuleType, RuleKind, parse_rule_type, parse_rule_kind}
use pihole_cluster_admin.Pihole.Types.{
  GetDomainRulesResponse, AddDomainPayload, DomainValue, text, items, neither,
  AddDomainRuleResponse,
}
use pihole_cluster_admin.Pihole.Cluster.{ClientPort, Cluster}
use pihole_cluster_admin.Pihole.Cluster.Rules.{
  get_all_domain_rules, get_domain_rules_by_type, get_domain_rules_by_kind,
  get_domain_rules_by_domain, get_domain_rules_by_type_kind, get_domain_rules_by_type_kind_domain,
  add_domain_rule, remove_domain_rule,
}

abbrev pub bad : String → String
bad name = "bad \"" ++ (name ++ "\" parameter")

-- A `domain` that is not empty
abbrev pub parse_domain : String → Option String
parse_domain s = if s == "" then none else some s

-- `domains = append(domains, s)` for every item, as long as the items are strings
unfoldable pub strings_of : List (Option String) → Option (List (Option String))
strings_of [] = some []
strings_of (none ∷ rest) = none
strings_of (some s ∷ rest) = elim (strings_of rest) [
  | none ↦ none
  | some found ↦ some (some s ∷ found)
]

-- The JSON value of a `[]string`; a nil slice is null.
abbrev pub slice_value : List (Option String) → DomainValue
slice_value [] = neither
slice_value (s ∷ rest) = items (s ∷ rest)

-- "Normalize Domain to []string", as the value that is passed on
unfoldable pub normalize_domain : DomainValue → Option DomainValue
unfolding strings_of
normalize_domain (text s) = some (items (some s ∷ []))
normalize_domain (items xs) = elim (strings_of xs) [
  | none ↦ none
  | some found ↦ some (slice_value found)
]
normalize_domain neither = none

-- The message for a value that is not a string or a list of strings
abbrev pub domain_message : DomainValue → String
domain_message (items xs) = "domain list must contain only strings"
domain_message (text s) = "domain must be string or array of strings"
domain_message neither = "domain must be string or array of strings"

abbrev pub with_type : {A S : Type 0} → String → (RuleType → S → Reply A × S) → S → Reply A × S
with_type s next st = parsed (bad "type") (parse_rule_type s) (λ t. next t st) st

abbrev pub with_kind : {A S : Type 0} → String → (RuleKind → S → Reply A × S) → S → Reply A × S
with_kind s next st = parsed (bad "kind") (parse_rule_kind s) (λ k. next k st) st

abbrev pub with_domain : {A S : Type 0} → String → (String → S → Reply A × S) → S → Reply A × S
with_domain s next st = parsed "empty \"domain\" parmeter" (parse_domain s) (λ d. next d st) st

-- The results in JSON
abbrev pub encoded : {A S : Type 0} → A × S → Reply A × S
encoded (results, st) = (json 200 results, st)

module _ {C : Type 0} (port : ClientPort C) (order : List ℤ) where
  abbrev pub Rules : Type 0
  Rules = Cluster C → Reply (Map ℤ (NodeResult GetDomainRulesResponse)) × Cluster C

  unfoldable pub handle_get_all : Rules
  unfolding get_all_domain_rules
  handle_get_all c = encoded (get_all_domain_rules port order c)

  unfoldable pub handle_get_by_type : String → Rules
  unfolding get_domain_rules_by_type
  handle_get_by_type t = with_type t (λ ty c. encoded (get_domain_rules_by_type port ty order c))

  unfoldable pub handle_get_by_kind : String → Rules
  unfolding get_domain_rules_by_kind
  handle_get_by_kind k =
      with_kind k (λ kind c. encoded (get_domain_rules_by_kind port kind order c))

  unfoldable pub handle_get_by_domain : String → Rules
  unfolding get_domain_rules_by_domain
  handle_get_by_domain d =
      with_domain d (λ dom c. encoded (get_domain_rules_by_domain port dom order c))

  unfoldable pub handle_get_by_type_kind : String → String → Rules
  unfolding get_domain_rules_by_type_kind
  handle_get_by_type_kind t k =
      with_type t
        (λ ty. with_kind k (λ kind c. encoded (get_domain_rules_by_type_kind port ty kind order c)))

  unfoldable pub handle_get_by_type_kind_domain : String → String → String → Rules
  unfolding get_domain_rules_by_type_kind_domain
  handle_get_by_type_kind_domain t k d = with_type t (λ ty. with_kind k (λ kind.
      with_domain d
        (λ dom c. encoded (get_domain_rules_by_type_kind_domain port ty kind dom order c))))

  -- The end of `addDomainRule`, with a body that has been decoded
  unfoldable pub add_body :
      RuleType
      → RuleKind
      → AddDomainPayload
      → Cluster C
      → Reply (Map ℤ (NodeResult AddDomainRuleResponse)) × Cluster C
  unfolding add_domain_rule normalize_domain
  add_body ty kind body c =
      parsed (domain_message body.domain) (normalize_domain body.domain)
        (λ domains. encoded (
          add_domain_rule port
            (record {
              rule_type = ty;
              rule_kind = kind;
              payload = record body { domain = domains };
            })
            order c))
        c

  unfoldable pub handle_add_domain_rule :
      String
      → String
      → Option AddDomainPayload
      → Cluster C
      → Reply (Map ℤ (NodeResult AddDomainRuleResponse)) × Cluster C
  unfolding add_body
  handle_add_domain_rule t k decoded = with_type t (λ ty.
      with_kind k
        (λ kind c. parsed "invalid JSON body" decoded (λ body. add_body ty kind body c) c))

  unfoldable pub handle_remove_domain_rule :
      String → String → String → Cluster C → Reply (Map ℤ (NodeResult (Unit {0}))) × Cluster C
  unfolding remove_domain_rule
  handle_remove_domain_rule t k d = with_type t (λ ty. with_kind k (λ kind. with_domain d (λ dom c.
      encoded (
        remove_domain_rule port (record { rule_type = ty; rule_kind = kind; domain = dom }) order
          c))))
