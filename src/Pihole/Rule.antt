-- ===== src/Pihole/Rule.antt =====
-- backend/internal/pihole/rule.go, and parseDomainPath of
-- backend/internal/handler/domainrulehandler/handler.go.
pub mod Laws
mod Tests
use pihole_cluster_admin.Prelude.{
  String, Bool, Option, none, some, List, [], ◌∷◌, ◌==◌, if◌then◌else◌, string_eq,
}
use pihole_cluster_admin.Text.{to_lower, trim_space}

pub data RuleType : Type 0 where
  allow deny : RuleType

pub data RuleKind : Type 0 where
  exact regex : RuleKind

-- The text of a `RuleType` and of a `RuleKind`.
unfoldable pub type_text : RuleType → String
type_text allow = "allow"
type_text deny = "deny"

unfoldable pub kind_text : RuleKind → String
kind_text exact = "exact"
kind_text regex = "regex"

unfoldable pub rule_type_of : String → Option RuleType
rule_type_of t = if t == "allow" then some allow else if t == "deny" then some deny else none

unfoldable pub rule_kind_of : String → Option RuleKind
rule_kind_of t = if t == "exact" then some exact else if t == "regex" then some regex else none

-- `("", false)` is `none`.
unfoldable pub parse_rule_type : String → Option RuleType
unfolding rule_type_of
parse_rule_type s = rule_type_of (to_lower (trim_space s))

unfoldable pub parse_rule_kind : String → Option RuleKind
unfolding rule_kind_of
parse_rule_kind s = rule_kind_of (to_lower (trim_space s))

pub record DomainPath : Type 0 where
  pub type_param : Option RuleType
  pub kind_param : Option RuleKind
  pub domain_param : Option String

unfoldable pub parse_one : String → DomainPath
parse_one p = elim (parse_rule_type p) [
  | some rt ↦ record { type_param = some rt; kind_param = none; domain_param = none }
  | none ↦ elim (parse_rule_kind p) [
    | some rk ↦ record { type_param = none; kind_param = some rk; domain_param = none }
    | none ↦ record { type_param = none; kind_param = none; domain_param = some p }
  ]
]

unfoldable pub parse_two : String → String → DomainPath
parse_two p1 p2 = elim (parse_rule_type p1) [
  | some rt ↦ elim (parse_rule_kind p2) [
    | some rk ↦ record { type_param = some rt; kind_param = some rk; domain_param = none }
    | none ↦ record { type_param = some rt; kind_param = none; domain_param = some p2 }
  ]
  | none ↦ elim (parse_rule_kind p1) [
    | some rk ↦ record { type_param = none; kind_param = some rk; domain_param = some p2 }
    | none ↦ record { type_param = none; kind_param = none; domain_param = some p1 }
  ]
]

unfoldable pub parse_domain_path : List String → DomainPath
unfolding parse_one parse_two
parse_domain_path [] = record { type_param = none; kind_param = none; domain_param = none }
parse_domain_path (p ∷ []) = parse_one p
parse_domain_path (p1 ∷ p2 ∷ []) = parse_two p1 p2
parse_domain_path (p1 ∷ p2 ∷ p3 ∷ []) = record {
  type_param = parse_rule_type p1;
  kind_param = parse_rule_kind p2;
  domain_param = some p3;
}
parse_domain_path (p1 ∷ p2 ∷ p3 ∷ p4 ∷ ps) = record {
  type_param = none;
  kind_param = none;
  domain_param = none;
}
