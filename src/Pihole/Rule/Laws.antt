-- ===== src/Pihole/Rule/Laws.antt =====
-- The parsers of rule types and kinds against the texts of their values.
use pihole_cluster_admin.Prelude.{
  String, ◌≡◌, ◌≢◌, refl, sym, ◌∙◌, ◌↔◌, Option, none, some, List, [], ◌∷◌, arith, eq_iff, inl, inr,
  Option-cases,
}
use pihole_cluster_admin.Text.{to_lower, trim_space}
use pihole_cluster_admin.Pihole.Rule.{
  RuleType, RuleKind, allow, deny, exact, regex, type_text, kind_text, rule_type_of, rule_kind_of,
  parse_rule_type, parse_rule_kind, DomainPath, parse_domain_path,
}

rule_type_of_iff : (t : String) (r : RuleType) → (rule_type_of t ≡ some r) ↔ (t ≡ type_text r)
unfolding rule_type_of type_text
rule_type_of_iff t allow = ground (arith, eq_iff t "allow", eq_iff t "deny", eq_iff "allow" "deny")
rule_type_of_iff t deny = ground (arith, eq_iff t "allow", eq_iff t "deny", eq_iff "allow" "deny")

rule_kind_of_iff : (t : String) (r : RuleKind) → (rule_kind_of t ≡ some r) ↔ (t ≡ kind_text r)
unfolding rule_kind_of kind_text
rule_kind_of_iff t exact =
    ground (arith, eq_iff t "exact", eq_iff t "regex", eq_iff "exact" "regex")
rule_kind_of_iff t regex =
    ground (arith, eq_iff t "exact", eq_iff t "regex", eq_iff "exact" "regex")

-- A text parses to a rule type exactly when, trimmed and in lower case, it is the type's own text.
pub parse_rule_type_iff :
    (s : String) (r : RuleType)
    → (parse_rule_type s ≡ some r) ↔ (to_lower (trim_space s) ≡ type_text r)
unfolding parse_rule_type
parse_rule_type_iff s r = rule_type_of_iff (to_lower (trim_space s)) r

pub parse_rule_kind_iff :
    (s : String) (r : RuleKind)
    → (parse_rule_kind s ≡ some r) ↔ (to_lower (trim_space s) ≡ kind_text r)
unfolding parse_rule_kind
parse_rule_kind_iff s r = rule_kind_of_iff (to_lower (trim_space s)) r

texts_differ : (r : RuleType) (k : RuleKind) → type_text r ≢ kind_text k
unfolding type_text kind_text
texts_differ allow exact = ground (arith, eq_iff "allow" "exact")
texts_differ allow regex = ground (arith, eq_iff "allow" "regex")
texts_differ deny exact = ground (arith, eq_iff "deny" "exact")
texts_differ deny regex = ground (arith, eq_iff "deny" "regex")

-- A text that parses to a rule type parses to no rule kind.
pub parse_rule_kind_of_type :
    (s : String) (r : RuleType) → parse_rule_type s ≡ some r → parse_rule_kind s ≡ none
parse_rule_kind_of_type s r h = elim (Option-cases (parse_rule_kind s)) [
  | inl e ↦ e
  | inr (k, e) ↦
      absurd
        (texts_differ r k (sym ((parse_rule_type_iff s r).0 h) ∙ (parse_rule_kind_iff s k).0 e))
]

-- Text that is no rule type and no rule kind.
abbrev pub IsPlain : String → Type 0
IsPlain s = (parse_rule_type s ≡ none) × (parse_rule_kind s ≡ none)

parse_type_text : (r : RuleType) → parse_rule_type (type_text r) ≡ some r
unfolding parse_rule_type type_text to_lower trim_space
parse_type_text allow = refl
parse_type_text deny = refl

parse_kind_text : (k : RuleKind) → parse_rule_kind (kind_text k) ≡ some k
unfolding parse_rule_kind kind_text to_lower trim_space
parse_kind_text exact = refl
parse_kind_text regex = refl

kind_not_type : (k : RuleKind) → parse_rule_type (kind_text k) ≡ none
unfolding parse_rule_type kind_text to_lower trim_space
kind_not_type exact = refl
kind_not_type regex = refl

-- Writes an optional part of a path in front of the parts after it.
abbrev pub part : {A : Type 0} → (A → String) → Option A → List String → List String
part text none rest = rest
part text (some a) rest = text a ∷ rest

-- The parts of a path that names what is given, in the order type, kind, domain.
abbrev pub path_of : DomainPath → List String
path_of d =
    part type_text d.type_param (part kind_text d.kind_param (part (λ s. s) d.domain_param []))

-- A domain that is spelled like no rule type and no rule kind, if there is one.
abbrev pub HasPlainDomain : DomainPath → Type 0
HasPlainDomain d = elim d.domain_param [ none ↦ Unit {0} | some s ↦ IsPlain s ]

parse_path_of :
    (t : Option RuleType) (k : Option RuleKind) (s : Option String)
    → let d : DomainPath = record { type_param = t; kind_param = k; domain_param = s } in
      HasPlainDomain d → parse_domain_path (path_of d) ≡ d
unfolding parse_domain_path
parse_path_of none none none h = refl
parse_path_of none none (some s) h = ground arith
parse_path_of none (some k) none h = ground (arith, parse_kind_text k, kind_not_type k)
parse_path_of none (some k) (some s) h = ground (arith, parse_kind_text k, kind_not_type k)
parse_path_of (some t) none none h = ground (arith, parse_type_text t)
parse_path_of (some t) none (some s) h = ground (arith, parse_type_text t)
parse_path_of (some t) (some k) none h = ground (arith, parse_type_text t, parse_kind_text k)
parse_path_of (some t) (some k) (some s) h = ground (arith, parse_type_text t, parse_kind_text k)

-- What a path names is read back from it, if its domain is spelled like no rule type and no rule
-- kind.
pub parse_domain_path-path_of :
    (d : DomainPath) → HasPlainDomain d → parse_domain_path (path_of d) ≡ d
parse_domain_path-path_of d h = parse_path_of d.type_param d.kind_param d.domain_param h
