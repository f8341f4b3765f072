-- ===== src/Pihole/Rule/Tests.antt =====
-- Tests of the parsers, and instances of their theorems.
use pihole_cluster_admin.Prelude.{◌≡◌, refl, none, some}
use pihole_cluster_admin.Text.{to_lower, trim_space}
use pihole_cluster_admin.Pihole.Rule.{
  allow, deny, DomainPath, parse_rule_type, parse_rule_kind, parse_domain_path, type_text,
}
use pihole_cluster_admin.Pihole.Rule.Laws.{
  path_of, parse_rule_kind_of_type, parse_domain_path-path_of, parse_rule_type_iff,
}

parses : (parse_rule_type " Allow " ≡ some allow) × (parse_rule_type "denied" ≡ none)
unfolding parse_rule_type to_lower trim_space
parses = (refl, refl)

abbrev deny_ads : DomainPath
deny_ads = record { type_param = some deny; kind_param = none; domain_param = some "ads.example" }

plain_ads : (parse_rule_type "ads.example" ≡ none) × (parse_rule_kind "ads.example" ≡ none)
unfolding parse_rule_type parse_rule_kind to_lower trim_space
plain_ads = (refl, refl)

parse_domain_path-path_of_example : parse_domain_path (path_of deny_ads) ≡ deny_ads
parse_domain_path-path_of_example = parse_domain_path-path_of deny_ads plain_ads

parse_rule_kind_of_type_example : parse_rule_kind " Allow " ≡ none
parse_rule_kind_of_type_example = parse_rule_kind_of_type " Allow " allow parses.0

parse_rule_type_iff_example : to_lower (trim_space " Allow ") ≡ type_text allow
parse_rule_type_iff_example = (parse_rule_type_iff " Allow " allow).0 parses.0
