-- ===== src/Api/DomainRules/Tests.antt =====
-- Requests to add a rule to a cluster without nodes.
use pihole_cluster_admin.Prelude.{pos, ◌≡◌, refl, none, some, []}
use pihole_cluster_admin.Text.{to_lower, trim_space}
use pihole_cluster_admin.Httpx.{json_error}
use pihole_cluster_admin.Pihole.Rule.{parse_rule_type, parse_rule_kind}
use pihole_cluster_admin.Pihole.Types.{AddDomainPayload, text, items, neither}
use pihole_cluster_admin.Pihole.Cluster.{Cluster}
use pihole_cluster_admin.Pihole.Cluster.Sample.{Node, port}
use pihole_cluster_admin.Api.DomainRules.{handle_add_domain_rule, normalize_domain, strings_of}
use pihole_cluster_admin.Api.DomainRules.Laws.{
  IsAddRequest, AddsOrRefuses, handle_add_domain_rule_lem,
}

abbrev no_nodes : Cluster Node
no_nodes = record {
  clients = [];
  cursor_manager = record { ttl_hours = pos 24; search_states = [] };
}

abbrev ads : AddDomainPayload
ads = record { domain = text "ads.example"; comment = none; groups = []; enabled = none }

handle_add_domain_rule_lem_example :
    AddsOrRefuses port []
      (IsAddRequest " Deny" "exact" (some ads))
      (handle_add_domain_rule port [] " Deny" "exact" (some ads) no_nodes)
      no_nodes
handle_add_domain_rule_lem_example =
    handle_add_domain_rule_lem port [] " Deny" "exact" (some ads) no_nodes

bad_kind :
    handle_add_domain_rule port [] "deny" "wild" (some ads) no_nodes
    ≡ (json_error "bad \"kind\" parameter" 400, no_nodes)
unfolding handle_add_domain_rule parse_rule_type parse_rule_kind to_lower trim_space
bad_kind = refl

empty_list : normalize_domain (items []) ≡ some neither
unfolding normalize_domain strings_of
empty_list = refl
