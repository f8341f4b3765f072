-- ===== src/Pihole/Cluster/Tests.antt =====
-- Instances of the theorems about the members and the fan-outs of a cluster.
use pihole_cluster_admin.Prelude.{ℤ, pos, ◌≡◌, refl, none, List, [], ◌∷◌, lookup, int_eq, arith}
use pihole_cluster_admin.Pihole.Rule.{allow, deny, exact}
use pihole_cluster_admin.Pihole.Types.{text, AddDomainRuleOptions, ClientConfig}
use pihole_cluster_admin.Pihole.Cluster.{for_each_client}
use pihole_cluster_admin.Pihole.Cluster.Sample.{port, node_a, two_nodes}
use pihole_cluster_admin.Pihole.Cluster.FanOut.{Covers, node_outcome, lookup-for_each_client}
use pihole_cluster_admin.Pihole.Cluster.Members
use pihole_cluster_admin.Pihole.Cluster.Rules.{
  get_all_domain_rules, get_domain_rules_by_type, get_domain_rules_by_kind,
  get_domain_rules_by_domain, get_domain_rules_by_type_kind, get_domain_rules_by_type_kind_domain,
  add_domain_rule, auth_status, node_worker,
}
use pihole_cluster_admin.Pihole.Cluster.Rules.Laws.{IsReport, operations-IsReport}

-- Node 2 answers before node 1.
abbrev late_first : List ℤ
late_first = pos 2 ∷ pos 1 ∷ []

late_first-Covers : Covers late_first two_nodes.clients
unfolding lookup
late_first-Covers id h = ground arith

lookup-for_each_client_example :
    lookup
      (pos 2)
      (for_each_client
        (λ _. node_worker port port.get_all_domain_rules)
        late_first
        two_nodes.clients).results
    ≡ node_outcome (λ _. node_worker port port.get_all_domain_rules) two_nodes.clients (pos 2)
lookup-for_each_client_example =
    lookup-for_each_client (λ _. node_worker port port.get_all_domain_rules) two_nodes.clients
      late_first late_first-Covers (pos 2)

abbrev block_ads : AddDomainRuleOptions
block_ads = record {
  rule_type = deny;
  rule_kind = exact;
  payload = record { domain = text "ads.example"; comment = none; groups = []; enabled = none };
}

operations-IsReport_example :
    IsReport port port.get_all_domain_rules two_nodes
      (get_all_domain_rules port late_first two_nodes).0
    × IsReport port
        (port.get_domain_rules_by_type allow)
        two_nodes
        (get_domain_rules_by_type port allow late_first two_nodes).0
    × IsReport port
        (port.get_domain_rules_by_kind exact)
        two_nodes
        (get_domain_rules_by_kind port exact late_first two_nodes).0
    × IsReport port
        (port.get_domain_rules_by_domain "a")
        two_nodes
        (get_domain_rules_by_domain port "a" late_first two_nodes).0
    × IsReport port
        (port.get_domain_rules_by_type_kind allow exact)
        two_nodes
        (get_domain_rules_by_type_kind port allow exact late_first two_nodes).0
    × IsReport port
        (port.get_domain_rules_by_type_kind_domain allow exact "a")
        two_nodes
        (get_domain_rules_by_type_kind_domain port allow exact "a" late_first two_nodes).0
    × IsReport port
        (port.add_domain_rule block_ads)
        two_nodes
        (add_domain_rule port block_ads late_first two_nodes).0
    × IsReport port port.auth_status two_nodes (auth_status port late_first two_nodes).0
operations-IsReport_example =
    operations-IsReport port allow exact "a" block_ads late_first two_nodes late_first-Covers

abbrev moved_to_two : ClientConfig
moved_to_two = record {
  id = pos 2;
  name = "b";
  scheme = "http";
  host = "h";
  port = pos 80;
  password = "p";
}

two_nodes-IsKeyed : Members.IsKeyed port two_nodes
unfolding lookup
two_nodes-IsKeyed id client h = ground arith

abbrev some_changes : List (Members.Change port)
some_changes =
    Members.Change.add node_a
    ∷ Members.Change.update (pos 1) moved_to_two
    ∷ Members.Change.update (pos 2) moved_to_two
    ∷ Members.Change.remove (pos 1)
    ∷ []

changes-IsKeyed_example : Members.IsKeyed port (Members.changes port some_changes two_nodes)
changes-IsKeyed_example =
    Members.changes-IsKeyed port (λ cfg client. refl) some_changes two_nodes two_nodes-IsKeyed
