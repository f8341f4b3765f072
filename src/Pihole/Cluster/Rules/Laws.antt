-- ===== src/Pihole/Cluster/Rules/Laws.antt =====
-- What the fan-outs report.
use mathlib.Core.Option
use pihole_cluster_admin.Prelude.{
  ℤ, ◌∙◌, ◌≡◌, refl, String, true, false, Option, none, some, List, Map, lookup, int_eq,
}
use pihole_cluster_admin.Httpx.{GoError, Result, ok, err, error_text}
use pihole_cluster_admin.Domain.{PiholeNodeRef, NodeResult, node_result}
use pihole_cluster_admin.Pihole.Rule.{RuleType, RuleKind}
use pihole_cluster_admin.Pihole.Types.{AddDomainRuleOptions, RemoveDomainRuleOptions}
use pihole_cluster_admin.Pihole.Cluster.{Call, ClientPort, Cluster, gather}
use pihole_cluster_admin.Pihole.Cluster.FanOut.{Covers, lookup-for_each_client}
use pihole_cluster_admin.Pihole.Cluster.Rules.{
  without_response, node_worker, remove_worker, get_all_domain_rules, get_domain_rules_by_type,
  get_domain_rules_by_kind, get_domain_rules_by_domain, get_domain_rules_by_type_kind,
  get_domain_rules_by_type_kind_domain, add_domain_rule, remove_domain_rule, auth_status,
}

-- The entry of a node whose call has returned an answer: success with the response and no error, or
-- failure with the error, its text and no response. A call that panicked leaves no entry.
abbrev pub entry_of : {T : Type 0} → PiholeNodeRef → Option (Result T) → Option (NodeResult T)
entry_of node none = none
entry_of node (some (ok a)) = some (record {
  pihole_node = node;
  success = true;
  error = none;
  error_string = "";
  response = some a;
})
entry_of node (some (err e)) = some (record {
  pihole_node = node;
  success = false;
  error = some e;
  error_string = error_text e;
  response = none;
})

-- The same of a call that has an error or nothing to return.
abbrev pub bodiless_entry_of :
    PiholeNodeRef → Option (Option GoError) → Option (NodeResult (Unit {0}))
bodiless_entry_of node none = none
bodiless_entry_of node (some none) = some (record {
  pihole_node = node;
  success = true;
  error = none;
  error_string = "";
  response = none;
})
bodiless_entry_of node (some (some e)) = entry_of node (some (err e))

node_result-entry_of :
    {T : Type 0} (node : PiholeNodeRef) (o : Option (Result T))
    → Option.map (node_result node) o ≡ entry_of node o
unfolding node_result
node_result-entry_of node none = refl
node_result-entry_of node (some (ok a)) = refl
node_result-entry_of node (some (err e)) = refl

module _ {C : Type 0} (port : ClientPort C) where
  -- The entry of one node, with its information after the call.
  abbrev pub entry : {T : Type 0} → Call C (Result T) → C → Option (NodeResult T)
  entry call client = entry_of (port.get_node_info (call client).1) (call client).0

  node_worker-entry :
      {T : Type 0} (call : Call C (Result T)) (client : C)
      → (node_worker port call client).0 ≡ entry call client
  unfolding node_worker
  node_worker-entry call client =
      node_result-entry_of (port.get_node_info (call client).1) (call client).0

  -- The results hold exactly the entries of the cluster's nodes.
  abbrev pub IsReport : {T : Type 0} → Call C (Result T) → Cluster C → Map ℤ (NodeResult T) → Type 0
  IsReport call c results =
      (id : ℤ)
      → lookup id results
        ≡ elim (lookup id c.clients) [ none ↦ none | some client ↦ entry call client ]

  node_entries :
      {T : Type 0} (call : Call C (Result T)) (o : Option C)
      → ◌≡◌ {A = Option (NodeResult T)}
          (elim o [ none ↦ none | some client ↦ (node_worker port call client).0 ])
          (elim o [ none ↦ none | some client ↦ entry call client ])
  node_entries call none = refl
  node_entries call (some client) = node_worker-entry call client

  pub gather-IsReport :
      {T : Type 0} (call : Call C (Result T)) (order : List ℤ) (c : Cluster C)
      → Covers order c.clients
      → IsReport call c (gather (λ id. node_worker port call) order c).0
  unfolding gather
  gather-IsReport call order c all id =
      lookup-for_each_client (λ _. node_worker port call) c.clients order all id
      ∙ node_entries call (lookup id c.clients)

  -- The entry of a node for a call that has an error and no response.
  abbrev pub bodiless_entry : Call C (Option GoError) → C → Option (NodeResult (Unit {0}))
  bodiless_entry call client =
      bodiless_entry_of (port.get_node_info (call client).1) (call client).0

  remove_worker-entry :
      (call : Call C (Option GoError)) (client : C)
      → (remove_worker port call client).0 ≡ bodiless_entry call client
  unfolding remove_worker node_result
  remove_worker-entry call client = said (call client).0
    where
      said :
          (o : Option (Option GoError))
          → Option.map
              (λ e. record (node_result (port.get_node_info (call client).1) (without_response e)) {
                response = none;
              })
              o
            ≡ bodiless_entry_of (port.get_node_info (call client).1) o
      said none = refl
      said (some none) = refl
      said (some (some e)) = refl

  removed_entries :
      (call : Call C (Option GoError)) (o : Option C)
      → ◌≡◌ {A = Option (NodeResult (Unit {0}))}
          (elim o [ none ↦ none | some client ↦ (remove_worker port call client).0 ])
          (elim o [ none ↦ none | some client ↦ bodiless_entry call client ])
  removed_entries call none = refl
  removed_entries call (some client) = remove_worker-entry call client

  -- Whatever the order in which the nodes answer, the reads, `AddDomainRule` and `AuthStatus` report
  -- for every node of the cluster what its own client returned for the arguments given, under the
  -- node's information after the call: a success with the response and neither an error nor its
  -- text, or a failure with the error, its text and no response, and nothing if the client
  -- panicked; they report no other node.
  pub operations-IsReport :
      (t : RuleType) (k : RuleKind) (d : String) (opts : AddDomainRuleOptions) (order : List ℤ)
      (c : Cluster C)
      → Covers order c.clients
      → IsReport port.get_all_domain_rules c (get_all_domain_rules port order c).0
        × IsReport (port.get_domain_rules_by_type t) c (get_domain_rules_by_type port t order c).0
        × IsReport (port.get_domain_rules_by_kind k) c (get_domain_rules_by_kind port k order c).0
        × IsReport
            (port.get_domain_rules_by_domain d)
            c
            (get_domain_rules_by_domain port d order c).0
        × IsReport
            (port.get_domain_rules_by_type_kind t k)
            c
            (get_domain_rules_by_type_kind port t k order c).0
        × IsReport
            (port.get_domain_rules_by_type_kind_domain t k d)
            c
            (get_domain_rules_by_type_kind_domain port t k d order c).0
        × IsReport (port.add_domain_rule opts) c (add_domain_rule port opts order c).0
        × IsReport port.auth_status c (auth_status port order c).0
  unfolding get_all_domain_rules gather get_domain_rules_by_type get_domain_rules_by_kind
      get_domain_rules_by_domain get_domain_rules_by_type_kind get_domain_rules_by_type_kind_domain
      add_domain_rule auth_status
  operations-IsReport t k d opts order c all = (
    gather-IsReport _ order c all,
    gather-IsReport _ order c all,
    gather-IsReport _ order c all,
    gather-IsReport _ order c all,
    gather-IsReport _ order c all,
    gather-IsReport _ order c all,
    gather-IsReport _ order c all,
    gather-IsReport _ order c all,
  )

  -- Whatever the order in which the nodes answer, `RemoveDomainRule` reports for every node of the
  -- cluster the error of its own client, or success, in either case with no response.
  pub remove_domain_rule_reports :
      (opts : RemoveDomainRuleOptions) (order : List ℤ) (c : Cluster C)
      → Covers order c.clients
      → (id : ℤ)
      → lookup id (remove_domain_rule port opts order c).0 ≡ elim (lookup id c.clients) [
        | none ↦ none
        | some client ↦ bodiless_entry (port.remove_domain_rule opts) client
      ]
  unfolding remove_domain_rule
  remove_domain_rule_reports opts order c all id =
      lookup-for_each_client (λ _. remove_worker port (port.remove_domain_rule opts)) c.clients
        order all id
      ∙ removed_entries (port.remove_domain_rule opts) (lookup id c.clients)
