-- ===== src/Pihole/Cluster/Rules.antt =====
-- The operations of cluster.go that ask every node the same: domain rules, authentication status and
-- logout. Each is a fan-out whose goroutines record `(response, err)` for their node.
pub mod Laws
use mathlib.Core.Option
use pihole_cluster_admin.Prelude.{ℤ, String, Option, none, some, List, Map}
use pihole_cluster_admin.Httpx.{GoError, Result, ok, err}
use pihole_cluster_admin.Domain.{NodeResult, AuthStatus, node_result}
use pihole_cluster_admin.Pihole.Rule.{RuleType, RuleKind}
use pihole_cluster_admin.Pihole.Types.{
  GetDomainRulesResponse, AddDomainRuleOptions, AddDomainRuleResponse, RemoveDomainRuleOptions,
}
use pihole_cluster_admin.Pihole.Cluster.{Call, ClientPort, Cluster, gather}

abbrev pub without_response : Option GoError → Result (Unit {0})
without_response none = ok tt
without_response (some e) = err e

module _ {C : Type 0} (port : ClientPort C) where
  open port use {get_node_info}

  -- The goroutine of an operation that records `(response, err)` for its node. The node's
  -- information is read after the call.
  unfoldable pub node_worker : {T : Type 0} → Call C (Result T) → Call C (NodeResult T)
  node_worker call client =
      (Option.map (node_result (get_node_info (call client).1)) (call client).0, (call client).1)

  -- The goroutine of `RemoveDomainRule`: there is no response.
  unfoldable pub remove_worker : Call C (Option GoError) → Call C (NodeResult (Unit {0}))
  remove_worker call client = (
    Option.map
        (λ e. record (node_result (get_node_info (call client).1) (without_response e)) {
          response = none;
        })
        (call client).0,
    (call client).1,
  )

  unfoldable pub get_all_domain_rules :
      List ℤ → Cluster C → Map ℤ (NodeResult GetDomainRulesResponse) × Cluster C
  unfolding gather node_worker
  get_all_domain_rules order c = gather (λ id. node_worker port.get_all_domain_rules) order c

  unfoldable pub get_domain_rules_by_type :
      RuleType → List ℤ → Cluster C → Map ℤ (NodeResult GetDomainRulesResponse) × Cluster C
  unfolding gather node_worker
  get_domain_rules_by_type t order c =
      gather (λ id. node_worker (port.get_domain_rules_by_type t)) order c

  unfoldable pub get_domain_rules_by_kind :
      RuleKind → List ℤ → Cluster C → Map ℤ (NodeResult GetDomainRulesResponse) × Cluster C
  unfolding gather node_worker
  get_domain_rules_by_kind k order c =
      gather (λ id. node_worker (port.get_domain_rules_by_kind k)) order c

  unfoldable pub get_domain_rules_by_domain :
      String → List ℤ → Cluster C → Map ℤ (NodeResult GetDomainRulesResponse) × Cluster C
  unfolding gather node_worker
  get_domain_rules_by_domain d order c =
      gather (λ id. node_worker (port.get_domain_rules_by_domain d)) order c

  unfoldable pub get_domain_rules_by_type_kind :
      RuleType
      → RuleKind
      → List ℤ
      → Cluster C
      → Map ℤ (NodeResult GetDomainRulesResponse) × Cluster C
  unfolding gather node_worker
  get_domain_rules_by_type_kind t k order c =
      gather (λ id. node_worker (port.get_domain_rules_by_type_kind t k)) order c

  unfoldable pub get_domain_rules_by_type_kind_domain :
      RuleType
      → RuleKind
      → String
      → List ℤ
      → Cluster C
      → Map ℤ (NodeResult GetDomainRulesResponse) × Cluster C
  unfolding gather node_worker
  get_domain_rules_by_type_kind_domain t k d order c =
      gather (λ id. node_worker (port.get_domain_rules_by_type_kind_domain t k d)) order c

  unfoldable pub add_domain_rule :
      AddDomainRuleOptions
      → List ℤ
      → Cluster C
      → Map ℤ (NodeResult AddDomainRuleResponse) × Cluster C
  unfolding gather node_worker
  add_domain_rule opts order c = gather (λ id. node_worker (port.add_domain_rule opts)) order c

  unfoldable pub auth_status : List ℤ → Cluster C → Map ℤ (NodeResult AuthStatus) × Cluster C
  unfolding gather node_worker
  auth_status order c = gather (λ id. node_worker port.auth_status) order c

  unfoldable pub remove_domain_rule :
      RemoveDomainRuleOptions → List ℤ → Cluster C → Map ℤ (NodeResult (Unit {0})) × Cluster C
  unfolding gather remove_worker
  remove_domain_rule opts order c =
      gather (λ id. remove_worker (port.remove_domain_rule opts)) order c

  unfoldable pub logout : List ℤ → Cluster C → Map ℤ (Option GoError) × Cluster C
  unfolding gather
  logout order c = gather (λ id. port.logout) order c
