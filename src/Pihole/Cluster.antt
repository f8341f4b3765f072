-- ===== src/Pihole/Cluster.antt =====
-- backend/internal/pihole/cluster.go over an abstract client, the interface `clientPort` of
-- backend/internal/pihole/interface.go.
--
-- `forEachClient` starts one goroutine for each client of a snapshot of the map, and waits for all.
-- Each goroutine calls its own client and then writes its result under a lock, so a run is the
-- sequence `order` of the ids in the order in which the goroutines finish. The callers pass the
-- limit 0, which makes no semaphore. A timeout is an error that the client returns. Other methods
-- of the cluster are not interleaved with a run.
pub mod FanOut
pub mod Members
pub mod Rules
pub mod QueryLogs
pub mod Sample
mod Tests
use pihole_cluster_admin.Prelude.{
  ℤ, String, Bool, true, false, Option, none, some, List, [], ◌∷◌, Map, lookup, insert, delete, has,
  ◌==◌, int_eq, if◌then◌else◌, not,
}
use pihole_cluster_admin.Httpx.{GoError, other, Result, ok, err}
use pihole_cluster_admin.Domain.{PiholeNodeRef, NodeResult, AuthStatus, node_result}
use pihole_cluster_admin.Pihole.Rule.{RuleType, RuleKind}
use pihole_cluster_admin.Pihole.Types.{
  ClientConfig, FetchQueryLogClientRequest, FetchQueryLogResponse, GetDomainRulesResponse,
  AddDomainRuleOptions, AddDomainRuleResponse, RemoveDomainRuleOptions, FetchQueryLogFilters,
}
use pihole_cluster_admin.Pihole.Cursor.{CursorManager}

-- What a call of a client leaves: its value and error, or a panic, which the goroutine recovers
-- from, and the client.
abbrev pub Call : Type 0 → Type 0 → Type 0
Call C A = C → Option A × C

-- `clientPort`: the methods of a client that the cluster calls.
pub record ClientPort (C : Type 0) : Type 0 where
  pub get_id : C → ℤ
  pub get_node_info : C → PiholeNodeRef
  pub update : ClientConfig → C → C
  pub fetch_query_logs : FetchQueryLogClientRequest → Call C (Result FetchQueryLogResponse)
  pub get_all_domain_rules : Call C (Result GetDomainRulesResponse)
  pub get_domain_rules_by_type : RuleType → Call C (Result GetDomainRulesResponse)
  pub get_domain_rules_by_kind : RuleKind → Call C (Result GetDomainRulesResponse)
  pub get_domain_rules_by_domain : String → Call C (Result GetDomainRulesResponse)
  pub get_domain_rules_by_type_kind : RuleType → RuleKind → Call C (Result GetDomainRulesResponse)
  pub get_domain_rules_by_type_kind_domain :
      RuleType → RuleKind → String → Call C (Result GetDomainRulesResponse)
  pub add_domain_rule : AddDomainRuleOptions → Call C (Result AddDomainRuleResponse)
  pub remove_domain_rule : RemoveDomainRuleOptions → Call C (Option GoError)
  pub auth_status : Call C (Result AuthStatus)
  pub logout : Call C (Option GoError)

pub record Cluster (C : Type 0) : Type 0 where
  pub clients : Map ℤ C
  pub cursor_manager : CursorManager FetchQueryLogFilters

-- The state of a run: the map of results and the clients as they are now.
pub record Run (C R : Type 0) : Type 0 where
  pub results : Map ℤ R
  pub clients : Map ℤ C

module _ {C R : Type 0} where
  -- A goroutine finishes: it has a result, or it has panicked.
  unfoldable pub finish : ℤ → Option R → C → Run C R → Run C R
  finish id none c r = record r { clients = insert id c r.clients }
  finish id (some a) c r = record {
    results = insert id a r.results;
    clients = insert id c r.clients;
  }

  unfoldable pub run_worker : (ℤ → Call C R) → Map ℤ C → ℤ → Run C R → Run C R
  unfolding finish
  run_worker f snapshot id r = elim (lookup id snapshot) [
    | none ↦ r
    | some c ↦ finish id (f id c).0 (f id c).1 r
  ]

  unfoldable pub run_workers : (ℤ → Call C R) → Map ℤ C → List ℤ → Run C R → Run C R
  run_workers f snapshot [] r = r
  run_workers f snapshot (id ∷ order) r = run_workers f snapshot order (run_worker f snapshot id r)

  -- forEachClient
  unfoldable pub for_each_client : (ℤ → Call C R) → List ℤ → Map ℤ C → Run C R
  unfolding run_workers run_worker
  for_each_client f order clients =
      run_workers f clients order (record { results = []; clients = clients })

module _ {C R : Type 0} where
  -- A fan-out, and the cluster with its clients after it.
  unfoldable pub gather : (ℤ → Call C R) → List ℤ → Cluster C → Map ℤ R × Cluster C
  unfolding for_each_client
  gather f order c = (
    (for_each_client f order c.clients).results,
    record c { clients = (for_each_client f order c.clients).clients },
  )

module _ {C : Type 0} (port : ClientPort C) where
  open port use {get_id, get_node_info, update}

  unfoldable pub add_client : C → Cluster C → Option GoError × Cluster C
  add_client client c =
      if has (get_id client) c.clients
      then (some (other "client id already exists"), c)
      else (none, record c { clients = insert (get_id client) client c.clients })

  unfoldable pub remove_client : ℤ → Cluster C → Option GoError × Cluster C
  remove_client id c =
      if not (has id c.clients)
      then (some (other "client id not found"), c)
      else (none, record c { clients = delete id c.clients })

  unfoldable pub update_client : ℤ → ClientConfig → Cluster C → Option GoError × Cluster C
  update_client id cfg c =
      if not (id == cfg.id)
      then (some (other "id must match cfg.Id"), c)
      else elim (lookup id c.clients) [
        | none ↦ (some (other "client id not found"), c)
        | some client ↦ (none, record c { clients = insert id (update cfg client) c.clients })
      ]

  unfoldable pub has_client : ℤ → Cluster C → Bool
  has_client id c = has id c.clients
