-- ===== src/Health.antt =====
-- backend/internal/service/healthservice: the health of the nodes, from sweeps over the cluster.
--
-- A sweep is given the results of the cluster's `AuthStatus` and the times that it reads. Its two
-- publications are the value of `publications`: the JSON texts are those of the summary and of the
-- list. The loop that starts the sweeps is Health/Loop.antt; Health/Sweep.antt puts a sweep between
-- the cluster and the broker.
pub mod Laws
pub mod Loop
pub mod Sweep
mod Tests
use pihole_cluster_admin.Prelude.{
  ℕ, suc, ◌+◌, ◌/◌, ℤ, String, Bool, true, false, Option, none, some, List, [], ◌∷◌, length, Map,
  insert, int_eq,
}
use pihole_cluster_admin.Httpx.{GoError, error_text}
use pihole_cluster_admin.Domain.{NodeResult, AuthStatus}

-- types.go
pub data Status : Type 0 where
  online degraded offline : Status

pub record NodeHealth : Type 0 where
  pub id : ℤ
  pub name : String
  pub status : Status
  pub latency_ms : ℕ
  pub last_err : String
  pub updated_at : ℕ

pub record Summary : Type 0 where
  pub online_nodes : ℕ
  pub total : ℕ
  pub updated_at : ℕ

pub record Service : Type 0 where
  pub node_health : Map ℤ NodeHealth
  pub summary : Summary

-- pickStatus
unfoldable pub pick_status : Bool → Option GoError → Status
pick_status valid (some e) = offline
pick_status true none = online
pick_status false none = degraded

-- `int(math.Round(took * 1000))`, from microseconds.
abbrev pub took_ms : Option AuthStatus → ℕ
took_ms none = 0
took_ms (some a) = (a.took + 500) / 1000

abbrev pub is_valid : Option AuthStatus → Bool
is_valid none = false
is_valid (some a) = a.valid

abbrev pub text_of : Option GoError → String
text_of none = ""
text_of (some e) = error_text e

unfoldable pub node_health_of : ℕ → NodeResult AuthStatus → NodeHealth
unfolding pick_status
node_health_of now r = record {
  id = r.pihole_node.id;
  name = r.pihole_node.name;
  status = pick_status (is_valid r.response) r.error;
  latency_ms = took_ms r.response;
  last_err = text_of r.error;
  updated_at = now;
}

-- The loop of `sweepOnce`
unfoldable pub sweep_each : ℕ → Map ℤ (NodeResult AuthStatus) → Map ℤ NodeHealth → Map ℤ NodeHealth
sweep_each now [] m = m
sweep_each now ((k, r) ∷ results) m =
    sweep_each now results (insert r.pihole_node.id (node_health_of now r) m)

abbrev pub is_online : Status → ℕ
is_online online = 1
is_online degraded = 0
is_online offline = 0

-- The loop of `recomputeLocked`
unfoldable pub count_online : Map ℤ NodeHealth → ℕ
count_online [] = 0
count_online ((k, h) ∷ m) = is_online h.status + count_online m

unfoldable pub recompute_locked : ℕ → Service → Service
unfolding count_online
recompute_locked now s = record s {
  summary = record {
    online_nodes = count_online s.node_health;
    total = length s.node_health;
    updated_at = now;
  };
}

unfoldable pub values : Map ℤ NodeHealth → List NodeHealth
values [] = []
values ((k, h) ∷ m) = h ∷ values m

-- What `recomputeLocked` publishes as "health_summary" and as "node_health".
abbrev pub publications : Service → Summary × List NodeHealth
publications s = (s.summary, values s.node_health)

-- sweepOnce; the second time is that of the summary.
unfoldable pub sweep_once : ℕ → ℕ → Map ℤ (NodeResult AuthStatus) → Service → Service
unfolding sweep_each recompute_locked
sweep_once now later results s =
    recompute_locked later (record s { node_health = sweep_each now results s.node_health })
