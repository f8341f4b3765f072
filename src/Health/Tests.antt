-- ===== src/Health/Tests.antt =====
-- A sweep that hears from one of two known nodes.
use pihole_cluster_admin.Prelude.{◌≡◌, refl, pos, false, none, some, [], ◌∷◌, int_eq, insert}
use pihole_cluster_admin.Httpx.{other}
use pihole_cluster_admin.Domain.{NodeResult, AuthStatus}
use pihole_cluster_admin.Health.{
  NodeHealth, Service, online, node_health_of, sweep_once, sweep_each, recompute_locked,
  count_online, pick_status,
}

abbrev gone_node : NodeHealth
gone_node = record {
  id = pos 2;
  name = "two";
  status = online;
  latency_ms = 0;
  last_err = "";
  updated_at = 1;
}

abbrev service : Service
service = record {
  node_health = (pos 2, gone_node) ∷ [];
  summary = record { online_nodes = 1; total = 1; updated_at = 1 };
}

abbrev refused : NodeResult AuthStatus
refused = record {
  pihole_node = record { id = pos 1; name = "one"; host = "pi" };
  success = false;
  error = some (other "refused");
  error_string = "refused";
  response = none;
}

-- A node that no result mentions any more still counts as online.
gone_node_counts : (sweep_once 5 6 ((pos 1, refused) ∷ []) service).summary.online_nodes ≡ 1
unfolding sweep_once sweep_each recompute_locked count_online node_health_of pick_status insert
gone_node_counts = refl
