-- ===== src/Health/Sweep/Sample.antt =====
-- Two nodes that answer, and a service that knows nothing yet.
use pihole_cluster_admin.Prelude.{ℤ, pos, true, some, [], ◌∷◌, List}
use pihole_cluster_admin.Httpx.{ok}
use pihole_cluster_admin.Pihole.Cluster.{ClientPort}
use pihole_cluster_admin.Pihole.Cluster.Sample.{Node, port}
use pihole_cluster_admin.Health.{Service}
use pihole_cluster_admin.Health.Sweep.{Encoders}

abbrev pub answering : ClientPort Node
answering = record port {
  auth_status = λ n. (
    some (ok (record { valid = true; validity_seconds = pos 60; valid_until = 100; took = 2000 })),
    n,
  );
}

abbrev pub encoders : Encoders
encoders = record { summary_json = λ s. ok "1 of 2"; nodes_json = λ hs. ok "nodes" }

abbrev pub late_first : List ℤ
late_first = pos 2 ∷ pos 1 ∷ []

abbrev pub nothing_known : Service
nothing_known = record {
  node_health = [];
  summary = record { online_nodes = 0; total = 0; updated_at = 0 };
}
