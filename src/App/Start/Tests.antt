-- ===== src/App/Start/Tests.antt =====
-- A start with one row whose password cannot be decrypted.
use pihole_cluster_admin.Prelude.{pos, ◌≡◌, refl, inl, inr, [], lookup}
use pihole_cluster_admin.Httpx.{other}
use pihole_cluster_admin.Crypto.{decrypt_password, open_bytes}
use pihole_cluster_admin.Crypto.Sample.{toy, chars}
use pihole_cluster_admin.Domain.{PiholeNode}
use pihole_cluster_admin.Pihole.Cluster.Sample.{Node, port}
use pihole_cluster_admin.Nodes.Store.{
  get_all_pihole_nodes, get_pihole_node_secret, nodes_of, row_to_domain_node,
}
use pihole_cluster_admin.Nodes.Sample.{new_row, small_table}
use pihole_cluster_admin.App.Database.{new_database, opened, run_migrations}
use pihole_cluster_admin.App.Start.{App, started, new_app}
use pihole_cluster_admin.App.Start.Laws.{start_forgets}
use pihole_cluster_admin.App.Start.Sample.{files, driver, cfg, rows}

abbrev unreadable : PiholeNode
unfolding row_to_domain_node
unreadable = row_to_domain_node (new_row (pos 1) "http" "b" (pos 80) "b" "" "")

start_forgets_example :
    (app : App Node) × (new_app files driver toy small_table port
        (λ c. record { id = c.id; cursor = pos 0 })
        cfg
        0
      ≡ (started app, 1))
    × (app.cluster.clients ≡ [])
unfolding new_database opened run_migrations get_all_pihole_nodes nodes_of row_to_domain_node lookup
    get_pihole_node_secret decrypt_password open_bytes chars
start_forgets_example =
    start_forgets files driver toy small_table port (λ c. record { id = c.id; cursor = pos 0 }) cfg
      0 1 rows _ unreadable (other "malformed ciphertext") refl refl (inr (inl refl)) refl
