-- ===== src/Nodes/Tests.antt =====
-- Runs of the store and the service over a small table, a toy cipher and the client of a Pi-hole.
use pihole_cluster_admin.Prelude.{
  ℕ, ℤ, pos, ◌≡◌, ◌⊎◌, ◌+◌, refl, String, none, some, List, [], ◌∷◌, Map, lookup, int_eq,
}
use mathlib.Core.Option
use pihole_cluster_admin.Httpx.{json_error, other, ok, err}
use pihole_cluster_admin.Crypto.Sample.{chars, toy, toy-laws}
use pihole_cluster_admin.Pihole.Client.{Http, Node}
use pihole_cluster_admin.Pihole.Client.Port.{client_port}
use pihole_cluster_admin.Pihole.Cluster.{Cluster}
use pihole_cluster_admin.Nodes.Store.{
  AddPiholeParams, UpdatePiholeParams, update_pihole_node, get_all_pihole_nodes,
}
use pihole_cluster_admin.Nodes.Store.Laws.{HasFailed}
use pihole_cluster_admin.Nodes.Store.Update.{HasUpdated, update_pihole_node-HasUpdated}
use pihole_cluster_admin.Nodes.Service.{
  get_clients, add, remove, test_existing_connection, test_instance_connection, update,
}
use pihole_cluster_admin.Nodes.Service.Laws.{client_in, client-laws, IsInStep}
use pihole_cluster_admin.Nodes.Service.Steps.{
  Op, adding, updating, removing, run_all, run_all-IsInStep,
}
use pihole_cluster_admin.Nodes.Service.Start.{get_clients-run_all}
use pihole_cluster_admin.Nodes.Handler.{PiholeService, node_reply, handle_update}
use pihole_cluster_admin.Nodes.Handler.Laws.{IsValidUpdate, handle_update_lem}
use pihole_cluster_admin.Nodes.Sample.{Rows, small_table, small_table-laws, small_table-listed}

-- A network in which nothing answers
abbrev deaf : Http ℕ ℕ
deaf = record {
  now = λ w. w;
  check = λ req. none;
  send = λ req w. (err (other "no route to host"), w + 1);
  decode_auth = λ b. err (other "no answer");
  decode_logs = λ b. err (other "no answer");
  decode_rules = λ b. err (other "no answer");
  decode_added = λ b. err (other "no answer");
}

abbrev no_clients : Cluster (Node ℕ)
no_clients = record {
  clients = [];
  cursor_manager = record { ttl_hours = pos 24; search_states = [] };
}

abbrev pi_params : AddPiholeParams
pi_params = record {
  scheme = "http";
  host = " pi.hole";
  port = pos 80;
  name = "pi";
  description = "";
  password = "pw ";
}

abbrev renamed : UpdatePiholeParams
renamed = record {
  scheme = none;
  host = none;
  port = some (pos 443);
  name = some "new";
  description = none;
  password = none;
}

-- A row that has been added: the password "pw" after the nonce "!".
abbrev one_row : Rows
one_row =
    (
      pos 0,
      record {
        id = pos 0;
        scheme = "http";
        host = "pi.hole";
        port = pos 80;
        name = "pi";
        description = "";
        password_enc = "!pw";
        created_at = 0;
        updated_at = 0;
      },
    )
    ∷ []

update_pihole_node-HasUpdated_example :
    HasFailed toy small_table "k" toy-laws small_table-laws
      (update_pihole_node toy small_table "k" (ok (chars "!")) (pos 0) renamed one_row)
      one_row
    ⊎ HasUpdated toy small_table "k" toy-laws small_table-laws
        (pos 0)
        renamed
        (update_pihole_node toy small_table "k" (ok (chars "!")) (pos 0) renamed one_row)
        one_row
unfolding chars
update_pihole_node-HasUpdated_example =
    update_pihole_node-HasUpdated toy small_table "k" toy-laws small_table-laws (chars "!") (pos 0)
      renamed one_row refl

abbrev Call : Type 0
Call =
    Op toy small_table "k" toy-laws small_table-laws (client_port deaf) (client_in 0)
      (client-laws deaf 0)

abbrev calls : List Call
calls = adding (chars "!") pi_params ∷ updating (chars "?") (pos 0) renamed ∷ removing (pos 5) ∷ []

run_all-IsInStep_example :
    IsInStep toy small_table "k" toy-laws small_table-laws
      (client_port deaf)
      (client_in 0)
      (client-laws deaf 0)
      (run_all toy small_table "k" toy-laws small_table-laws
        (client_port deaf)
        (client_in 0)
        (client-laws deaf 0)
        calls
        ([], no_clients)).0
      (run_all toy small_table "k" toy-laws small_table-laws
        (client_port deaf)
        (client_in 0)
        (client-laws deaf 0)
        calls
        ([], no_clients)).1
unfolding chars lookup small_table-laws
run_all-IsInStep_example =
    run_all-IsInStep toy small_table "k" toy-laws small_table-laws (client_port deaf) (client_in 0)
      (client-laws deaf 0) calls ([], no_clients) (refl, (refl, (tt, tt))) (λ k. refl)

get_clients-run_all_example :
    (clients : Map ℤ (Node ℕ)) × (get_clients toy small_table "k"
        (client_port deaf)
        (client_in 0)
        (run_all toy small_table "k" toy-laws small_table-laws
          (client_port deaf)
          (client_in 0)
          (client-laws deaf 0)
          calls
          ([], no_clients)).0
      ≡ ok clients)
    × ((k : ℤ)
        → Option.map (λ n. n.client.cfg) (lookup k clients)
          ≡ Option.map
              (λ n. n.client.cfg)
              (lookup k
                (run_all toy small_table "k" toy-laws small_table-laws
                  (client_port deaf)
                  (client_in 0)
                  (client-laws deaf 0)
                  calls
                  ([], no_clients)).1.clients))
unfolding chars lookup small_table-laws client-laws
get_clients-run_all_example =
    get_clients-run_all toy small_table "k" toy-laws small_table-laws (client_port deaf)
      (client_in 0) (client-laws deaf 0) small_table-listed calls ([], no_clients) _
      (refl, (refl, (tt, tt))) (λ k. refl) refl

-- The service over the small table
abbrev live : PiholeService (Rows × Cluster (Node ℕ))
live = record {
  get_all = λ s. get_all_pihole_nodes toy small_table "k" s.0;
  add = λ body s. add toy small_table "k" (client_port deaf) (client_in 0) (ok (chars "!")) body s;
  update = λ id body s.
      update toy small_table "k" (client_port deaf) (client_in 0) (ok (chars "!")) id body s;
  remove = λ id s. remove toy small_table "k" (client_port deaf) (client_in 0) id s;
  test_existing_connection =
      λ id body s. ((test_existing_connection toy small_table "k" deaf id body s.0 0).0, s);
  test_instance_connection = λ body s. ((test_instance_connection deaf body 0).0, s);
}

handle_update_lem_example :
    (IsValidUpdate (pos 7) renamed
      × (handle_update live (some renamed) (some (pos 7)) ([], no_clients)
          ≡ node_reply live 200 (live.update (pos 7) renamed ([], no_clients))))
    ⊎ (¬ (IsValidUpdate (pos 7) renamed)
        × ((m : String) × (handle_update live (some renamed) (some (pos 7)) ([], no_clients)
              ≡ (json_error m 400, ([], no_clients)))))
handle_update_lem_example = handle_update_lem live (pos 7) renamed ([], no_clients)
