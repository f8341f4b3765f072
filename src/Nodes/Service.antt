-- ===== src/Nodes/Service.antt =====
-- backend/internal/service/piholeservice/service.go over the store and the cluster, and
-- backend/internal/app/client.go, which loads the cluster at the start.
--
-- `new_client` is pihole.NewClient; the clients of a cluster are abstract, as in Pihole/Cluster.antt.
-- The state of the service is the database with the cluster. Its calls do not overlap here.
pub mod Laws
pub mod Steps
pub mod Start
use pihole_cluster_admin.Prelude.{
  ℤ, String, negsuc, Bool, true, false, not, ◌&&◌, Option, none, some, List, [], ◌∷◌, Map, insert,
  if◌then◌else◌, ◌==◌, string_eq, int_eq,
}
use pihole_cluster_admin.Text.{trim_space, to_lower, contains}
use pihole_cluster_admin.Httpx.{GoError, http_error, validation, error_text, Result, ok, err, ◌>>=◌}
use pihole_cluster_admin.Domain.{PiholeNode, PiholeNodeSecret}
use pihole_cluster_admin.Crypto.{Cipher}
use pihole_cluster_admin.Pihole.Types.{ClientConfig}
use pihole_cluster_admin.Pihole.Client.{Http, Node, new_client, login, logout}
use pihole_cluster_admin.Pihole.Client.Port.{error_of}
use pihole_cluster_admin.Pihole.Cluster.{
  ClientPort, Cluster, add_client, update_client, remove_client, has_client,
}
use pihole_cluster_admin.Nodes.Store.{
  AddPiholeParams, UpdatePiholeParams, PiholeTable, get_pihole_node, get_pihole_node_secret,
  get_all_pihole_nodes, add_pihole_node, update_pihole_node, remove_pihole_node,
}

-- parseSqlError
unfoldable pub parse_sql_error : GoError → GoError
unfolding contains error_text
parse_sql_error e =
    if contains (error_text e) "piholes.host"
    then http_error validation "duplicate host:port"
    else if contains (error_text e) "piholes.name"
    then http_error validation "duplicate name"
    else e

-- The configuration of a client, from a node and its secret.
abbrev pub config_of : PiholeNode → PiholeNodeSecret → ClientConfig
config_of node secret = record {
  id = node.id;
  name = node.name;
  scheme = node.scheme;
  host = node.host;
  port = node.port;
  password = secret.password;
}

-- A call of the cluster that ends a method: its error, or the node.
abbrev pub joined :
    {Db C : Type 0}
    → PiholeNode
    → Option GoError × Cluster C
    → Db
    → Result PiholeNode × (Db × Cluster C)
joined node (some e, c) db = (err e, (db, c))
joined node (none, c) db = (ok node, (db, c))

-- TestInstanceConnectionParams and TestExistingConnectionParams of types.go
pub record TestInstanceConnectionParams : Type 0 where
  pub scheme : String
  pub host : String
  pub port : ℤ
  pub password : String

pub record TestExistingConnectionParams : Type 0 where
  pub scheme : Option String
  pub host : Option String
  pub port : Option ℤ
  pub password : Option String

module _ {Byte Db C : Type 0} (cipher : Cipher Byte) (table : PiholeTable Db)
    (encryption_key : String) (port : ClientPort C) (new_client : ClientConfig → C) where
  unfoldable pub add_secret :
      PiholeNode → Result PiholeNodeSecret → Db → Cluster C → Result PiholeNode × (Db × Cluster C)
  unfolding add_client
  add_secret node (err e) db c = (err e, (db, c))
  add_secret node (ok secret) db c =
      joined node (add_client port (new_client (config_of node secret)) c) db

  unfoldable pub add_stored :
      Result PiholeNode × Db → Cluster C → Result PiholeNode × (Db × Cluster C)
  unfolding add_secret get_pihole_node_secret parse_sql_error
  add_stored (err e, db) c = (err (parse_sql_error e), (db, c))
  add_stored (ok node, db) c =
      add_secret node (get_pihole_node_secret cipher table encryption_key node.id db) db c

  -- Add
  unfoldable pub add :
      Result (List Byte) → AddPiholeParams → Db × Cluster C → Result PiholeNode × (Db × Cluster C)
  unfolding add_stored add_pihole_node
  add random params (db, c) =
      add_stored (add_pihole_node cipher table encryption_key random params db) c

  unfoldable pub update_secret :
      PiholeNode → Result PiholeNodeSecret → Db → Cluster C → Result PiholeNode × (Db × Cluster C)
  unfolding update_client
  update_secret node (err e) db c = (err e, (db, c))
  update_secret node (ok secret) db c =
      joined node (update_client port node.id (config_of node secret) c) db

  unfoldable pub update_stored :
      Result PiholeNode × Db → Cluster C → Result PiholeNode × (Db × Cluster C)
  unfolding update_secret get_pihole_node_secret parse_sql_error
  update_stored (err e, db) c = (err (parse_sql_error e), (db, c))
  update_stored (ok node, db) c =
      update_secret node (get_pihole_node_secret cipher table encryption_key node.id db) db c

  -- Update
  unfoldable pub update :
      Result (List Byte)
      → ℤ
      → UpdatePiholeParams
      → Db × Cluster C
      → Result PiholeNode × (Db × Cluster C)
  unfolding update_stored update_pihole_node
  update random id params (db, c) =
      update_stored (update_pihole_node cipher table encryption_key random id params db) c

  -- The end of `Remove`: an error of the cluster is `false` without an error.
  abbrev pub removed_from : Bool → Option GoError × Cluster C → Db → Result Bool × (Db × Cluster C)
  removed_from found (some e, c) db = (ok false, (db, c))
  removed_from found (none, c) db = (ok found, (db, c))

  unfoldable pub remove_stored : ℤ → Result Bool × Db → Cluster C → Result Bool × (Db × Cluster C)
  unfolding has_client remove_client
  remove_stored id (err e, db) c = (err e, (db, c))
  remove_stored id (ok found, db) c =
      if has_client port id c
      then removed_from found (remove_client port id c) db
      else (ok found, (db, c))

  -- Remove
  unfoldable pub remove : ℤ → Db × Cluster C → Result Bool × (Db × Cluster C)
  unfolding remove_stored remove_pihole_node
  remove id (db, c) = remove_stored id (remove_pihole_node cipher table encryption_key id db) c

  -- The loop of `GetClients`
  unfoldable pub load_clients : List PiholeNode → Db → Map ℤ C → Result (Map ℤ C)
  unfolding get_pihole_node_secret
  load_clients [] db clients = ok clients
  load_clients (node ∷ nodes) db clients =
      get_pihole_node_secret cipher table encryption_key node.id db >>= (λ secret.
        load_clients nodes db (insert node.id (new_client (config_of node secret)) clients))

  -- GetClients
  unfoldable pub get_clients : Db → Result (Map ℤ C)
  unfolding load_clients get_all_pihole_nodes
  get_clients db = do
    nodes ← get_all_pihole_nodes cipher table encryption_key db
    load_clients nodes db []

module _ {World Body : Type 0} (http : Http World Body) where
  abbrev pub logged_out : Result (Unit {0}) × Node World → Option GoError × World
  logged_out (err e, n) = (some e, n.world)
  logged_out (ok x, n) = (none, (logout http n).1.world)

  -- A new client logs in and out; an error of the logout is only written to the log.
  unfoldable pub try_login : ClientConfig → World → Option GoError × World
  unfolding login logout new_client
  try_login cfg world = logged_out (login http (record { client = new_client cfg; world = world }))

  -- TestInstanceConnection
  unfoldable pub test_instance_connection :
      TestInstanceConnectionParams → World → Option GoError × World
  unfolding try_login
  test_instance_connection params world =
      try_login
        (record {
          id = negsuc 0;
          name = "";
          scheme = params.scheme;
          host = params.host;
          port = params.port;
          password = params.password;
        })
        world

abbrev pub override_scheme : Option String → String → String
override_scheme none old = old
override_scheme (some s) old = to_lower (trim_space s)

abbrev pub override_host : Option String → String → String
override_host none old = old
override_host (some s) old = trim_space s

abbrev pub override_port : Option ℤ → ℤ → ℤ
override_port none old = old
override_port (some p) old = p

abbrev pub override_password : Option String → String → String
override_password none old = old
override_password (some p) old = if not (trim_space p == "") then p else old

-- The configuration of a node with the overrides of a test.
unfoldable pub overridden :
    ℤ → PiholeNode → PiholeNodeSecret → TestExistingConnectionParams → ClientConfig
unfolding to_lower trim_space
overridden id node secret params = record {
  id = id;
  name = node.name;
  scheme = override_scheme params.scheme node.scheme;
  host = override_host params.host node.host;
  port = override_port params.port node.port;
  password = override_password params.password secret.password;
}

module _ {Byte Db World Body : Type 0} (cipher : Cipher Byte) (table : PiholeTable Db)
    (encryption_key : String) (http : Http World Body) where
  unfoldable pub test_config : Result ClientConfig → World → Option GoError × World
  unfolding try_login
  test_config (err e) world = (some e, world)
  test_config (ok cfg) world = try_login http cfg world

  -- TestExistingConnection
  unfoldable pub test_existing_connection :
      ℤ → TestExistingConnectionParams → Db → World → Option GoError × World
  unfolding test_config get_pihole_node get_pihole_node_secret overridden
  test_existing_connection id params db world =
      test_config
        (get_pihole_node cipher table encryption_key id db >>= (λ node.
          get_pihole_node_secret cipher table encryption_key id db
          >>= (λ secret. ok (overridden id node secret params))))
        world
