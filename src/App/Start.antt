-- ===== src/App/Start.antt =====
-- `New` of backend/internal/app/app.go: the parts that are made from a configuration. The routes are
-- those of Routes, and the services and handlers only keep what they are given.
pub mod Laws
pub mod Sample
mod Tests
use Prim.Native.String.{◌++◌}
use pihole_cluster_admin.Prelude.{ℕ, suc, ℤ, pos, negsuc, ◌*◌, ◌-◌, String, List, [], Map}
use pihole_cluster_admin.Httpx.{GoError, Result, ok, err}
use pihole_cluster_admin.Crypto.{Cipher}
use pihole_cluster_admin.Domain.{PiholeNode, second}
use pihole_cluster_admin.Durations.{duration}
use pihole_cluster_admin.Pihole.Types.{ClientConfig, FetchQueryLogFilters}
use pihole_cluster_admin.Pihole.Cursor.{CursorManager, new_cursor_manager}
use pihole_cluster_admin.Pihole.Cluster.{ClientPort, Cluster}
use pihole_cluster_admin.Nodes.Store.{PiholeTable, get_all_pihole_nodes}
use pihole_cluster_admin.Nodes.Service.{load_clients}
use pihole_cluster_admin.Realtime.{Broker, new_broker}
use pihole_cluster_admin.Config.{
  Config, ServerConfig, Files, Backend, new_session_storage, show_int,
}
use pihole_cluster_admin.App.Database.{Driver, new_database}

-- `http.Server`; the durations are in nanoseconds.
pub record HttpServer : Type 0 where
  pub addr : String
  pub read_header_timeout : ℤ
  pub write_timeout : ℕ
  pub idle_timeout : ℕ

pub record App (C : Type 0) : Type 0 where
  pub cluster : Cluster C
  pub broker : Broker
  pub session_storage : Backend
  pub http_server : HttpServer

-- What becomes of `New`; `exited` is the end of the program in `logger.Fatal`.
pub data Started (C : Type 0) : Type 0 where
  exited : Started C
  failed : GoError → Started C
  started : App C → Started C

-- A nil map has no entries.
unfoldable pub or_empty : {C : Type 0} → Result (Map ℤ C) → Map ℤ C
or_empty (err e) = []
or_empty (ok clients) = clients

unfoldable pub http_server_of : ServerConfig → HttpServer
unfolding duration
http_server_of cfg = record {
  addr = ":" ++ show_int cfg.port;
  read_header_timeout = duration cfg.read_header_timeout_seconds second;
  write_timeout = 30 * second;
  idle_timeout = 60 * second;
}

-- The parts, with the clients that could be loaded
unfoldable pub wired : {C : Type 0} → Config → Result (Map ℤ C) → App C
unfolding or_empty new_cursor_manager new_broker new_session_storage http_server_of
wired cfg clients = record {
  cluster = record {
    clients = or_empty clients;
    cursor_manager = new_cursor_manager cfg.server.session.ttl_hours;
  };
  broker = new_broker;
  session_storage = new_session_storage cfg.server.session;
  http_server = http_server_of cfg.server;
}

module _ {Byte Disk Db M C : Type 0} (files : Files Disk) (driver : Driver Disk Db M)
    (cipher : Cipher Byte) (table : PiholeTable Db) (port : ClientPort C)
    (new_client : ClientConfig → C) where
  -- GetClients, of which `New` only logs the error; its call of Fatal does not return.
  unfoldable pub with_nodes : Config → Db → Result (List PiholeNode) → Started C
  unfolding wired load_clients
  with_nodes cfg db (err e) = exited
  with_nodes cfg db (ok nodes) =
      started (wired cfg (load_clients cipher table cfg.encryption_key port new_client nodes db []))

  unfoldable pub with_database : Config → Result Db → Started C
  unfolding with_nodes get_all_pihole_nodes
  with_database cfg (err e) = failed e
  with_database cfg (ok db) =
      with_nodes cfg db (get_all_pihole_nodes cipher table cfg.encryption_key db)

  -- New
  unfoldable pub new_app : Config → Disk → Started C × Disk
  unfolding with_database new_database
  new_app cfg disk =
      let (r, disk') = new_database files driver cfg.database disk in (with_database cfg r, disk')
