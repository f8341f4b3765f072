-- ===== src/App/Start/Sample.antt =====
-- A database with one row whose password cannot be decrypted, and a configuration.
use pihole_cluster_admin.Prelude.{ℕ, pos, ◌+◌, false, none, [], ◌∷◌}
use pihole_cluster_admin.Httpx.{ok}
use pihole_cluster_admin.Nodes.Sample.{Rows, new_row}
use pihole_cluster_admin.Config.{Config, Files}
use pihole_cluster_admin.App.Database.{Driver, upgraded}

abbrev pub files : Files ℕ
files = record { dir = λ path. "/var"; mkdir_all = λ path n. (none, n + 1) }

-- The second password is shorter than a nonce.
abbrev pub rows : Rows
rows =
    (pos 0, new_row (pos 0) "http" "a" (pos 80) "a" "" "!x")
    ∷ (pos 1, new_row (pos 1) "http" "b" (pos 80) "b" "" "")
    ∷ []

abbrev pub driver : Driver ℕ Rows ℕ
driver = record {
  open_file = λ path disk. (ok rows, disk);
  ping = λ db. none;
  abs = λ path. ok path;
  with_instance = λ db. none;
  migrator = λ path db. ok 0;
  up = λ m db. (upgraded, db);
}

abbrev pub cfg : Config
cfg = record {
  database = record { path = "/var/data.db"; migrations_path = "/migrations/server" };
  encryption_key = "0123456789abcdef0123456789abcdef";
  health_service = record { grace_period_seconds = pos 10; polling_interval_seconds = pos 5 };
  log = record { level = "INFO" };
  server = record {
    port = pos 8081;
    tls_enabled = false;
    tls_cert_file = "";
    tls_key_file = "";
    read_header_timeout_seconds = pos 10;
    session = record {
      backend = "sqlite";
      ttl_hours = pos 24;
      secure = false;
      allow_insecure_cookie = false;
      cookie_name = "session_id";
      cookie_path = "/";
      same_site = "Strict";
    };
    server_side_events = record { heartbeat_seconds = pos 20 };
  };
}
