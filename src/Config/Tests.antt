-- ===== src/Config/Tests.antt =====
-- The default configuration with a key, and one that TLS makes invalid.
use pihole_cluster_admin.Prelude.{ℕ, pos, ◌+◌, ◌≡◌, refl, true, false, none, some}
use pihole_cluster_admin.Text.{trim_space, to_lower, to_upper, has_suffix, byte_length}
use pihole_cluster_admin.Config.{
  Config, Files, validate, guards, path_guards, session_guards, new_session_storage, sqlite,
}

-- A disk that counts the directories
abbrev counter : Files ℕ
counter = record { dir = λ path. "/var"; mkdir_all = λ path n. (none, n + 1) }

abbrev defaults : Config
defaults = record {
  database = record { path = "/var/data.db"; migrations_path = "/migrations/server" };
  encryption_key = "0123456789abcdef0123456789abcdef";
  health_service = record { grace_period_seconds = pos 10; polling_interval_seconds = pos 5 };
  log = record { level = "INFO" };
  server = record {
    port = pos 8081;
    tls_enabled = false;
    tls_cert_file = "";
    tls_key_file = "";
    read_header_timeout_seconds = pos 10;
    session = record {
      backend = "SQLite";
      ttl_hours = pos 24;
      secure = false;
      allow_insecure_cookie = false;
      cookie_name = "session_id";
      cookie_path = "/";
      same_site = "Strict";
    };
    server_side_events = record { heartbeat_seconds = pos 20 };
  };
}

validate_passes : validate counter defaults 0 ≡ (none, 1)
unfolding validate guards path_guards session_guards trim_space to_lower to_upper has_suffix
    byte_length
validate_passes = refl

validate_tls :
    validate counter (record defaults { server = record defaults.server { tls_enabled = true } }) 0
    ≡ (some "TLS enabled but cert or key file not provided", 1)
unfolding validate guards path_guards session_guards trim_space to_lower to_upper has_suffix
    byte_length
validate_tls = refl

new_session_storage_defaults : new_session_storage defaults.server.session ≡ sqlite
unfolding new_session_storage to_lower
new_session_storage_defaults = refl
