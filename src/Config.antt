-- ===== src/Config.antt =====
-- backend/internal/config/config.go: the configuration and its validation, and newSessionStorage of
-- app/app.go, which reads it. Load has the rest of the file.
pub mod Laws
pub mod Load
mod Tests
use Prim.Native.String.{◌++◌}
use pihole_cluster_admin.Prelude.{
  ℕ, ℤ, pos, negsuc, ◌+◌, String, Bool, true, false, not, ◌&&◌, ◌||◌, Option, none, some, List, [],
  ◌∷◌, ◌==◌, string_eq, leb_ℤ, ltb_ℤ, ltb, if◌then◌else◌, first_failed,
}
use pihole_cluster_admin.Text.{trim_space, to_lower, to_upper, has_suffix, byte_length, show_nat}
use pihole_cluster_admin.Fields.{is_blank, is_no_port}
use pihole_cluster_admin.Httpx.{GoError, error_text}
use pihole_cluster_admin.Sessions.{SessionConfig}

pub record DatabaseConfig : Type 0 where
  pub path : String
  pub migrations_path : String

pub record HealthServiceConfig : Type 0 where
  pub grace_period_seconds : ℤ
  pub polling_interval_seconds : ℤ

pub record LoggingConfig : Type 0 where
  pub level : String

pub record ServerSideEventsConfig : Type 0 where
  pub heartbeat_seconds : ℤ

pub record ServerConfig : Type 0 where
  pub port : ℤ
  pub tls_enabled : Bool
  pub tls_cert_file : String
  pub tls_key_file : String
  pub read_header_timeout_seconds : ℤ
  pub session : SessionConfig
  pub server_side_events : ServerSideEventsConfig

pub record Config : Type 0 where
  pub database : DatabaseConfig
  pub encryption_key : String
  pub health_service : HealthServiceConfig
  pub log : LoggingConfig
  pub server : ServerConfig

-- fmt.Sprintf("%d", n)
abbrev pub show_int : ℤ → String
show_int (pos n) = show_nat n
show_int (negsuc n) = "-" ++ show_nat (n + 1)

-- os.MkdirAll and filepath.Dir
pub record Files (Disk : Type 0) : Type 0 where
  pub dir : String → String
  pub mkdir_all : String → Disk → Option GoError × Disk

-- `validLevels`
abbrev pub is_level : String → Bool
is_level s =
    s == "TRACE" || s == "DEBUG" || s == "INFO" || s == "WARN" || s == "ERROR" || s == "FATAL"

-- The checks before the directory is made
unfoldable pub path_guards : Config → List (Bool × String)
unfolding trim_space has_suffix
path_guards c =
    (is_blank c.database.path, "database.path cannot be empty")
    ∷ (has_suffix c.database.path "/", "database.path must be a file path, not a directory")
    ∷ []

-- The checks of the session, as far as the second one of the secure cookies
unfoldable pub session_guards : Config → List (Bool × String)
unfolding trim_space to_lower show_nat
session_guards c =
    let s = c.server.session in
    (
      not (to_lower s.backend == "memory" || to_lower s.backend == "sqlite"),
      "server.session.backend must be one of sqlite, memory (got " ++ (s.backend ++ ")"),
    )
    ∷ (
      leb_ℤ s.ttl_hours (pos 0),
      "server.session.ttl_hours must be > 0 (got " ++ (show_int s.ttl_hours ++ ")"),
    )
    ∷ (is_blank s.cookie_name, "server.session.cookie_name cannot be empty")
    ∷ (is_blank s.cookie_path, "server.session.cookie_path cannot be empty")
    ∷ (
      not (
          to_lower s.same_site == "strict"
          || to_lower s.same_site == "lax"
          || to_lower s.same_site == "none"),
      "server.session.same_site must be one of Strict, Lax, or None (got " ++ (s.same_site ++ ")"),
    )
    ∷ (
      not c.server.tls_enabled && s.secure && not s.allow_insecure_cookie,
      "server.session.secure=true requires TLS or allow_insecure_cookie=true",
    )
    ∷ (
      not c.server.tls_enabled && s.secure && not s.allow_insecure_cookie,
      "server.session.secure=true requires TLS or allow_insecure_cookie=true",
    )
    ∷ (
      ltb_ℤ c.server.server_side_events.heartbeat_seconds (pos 0),
      "server.server_side_events.heartbeat_seconds must be greater than 0",
    )
    ∷ []

-- All checks after the directory is made
unfoldable pub guards : Config → List (Bool × String)
unfolding session_guards trim_space byte_length to_upper
guards c =
    (
      ltb (byte_length (trim_space c.encryption_key)) 32,
      "encryption_key must be at least 32 characters for AES-256",
    )
    ∷ (is_blank c.encryption_key, "encryption_key is required for encrypting sensitive data")
    ∷ (
      ltb_ℤ c.health_service.grace_period_seconds (pos 0),
      "health_service.grace_period_seconds must be greater than 0",
    )
    ∷ (
      ltb_ℤ c.health_service.polling_interval_seconds (pos 1),
      "health_service.polling_interval_seconds must be greater than 1",
    )
    ∷ (
      not (is_level (to_upper c.log.level)),
      "log.level must be a valid log level, got: " ++ c.log.level,
    )
    ∷ (is_no_port c.server.port, "server.port must be a valid TCP port")
    ∷ (
      c.server.tls_enabled && (is_blank c.server.tls_cert_file || is_blank c.server.tls_key_file),
      "TLS enabled but cert or key file not provided",
    )
    ∷ (
      ltb_ℤ c.server.read_header_timeout_seconds (pos 10),
      "server.read_header_timeout_seconds may not be lower than 10",
    )
    ∷ session_guards c

module _ {Disk : Type 0} (files : Files Disk) where
  abbrev pub made : Config → Option GoError × Disk → Option String × Disk
  made c (some e, disk) = (
    some (
        "unable to create database directory "
        ++ (files.dir c.database.path ++ (": " ++ error_text e))),
    disk,
  )
  made c (none, disk) = (first_failed (guards c), disk)

  abbrev pub after_path : Config → Option String → Disk → Option String × Disk
  after_path c (some message) disk = (some message, disk)
  after_path c none disk = made c (files.mkdir_all (files.dir c.database.path) disk)

  -- validate, with the text of its error
  unfoldable pub validate : Config → Disk → Option String × Disk
  unfolding path_guards guards error_text
  validate c disk = after_path c (first_failed (path_guards c)) disk

-- The storages of `newSessionStorage`
pub data Backend : Type 0 where
  memory sqlite : Backend

-- newSessionStorage
unfoldable pub new_session_storage : SessionConfig → Backend
unfolding to_lower
new_session_storage cfg = if to_lower cfg.backend == "memory" then memory else sqlite
