-- ===== src/Config/Load.antt =====
-- Load and initConfig of backend/internal/config/config.go, and the flags of
-- backend/cmd/pihole-cluster-admin/root.go, which fill the configuration.
--
-- viper is the parameter `Viper`: a type of its states, with the calls that the program makes.
pub mod Settings
pub mod Laws
mod Tests
use Prim.Native.String.{◌++◌}
use pihole_cluster_admin.Prelude.{
  ℤ, pos, String, Bool, true, false, Option, none, some, List, [], ◌∷◌, ◌==◌, string_eq,
  if◌then◌else◌,
}
use pihole_cluster_admin.Httpx.{GoError, other, Result, ok, err, error_text}
use pihole_cluster_admin.Config.{Config, Files, validate}

-- The values of settings
pub data Value : Type 0 where
  text : String → Value
  number : ℤ → Value
  truth : Bool → Value

-- What ReadInConfig returns: no error, a ConfigFileNotFoundError, or another error.
pub data Reading : Type 0 where
  was_read not_found : Reading
  unreadable : GoError → Reading

pub record Viper (V : Type 0) : Type 0 where
  pub bind_flag : String → Value → V → V
  pub get_string : String → V → String
  pub set_config_file : String → V → V
  pub set_config_name : String → V → V
  pub set_config_type : String → V → V
  pub add_config_path : String → V → V
  pub set_env_prefix : String → V → V
  pub set_env_key_replacer : String → String → V → V
  pub automatic_env : V → V
  pub set_default : String → Value → V → V
  pub read_in_config : V → Reading × V
  pub unmarshal : V → Result Config

-- The flags of `init` with their values of zero
abbrev pub flags : List (String × Value)
flags =
    ("config", text "")
    ∷ ("database.path", text "")
    ∷ ("database.migrations_path", text "")
    ∷ ("encryption_key", text "")
    ∷ ("health_service.grace_period_seconds", number (pos 0))
    ∷ ("health_service.polling_interval_seconds", number (pos 0))
    ∷ ("log.level", text "")
    ∷ ("server.port", number (pos 0))
    ∷ ("server.tls_enabled", truth false)
    ∷ ("server.tls_cert_file", text "")
    ∷ ("server.tls_key_file", text "")
    ∷ ("server.read_header_timeout_seconds", number (pos 0))
    ∷ ("server.session.backend", text "")
    ∷ ("server.session.ttl_hours", number (pos 0))
    ∷ ("server.session.cookie_name", text "")
    ∷ ("server.session.cookie_path", text "")
    ∷ ("server.session.same_site", text "")
    ∷ ("server.session.secure", truth false)
    ∷ ("server.session.allow_insecure_cookie", truth false)
    ∷ ("server.server_side_events.heartbeat_seconds", number (pos 0))
    ∷ []

-- The calls of SetDefault
abbrev pub defaults : List (String × Value)
defaults =
    ("database.path", text "/var/lib/pihole-cluster-admin/data.db")
    ∷ ("database.migrations_path", text "/migrations/server")
    ∷ ("encryption_key", text "")
    ∷ ("health_service.grace_period_seconds", number (pos 10))
    ∷ ("health_service.polling_interval_seconds", number (pos 5))
    ∷ ("log.level", text "INFO")
    ∷ ("server.port", number (pos 8081))
    ∷ ("server.tls_enabled", truth false)
    ∷ ("server.tls_cert_file", text "")
    ∷ ("server.tls_key_file", text "")
    ∷ ("server.read_header_timeout_seconds", number (pos 10))
    ∷ ("server.session.backend", text "sqlite")
    ∷ ("server.session.ttl_hours", number (pos 24))
    ∷ ("server.session.cookie_name", text "session_id")
    ∷ ("server.session.cookie_path", text "/")
    ∷ ("server.session.same_site", text "Strict")
    ∷ ("server.session.secure", truth false)
    ∷ ("server.session.allow_insecure_cookie", truth false)
    ∷ ("server.server_side_events.heartbeat_seconds", number (pos 20))
    ∷ ("encryption_key", text "")
    ∷ []

module _ {V : Type 0} (viper : Viper V) where
  unfoldable pub bind_flags : List (String × Value) → V → V
  bind_flags [] v = v
  bind_flags ((name, zero_value) ∷ rest) v = bind_flags rest (viper.bind_flag name zero_value v)

  unfoldable pub set_defaults : List (String × Value) → V → V
  set_defaults [] v = v
  set_defaults ((key, value) ∷ rest) v = set_defaults rest (viper.set_default key value v)

  -- filepath.Join(configDir, ...) for a directory that os.UserConfigDir has found
  abbrev pub add_user_dir : Option String → V → V
  add_user_dir none v = v
  add_user_dir (some dir) v = viper.add_config_path (dir ++ "/pihole-cluster-admin") v

  unfoldable pub config_file : Option String → V → V
  config_file user_dir v =
      if viper.get_string "config" v == ""
      then viper.add_config_path "." (
          viper.add_config_path "/config" (
            viper.add_config_path "/etc/pihole-cluster-admin" (
              add_user_dir user_dir
                (viper.set_config_type "yaml" (viper.set_config_name "config" v)))))
      else viper.set_config_file (viper.get_string "config" v) v

  -- initConfig up to ReadInConfig
  unfoldable pub prepared : Option String → V → V
  unfolding config_file set_defaults
  prepared user_dir v = set_defaults defaults (
      viper.automatic_env (
        viper.set_env_key_replacer "." "_"
          (viper.set_env_prefix "PIHOLE_CLUSTER_ADMIN" (config_file user_dir v))))

  abbrev pub after_reading : Reading → Option GoError
  after_reading was_read = none
  after_reading not_found = none
  after_reading (unreadable e) = some (other ("error reading config file: " ++ error_text e))

  -- initConfig
  unfoldable pub init_config : Option String → V → Option GoError × V
  unfolding prepared error_text
  init_config user_dir v =
      let (reading, v') = viper.read_in_config (prepared user_dir v) in (after_reading reading, v')

  module _ {Disk : Type 0} (files : Files Disk) where
    abbrev pub accepted : Config → Option String × Disk → Result Config × Disk
    accepted c (none, disk) = (ok c, disk)
    accepted c (some message, disk) = (err (other ("invalid config: " ++ message)), disk)

    unfoldable pub validated : Result Config → Disk → Result Config × Disk
    unfolding validate error_text
    validated (err e) disk = (err (other ("unable to decode into struct: " ++ error_text e)), disk)
    validated (ok c) disk = accepted c (validate files c disk)

    unfoldable pub unmarshalled : Option GoError × V → Disk → Result Config × Disk
    unfolding validated
    unmarshalled (some e, v) disk = (err e, disk)
    unmarshalled (none, v) disk = validated (viper.unmarshal v) disk

    -- Load, after `init` of the command has bound its flags
    unfoldable pub load : Option String → V → Disk → Result Config × Disk
    unfolding bind_flags init_config unmarshalled
    load user_dir v disk = unmarshalled (init_config user_dir (bind_flags flags v)) disk
