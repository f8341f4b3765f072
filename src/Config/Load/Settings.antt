-- ===== src/Config/Load/Settings.antt =====
-- What viper promises, and the settings that it then gives.
use pihole_cluster_admin.Prelude.{
  ℤ, ◌≡◌, refl, sym, ap, ◌∙◌, String, Bool, false, Option, none, some, List, [], ◌∷◌, ◌==◌,
  string_eq, if◌then◌else◌,
}
use pihole_cluster_admin.Httpx.{ok}
use pihole_cluster_admin.Config.{Config}
use pihole_cluster_admin.Config.Load.{
  Value, text, number, truth, Viper, defaults, set_defaults, prepared, init_config, config_file,
}

-- What a flag that was given, the environment or the file says, else the default.
abbrev pub or_default : Option Value → Option Value → Option Value
or_default none d = d
or_default (some v) d = some v

-- Unmarshal fills a field with the value of its key, where that has the field's type.
pub record Reads (get : String → Option Value) (c : Config) : Type 0 where
  pub path : (s : String) → get "database.path" ≡ some (text s) → c.database.path ≡ s
  pub key : (s : String) → get "encryption_key" ≡ some (text s) → c.encryption_key ≡ s
  pub grace :
      (n : ℤ)
      → get "health_service.grace_period_seconds" ≡ some (number n)
      → c.health_service.grace_period_seconds ≡ n
  pub polling :
      (n : ℤ)
      → get "health_service.polling_interval_seconds" ≡ some (number n)
      → c.health_service.polling_interval_seconds ≡ n
  pub level : (s : String) → get "log.level" ≡ some (text s) → c.log.level ≡ s
  pub port : (n : ℤ) → get "server.port" ≡ some (number n) → c.server.port ≡ n
  pub tls : (b : Bool) → get "server.tls_enabled" ≡ some (truth b) → c.server.tls_enabled ≡ b
  pub timeout :
      (n : ℤ)
      → get "server.read_header_timeout_seconds" ≡ some (number n)
      → c.server.read_header_timeout_seconds ≡ n
  pub backend :
      (s : String) → get "server.session.backend" ≡ some (text s) → c.server.session.backend ≡ s
  pub ttl :
      (n : ℤ) → get "server.session.ttl_hours" ≡ some (number n) → c.server.session.ttl_hours ≡ n
  pub name :
      (s : String)
      → get "server.session.cookie_name" ≡ some (text s)
      → c.server.session.cookie_name ≡ s
  pub cookie :
      (s : String)
      → get "server.session.cookie_path" ≡ some (text s)
      → c.server.session.cookie_path ≡ s
  pub same_site :
      (s : String) → get "server.session.same_site" ≡ some (text s) → c.server.session.same_site ≡ s
  pub secure :
      (b : Bool) → get "server.session.secure" ≡ some (truth b) → c.server.session.secure ≡ b
  pub heartbeat :
      (n : ℤ)
      → get "server.server_side_events.heartbeat_seconds" ≡ some (number n)
      → c.server.server_side_events.heartbeat_seconds ≡ n

-- What viper documents: SetDefault sets the default of its key and no other, reading the file
-- changes no default, and Unmarshal reads what is given for a key, else its default.
pub record ViperLaws {V : Type 0} (viper : Viper V) : Type 0 where
  pub given : V → String → Option Value
  pub default_of : V → String → Option Value
  pub default_set :
      (key asked : String) (value : Value) (v : V)
      → default_of (viper.set_default key value v) asked
        ≡ (if key == asked then some value else default_of v asked)
  pub default_read :
      (v : V) (key : String) → default_of (viper.read_in_config v).1 key ≡ default_of v key
  pub reads :
      (v : V) (c : Config)
      → viper.unmarshal v ≡ ok c
      → Reads (λ key. or_default (given v key) (default_of v key)) c

-- The default that the last call of SetDefault for a key has left
abbrev pub latest : List (String × Value) → String → Option Value → Option Value
latest [] key before = before
latest ((k, value) ∷ rest) key before = latest rest key (if k == key then some value else before)

module _ {V : Type 0} (viper : Viper V) (laws : ViperLaws viper) where
  set_defaults-latest :
      (ds : List (String × Value)) (v : V) (key : String)
      → laws.default_of (set_defaults viper ds v) key ≡ latest ds key (laws.default_of v key)
  unfolding set_defaults
  set_defaults-latest [] v key = refl
  set_defaults-latest ((k, value) ∷ ds) v key =
      set_defaults-latest ds (viper.set_default k value v) key
      ∙ ap (latest ds key) (laws.default_set k key value v)

  -- Only the encryption key is given.
  abbrev pub GivesOnlyKey : V → String → Type 0
  GivesOnlyKey v key =
      (k : String) → laws.given v k ≡ (if k == "encryption_key" then some (text key) else none)

  abbrev pub setting : V → String → Option Value
  setting v k = or_default (laws.given v k) (laws.default_of v k)

  base-default :
      (user_dir : Option String) (v y : V) (k : String)
      → init_config viper user_dir v ≡ (none, y)
      → (before : Option Value) × (laws.default_of y k ≡ latest defaults k before)
  unfolding init_config prepared
  base-default user_dir v y k ready =
      let base : V = viper.automatic_env (
        viper.set_env_key_replacer "." "_"
          (viper.set_env_prefix "PIHOLE_CLUSTER_ADMIN" (config_file viper user_dir v))) in
      (
        laws.default_of base k,
        ap (λ p. laws.default_of p.1 k) (sym ready)
            ∙ laws.default_read (set_defaults viper defaults base) k
            ∙ set_defaults-latest defaults base k,
      )

  pub setting-default :
      (user_dir : Option String) (v y : V) (key k : String) (value : Value)
      → init_config viper user_dir v ≡ (none, y)
      → GivesOnlyKey y key
      → (k == "encryption_key") ≡ false
      → ((before : Option Value) → latest defaults k before ≡ some value)
      → setting y k ≡ some value
  setting-default user_dir v y key k value ready only apart default =
      let (before, found) = base-default user_dir v y k ready in
      let nothing : laws.given y k ≡ none = only k ∙ rw apart refl in
      rw nothing (found ∙ default before)

  pub setting-key :
      (y : V) (key : String) → GivesOnlyKey y key → setting y "encryption_key" ≡ some (text key)
  setting-key y key only = rw (only "encryption_key") refl
