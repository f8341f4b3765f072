-- ===== src/Config/Load/Laws.antt =====
-- What the defaults of the configuration lack.
use pihole_cluster_admin.Prelude.{
  pos, ◌≤◌, ◌≡◌, ◌≢◌, refl, sym, ap, ◌∙◌, subst, ◌↔◌, String, true, false, Option, none, some, ◌==◌,
  string_eq, inl, inr, arith, eq_iff,
}
use pihole_cluster_admin.Text.{trim_space, to_lower, to_upper, has_suffix, byte_length}
use pihole_cluster_admin.Httpx.{ok}
use pihole_cluster_admin.Config.{Config, Files, validate}
use pihole_cluster_admin.Config.Laws.{IsValidPath, IsValid, validate-none_iff}
use pihole_cluster_admin.Config.Load.{
  Viper, flags, bind_flags, init_config, accepted, validated, unmarshalled, load,
}
use pihole_cluster_admin.Config.Load.Settings.{
  ViperLaws, GivesOnlyKey, setting-default, setting-key,
}

-- The configuration has the defaults that `validate` tests.
abbrev IsByDefault : Config → Type 0
IsByDefault c =
    (c.database.path ≡ "/var/lib/pihole-cluster-admin/data.db")
    × (c.health_service.grace_period_seconds ≡ pos 10)
    × (c.health_service.polling_interval_seconds ≡ pos 5)
    × (c.log.level ≡ "INFO")
    × (c.server.port ≡ pos 8081)
    × (c.server.tls_enabled ≡ false)
    × (c.server.read_header_timeout_seconds ≡ pos 10)
    × (c.server.session.backend ≡ "sqlite")
    × (c.server.session.ttl_hours ≡ pos 24)
    × (c.server.session.cookie_name ≡ "session_id")
    × (c.server.session.cookie_path ≡ "/")
    × (c.server.session.same_site ≡ "Strict")
    × (c.server.session.secure ≡ false)
    × (c.server.server_side_events.heartbeat_seconds ≡ pos 20)

differs : (s t : String) → (s == t) ≡ false → s ≢ t
differs s t apart same = let equal : (s == t) ≡ true = (eq_iff s t).1 same in cc

same_filled : (s t : String) → s ≡ t → (trim_space t == "") ≡ false → trim_space s ≢ ""
same_filled s t e filled = subst (λ u. trim_space u ≢ "") (sym e) (differs (trim_space t) "" filled)

default-IsValidPath : (c : Config) → IsByDefault c → IsValidPath c
unfolding trim_space has_suffix
default-IsValidPath c d = (same_filled c.database.path _ d.0 refl, ap (λ p. has_suffix p "/") d.0)

default-IsValid_iff :
    (c : Config) (key : String)
    → IsByDefault c
    → c.encryption_key ≡ key
    → IsValid c ↔ (32 ≤ byte_length (trim_space key))
unfolding trim_space to_lower to_upper
default-IsValid_iff c key d key_is = (
  (λ valid. subst (λ k. 32 ≤ byte_length (trim_space k)) key_is valid.0),
  (λ long. (
    subst (λ k. 32 ≤ byte_length (trim_space k)) (sym key_is) long,
    (
      (10, d.1, omega arith),
      (
        (5, d.2, omega arith),
        (
          inr (inr (inl (ap to_upper d.3))),
          (
            (8081, d.4, omega arith, omega arith),
            (
              (λ on. absurd (subst (λ b. b ≢ true) (sym d.5) (λ h. cc) on)),
              (
                (10, d.6, omega arith),
                (
                  inr (ap to_lower d.7),
                  (
                    (24, d.8, omega arith),
                    (
                      same_filled c.server.session.cookie_name _ d.9 refl,
                      (
                        same_filled c.server.session.cookie_path _ d.10 refl,
                        (
                          inl (ap to_lower d.11),
                          (
                            (λ on. absurd (subst (λ b. b ≢ true) (sym d.12) (λ h. cc) on)),
                            (20, d.13, omega arith),
                          ),
                        ),
                      ),
                    ),
                  ),
                ),
              ),
            ),
          ),
        ),
      ),
    ),
  )),
)

module _ {V Disk : Type 0} (viper : Viper V) (laws : ViperLaws viper) (files : Files Disk) where
  read-IsByDefault :
      (user_dir : Option String) (v y : V) (key : String) (c : Config)
      → init_config viper user_dir v ≡ (none, y)
      → GivesOnlyKey viper laws y key
      → viper.unmarshal y ≡ ok c
      → IsByDefault c
  read-IsByDefault user_dir v y key c ready only decoded =
      let r = laws.reads y c decoded in
      let get = setting-default viper laws user_dir v y key in
      (
        r.path _ (get "database.path" _ ready only refl (λ b. refl)),
        r.grace _ (get "health_service.grace_period_seconds" _ ready only refl (λ b. refl)),
        r.polling _ (get "health_service.polling_interval_seconds" _ ready only refl (λ b. refl)),
        r.level _ (get "log.level" _ ready only refl (λ b. refl)),
        r.port _ (get "server.port" _ ready only refl (λ b. refl)),
        r.tls _ (get "server.tls_enabled" _ ready only refl (λ b. refl)),
        r.timeout _ (get "server.read_header_timeout_seconds" _ ready only refl (λ b. refl)),
        r.backend _ (get "server.session.backend" _ ready only refl (λ b. refl)),
        r.ttl _ (get "server.session.ttl_hours" _ ready only refl (λ b. refl)),
        r.name _ (get "server.session.cookie_name" _ ready only refl (λ b. refl)),
        r.cookie _ (get "server.session.cookie_path" _ ready only refl (λ b. refl)),
        r.same_site _ (get "server.session.same_site" _ ready only refl (λ b. refl)),
        r.secure _ (get "server.session.secure" _ ready only refl (λ b. refl)),
        r.heartbeat _
            (get "server.server_side_events.heartbeat_seconds" _ ready only refl (λ b. refl)),
      )

  accepted_iff :
      (c : Config) (r : Option String × Disk) → ((accepted viper files c r).0 ≡ ok c) ↔ (r.0 ≡ none)
  accepted_iff c (none, disk) = ((λ h. refl), (λ h. refl))
  accepted_iff c (some m, disk) = ((λ h. absurd cc), (λ h. absurd cc))

  load-accepted :
      (user_dir : Option String) (v y : V) (c : Config) (disk : Disk)
      → init_config viper user_dir (bind_flags viper flags v) ≡ (none, y)
      → viper.unmarshal y ≡ ok c
      → load viper files user_dir v disk ≡ accepted viper files c (validate files c disk)
  unfolding load unmarshalled validated
  load-accepted user_dir v y c disk ready decoded =
      ap (λ p. unmarshalled viper files p disk) ready
      ∙ ap (λ r. validated viper files r disk) decoded

  -- If viper gives settings as documented, nothing but an encryption key is given by flags, the
  -- environment or a file, and the settings can be read and decoded, then Load returns the
  -- configuration exactly when the directory of the default database can be made and the key has
  -- 32 bytes or more without the white space around it.
  pub load-ok_iff :
      (user_dir : Option String) (v y : V) (key : String) (c : Config) (disk : Disk)
      → init_config viper user_dir (bind_flags viper flags v) ≡ (none, y)
      → GivesOnlyKey viper laws y key
      → viper.unmarshal y ≡ ok c
      → ((load viper files user_dir v disk).0 ≡ ok c) ↔ (
          ((files.mkdir_all (files.dir "/var/lib/pihole-cluster-admin/data.db") disk).0 ≡ none)
          × (32 ≤ byte_length (trim_space key)))
  load-ok_iff user_dir v y key c disk ready only decoded =
      let d = read-IsByDefault user_dir (bind_flags viper flags v) y key c ready only decoded in
      let key_is : c.encryption_key ≡ key =
        (laws.reads y c decoded).key key (setting-key viper laws y key only) in
      let loaded = load-accepted user_dir v y c disk ready decoded in
      let gate = accepted_iff c (validate files c disk) in
      let valid = validate-none_iff files c disk in
      let rest = default-IsValid_iff c key d key_is in
      let at_default = λ (p : String). (files.mkdir_all (files.dir p) disk).0 ≡ none in
      (
        (λ h.
            let all = valid.0 (gate.0 (sym (ap (λ r. r.0) loaded) ∙ h)) in
            (subst at_default d.0 all.1.0, rest.0 all.1.1)),
        (λ h.
            ap (λ r. r.0) loaded
            ∙ gate.1
                (valid.1 (default-IsValidPath c d, (subst at_default (sym d.0) h.0, rest.1 h.1)))),
      )
