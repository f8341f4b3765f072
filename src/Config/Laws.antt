-- ===== src/Config/Laws.antt =====
-- Which configurations are accepted.
use pihole_cluster_admin.Prelude.{
  ℕ, ℤ, pos, ◌≤◌, ◌≡◌, ◌↔◌, ◌⊎◌, inl, inr, refl, String, Bool, true, false, not, ◌&&◌, ◌||◌, Option,
  none, some, List, ◌==◌, string_eq, eq_iff, arith, All, ltb, first_failed, first_failed-none_iff,
  both_iff, last_iff, Bool-cases, subst,
}
use pihole_cluster_admin.Text.{trim_space, to_lower, to_upper, has_suffix, bytes, byte_length}
use pihole_cluster_admin.Fields.{
  is_blank, IsFilled, IsPort, is_blank_iff, is_no_port_iff, is_positive_iff, is_below_iff,
}
use pihole_cluster_admin.Httpx.{GoError}
use pihole_cluster_admin.Config.{
  Config, Files, is_level, path_guards, session_guards, guards, made, after_path, validate,
}

-- A number that is at least the bound
abbrev pub IsAtLeast : ℕ → ℤ → Type 0
IsAtLeast k x = (n : ℕ) × (x ≡ pos n) × (k ≤ n)

abbrev pub IsLevel : String → Type 0
IsLevel s =
    (s ≡ "TRACE")
    ⊎ ((s ≡ "DEBUG") ⊎ ((s ≡ "INFO") ⊎ ((s ≡ "WARN") ⊎ ((s ≡ "ERROR") ⊎ (s ≡ "FATAL")))))

is_level_iff : (s : String) → (not (is_level s) ≡ false) ↔ IsLevel s
is_level_iff s = ground (
  arith,
  eq_iff s "TRACE",
  eq_iff s "DEBUG",
  eq_iff s "INFO",
  eq_iff s "WARN",
  eq_iff s "ERROR",
  eq_iff s "FATAL",
)

is_backend_iff :
    (s : String)
    → (not (s == "memory" || s == "sqlite") ≡ false) ↔ ((s ≡ "memory") ⊎ (s ≡ "sqlite"))
is_backend_iff s = ground (arith, eq_iff s "memory", eq_iff s "sqlite")

is_same_site_iff :
    (s : String)
    → (not (s == "strict" || s == "lax" || s == "none") ≡ false)
      ↔ ((s ≡ "strict") ⊎ ((s ≡ "lax") ⊎ (s ≡ "none")))
is_same_site_iff s = ground (arith, eq_iff s "strict", eq_iff s "lax", eq_iff s "none")

-- TLS needs both files.
has_files_iff :
    (tls : Bool) (cert key : String)
    → ((tls && (is_blank cert || is_blank key)) ≡ false)
      ↔ ((tls ≡ true) → IsFilled cert × IsFilled key)
has_files_iff tls cert key = ground (arith, is_blank_iff cert, is_blank_iff key)

is_secure_iff :
    (tls secure allow : Bool)
    → ((not tls && secure && not allow) ≡ false) ↔ ((secure ≡ true) → (tls ≡ true) ⊎ (allow ≡ true))
is_secure_iff tls secure allow = ground arith

is_long_iff : (n k : ℕ) → (ltb n k ≡ false) ↔ (k ≤ n)
is_long_iff n k = ground arith

is_false_iff : (b : Bool) → (b ≡ false) ↔ (b ≡ false)
is_false_iff b = ((λ h. h), (λ h. h))

-- A test that can no longer fail
both_redundant : {A B R P Q : Type 0} → A ↔ P → (P → B) → R ↔ Q → (A × (B × R)) ↔ (P × Q)
both_redundant (to, from) b (tos, froms) =
    ((λ h. (to h.0, tos h.1.1)), (λ h. (from h.0, (b h.0, froms h.1))))

abbrev pub IsValidPath : Config → Type 0
IsValidPath c = IsFilled c.database.path × (has_suffix c.database.path "/" ≡ false)

abbrev pub IsValidSession : Config → Type 0
IsValidSession c =
    let s = c.server.session in
    ((to_lower s.backend ≡ "memory") ⊎ (to_lower s.backend ≡ "sqlite"))
    × (IsAtLeast 1 s.ttl_hours
        × (IsFilled s.cookie_name
            × (IsFilled s.cookie_path
                × (((to_lower s.same_site ≡ "strict")
                      ⊎ ((to_lower s.same_site ≡ "lax") ⊎ (to_lower s.same_site ≡ "none")))
                    × (((s.secure ≡ true)
                          → (c.server.tls_enabled ≡ true) ⊎ (s.allow_insecure_cookie ≡ true))
                        × IsAtLeast 0 c.server.server_side_events.heartbeat_seconds)))))

abbrev pub IsValid : Config → Type 0
IsValid c =
    (32 ≤ byte_length (trim_space c.encryption_key))
    × (IsAtLeast 0 c.health_service.grace_period_seconds
        × (IsAtLeast 1 c.health_service.polling_interval_seconds
            × (IsLevel (to_upper c.log.level)
                × (IsPort c.server.port
                    × (((c.server.tls_enabled ≡ true)
                          → IsFilled c.server.tls_cert_file × IsFilled c.server.tls_key_file)
                        × (IsAtLeast 10 c.server.read_header_timeout_seconds
                            × IsValidSession c))))))

abbrev Passes : List (Bool × String) → Type 0
Passes gs = All (λ g. g.0 ≡ false) gs

path_guards_iff : (c : Config) → Passes (path_guards c) ↔ IsValidPath c
unfolding path_guards
path_guards_iff c = both_iff (is_blank_iff c.database.path) (last_iff (is_false_iff _))

session_guards_iff : (c : Config) → Passes (session_guards c) ↔ IsValidSession c
unfolding session_guards
session_guards_iff c =
    let s = c.server.session in
    let secure = is_secure_iff c.server.tls_enabled s.secure s.allow_insecure_cookie in
    both_iff (is_backend_iff (to_lower s.backend)) (
      both_iff (is_positive_iff s.ttl_hours) (
        both_iff (is_blank_iff s.cookie_name) (
          both_iff (is_blank_iff s.cookie_path) (
            both_iff (is_same_site_iff (to_lower s.same_site)) (
              both_redundant secure secure.1
                (last_iff (is_below_iff 0 c.server.server_side_events.heartbeat_seconds)))))))

long_filled : (key : String) → 32 ≤ byte_length (trim_space key) → is_blank key ≡ false
unfolding byte_length bytes
long_filled key long = elim (Bool-cases (is_blank key)) [
  | inl e ↦ absurd (too_short (trim_space key) ((eq_iff (trim_space key) "").0 e) long)
  | inr e ↦ e
]
  where
    too_short : (s : String) → s ≡ "" → ¬ (32 ≤ byte_length s)
    too_short s e long =
        let short : 32 ≤ 0 = subst (λ t. 32 ≤ byte_length t) e long in omega (arith, short)

guards_iff : (c : Config) → Passes (guards c) ↔ IsValid c
unfolding guards
guards_iff c =
    both_redundant (is_long_iff (byte_length (trim_space c.encryption_key)) 32)
      (long_filled c.encryption_key)
      (both_iff (is_below_iff 0 c.health_service.grace_period_seconds) (
        both_iff (is_below_iff 1 c.health_service.polling_interval_seconds) (
          both_iff (is_level_iff (to_upper c.log.level)) (
            both_iff (is_no_port_iff c.server.port) (
              both_iff
                (has_files_iff c.server.tls_enabled c.server.tls_cert_file c.server.tls_key_file)
                (both_iff (is_below_iff 10 c.server.read_header_timeout_seconds)
                  (session_guards_iff c)))))))

module _ {Disk : Type 0} (files : Files Disk) where
  -- The directory of the database can be made.
  abbrev pub CanMake : Config → Disk → Type 0
  CanMake c disk = (files.mkdir_all (files.dir c.database.path) disk).0 ≡ none

  made_iff :
      (c : Config) (r : Option GoError × Disk)
      → ((made files c r).0 ≡ none) ↔ ((r.0 ≡ none) × IsValid c)
  made_iff c (some e, disk) = ((λ h. absurd cc), (λ h. absurd cc))
  made_iff c (none, disk) = (
    (λ h. (refl, (guards_iff c).0 ((first_failed-none_iff (guards c)).0 h))),
    (λ h. (first_failed-none_iff (guards c)).1 ((guards_iff c).1 h.1)),
  )

  after_path_iff :
      (c : Config) (o : Option String) (disk : Disk)
      → ((after_path files c o disk).0 ≡ none) ↔ ((o ≡ none) × (CanMake c disk × IsValid c))
  after_path_iff c (some m) disk = ((λ h. absurd cc), (λ h. absurd cc))
  after_path_iff c none disk =
      let (to, from) = made_iff c (files.mkdir_all (files.dir c.database.path) disk) in
      ((λ h. (refl, to h)), (λ h. from h.1))

  pub validate-none_iff :
      (c : Config) (disk : Disk)
      → ((validate files c disk).0 ≡ none) ↔ (IsValidPath c × (CanMake c disk × IsValid c))
  unfolding validate
  validate-none_iff c disk =
      let (to, from) = after_path_iff c (first_failed (path_guards c)) disk in
      let path = path_guards_iff c in
      let none_iff = first_failed-none_iff (path_guards c) in
      ((λ h. (path.0 (none_iff.0 (to h).0), (to h).1)), (λ h. from (none_iff.1 (path.1 h.0), h.1)))
