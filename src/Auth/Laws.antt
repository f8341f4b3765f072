-- ===== src/Auth/Laws.antt =====
-- Who is logged in, and what a refused login tells.
use pihole_cluster_admin.Prelude.{◌≡◌, refl, sym, ◌∙◌, ap, String, Option, none, some}
use pihole_cluster_admin.Httpx.{GoError, Result, ok, err}
use pihole_cluster_admin.Httpx.Laws.{ok-injective, err-ne-ok}
use pihole_cluster_admin.Domain.{User}
use pihole_cluster_admin.Auth.{
  UserRow, LoginParams, AuthPort, row_to_domain_user, compared, check_row, validate_user, issued,
  log_in_as, login,
}

module _ {S : Type 0} (port : AuthPort S) where
  -- The row of the user, whose hash is that of the password
  abbrev pub Knows : LoginParams → S → User → Type 0
  Knows params st user =
      (row : UserRow) × (port.select_user (port.to_lower params.username) st ≡ ok row)
      × (port.compare row.password_hash params.password ≡ none)
      × (row_to_domain_user row ≡ user)

  compared-ok :
      (row : UserRow) (o : Option GoError) (user : User)
      → compared row o ≡ ok user
      → (o ≡ none) × (row_to_domain_user row ≡ user)
  compared-ok row none user h = (refl, ok-injective _ _ h)
  compared-ok row (some e) user h = absurd (err-ne-ok h)

  pub check_row-ok :
      (password : String) (r : Result UserRow) (user : User)
      → check_row port password r ≡ ok user
      → (row : UserRow) × (r ≡ ok row)
        × (port.compare row.password_hash password ≡ none)
        × (row_to_domain_user row ≡ user)
  check_row-ok password (err e) user h = absurd (err-ne-ok h)
  check_row-ok password (ok row) user h =
      let (same, made) = compared-ok row _ user h in (row, refl, same, made)

  issued-ok :
      (user : User) (r : Result String × S) (logged : User × String)
      → (issued port user r).0 ≡ ok logged
      → (r.0 ≡ ok logged.1) × (user ≡ logged.0) × ((issued port user r).1 ≡ r.1)
  issued-ok user (ok sid, st) logged h =
      let same = ok-injective _ _ h in (ap (λ p. ok p.1) same, ap (λ p. p.0) same, refl)
  issued-ok user (err e, st) logged h = absurd (err-ne-ok h)

  log_in_as-ok :
      (r : Result User) (st : S) (logged : User × String)
      → (log_in_as port r st).0 ≡ ok logged
      → (r ≡ ok logged.0) × ((port.create_session (logged.0).id st).0 ≡ ok logged.1)
  unfolding log_in_as
  log_in_as-ok (err e) st logged h = absurd (err-ne-ok h)
  log_in_as-ok (ok user) st logged h =
      let (made, same, rest) = issued-ok user (port.create_session user.id st) logged h in
      (ap ok same, sym (ap (λ u. (port.create_session u.id st).0) same) ∙ made)

  -- When Login succeeds, the database has a user under what strings.ToLower makes of the user name,
  -- whose hash bcrypt finds to agree with the password, and the session was created for that user.
  pub login-Knows :
      (params : LoginParams) (st : S) (logged : User × String)
      → (login port params st).0 ≡ ok logged
      → Knows params st logged.0 × ((port.create_session (logged.0).id st).0 ≡ ok logged.1)
  unfolding login validate_user
  login-Knows params st logged h =
      let (checked, made) =
        log_in_as-ok (validate_user port params.username params.password st) st logged h in
      (
        check_row-ok params.password (port.select_user (port.to_lower params.username) st) logged.0
            checked,
        made,
      )
