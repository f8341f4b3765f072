-- ===== src/Auth.antt =====
-- backend/internal/service/authservice, with ValidateUser of store/user.go: login and logout.
--
-- The query for a user, strings.ToLower, bcrypt and the sessions are the parameter `AuthPort` over one
-- state.
pub mod Laws
mod Tests
use pihole_cluster_admin.Prelude.{ℕ, ℤ, String, Option, none, some}
use pihole_cluster_admin.Httpx.{
  GoError, http_error, no_rows, wrong_password, other, unauthorized, Result, ok, err,
}
use pihole_cluster_admin.Domain.{User}

-- `userRow` of store/types.go
pub record UserRow : Type 0 where
  pub id : ℤ
  pub username : String
  pub password_hash : String
  pub created_at : ℕ
  pub updated_at : ℕ

-- LoginParams
pub record LoginParams : Type 0 where
  pub username : String
  pub password : String

-- `strings.ToLower`, the query of ValidateUser by user name, `bcrypt.CompareHashAndPassword`, and
-- `sessionIssuer`.
pub record AuthPort (S : Type 0) : Type 0 where
  pub to_lower : String → String
  pub select_user : String → S → Result UserRow
  pub compare : String → String → Option GoError
  pub create_session : ℤ → S → Result String × S
  pub destroy_session : String → S → Option GoError × S

-- rowToDomainUser
unfoldable pub row_to_domain_user : UserRow → User
row_to_domain_user row = record {
  id = row.id;
  username = row.username;
  created_at = row.created_at;
  updated_at = row.updated_at;
}

abbrev pub compared : UserRow → Option GoError → Result User
compared row none = ok (row_to_domain_user row)
compared row (some e) = err wrong_password

-- What `Login` says about an error of ValidateUser
unfoldable pub refusal : GoError → GoError
refusal no_rows = http_error unauthorized "invalid credentials"
refusal wrong_password = http_error unauthorized "invalid credentials"
refusal (http_error k m) = http_error unauthorized "unhandled error"
refusal (other m) = http_error unauthorized "unhandled error"

module _ {S : Type 0} (port : AuthPort S) where
  abbrev pub check_row : String → Result UserRow → Result User
  check_row password (err e) = err e
  check_row password (ok row) = compared row (port.compare row.password_hash password)

  -- ValidateUser
  unfoldable pub validate_user : String → String → S → Result User
  unfolding row_to_domain_user
  validate_user username password st =
      check_row password (port.select_user (port.to_lower username) st)

  abbrev pub issued : User → Result String × S → Result (User × String) × S
  issued user (ok sid, st) = (ok (user, sid), st)
  issued user (err e, st) = (err (http_error unauthorized "unhandled error creating session"), st)

  unfoldable pub log_in_as : Result User → S → Result (User × String) × S
  unfolding refusal
  log_in_as (err e) st = (err (refusal e), st)
  log_in_as (ok user) st = issued user (port.create_session user.id st)

  -- Login
  unfoldable pub login : LoginParams → S → Result (User × String) × S
  unfolding validate_user log_in_as
  login params st = log_in_as (validate_user params.username params.password st) st

  -- Logout; the lookup of the session before it is only logged.
  unfoldable pub logout : String → S → Option GoError × S
  logout session_id st = port.destroy_session session_id st
