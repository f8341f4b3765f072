-- ===== src/Sessions.antt =====
-- backend/internal/sessions: the sessions of the browsers, over a storage.
--
-- The clock, the random bytes of a session id and the storage are arguments. A method of a storage
-- holds its lock, so it is one step of the storage's state.
pub mod Memory
pub mod Sqlite
pub mod Laws
pub mod Purge
mod Tests
use pihole_cluster_admin.Prelude.{
  ℕ, ℤ, pos, negsuc, ◌+◌, ◌-◌, ◌*◌, String, Bool, true, false, not, ◌&&◌, Option, none, some, List,
  [], ◌∷◌, ◌==◌, string_eq, ltb, if◌then◌else◌,
}
use pihole_cluster_admin.Text.{to_lower}
use pihole_cluster_admin.Httpx.{GoError, Result, ok, err}
use pihole_cluster_admin.Domain.{second, hour}
use pihole_cluster_admin.Durations.{duration, quotient, after_hours}

pub record Session : Type 0 where
  pub id : String
  pub user_id : ℤ
  pub expires_at : ℕ

-- The interface `storage`. `(userId, true)` is `some userId`, and `(0, false)` is `none`; the
-- first argument of `get_user_id` is the time of the call.
pub record Storage (S : Type 0) : Type 0 where
  pub create : Session → S → Option GoError × S
  pub get_all : S → Result (List Session)
  pub get_user_id : ℕ → String → S → Result (Option ℤ)
  pub delete : String → S → Option GoError × S

-- SessionConfig of config.go
pub record SessionConfig : Type 0 where
  pub backend : String
  pub ttl_hours : ℤ
  pub secure : Bool
  pub allow_insecure_cookie : Bool
  pub cookie_name : String
  pub cookie_path : String
  pub same_site : String

-- time.Now().After(session.ExpiresAt)
abbrev pub is_expired : ℕ → Session → Bool
is_expired now s = ltb s.expires_at now

-- The user of a session that is found and has not expired.
unfoldable pub live : ℕ → Option Session → Option ℤ
live now none = none
live now (some s) = if is_expired now s then none else some s.user_id

-- The session that `CreateSession` makes
unfoldable pub new_session : SessionConfig → ℕ → String → ℤ → Session
unfolding after_hours
new_session cfg now session_id user_id = record {
  id = session_id;
  user_id = user_id;
  expires_at = after_hours now cfg.ttl_hours;
}

abbrev pub value_or_error : {A : Type 0} → A → Option GoError → Result A
value_or_error a none = ok a
value_or_error a (some e) = err e

module _ {S : Type 0} (storage : Storage S) where
  -- `session_id` is the hexadecimal text of 32 random bytes.
  unfoldable pub create_session : SessionConfig → ℕ → String → ℤ → S → Result String × S
  unfolding new_session
  create_session cfg now session_id user_id st =
      let (e, st') = storage.create (new_session cfg now session_id user_id) st in
      (value_or_error session_id e, st')

  unfoldable pub destroy_session : String → S → Option GoError × S
  destroy_session = storage.delete

  -- The loop of `PurgeExpired`; the error of a deletion is only logged.
  unfoldable pub purge_each : ℕ → List Session → S → S
  purge_each now [] st = st
  purge_each now (s ∷ ss) st =
      purge_each now ss (if is_expired now s then (storage.delete s.id st).1 else st)

  unfoldable pub purge_expired : ℕ → S → S
  unfolding purge_each
  purge_expired now st = elim (storage.get_all st) [ ok ss ↦ purge_each now ss st | err e ↦ st ]

-- What `AuthMiddleware` does with a request: `http.Error`, or the next handler for a user.
pub data Gate : Type 0 where
  refused : String → ℕ → Gate
  passed : ℤ → Gate

unfoldable pub gate_of : Result (Option ℤ) → Gate
gate_of (err e) = refused "internal server error" 500
gate_of (ok none) = refused "Unauthorized" 401
gate_of (ok (some user_id)) = passed user_id

-- AuthMiddleware; the argument is the value of the request's session cookie.
unfoldable pub auth_middleware : {S : Type 0} → Storage S → ℕ → Option String → S → Gate
unfolding gate_of
auth_middleware storage now none st = refused "Unauthorized" 401
auth_middleware storage now (some value) st = gate_of (storage.get_user_id now value st)

pub data SameSite : Type 0 where
  lax_mode none_mode strict_mode : SameSite

unfoldable pub parse_same_site : String → SameSite
parse_same_site val =
    if to_lower val == "lax"
    then lax_mode
    else if to_lower val == "none"
    then none_mode
    else strict_mode

pub record HttpCookie : Type 0 where
  pub name : String
  pub value : String
  pub path : String
  pub http_only : Bool
  pub secure : Bool
  pub same_site : SameSite
  pub expires : ℕ
  pub max_age : ℤ

-- Cookie; `int(ttl.Seconds())` rounds towards zero.
unfoldable pub cookie : SessionConfig → ℕ → String → HttpCookie
unfolding parse_same_site duration after_hours
cookie cfg now value = record {
  name = cfg.cookie_name;
  value = value;
  path = cfg.cookie_path;
  http_only = true;
  secure = cfg.secure && not cfg.allow_insecure_cookie;
  same_site = parse_same_site cfg.same_site;
  expires = after_hours now cfg.ttl_hours;
  max_age = quotient (duration cfg.ttl_hours hour) second;
}
