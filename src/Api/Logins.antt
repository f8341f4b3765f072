-- ===== src/Api/Logins.antt =====
-- backend/internal/handler/authhandler/handler.go and handler/setuphandler/handler.go, over the services
-- of logins and of the setup. A body is `none` if DecodeJSONBody fails. A handler returns its reply,
-- the cookie that it sets, and the state.
mod Tests
use pihole_cluster_admin.Prelude.{
  ℕ, ◌-◌, ℤ, String, Bool, true, false, Option, none, some, List, [], ◌∷◌, first_failed,
}
use pihole_cluster_admin.Text.{trim_space}
use pihole_cluster_admin.Fields.{is_blank}
use pihole_cluster_admin.Httpx.{
  GoError, Result, ok, err, Reply, json_error, json, status, write_json_error_from_err,
}
use pihole_cluster_admin.Domain.{User, hour}
use pihole_cluster_admin.Sessions.{SessionConfig, HttpCookie, cookie}
use pihole_cluster_admin.Auth.{LoginParams, AuthPort, login, logout}
use pihole_cluster_admin.Setup.{
  PiholeStatus, InitStatus, InitTable, CreateUserParams, SetupPort, create_user,
  update_pihole_initialization_status,
}

abbrev pub Answer : Type 0 → Type 0 → Type 0
Answer A S = Reply A × (Option HttpCookie × S)

abbrev pub refuse : {A S : Type 0} → String → ℕ → S → Answer A S
refuse message code s = (json_error message code, (none, s))

-- The user in JSON with the cookie of the new session
abbrev pub session_reply :
    {S : Type 0} → SessionConfig → ℕ → ℕ → Result (User × String) × S → Answer User S
session_reply cfg now code (err e, s) = (write_json_error_from_err e, (none, s))
session_reply cfg now code (ok (user, sid), s) = (json code user, (some (cookie cfg now sid), s))

module _ {S : Type 0} (port : AuthPort S) (cfg : SessionConfig) (now : ℕ) where
  -- login
  unfoldable pub handle_login : Option LoginParams → S → Answer User S
  unfolding login cookie write_json_error_from_err
  handle_login none s = refuse "Invalid JSON" 400 s
  handle_login (some body) s = session_reply cfg now 200 (login port body s)

  -- logout; the argument is the value of the session cookie.
  unfoldable pub handle_logout : Option String → S → Answer (Unit {0}) S
  unfolding logout cookie
  handle_logout none s = (status 200, (none, s))
  handle_logout (some value) s = (
    status 200,
    (some (record (cookie cfg now "") { expires = now - hour }), (logout port value s).1),
  )

abbrev pub user_reply : Result User → Reply User
user_reply (ok user) = json 200 user
user_reply (err e) = write_json_error_from_err e

-- getSessionUser; the argument is the user of the context.
unfoldable pub handle_get_session_user :
    {S : Type 0} → (ℤ → S → Result User) → Option ℤ → S → Reply User
unfolding write_json_error_from_err
handle_get_session_user get_user none s = json_error "Unauthorized" 401
handle_get_session_user get_user (some id) s = user_reply (get_user id s)

unfoldable pub user_guards : CreateUserParams → List (Bool × String)
unfolding trim_space
user_guards body =
    (is_blank body.username, "empty username in body")
    ∷ (is_blank body.password, "empty password in body")
    ∷ []

module _ {Db : Type 0} (table : InitTable Db) (port : SetupPort Db) where
  abbrev pub initialized_reply : Result Bool → Reply Bool
  initialized_reply (ok initialized) = json 200 initialized
  initialized_reply (err e) = json_error "server error" 500

  abbrev pub status_reply : Result InitStatus → Reply InitStatus
  status_reply (ok s) = json 200 s
  status_reply (err e) = write_json_error_from_err e

  abbrev pub updated_reply : Option GoError × Db → Reply (Unit {0}) × Db
  updated_reply (none, db) = (status 204, db)
  updated_reply (some e, db) = (write_json_error_from_err e, db)

  -- getIsInitialized
  unfoldable pub handle_get_is_initialized : Db → Reply Bool
  handle_get_is_initialized db = initialized_reply (port.is_initialized db)

  abbrev pub unless_refused : {A S : Type 0} → Option String → Answer A S → S → Answer A S
  unless_refused none answer s = answer
  unless_refused (some message) answer s = refuse message 400 s

  -- createUser
  unfoldable pub handle_create_user :
      SessionConfig → ℕ → Option CreateUserParams → Db → Answer User Db
  unfolding user_guards create_user cookie write_json_error_from_err
  handle_create_user cfg now none db = refuse "invalid JSON body" 400 db
  handle_create_user cfg now (some body) db =
      unless_refused (first_failed (user_guards body))
        (session_reply cfg now 201 (create_user table port body db)) db

  -- getInitializationStatus
  unfoldable pub handle_get_initialization_status : Db → Reply InitStatus
  unfolding write_json_error_from_err
  handle_get_initialization_status db = status_reply (table.select db)

  -- updatePiholeInitializationStatus
  unfoldable pub handle_update_pihole_initialization_status :
      Option PiholeStatus → Db → Reply (Unit {0}) × Db
  unfolding update_pihole_initialization_status write_json_error_from_err
  handle_update_pihole_initialization_status none db = (json_error "invalid JSON body" 400, db)
  handle_update_pihole_initialization_status (some body) db =
      updated_reply (update_pihole_initialization_status table body db)
