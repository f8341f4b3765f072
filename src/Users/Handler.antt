-- ===== src/Users/Handler.antt =====
-- backend/internal/handler/userhandler/handler.go, over the interface `service`.
--
-- A body is `none` if DecodeJSONBody fails, the id of the path if strconv.ParseInt fails, and the
-- current user if the context has none.
use pihole_cluster_admin.Prelude.{
  ℤ, pos, String, Bool, not, Option, none, some, List, [], ◌∷◌, ◌==◌, string_eq, int_eq, leb_ℤ, ltb,
  if◌then◌else◌, first_failed,
}
use pihole_cluster_admin.Text.{trim_space, byte_length}
use pihole_cluster_admin.Fields.{is_blank}
use pihole_cluster_admin.Httpx.{
  Result, ok, err, Reply, json_error, json, status, panicked, write_json_error_from_err,
  bad_request, unless_failed,
}
use pihole_cluster_admin.Domain.{User}
use pihole_cluster_admin.Users.{PatchUserParams, UpdatePasswordParams}

-- `service` of interface.go
pub record UserService (S : Type 0) : Type 0 where
  pub patch : ℤ → PatchUserParams → S → Result User × S
  pub update_password : ℤ → UpdatePasswordParams → S → Result User × S

-- The next step for the user's own id
unfoldable pub for_own_id :
    {A S : Type 0} → Option ℤ → Option ℤ → (ℤ → Reply A × S) → S → Reply A × S
for_own_id none current next s = bad_request "error processing id path parameter" s
for_own_id (some id) none next s =
    if leb_ℤ id (pos 0)
    then bad_request "invalid id (<= 0)" s
    else (json_error "internal server error" 500, s)
for_own_id (some id) (some current) next s =
    if leb_ℤ id (pos 0)
    then bad_request "invalid id (<= 0)" s
    else if not (id == current)
    then (json_error "unauthorized" 401, s)
    else next id

unfoldable pub name_guards : Option String → Option String
unfolding trim_space
name_guards none = some "must provide at least one field to update"
name_guards (some name) = if is_blank name then some "username must not be empty" else none

unfoldable pub password_guards : String → List (Bool × String)
unfolding trim_space byte_length
password_guards password =
    (is_blank password, "new password must not be empty")
    ∷ (ltb (byte_length (trim_space password)) 8, "new password must be 8 or more characters")
    ∷ []

module _ {S : Type 0} (service : UserService S) where
  abbrev pub patch_reply : Result User × S → Reply User × S
  patch_reply (ok user, s) = (json 200 user, s)
  patch_reply (err e, s) = (write_json_error_from_err e, s)

  -- The log line for an error reads the id of the user, which is nil then.
  abbrev pub password_reply : Result User × S → Reply User × S
  password_reply (ok user, s) = (status 204, s)
  password_reply (err e, s) = (panicked, s)

  -- patch
  unfoldable pub handle_patch : Option PatchUserParams → Option ℤ → Option ℤ → S → Reply User × S
  unfolding for_own_id name_guards write_json_error_from_err
  handle_patch none id current s = bad_request "invalid JSON body" s
  handle_patch (some body) id current s =
      for_own_id id current
        (λ own.
          unless_failed (name_guards body.username) (patch_reply (service.patch own body s)) s)
        s

  -- updatePassword
  unfoldable pub handle_update_password :
      Option UpdatePasswordParams → Option ℤ → Option ℤ → S → Reply User × S
  unfolding for_own_id password_guards
  handle_update_password none id current s = bad_request "invalid JSON body" s
  handle_update_password (some body) id current s =
      for_own_id id current
        (λ own.
          unless_failed (first_failed (password_guards body.new_password))
            (password_reply (service.update_password own body s)) s)
        s
