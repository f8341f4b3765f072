-- ===== src/Users.antt =====
-- The users: backend/internal/store/user.go, service/userservice/service.go and
-- handler/userhandler/handler.go. The statements of SQLite on the table `users` are the parameter
-- `UserTable`; an UPDATE is the list of its assignments, in the order of its text.
pub mod Changes
pub mod First
pub mod Handler
pub mod Laws
mod Tests
pub mod Updates
use pihole_cluster_admin.Prelude.{
  ℕ, ℤ, String, Bool, true, false, Option, none, some, List, [], ◌∷◌, ◌++◌, ◌==◌, string_eq, ltb,
  if◌then◌else◌,
}
use pihole_cluster_admin.Text.{trim_space}
use pihole_cluster_admin.Httpx.{
  GoError, http_error, unauthorized, validation, other, Result, ok, err, ◌>>=◌,
}
use pihole_cluster_admin.Domain.{User, UserAuth}
use pihole_cluster_admin.Crypto.{Bcrypt, hash_password, compare_hash_and_password}
use pihole_cluster_admin.Auth.{UserRow, AuthPort, row_to_domain_user}
use pihole_cluster_admin.Setup.{CreateUserParams, SetupPort}

-- UpdateUserParams of store/types.go, and the parameters of userservice/types.go
pub record UpdateUserParams : Type 0 where
  pub username : Option String
  pub password : Option String

pub record PatchUserParams : Type 0 where
  pub username : Option String

pub record UpdatePasswordParams : Type 0 where
  pub current_password : String
  pub new_password : String

pub data UserAssignment : Type 0 where
  username password_hash : String → UserAssignment

-- The statements: an INSERT of a name and a hash returns the new id. `to_lower` is strings.ToLower, which
-- CreateUser and ValidateUser apply to a name before a statement.
pub record UserTable (Db : Type 0) : Type 0 where
  pub to_lower : String → String
  pub insert : String → String → Db → Result ℤ × Db
  pub update : ℤ → List UserAssignment → Db → Option GoError × Db
  pub select_one : ℤ → Db → Result UserRow
  pub select_by_name : String → Db → Result UserRow
  pub count : Db → Result ℕ

abbrev pub name_part : Option String → List UserAssignment
name_part none = []
name_part (some name) = username name ∷ []

module _ {Db : Type 0} (table : UserTable Db) (bcrypt : Bcrypt) where
  -- GetUser: with an error, the user beside it is not used.
  unfoldable pub get_user : ℤ → Db → Result User
  unfolding row_to_domain_user
  get_user id db = do row ← table.select_one id db; ok (row_to_domain_user row)

  -- GetUserAuth
  unfoldable pub get_user_auth : ℤ → Db → Result UserAuth
  get_user_auth id db = do
    row ← table.select_one id db
    ok (record { password_hash = row.password_hash })

  abbrev pub created : Result ℤ × Db → Result User × Db
  created (err e, db) = (err e, db)
  created (ok id, db) = (get_user id db, db)

  abbrev pub create_hashed : String → Result String → Db → Result User × Db
  create_hashed name (err e) db = (err e, db)
  create_hashed name (ok hash) db = created (table.insert name hash db)

  -- CreateUser of the store
  unfoldable pub create_user : CreateUserParams → Db → Result User × Db
  unfolding get_user hash_password trim_space
  create_user params db =
      create_hashed (table.to_lower (trim_space params.username))
        (hash_password bcrypt params.password) db

  -- IsInitialized
  unfoldable pub is_initialized : Db → Result Bool
  is_initialized db = do n ← table.count db; ok (ltb 0 n)

  unfoldable pub password_part : Option String → Result (List UserAssignment)
  unfolding hash_password
  password_part none = ok []
  password_part (some password) = do
    hash ← hash_password bcrypt password
    ok (password_hash hash ∷ [])

  abbrev pub update_executed : ℤ → Option GoError × Db → Result User × Db
  update_executed id (some e, db) = (err e, db)
  update_executed id (none, db) = (get_user id db, db)

  unfoldable pub update_parts_of : ℤ → Result (List UserAssignment) → Db → Result User × Db
  unfolding get_user
  update_parts_of id (err e) db = (err e, db)
  update_parts_of id (ok []) db = (err (other "no update fields provided"), db)
  update_parts_of id (ok (first ∷ rest)) db = update_executed id (table.update id (first ∷ rest) db)

  -- UpdateUser
  unfoldable pub update_user : ℤ → UpdateUserParams → Db → Result User × Db
  unfolding update_parts_of password_part
  update_user id params db =
      update_parts_of id
        (password_part params.password >>= (λ last. ok (name_part params.username ++ last))) db

  -- The test of `Patch` on a name that is given
  abbrev pub is_same_name : Option String → User → Bool
  is_same_name none user = false
  is_same_name (some name) user = trim_space name == trim_space user.username

  unfoldable pub patch_user : ℤ → PatchUserParams → Result User → Db → Result User × Db
  unfolding update_user trim_space
  patch_user id params (err e) db = (err e, db)
  patch_user id params (ok current) db =
      if is_same_name params.username current
      then (err (http_error validation "username empty"), db)
      else update_user id (record { username = params.username; password = none }) db

  -- Patch
  unfoldable pub patch : ℤ → PatchUserParams → Db → Result User × Db
  unfolding patch_user get_user
  patch id params db = patch_user id params (get_user id db) db

  -- `CompareHashAndPassword(...) == nil`
  abbrev pub agrees : UserAuth → String → Bool
  agrees auth password = elim (compare_hash_and_password bcrypt auth.password_hash password) [
    | none ↦ true
    | some e ↦ false
  ]

  unfoldable pub change_password :
      ℤ → UpdatePasswordParams → Result UserAuth → Db → Result User × Db
  unfolding update_user compare_hash_and_password
  change_password id params (err e) db = (err e, db)
  change_password id params (ok auth) db =
      if agrees auth params.current_password
      then (if agrees auth params.new_password
          then (err (http_error validation "new password matches current password"), db)
          else update_user id (record { username = none; password = some params.new_password }) db)
      else (err (http_error unauthorized "current password incorrect"), db)

  -- UpdatePassword
  unfoldable pub update_password : ℤ → UpdatePasswordParams → Db → Result User × Db
  unfolding change_password get_user_auth
  update_password id params db = change_password id params (get_user_auth id db) db

  -- What the logins and the setup use of the store, with the sessions of the caller
  abbrev pub auth_port :
      (ℤ → Db → Result String × Db) → (String → Db → Option GoError × Db) → AuthPort Db
  auth_port create_session destroy_session = record {
    to_lower = table.to_lower;
    select_user = table.select_by_name;
    compare = bcrypt.compare;
    create_session = create_session;
    destroy_session = destroy_session;
  }

  abbrev pub setup_port : (ℤ → Db → Result String × Db) → SetupPort Db
  setup_port create_session = record {
    is_initialized = is_initialized;
    create_user = create_user;
    create_session = create_session;
  }
