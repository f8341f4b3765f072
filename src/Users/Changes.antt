-- ===== src/Users/Changes.antt =====
-- The changes of a name and of a password that the user service offers: each is an update.
use pihole_cluster_admin.Prelude.{
  ℤ, ◌≡◌, Bool, true, false, none, some, int_eq, string_eq, if◌then◌else◌,
}
use pihole_cluster_admin.Httpx.{http_error, validation, unauthorized, Result, ok, err}
use pihole_cluster_admin.Httpx.Laws.{err-ne-ok}
use pihole_cluster_admin.Domain.{User, UserAuth}
use pihole_cluster_admin.Crypto.{Bcrypt}
use pihole_cluster_admin.Users.{
  PatchUserParams, UpdatePasswordParams, UserTable, update_user, is_same_name, patch_user, patch,
  agrees, change_password, update_password,
}
use pihole_cluster_admin.Users.Updates.{UserLaws, IsUpdated, update_user_lem}

module _ {Db : Type 0} (table : UserTable Db) (bcrypt : Bcrypt) (laws : UserLaws table) where
  patch_user_lem :
      (id : ℤ) (params : PatchUserParams) (r : Result User) (db : Db) (user : User)
      → (patch_user table bcrypt id params r db).0 ≡ ok user
      → IsUpdated table bcrypt laws id
          (record { username = params.username; password = none })
          user
          db
          (patch_user table bcrypt id params r db).1
  unfolding patch_user
  patch_user_lem id params (err e) db user h = absurd (err-ne-ok h)
  patch_user_lem id params (ok current) db user h =
      tested (is_same_name table bcrypt params.username current) h
    where
      tested :
          (b : Bool)
          → (if b
              then (err (http_error validation "username empty"), db)
              else update_user table bcrypt id
                  (record { username = params.username; password = none })
                  db).0
            ≡ ok user
          → IsUpdated table bcrypt laws id
              (record { username = params.username; password = none })
              user
              db
              (if b
                then (err (http_error validation "username empty"), db)
                else update_user table bcrypt id
                    (record { username = params.username; password = none })
                    db).1
      tested true h' = absurd (err-ne-ok h')
      tested false h' =
          update_user_lem table bcrypt laws id
            (record { username = params.username; password = none }) db user h'

  change_password_lem :
      (id : ℤ) (params : UpdatePasswordParams) (r : Result UserAuth) (db : Db) (user : User)
      → (change_password table bcrypt id params r db).0 ≡ ok user
      → IsUpdated table bcrypt laws id
          (record { username = none; password = some params.new_password })
          user
          db
          (change_password table bcrypt id params r db).1
  unfolding change_password
  change_password_lem id params (err e) db user h = absurd (err-ne-ok h)
  change_password_lem id params (ok auth) db user h =
      tested (agrees table bcrypt auth params.current_password)
        (agrees table bcrypt auth params.new_password) h
    where
      outcome : Bool → Bool → Result User × Db
      outcome a b =
          if a
          then (if b
              then (err (http_error validation "new password matches current password"), db)
              else update_user table bcrypt id
                  (record { username = none; password = some params.new_password }) db)
          else (err (http_error unauthorized "current password incorrect"), db)

      tested :
          (a b : Bool)
          → (outcome a b).0 ≡ ok user
          → IsUpdated table bcrypt laws id
              (record { username = none; password = some params.new_password })
              user
              db
              (outcome a b).1
      tested false b h' = absurd (err-ne-ok h')
      tested true true h' = absurd (err-ne-ok h')
      tested true false h' =
          update_user_lem table bcrypt laws id
            (record { username = none; password = some params.new_password }) db user h'

  pub update_password-IsUpdated :
      (id : ℤ) (params : UpdatePasswordParams) (db : Db) (user : User)
      → (update_password table bcrypt id params db).0 ≡ ok user
      → IsUpdated table bcrypt laws id
          (record { username = none; password = some params.new_password })
          user
          db
          (update_password table bcrypt id params db).1
  unfolding update_password
  update_password-IsUpdated id params db user h = change_password_lem id params _ db user h

  pub patch-IsUpdated :
      (id : ℤ) (params : PatchUserParams) (db : Db) (user : User)
      → (patch table bcrypt id params db).0 ≡ ok user
      → IsUpdated table bcrypt laws id
          (record { username = params.username; password = none })
          user
          db
          (patch table bcrypt id params db).1
  unfolding patch
  patch-IsUpdated id params db user h = patch_user_lem id params _ db user h
