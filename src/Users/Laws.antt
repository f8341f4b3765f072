-- ===== src/Users/Laws.antt =====
-- What a change of a user means for the next login.
use pihole_cluster_admin.Prelude.{
  some-ne-none, ℤ, ◌≡◌, ◌≢◌, ◌↔◌, refl, sym, ◌∙◌, ap, String, Option, none, some, int_eq, string_eq,
}
use pihole_cluster_admin.Text.{trim_space}
use pihole_cluster_admin.Httpx.{GoError, Result, ok}
use pihole_cluster_admin.Httpx.Laws.{err-ne-ok}
use pihole_cluster_admin.Domain.{User}
use pihole_cluster_admin.Crypto.{Bcrypt}
use pihole_cluster_admin.Auth.{UserRow, row_to_domain_user, compared, check_row, validate_user}
use pihole_cluster_admin.Auth.Laws.{check_row-ok}
use pihole_cluster_admin.Users.{UpdatePasswordParams, UserTable, patch, update_password, auth_port}
use pihole_cluster_admin.Users.Updates.{UserLaws}
use pihole_cluster_admin.Users.Changes.{update_password-IsUpdated, patch-IsUpdated}

-- A hash agrees with the password that it was made from.
pub record BcryptLaws (bcrypt : Bcrypt) : Type 0 where
  pub agrees :
      (password hash : String)
      → bcrypt.generate password ≡ ok hash
      → bcrypt.compare hash password ≡ none

module _ {Db : Type 0} (table : UserTable Db) (bcrypt : Bcrypt) (laws : UserLaws table) where
  compared_iff :
      (row : UserRow) (user : User) (o : Option GoError)
      → row_to_domain_user row ≡ user
      → (compared row o ≡ ok user) ↔ (o ≡ none)
  compared_iff row user none made = ((λ h. refl), (λ h. ap ok made))
  compared_iff row user (some e) made =
      ((λ h. absurd (err-ne-ok h)), (λ h. absurd (some-ne-none h)))

  module _ (create_session : ℤ → Db → Result String × Db)
      (destroy_session : String → Db → Option GoError × Db) where
    -- What ValidateUser says of a user and a password
    abbrev pub IsAccepted : User → String → Db → Type 0
    IsAccepted user password db =
        validate_user (auth_port table bcrypt create_session destroy_session) user.username password
          db
        ≡ ok user

    -- If the table behaves as documented and bcrypt finds that a hash agrees with the password it was
    -- made from, then after UpdatePassword has succeeded for a user whose name strings.ToLower keeps,
    -- ValidateUser accepts for that name exactly the passwords that bcrypt finds to agree with the
    -- hash of the new password without the white space around it, and that password is one of them.
    pub update_password-validate_user :
        (id : ℤ) (params : UpdatePasswordParams) (db : Db) (user : User)
        → BcryptLaws bcrypt
        → (update_password table bcrypt id params db).0 ≡ ok user
        → table.to_lower user.username ≡ user.username
        → (hash : String) × (bcrypt.generate (trim_space params.new_password) ≡ ok hash)
          × ((password : String)
              → IsAccepted user password (update_password table bcrypt id params db).1
                ↔ (bcrypt.compare hash password ≡ none))
          × IsAccepted user
              (trim_space params.new_password)
              (update_password table bcrypt id params db).1
    unfolding validate_user row_to_domain_user
    update_password-validate_user id params db user bcrypt_laws h lower =
        let after = (update_password table bcrypt id params db).1 in
        let port = auth_port table bcrypt create_session destroy_session in
        let (old, new, before, e, made, name, hash) =
          update_password-IsUpdated table bcrypt laws id params db user h in
        let found : table.select_by_name (table.to_lower user.username) after ≡ ok new =
          ap (λ n. table.select_by_name n after) (lower ∙ sym (ap (λ u. u.username) made))
          ∙ laws.named id after new e in
        let accepted : (password : String)
            → IsAccepted user password after ↔ (bcrypt.compare new.password_hash password ≡ none) =
          λ password.
            let checked = ap (check_row port password) found in
            let (to, from) =
              compared_iff new user (bcrypt.compare new.password_hash password) made in
            ((λ v. to (sym checked ∙ v)), (λ same. checked ∙ from same)) in
        (
          new.password_hash,
          hash,
          accepted,
          (accepted (trim_space params.new_password)).1
              (bcrypt_laws.agrees (trim_space params.new_password) new.password_hash hash),
        )

    -- If the table behaves as documented, then after Patch has given a user a name that
    -- strings.ToLower changes, ValidateUser refuses that user under this name, whatever the password.
    pub patch_locks_out :
        (id : ℤ) (name : String) (db : Db) (user : User) (password : String)
        → (patch table bcrypt id (record { username = some name }) db).0 ≡ ok user
        → table.to_lower name ≢ name
        → validate_user
            (auth_port table bcrypt create_session destroy_session)
            name
            password
            (patch table bcrypt id (record { username = some name }) db).1
          ≢ ok user
    unfolding validate_user row_to_domain_user
    patch_locks_out id name db user password h capital v =
        let after = (patch table bcrypt id (record { username = some name }) db).1 in
        let (old, new, before, e, made, renamed, hash) =
          patch-IsUpdated table bcrypt laws id (record { username = some name }) db user h in
        let (row, found, agreed, row_made) =
          check_row-ok (auth_port table bcrypt create_session destroy_session) password
            (table.select_by_name (table.to_lower name) after) user v in
        capital (
          sym (laws.name_of (table.to_lower name) after row found)
          ∙ ap (λ u. u.username) (row_made ∙ sym made)
          ∙ renamed)
