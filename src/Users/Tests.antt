-- ===== src/Users/Tests.antt =====
-- A table with one user, and a hash that is the password itself.
use pihole_cluster_admin.Prelude.{
  ℤ, pos, ◌≡◌, ◌≢◌, ◌↔◌, refl, sym, ◌∙◌, ap, subst, String, Bool, true, false, Option, none, some,
  List, [], ◌∷◌, ◌==◌, string_eq, int_eq, if◌then◌else◌, eq_iff, beq_refl,
}
use mathlib.Core.Option
use pihole_cluster_admin.Text.{trim_space, to_lower, byte_length}
use pihole_cluster_admin.Httpx.{other, no_rows, GoError, Result, ok, err, panicked}
use pihole_cluster_admin.Httpx.Laws.{ok-injective, err-ne-ok}
use pihole_cluster_admin.Domain.{User}
use pihole_cluster_admin.Crypto.{Bcrypt, hash_password, compare_hash_and_password}
use pihole_cluster_admin.Auth.{UserRow, validate_user, row_to_domain_user}
use pihole_cluster_admin.Users.{
  UpdatePasswordParams, UserAssignment, username, password_hash, UserTable, update_password,
  update_user, update_parts_of, password_part, patch, patch_user, get_user, get_user_auth,
  change_password, auth_port,
}
use pihole_cluster_admin.Users.Handler.{
  UserService, handle_update_password, for_own_id, password_guards,
}
use pihole_cluster_admin.Users.Updates.{assign_all, UserLaws}
use pihole_cluster_admin.Users.Laws.{
  BcryptLaws, IsAccepted, update_password-validate_user, patch_locks_out,
}

abbrev row_at : UserRow → ℤ → Option UserRow
row_at db id = if id == db.id then some db else none

abbrev select : Option UserRow → Result UserRow
select none = err no_rows
select (some r) = ok r

abbrev changed : List UserAssignment → UserRow → UserRow
changed parts r = record (assign_all parts r) { updated_at = 0 }

abbrev one_user : UserTable UserRow
one_user = record {
  to_lower = to_lower;
  insert = λ name hash db. (err (other "the table is full"), db);
  update = λ id parts db. (none, if id == db.id then changed parts db else db);
  select_one = λ id db. select (row_at db id);
  select_by_name = λ name db. select (if db.username == name then some db else none);
  count = λ db. ok 1;
}

abbrev plain : Bcrypt
plain = record {
  generate = λ password. ok password;
  compare = λ hash password. if password == hash then none else some (other "mismatch");
}

id-assign_all : (parts : List UserAssignment) (r : UserRow) → (assign_all parts r).id ≡ r.id
id-assign_all [] r = refl
id-assign_all (username s ∷ parts) r = id-assign_all parts (record r { username = s })
id-assign_all (password_hash s ∷ parts) r = id-assign_all parts (record r { password_hash = s })

row_at-changed :
    (id : ℤ) (parts : List UserAssignment) (db : UserRow) (b : Bool)
    → (id == db.id) ≡ b
    → row_at (if b then changed parts db else db) id
      ≡ Option.map (changed parts) (if b then some db else none)
row_at-changed id parts db true e = rw (id-assign_all parts db, e) refl
row_at-changed id parts db false e = rw e refl

found : (b : Bool) (db r : UserRow) → (if b then some db else none) ≡ some r → (b ≡ true) × (db ≡ r)
found true db r e = (refl, cc)
found false db r e = absurd cc

selected_row :
    (b : Bool) (db r : UserRow)
    → select (if b then some db else none) ≡ ok r
    → (b ≡ true) × (db ≡ r)
selected_row true db r e = (refl, ok-injective _ _ e)
selected_row false db r e = absurd (err-ne-ok e)

one_user-laws : UserLaws one_user
one_user-laws = record {
  row = row_at;
  stamp = λ db r. 0;
  updated = λ id parts db done. row_at-changed id parts db (id == db.id) refl;
  selected = λ id db r e. ap select e;
  not_selected = λ id db e. ap select e;
  named = λ id db r e.
      let (here, same) = found (id == db.id) db r e in
      subst (λ (q : UserRow). select (if db.username == q.username then some db else none) ≡ ok q)
        same (rw (beq_refl db.username) refl);
  name_of = λ name db r e.
      let (here, same) = selected_row (db.username == name) db r e in
      ap (λ (q : UserRow). q.username) (sym same) ∙ (eq_iff db.username name).0 here;
}

compare_same : (p hash : String) → ok p ≡ Result.ok hash → plain.compare hash p ≡ none
compare_same p hash h = rw (ok-injective _ _ h, beq_refl hash) refl

plain-laws : BcryptLaws plain
plain-laws = record { agrees = compare_same }

abbrev bob : UserRow
bob = record { id = pos 1; username = "bob"; password_hash = "old"; created_at = 0; updated_at = 0 }

abbrev bob_user : User
bob_user = record { id = pos 1; username = "bob"; created_at = 0; updated_at = 0 }

abbrev big_bob : User
big_bob = record { id = pos 1; username = "Bob"; created_at = 0; updated_at = 0 }

abbrev no_create : ℤ → UserRow → Result String × UserRow
no_create id db = (err (other "no sessions"), db)

abbrev no_destroy : String → UserRow → Option GoError × UserRow
no_destroy id db = (none, db)

abbrev new_pass : UpdatePasswordParams
new_pass = record { current_password = "old"; new_password = "new pass " }

update_password-validate_user_example :
    (hash : String) × (plain.generate (trim_space "new pass ") ≡ ok hash)
    × ((password : String)
        → IsAccepted one_user plain one_user-laws no_create no_destroy bob_user password
            (update_password one_user plain (pos 1) new_pass bob).1
          ↔ (plain.compare hash password ≡ none))
    × IsAccepted one_user plain one_user-laws no_create no_destroy bob_user
        (trim_space "new pass ")
        (update_password one_user plain (pos 1) new_pass bob).1
unfolding update_password change_password get_user_auth update_user update_parts_of password_part
    get_user hash_password compare_hash_and_password trim_space to_lower row_to_domain_user
update_password-validate_user_example =
    update_password-validate_user one_user plain one_user-laws no_create no_destroy (pos 1) new_pass
      bob bob_user plain-laws refl refl

capital_name : ◌≢◌ {A = String} "bob" "Bob"
capital_name h = cc

patch_locks_out_example :
    validate_user
      (auth_port one_user plain no_create no_destroy)
      "Bob"
      "old"
      (patch one_user plain (pos 1) (record { username = some "Bob" }) bob).1
    ≢ ok big_bob
unfolding patch patch_user update_user update_parts_of password_part get_user trim_space to_lower
    row_to_domain_user
patch_locks_out_example =
    patch_locks_out one_user plain one_user-laws no_create no_destroy (pos 1) "Bob" bob big_bob
      "old" refl capital_name

abbrev service : UserService UserRow
service = record { patch = patch one_user plain; update_password = update_password one_user plain }

-- A wrong current password ends in a panic.
wrong_current :
    (handle_update_password service
      (some (record { current_password = "wrong"; new_password = "new pass" }))
      (some (pos 1))
      (some (pos 1))
      bob).0
    ≡ panicked
unfolding handle_update_password for_own_id password_guards update_password change_password
    get_user_auth compare_hash_and_password trim_space byte_length
wrong_current = refl
