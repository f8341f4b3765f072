-- ===== src/Users/Updates.antt =====
-- The statements on the table `users`, and the row that an update of a user leaves.
use mathlib.Core.Option
use pihole_cluster_admin.Prelude.{
  some-ne-none, ℕ, ℤ, ◌≡◌, refl, sym, ◌∙◌, ap, subst, String, Option, none, some, List, [], ◌∷◌,
  ◌++◌, int_eq, string_eq, Option-cases, inl, inr,
}
use pihole_cluster_admin.Text.{trim_space}
use pihole_cluster_admin.Httpx.{GoError, no_rows, Result, ok, err, ◌>>=◌}
use pihole_cluster_admin.Httpx.Laws.{ok-injective, err-ne-ok}
use pihole_cluster_admin.Domain.{User}
use pihole_cluster_admin.Crypto.{Bcrypt, hash_password}
use pihole_cluster_admin.Auth.{UserRow, row_to_domain_user}
use pihole_cluster_admin.Users.{
  UpdateUserParams, UserAssignment, username, password_hash, UserTable, name_part, get_user,
  password_part, update_executed, update_parts_of, update_user,
}

abbrev pub assign : UserAssignment → UserRow → UserRow
assign (username s) row = record row { username = s }
assign (password_hash s) row = record row { password_hash = s }

abbrev pub assign_all : List UserAssignment → UserRow → UserRow
assign_all [] row = row
assign_all (a ∷ rest) row = assign_all rest (assign a row)

-- The table `users`, seen as a partial function from ids to rows, with unique names
pub record UserLaws {Db : Type 0} (table : UserTable Db) : Type 0 where
  pub row : Db → ℤ → Option UserRow
  pub stamp : Db → UserRow → ℕ
  pub updated :
      (id : ℤ) (parts : List UserAssignment) (db : Db)
      → (table.update id parts db).0 ≡ none
      → row (table.update id parts db).1 id
        ≡ Option.map (λ r. record (assign_all parts r) { updated_at = stamp db r }) (row db id)
  pub selected :
      (id : ℤ) (db : Db) (r : UserRow) → row db id ≡ some r → table.select_one id db ≡ ok r
  pub not_selected : (id : ℤ) (db : Db) → row db id ≡ none → table.select_one id db ≡ err no_rows
  pub named :
      (id : ℤ) (db : Db) (r : UserRow)
      → row db id ≡ some r
      → table.select_by_name r.username db ≡ ok r
  pub name_of :
      (name : String) (db : Db) (r : UserRow)
      → table.select_by_name name db ≡ ok r
      → r.username ≡ name

module _ {Db : Type 0} (table : UserTable Db) (bcrypt : Bcrypt) (laws : UserLaws table) where
  -- The hash of a row after an update
  abbrev pub HasHash : Option String → UserRow → UserRow → Type 0
  HasHash none old new = new.password_hash ≡ old.password_hash
  HasHash (some password) old new = bcrypt.generate (trim_space password) ≡ ok new.password_hash

  -- The row of a user that has been updated
  abbrev pub IsUpdated : ℤ → UpdateUserParams → User → Db → Db → Type 0
  IsUpdated id params user before after =
      (old : UserRow) × (new : UserRow) × (laws.row before id ≡ some old)
      × (laws.row after id ≡ some new)
      × (row_to_domain_user new ≡ user)
      × (new.username ≡ Option.get_or params.username old.username)
      × HasHash params.password old new

  -- The last part of an update leaves the name as it is.
  abbrev IsPart : Option String → List UserAssignment → Type 0
  IsPart password last =
      (r : UserRow)
      → ((assign_all last r).username ≡ r.username) × HasHash password r (assign_all last r)

  password_part-IsPart :
      (password : Option String) (last : List UserAssignment)
      → password_part table bcrypt password ≡ ok last
      → IsPart password last
  unfolding password_part hash_password
  password_part-IsPart none last h = subst (IsPart none) (ok-injective _ _ h) (λ r. (refl, refl))
  password_part-IsPart (some p) last h = hashed (bcrypt.generate (trim_space p)) refl h
    where
      hashed :
          (r : Result String)
          → bcrypt.generate (trim_space p) ≡ r
          → (r >>= (λ hash. ok (password_hash hash ∷ []))) ≡ ok last
          → IsPart (some p) last
      hashed (err e) same h' = absurd (err-ne-ok h')
      hashed (ok hash) same h' = subst (IsPart (some p)) (ok-injective _ _ h') (λ r. (refl, same))

  named_part :
      (name password : Option String) (last : List UserAssignment) (r : UserRow)
      → IsPart password last
      → ((assign_all (name_part name ++ last) r).username ≡ Option.get_or name r.username)
        × HasHash password r (assign_all (name_part name ++ last) r)
  named_part none password last r h = h r
  named_part (some name) password last r h =
      ((h (record r { username = name })).0, renamed password (h (record r { username = name })).1)
    where
      renamed :
          (o : Option String)
          → HasHash o
              (record r { username = name })
              (assign_all last (record r { username = name }))
          → HasHash o r (assign_all last (record r { username = name }))
      renamed none e = e
      renamed (some p) e = e

  got_user :
      (id : ℤ) (db : Db) (user : User)
      → get_user table bcrypt id db ≡ ok user
      → (new : UserRow) × (laws.row db id ≡ some new) × (row_to_domain_user new ≡ user)
  unfolding get_user
  got_user id db user h = elim (Option-cases (laws.row db id)) [
    | inl e ↦ absurd (
        err-ne-ok
          (sym (ap (λ s. s >>= (λ r. ok (row_to_domain_user r))) (laws.not_selected id db e)) ∙ h))
    | inr (new, e) ↦ (
      new,
      e,
      ok-injective _ _
          (sym (ap (λ s. s >>= (λ r. ok (row_to_domain_user r))) (laws.selected id db new e)) ∙ h),
    )
  ]

  old_row :
      (f : UserRow → UserRow) (o : Option UserRow) (new : UserRow)
      → Option.map f o ≡ some new
      → (old : UserRow) × (o ≡ some old) × (f old ≡ new)
  old_row f none new h = absurd (some-ne-none (sym h))
  old_row f (some old) new h = (old, refl, some-injective _ _ h)
    where
      some-injective : (a b : UserRow) → some a ≡ some b → a ≡ b
      some-injective a b e = cc

  update_executed_lem :
      (id : ℤ) (params : UpdateUserParams) (last parts : List UserAssignment) (db : Db)
      (u : Option GoError × Db) (user : User)
      → name_part params.username ++ last ≡ parts
      → table.update id parts db ≡ u
      → IsPart params.password last
      → (update_executed table bcrypt id u).0 ≡ ok user
      → IsUpdated id params user db (update_executed table bcrypt id u).1
  update_executed_lem id params last parts db (some x, db') user all same is_part h =
      absurd (err-ne-ok h)
  update_executed_lem id params last parts db (none, db') user all same is_part h =
      let (new, e, made) = got_user id db' user h in
      let change = λ (r : UserRow). record (assign_all parts r) { updated_at = laws.stamp db r } in
      let changed : Option.map change (laws.row db id) ≡ some new =
        sym (laws.updated id parts db (ap (λ p. p.0) same)) ∙ ap (λ p. laws.row p.1 id) same ∙ e in
      let (old, before, made_from) = old_row change (laws.row db id) new changed in
      let (name, hash) =
        subst
          (λ ps.
            ((assign_all ps old).username ≡ Option.get_or params.username old.username)
            × HasHash params.password old (assign_all ps old))
          all (named_part params.username params.password last old is_part) in
      (
        old,
        new,
        before,
        e,
        made,
        sym (ap (λ r. r.username) made_from) ∙ name,
        same_hash params.password old (assign_all parts old) new
            (ap (λ r. r.password_hash) made_from) hash,
      )
    where
      same_hash :
          (o : Option String) (old a b : UserRow)
          → a.password_hash ≡ b.password_hash
          → HasHash o old a
          → HasHash o old b
      same_hash none old a b same hash = sym same ∙ hash
      same_hash (some p) old a b same hash = hash ∙ ap ok same

  update_parts_of_lem :
      (id : ℤ) (params : UpdateUserParams) (last parts : List UserAssignment) (db : Db)
      (user : User)
      → name_part params.username ++ last ≡ parts
      → IsPart params.password last
      → (update_parts_of table bcrypt id (ok parts) db).0 ≡ ok user
      → IsUpdated id params user db (update_parts_of table bcrypt id (ok parts) db).1
  unfolding update_parts_of
  update_parts_of_lem id params last [] db user all is_part h = absurd (err-ne-ok h)
  update_parts_of_lem id params last (a ∷ rest) db user all is_part h =
      update_executed_lem id params last (a ∷ rest) db _ user all refl is_part h

  pub update_user_lem :
      (id : ℤ) (params : UpdateUserParams) (db : Db) (user : User)
      → (update_user table bcrypt id params db).0 ≡ ok user
      → IsUpdated id params user db (update_user table bcrypt id params db).1
  unfolding update_user update_parts_of
  update_user_lem id params db user h =
      with_last (password_part table bcrypt params.password) refl h
    where
      with_last :
          (r : Result (List UserAssignment))
          → password_part table bcrypt params.password ≡ r
          → (update_parts_of table bcrypt id
              (r >>= (λ last. ok (name_part params.username ++ last)))
              db).0
            ≡ ok user
          → IsUpdated id params user db
              (update_parts_of table bcrypt id
                (r >>= (λ last. ok (name_part params.username ++ last)))
                db).1
      with_last (err e) same h' = absurd (err-ne-ok h')
      with_last (ok last) same h' =
          update_parts_of_lem id params last _ db user refl
            (password_part-IsPart params.password last same) h'
