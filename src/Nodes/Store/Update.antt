-- ===== src/Nodes/Store/Update.antt =====
-- UpdatePiholeNode changes the given fields of one row, and nothing else.
use mathlib.Core.Option
use pihole_cluster_admin.Prelude.{
  ℤ, ◌≡◌, refl, sym, ◌∙◌, ap, subst, String, Bool, true, false, Option, none, some, List, [], ◌∷◌,
  ◌++◌, ◌==◌, int_eq, if◌then◌else◌, length, Option-cases, ◌⊎◌, inl, inr, int_beq_iff,
}
use pihole_cluster_admin.Text.{trim_space}
use pihole_cluster_admin.Httpx.{GoError, no_rows, other, Result, ok, err, ◌>>=◌}
use pihole_cluster_admin.Httpx.Laws.{ok-injective, err-ne-ok}
use pihole_cluster_admin.Domain.{PiholeNode}
use pihole_cluster_admin.Crypto.{Cipher, encrypt_password, decrypt_password}
use pihole_cluster_admin.Crypto.Laws.{CipherLaws, decrypt_password-encrypt_password}
use pihole_cluster_admin.Nodes.Store.{
  PiholeRow, UpdatePiholeParams, Assignment, scheme, host, port, name, description, password_enc,
  PiholeTable, part, row_to_domain_node, update_parts, password_part, update_executed,
  update_parts_of, update_pihole_node,
}
use pihole_cluster_admin.Nodes.Store.Laws.{
  assign, assign_all, TableLaws, HasFailed, Reads, found, if_same,
}

assign_all-append :
    (xs ys : List Assignment) (r : PiholeRow)
    → assign_all (xs ++ ys) r ≡ assign_all ys (assign_all xs r)
assign_all-append [] ys r = refl
assign_all-append (x ∷ xs) ys r = assign_all-append xs ys (assign x r)

part_scheme :
    (o : Option String) (r : PiholeRow)
    → assign_all (part scheme o) r ≡ record r { scheme = Option.get_or o r.scheme }
part_scheme none r = refl
part_scheme (some s) r = refl

part_host :
    (o : Option String) (r : PiholeRow)
    → assign_all (part host o) r ≡ record r { host = Option.get_or o r.host }
part_host none r = refl
part_host (some s) r = refl

part_port :
    (o : Option ℤ) (r : PiholeRow)
    → assign_all (part port o) r ≡ record r { port = Option.get_or o r.port }
part_port none r = refl
part_port (some s) r = refl

part_name :
    (o : Option String) (r : PiholeRow)
    → assign_all (part name o) r ≡ record r { name = Option.get_or o r.name }
part_name none r = refl
part_name (some s) r = refl

part_description :
    (o : Option String) (r : PiholeRow)
    → assign_all (part description o) r ≡ record r { description = Option.get_or o r.description }
part_description none r = refl
part_description (some s) r = refl

-- A row with the given fields replaced; the password is left out.
abbrev pub merged : UpdatePiholeParams → PiholeRow → PiholeRow
merged params r = record r {
  scheme = Option.get_or params.scheme r.scheme;
  host = Option.get_or params.host r.host;
  port = Option.get_or params.port r.port;
  name = Option.get_or params.name r.name;
  description = Option.get_or params.description r.description;
}

assign_all-update_parts :
    (params : UpdatePiholeParams) (last : List Assignment) (r : PiholeRow)
    → assign_all (update_parts params ++ last) r ≡ assign_all last (merged params r)
unfolding update_parts
assign_all-update_parts params last r =
    simp (assign_all-append, part_scheme, part_host, part_port, part_name, part_description)

map_missing :
    (b : Bool) (f : PiholeRow → PiholeRow) (o : Option PiholeRow)
    → ((b ≡ true) → o ≡ none)
    → (if b then Option.map f o else o) ≡ o
map_missing true f o h = ap (Option.map f) (h refl) ∙ sym (h refl)
map_missing false f o h = refl

map_found :
    (b : Bool) (f : PiholeRow → PiholeRow) (old : PiholeRow) (o : Option PiholeRow)
    → ((b ≡ true) → o ≡ some old)
    → (if b then Option.map f o else o) ≡ (if b then some (f old) else o)
map_found true f old o h = ap (Option.map f) (h refl)
map_found false f old o h = refl

module _ {Byte Db : Type 0} (cipher : Cipher Byte) (table : PiholeTable Db) (key : String)
    (cipher_laws : CipherLaws cipher) (laws : TableLaws table) where
  -- The password of a row after an update
  abbrev pub HasSecret : Option String → PiholeRow → PiholeRow → Type 0
  HasSecret none old new = new.password_enc ≡ old.password_enc
  HasSecret (some password) old new =
      Reads cipher table key cipher_laws laws new (trim_space password)

  -- The row of the id has the given fields, and the secret is that of the given password; every
  -- other field but the time of the update, and every other row, is as it was.
  abbrev pub HasUpdated : ℤ → UpdatePiholeParams → Result PiholeNode × Db → Db → Type 0
  HasUpdated id params r db =
      (old : PiholeRow) × (new : PiholeRow) × (laws.row db id ≡ some old)
      × ((k : ℤ) → laws.row r.1 k ≡ (if id == k then some new else laws.row db k))
      × (r.0 ≡ ok (row_to_domain_node new))
      × (new ≡ record (merged params old) {
        password_enc = new.password_enc;
        updated_at = new.updated_at;
      })
      × HasSecret params.password old new

  -- The part for the password leaves the rest of a row as it is.
  abbrev IsPart : Option String → List Assignment → Type 0
  IsPart password last =
      (r : PiholeRow)
      → (assign_all last r ≡ record r { password_enc = (assign_all last r).password_enc })
        × HasSecret password r (assign_all last r)

  password_part-IsPart :
      (nonce : List Byte) (password : Option String) (last : List Assignment)
      → length nonce ≡ cipher.nonce_size
      → password_part cipher table key (ok nonce) password ≡ ok last
      → IsPart password last
  unfolding password_part
  password_part-IsPart nonce none last size h =
      subst (IsPart none) (ok-injective _ _ h) (λ r. (refl, refl))
  password_part-IsPart nonce (some p) last size h =
      encrypted (encrypt_password cipher (ok nonce) key (trim_space p)) refl h
    where
      encrypted :
          (r : Result String)
          → encrypt_password cipher (ok nonce) key (trim_space p) ≡ r
          → (r >>= (λ secret. ok (password_enc secret ∷ []))) ≡ ok last
          → IsPart (some p) last
      encrypted (err e) same h' = absurd (err-ne-ok h')
      encrypted (ok secret) same h' = subst (IsPart (some p)) (ok-injective _ _ h') (λ r. (
        refl,
        decrypt_password-encrypt_password cipher cipher_laws key (trim_space p) secret nonce size
            same,
      ))

  at_id :
      (id k : ℤ) (db : Db) (o : Option PiholeRow)
      → laws.row db id ≡ o
      → (id == k) ≡ true
      → laws.row db k ≡ o
  at_id id k db o e same = subst (λ j. laws.row db j ≡ o) ((int_beq_iff id k).0 same) e

  same_secret :
      (password : Option String) (old old' new new' : PiholeRow)
      → old'.password_enc ≡ old.password_enc
      → new.password_enc ≡ new'.password_enc
      → HasSecret password old new
      → HasSecret password old' new'
  same_secret none old old' new new' h h' secret = sym h' ∙ secret ∙ sym h
  same_secret (some p) old old' new new' h h' secret =
      subst (λ c. decrypt_password cipher key c ≡ ok (trim_space p)) h' secret

  update_executed_lem :
      (id : ℤ) (params : UpdatePiholeParams) (last parts : List Assignment) (db : Db)
      (u : Option GoError × Db)
      → update_parts params ++ last ≡ parts
      → table.update id parts db ≡ u
      → IsPart params.password last
      → HasFailed cipher table key cipher_laws laws (update_executed cipher table key id u) db
        ⊎ HasUpdated id params (update_executed cipher table key id u) db
  unfolding update_executed
  update_executed_lem id params last parts db (some x, db') all same is_part = inl (
    (x, refl),
    λ k.
        ap (λ p. laws.row p.1 k) (sym same)
        ∙ laws.update_failed id parts db x (ap (λ p. p.0) same) k,
  )
  update_executed_lem id params last parts db (none, db') all same is_part =
      let rows = λ (k : ℤ).
        ap (λ p. laws.row p.1 k) (sym same) ∙ laws.updated id parts db (ap (λ p. p.0) same) k in
      elim (Option-cases (laws.row db id)) [
        | inl e ↦
            let kept = λ (k : ℤ).
              rows k ∙ map_missing (id == k) _ (laws.row db k) (λ b. at_id id k db none e b) in
            inl (
              (
                no_rows,
                ap (λ s. s >>= (λ row. ok (row_to_domain_node row)))
                    (laws.not_selected id db' (kept id ∙ e)),
              ),
              kept,
            )
        | inr (old, e) ↦
            let new = λ (a : PiholeRow). record a { updated_at = laws.stamp db old } in
            let whole : assign_all parts old ≡ assign_all last (merged params old) =
              ap (λ ps. assign_all ps old) (sym all) ∙ assign_all-update_parts params last old in
            let (shape, secret) = is_part (merged params old) in
            let rows' = λ (k : ℤ).
              rows k
              ∙ map_found (id == k)
                  (λ r. record (assign_all parts r) { updated_at = laws.stamp db r }) old
                  (laws.row db k) (λ b. at_id id k db (some old) e b) in
            inr (
              old,
              new (assign_all parts old),
              e,
              rows',
              found cipher table key cipher_laws laws id db' (new (assign_all parts old))
                  (rows' id ∙ if_same cipher table key cipher_laws laws id _ (laws.row db id)),
              subst
                  (λ a. new a ≡ record (merged params old) {
                    password_enc = a.password_enc;
                    updated_at = laws.stamp db old;
                  })
                  (sym whole) (ap new shape),
              subst (λ a. HasSecret params.password old (new a)) (sym whole)
                  (same_secret params.password (merged params old) old _ _ refl refl secret),
            )
      ]

  update_parts_of_lem :
      (id : ℤ) (params : UpdatePiholeParams) (last parts : List Assignment) (db : Db)
      → update_parts params ++ last ≡ parts
      → IsPart params.password last
      → HasFailed cipher table key cipher_laws laws
          (update_parts_of cipher table key id (ok parts) db)
          db
        ⊎ HasUpdated id params (update_parts_of cipher table key id (ok parts) db) db
  unfolding update_parts_of
  update_parts_of_lem id params last [] db all is_part =
      inl ((other "no update fields provided", refl), λ k. refl)
  update_parts_of_lem id params last (a ∷ rest) db all is_part =
      update_executed_lem id params last (a ∷ rest) db _ all refl is_part

  -- If the table and the cipher behave as documented and the nonce has the size that the cipher
  -- asks for, then UpdatePiholeNode either returns an error and leaves every row as it was, or
  -- changes the row of the id in the given fields and its time and no other row, encrypts the
  -- trimmed password if one is given and keeps the old one if not, and returns the row's node.
  pub update_pihole_node-HasUpdated :
      (nonce : List Byte) (id : ℤ) (params : UpdatePiholeParams) (db : Db)
      → length nonce ≡ cipher.nonce_size
      → HasFailed cipher table key cipher_laws laws
          (update_pihole_node cipher table key (ok nonce) id params db)
          db
        ⊎ HasUpdated id params (update_pihole_node cipher table key (ok nonce) id params db) db
  unfolding update_pihole_node
  update_pihole_node-HasUpdated nonce id params db size =
      with_last (password_part cipher table key (ok nonce) params.password) refl
    where
      with_last :
          (r : Result (List Assignment))
          → password_part cipher table key (ok nonce) params.password ≡ r
          → HasFailed cipher table key cipher_laws laws
              (update_parts_of cipher table key id
                (r >>= (λ last. ok (update_parts params ++ last)))
                db)
              db
            ⊎ HasUpdated id params
                (update_parts_of cipher table key id
                  (r >>= (λ last. ok (update_parts params ++ last)))
                  db)
                db
      with_last (err e) same = inl ((e, refl), λ k. refl)
      with_last (ok last) same =
          update_parts_of_lem id params last _ db refl
            (password_part-IsPart nonce params.password last size same)
