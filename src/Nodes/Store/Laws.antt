-- ===== src/Nodes/Store/Laws.antt =====
-- What the operations of the store do to the rows, if the table behaves as a table does.
use pihole_cluster_admin.Prelude.{
  ℕ, ℤ, ◌≡◌, refl, sym, ◌∙◌, ap, String, Option, none, some, List, [], ◌∷◌, ◌==◌, int_eq,
  if◌then◌else◌, length, int_beq_refl, ◌⊎◌, inl, inr,
}
use mathlib.Core.Option
use pihole_cluster_admin.Text.{trim_space}
use pihole_cluster_admin.Httpx.{GoError, no_rows, Result, ok, err, ◌>>=◌}
use pihole_cluster_admin.Domain.{PiholeNode}
use pihole_cluster_admin.Crypto.{Cipher, encrypt_password, decrypt_password}
use pihole_cluster_admin.Crypto.Laws.{CipherLaws, decrypt_password-encrypt_password}
use pihole_cluster_admin.Nodes.Store.{
  PiholeRow, AddPiholeParams, Assignment, scheme, host, port, name, description, password_enc,
  PiholeTable, row_to_domain_node, get_pihole_node, get_pihole_node_secret, add_inserted,
  add_encrypted, add_pihole_node,
}

-- What an assignment does to a row
abbrev pub assign : Assignment → PiholeRow → PiholeRow
assign (scheme s) row = record row { scheme = s }
assign (host s) row = record row { host = s }
assign (port n) row = record row { port = n }
assign (name s) row = record row { name = s }
assign (description s) row = record row { description = s }
assign (password_enc s) row = record row { password_enc = s }

abbrev pub assign_all : List Assignment → PiholeRow → PiholeRow
assign_all [] row = row
assign_all (a ∷ rest) row = assign_all rest (assign a row)

-- The table `piholes`, seen as a partial function from ids to rows. An insertion makes a row under
-- a fresh id; an update assigns to the row of the id, if there is one, and the trigger sets its
-- time; a statement that fails changes no row; and a read of one row finds it if it is there.
pub record TableLaws {Db : Type 0} (table : PiholeTable Db) : Type 0 where
  pub row : Db → ℤ → Option PiholeRow
  pub now : Db → ℕ
  pub stamp : Db → PiholeRow → ℕ
  pub keyed : (db : Db) (id : ℤ) (r : PiholeRow) → row db id ≡ some r → r.id ≡ id
  pub inserted :
      (s h : String) (p : ℤ) (n d e : String) (db : Db) (id : ℤ)
      → (table.insert s h p n d e db).0 ≡ ok id
      → (row db id ≡ none)
        × ((k : ℤ)
            → row (table.insert s h p n d e db).1 k ≡ (
                if id == k
                then some (record {
                  id = id;
                  scheme = s;
                  host = h;
                  port = p;
                  name = n;
                  description = d;
                  password_enc = e;
                  created_at = now db;
                  updated_at = now db;
                })
                else row db k))
  pub insert_failed :
      (s h : String) (p : ℤ) (n d e : String) (db : Db) (x : GoError)
      → (table.insert s h p n d e db).0 ≡ err x
      → (k : ℤ) → row (table.insert s h p n d e db).1 k ≡ row db k
  pub updated :
      (id : ℤ) (parts : List Assignment) (db : Db)
      → (table.update id parts db).0 ≡ none
      → (k : ℤ)
      → row (table.update id parts db).1 k ≡ (
          if id == k
          then Option.map (λ r. record (assign_all parts r) { updated_at = stamp db r }) (row db k)
          else row db k)
  pub update_failed :
      (id : ℤ) (parts : List Assignment) (db : Db) (x : GoError)
      → (table.update id parts db).0 ≡ some x
      → (k : ℤ) → row (table.update id parts db).1 k ≡ row db k
  pub selected :
      (id : ℤ) (db : Db) (r : PiholeRow) → row db id ≡ some r → table.select_one id db ≡ ok r
  pub not_selected : (id : ℤ) (db : Db) → row db id ≡ none → table.select_one id db ≡ err no_rows
  pub deleted :
      (id : ℤ) (db : Db) (n : ℕ)
      → (table.delete id db).0 ≡ ok n
      → (k : ℤ) → row (table.delete id db).1 k ≡ (if id == k then none else row db k)
  pub delete_failed :
      (id : ℤ) (db : Db) (x : GoError)
      → (table.delete id db).0 ≡ err x
      → (k : ℤ) → row (table.delete id db).1 k ≡ row db k

module _ {Byte Db : Type 0} (cipher : Cipher Byte) (table : PiholeTable Db) (key : String)
    (cipher_laws : CipherLaws cipher) (laws : TableLaws table) where
  abbrev pub SameRows : Db → Db → Type 0
  SameRows before after = (k : ℤ) → laws.row after k ≡ laws.row before k

  -- The secret of a row can be read.
  abbrev pub Reads : PiholeRow → String → Type 0
  Reads r password = decrypt_password cipher key r.password_enc ≡ ok password

  abbrev pub HasFailed : Result PiholeNode × Db → Db → Type 0
  HasFailed r db = ((x : GoError) × (r.0 ≡ err x)) × SameRows db r.1

  -- There is a new row, with the trimmed texts of the parameters, under an id that was free.
  abbrev pub HasAdded : AddPiholeParams → Result PiholeNode × Db → Db → Type 0
  HasAdded params r db =
      (new : PiholeRow) × (laws.row db new.id ≡ none)
      × ((k : ℤ) → laws.row r.1 k ≡ (if new.id == k then some new else laws.row db k))
      × (r.0 ≡ ok (row_to_domain_node new))
      × Reads new (trim_space params.password)
      × (new.scheme ≡ trim_space params.scheme)
      × (new.host ≡ trim_space params.host)
      × (new.port ≡ params.port)
      × (new.name ≡ trim_space params.name)

  pub found :
      (id : ℤ) (db : Db) (r : PiholeRow)
      → laws.row db id ≡ some r
      → get_pihole_node cipher table key id db ≡ ok (row_to_domain_node r)
  unfolding get_pihole_node
  found id db r e = ap (λ s. s >>= (λ row. ok (row_to_domain_node row))) (laws.selected id db r e)

  pub if_same : (id : ℤ) (a b : Option PiholeRow) → (if id == id then a else b) ≡ a
  if_same id a b = rw (int_beq_refl id) refl

  add_inserted_lem :
      (params : AddPiholeParams) (secret : String) (db : Db) (i : Result ℤ × Db)
      → table.insert
          (trim_space params.scheme)
          (trim_space params.host)
          params.port
          (trim_space params.name)
          (trim_space params.description)
          secret
          db
        ≡ i
      → decrypt_password cipher key secret ≡ ok (trim_space params.password)
      → HasFailed (add_inserted cipher table key i) db
        ⊎ HasAdded params (add_inserted cipher table key i) db
  unfolding add_inserted
  add_inserted_lem params secret db (err e, db') same reads = inl (
    (e, refl),
    λ k.
        ap (λ p. laws.row p.1 k) (sym same)
        ∙ laws.insert_failed _ _ _ _ _ _ db e (ap (λ p. p.0) same) k,
  )
  add_inserted_lem params secret db (ok id, db') same reads =
      let (fresh, rows) = laws.inserted _ _ _ _ _ _ db id (ap (λ p. p.0) same) in
      let new : PiholeRow = record {
        id = id;
        scheme = trim_space params.scheme;
        host = trim_space params.host;
        port = params.port;
        name = trim_space params.name;
        description = trim_space params.description;
        password_enc = secret;
        created_at = laws.now db;
        updated_at = laws.now db;
      } in
      let rows' : (k : ℤ) → laws.row db' k ≡ (if id == k then some new else laws.row db k) =
        λ k. ap (λ p. laws.row p.1 k) (sym same) ∙ rows k in
      inr (
        new,
        fresh,
        rows',
        found id db' new (rows' id ∙ if_same id (some new) (laws.row db id)),
        reads,
        refl,
        refl,
        refl,
        refl,
      )

  add_encrypted_lem :
      (nonce : List Byte) (params : AddPiholeParams) (db : Db) (r : Result String)
      → length nonce ≡ cipher.nonce_size
      → encrypt_password cipher (ok nonce) key (trim_space params.password) ≡ r
      → HasFailed (add_encrypted cipher table key params r db) db
        ⊎ HasAdded params (add_encrypted cipher table key params r db) db
  unfolding add_encrypted
  add_encrypted_lem nonce params db (err e) size same = inl ((e, refl), λ k. refl)
  add_encrypted_lem nonce params db (ok secret) size same =
      add_inserted_lem params secret db _ refl (
        decrypt_password-encrypt_password cipher cipher_laws key (trim_space params.password) secret
          nonce size same)

  -- If the table and the cipher behave as documented and the nonce has the size that the cipher
  -- asks for, then AddPiholeNode either returns an error and leaves every row as it was, or adds
  -- one row under a fresh id, with the trimmed texts of the parameters and a password that is
  -- decrypted to the trimmed one, and returns that row's node.
  pub add_pihole_node-HasAdded :
      (nonce : List Byte) (params : AddPiholeParams) (db : Db)
      → length nonce ≡ cipher.nonce_size
      → HasFailed (add_pihole_node cipher table key (ok nonce) params db) db
        ⊎ HasAdded params (add_pihole_node cipher table key (ok nonce) params db) db
  unfolding add_pihole_node
  add_pihole_node-HasAdded nonce params db size = add_encrypted_lem nonce params db _ size refl

  -- The secret of a row that can be read
  pub get_pihole_node_secret_lem :
      (db : Db) (r : PiholeRow) (password : String)
      → laws.row db r.id ≡ some r
      → Reads r password
      → get_pihole_node_secret cipher table key r.id db
        ≡ ok (record { node_id = r.id; password = password })
  unfolding get_pihole_node_secret
  get_pihole_node_secret_lem db r password e reads =
      ap
        (λ s. s >>= (λ row.
          decrypt_password cipher key row.password_enc
          >>= (λ p. ok (record { node_id = row.id; password = p }))))
        (laws.selected r.id db r e)
      ∙ ap (λ s. s >>= (λ p. ok (record { node_id = r.id; password = p }))) reads
