-- ===== src/Nodes/Store.antt =====
-- backend/internal/store/pihole.go over the table `piholes`.
--
-- What SQLite does for each statement is the parameter `PiholeTable`. The text of an UPDATE is the
-- list of its assignments, in the order of the text.
pub mod Laws
pub mod Update
use pihole_cluster_admin.Prelude.{
  ℕ, ℤ, String, Bool, true, false, Option, none, some, List, [], ◌∷◌, ◌++◌, ltb,
}
use pihole_cluster_admin.Text.{trim_space}
use pihole_cluster_admin.Httpx.{GoError, other, Result, ok, err, ◌>>=◌}
use pihole_cluster_admin.Domain.{PiholeNode, PiholeNodeSecret}
use pihole_cluster_admin.Crypto.{Cipher, encrypt_password, decrypt_password}

-- piholeRow, AddPiholeParams and UpdatePiholeParams of store/types.go
pub record PiholeRow : Type 0 where
  pub id : ℤ
  pub scheme : String
  pub host : String
  pub port : ℤ
  pub name : String
  pub description : String
  pub password_enc : String
  pub created_at : ℕ
  pub updated_at : ℕ

pub record AddPiholeParams : Type 0 where
  pub scheme : String
  pub host : String
  pub port : ℤ
  pub name : String
  pub description : String
  pub password : String

pub record UpdatePiholeParams : Type 0 where
  pub scheme : Option String
  pub host : Option String
  pub port : Option ℤ
  pub name : Option String
  pub description : Option String
  pub password : Option String

-- One `column = ?` of an UPDATE, with its argument.
pub data Assignment : Type 0 where
  scheme host name description password_enc : String → Assignment
  port : ℤ → Assignment

-- The statements. `insert` takes the columns in the order of the text, with the time filled in by
-- SQLite, and returns the new id; `delete` returns the number of rows that it has deleted.
pub record PiholeTable (Db : Type 0) : Type 0 where
  pub insert : String → String → ℤ → String → String → String → Db → Result ℤ × Db
  pub update : ℤ → List Assignment → Db → Option GoError × Db
  pub select_one : ℤ → Db → Result PiholeRow
  pub select_all : Db → Result (List PiholeRow)
  pub delete : ℤ → Db → Result ℕ × Db

-- rowToDomainNode
unfoldable pub row_to_domain_node : PiholeRow → PiholeNode
row_to_domain_node row = record {
  id = row.id;
  scheme = row.scheme;
  host = row.host;
  port = row.port;
  name = row.name;
  description = row.description;
  created_at = row.created_at;
  updated_at = row.updated_at;
}

-- `if params.X != nil { updateParts = append(...) }`
abbrev pub part : {A : Type 0} → (A → Assignment) → Option A → List Assignment
part column none = []
part column (some a) = column a ∷ []

-- The parts before that of the password
unfoldable pub update_parts : UpdatePiholeParams → List Assignment
update_parts params =
    part scheme params.scheme
    ++ (part host params.host
        ++ (part port params.port
            ++ (part name params.name ++ part description params.description)))

unfoldable pub nodes_of : List PiholeRow → List PiholeNode
nodes_of [] = []
nodes_of (row ∷ rows) = row_to_domain_node row ∷ nodes_of rows

module _ {Byte Db : Type 0} (cipher : Cipher Byte) (table : PiholeTable Db)
    (encryption_key : String) where
  -- GetPiholeNode
  unfoldable pub get_pihole_node : ℤ → Db → Result PiholeNode
  unfolding row_to_domain_node
  get_pihole_node id db = do row ← table.select_one id db; ok (row_to_domain_node row)

  -- GetPiholeNodeSecret
  unfoldable pub get_pihole_node_secret : ℤ → Db → Result PiholeNodeSecret
  unfolding decrypt_password
  get_pihole_node_secret id db = do
    row ← table.select_one id db
    password ← decrypt_password cipher encryption_key row.password_enc
    ok (record { node_id = row.id; password = password })

  -- GetAllPiholeNodes
  unfoldable pub get_all_pihole_nodes : Db → Result (List PiholeNode)
  unfolding nodes_of
  get_all_pihole_nodes db = do rows ← table.select_all db; ok (nodes_of rows)

  unfoldable pub add_inserted : Result ℤ × Db → Result PiholeNode × Db
  unfolding get_pihole_node
  add_inserted (err e, db) = (err e, db)
  add_inserted (ok id, db) = (get_pihole_node id db, db)

  unfoldable pub add_encrypted : AddPiholeParams → Result String → Db → Result PiholeNode × Db
  unfolding add_inserted
  add_encrypted params (err e) db = (err e, db)
  add_encrypted params (ok secret) db = add_inserted (
      table.insert (trim_space params.scheme) (trim_space params.host) params.port
        (trim_space params.name) (trim_space params.description) secret db)

  -- AddPiholeNode; `random` is the nonce that is read for the encryption.
  unfoldable pub add_pihole_node :
      Result (List Byte) → AddPiholeParams → Db → Result PiholeNode × Db
  unfolding add_encrypted
  add_pihole_node random params db =
      add_encrypted params
        (encrypt_password cipher random encryption_key (trim_space params.password)) db

  -- The parts with that of the password, which is encrypted if it is given.
  unfoldable pub password_part : Result (List Byte) → Option String → Result (List Assignment)
  password_part random none = ok []
  password_part random (some password) = do
    secret ← encrypt_password cipher random encryption_key (trim_space password)
    ok (password_enc secret ∷ [])

  unfoldable pub update_executed : ℤ → Option GoError × Db → Result PiholeNode × Db
  unfolding get_pihole_node
  update_executed id (some e, db) = (err e, db)
  update_executed id (none, db) = (get_pihole_node id db, db)

  unfoldable pub update_parts_of : ℤ → Result (List Assignment) → Db → Result PiholeNode × Db
  unfolding update_executed
  update_parts_of id (err e) db = (err e, db)
  update_parts_of id (ok []) db = (err (other "no update fields provided"), db)
  update_parts_of id (ok (first ∷ rest)) db = update_executed id (table.update id (first ∷ rest) db)

  -- UpdatePiholeNode
  unfoldable pub update_pihole_node :
      Result (List Byte) → ℤ → UpdatePiholeParams → Db → Result PiholeNode × Db
  unfolding update_parts_of update_parts password_part
  update_pihole_node random id params db =
      update_parts_of id
        (password_part random params.password >>= (λ last. ok (update_parts params ++ last))) db

  abbrev pub removed : Result ℕ × Db → Result Bool × Db
  removed (err e, db) = (err e, db)
  removed (ok rows_affected, db) = (ok (ltb 0 rows_affected), db)

  -- RemovePiholeNode
  unfoldable pub remove_pihole_node : ℤ → Db → Result Bool × Db
  remove_pihole_node id db = removed (table.delete id db)
