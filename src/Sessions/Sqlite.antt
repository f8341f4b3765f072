-- ===== src/Sessions/Sqlite.antt =====
-- backend/internal/sessions/sqlite_session.go and backend/internal/store/session.go: sessions in
-- the table `sessions`. What SQLite does for each statement is the parameter `SessionTable`.
pub mod Laws
use pihole_cluster_admin.Prelude.{
  ℕ, ℤ, String, Bool, true, false, Option, none, some, List, [], ◌∷◌, ◌==◌, string_eq,
  if◌then◌else◌,
}
use pihole_cluster_admin.Text.{trim_space}
use pihole_cluster_admin.Httpx.{GoError, Result, ok, err, ◌>>=◌}
use pihole_cluster_admin.Sessions.{Session, Storage, live}

-- `sessionRow` of store/types.go, and `domain.Session`
pub record SessionRow : Type 0 where
  pub id : String
  pub user_id : ℤ
  pub created_at : ℕ
  pub expires_at : ℕ

-- CreateSessionParams of store/types.go
pub record CreateSessionParams : Type 0 where
  pub id : String
  pub user_id : ℤ
  pub expires_at : ℕ

-- The statements of store/session.go. `insert` fills `created_at` itself; a query for one row
-- returns `sql.ErrNoRows` when there is none.
pub record SessionTable (Db : Type 0) : Type 0 where
  pub insert : String → ℤ → ℕ → Db → Option GoError × Db
  pub select_all : Db → Result (List SessionRow)
  pub select_one : String → Db → Result SessionRow
  pub delete : String → Db → Option GoError × Db

abbrev pub session_of : SessionRow → Session
session_of row = record { id = row.id; user_id = row.user_id; expires_at = row.expires_at }

unfoldable pub sessions_of : List SessionRow → List Session
sessions_of [] = []
sessions_of (row ∷ rows) = session_of row ∷ sessions_of rows

-- The row that is read after an insertion, unless the insertion failed.
abbrev pub read_back : Option GoError → Result SessionRow → Result SessionRow
read_back none r = r
read_back (some e) r = err e

abbrev pub error_of : Result SessionRow → Option GoError
error_of (ok row) = none
error_of (err e) = some e

module _ {Db : Type 0} (table : SessionTable Db) where
  -- CreateSession: the id is trimmed for the insertion, and not for the query that follows.
  unfoldable pub db_create_session : CreateSessionParams → Db → Result SessionRow × Db
  db_create_session params db =
      let (e, db') = table.insert (trim_space params.id) params.user_id params.expires_at db in
      (read_back e (table.select_one params.id db'), db')

  -- DeleteSession: `found` is never set.
  unfoldable pub db_delete_session : String → Db → (Bool × Option GoError) × Db
  db_delete_session id db = ((false, (table.delete id db).0), (table.delete id db).1)

  unfoldable pub sqlite_create : Session → Db → Option GoError × Db
  unfolding db_create_session
  sqlite_create s db =
      let (r, db') =
        db_create_session (record { id = s.id; user_id = s.user_id; expires_at = s.expires_at })
          db in
      (error_of r, db')

  unfoldable pub sqlite_get_all : Db → Result (List Session)
  unfolding sessions_of
  sqlite_get_all db = do rows ← table.select_all db; ok (sessions_of rows)

  unfoldable pub sqlite_get_user_id : ℕ → String → Db → Result (Option ℤ)
  unfolding live
  sqlite_get_user_id now session_id db = do
    row ← table.select_one session_id db
    ok (live now (some (session_of row)))

  unfoldable pub sqlite_delete : String → Db → Option GoError × Db
  unfolding db_delete_session
  sqlite_delete session_id db = let (r, db') = db_delete_session session_id db in (r.1, db')

  unfoldable pub sqlite_session_store : Storage Db
  unfolding sqlite_create sqlite_get_all sqlite_get_user_id sqlite_delete
  sqlite_session_store = record {
    create = sqlite_create;
    get_all = sqlite_get_all;
    get_user_id = sqlite_get_user_id;
    delete = sqlite_delete;
  }
