-- ===== src/Sessions/Sqlite/Laws.antt =====
-- The sessions in SQLite keep the promises of a storage, if the table behaves as a table does.
use pihole_cluster_admin.Prelude.{
  ℕ, ℤ, ◌≤◌, ◌≡◌, refl, sym, ◌∙◌, ap, subst, ◌↔◌, String, Bool, true, false, Option, none, some,
  List, [], ◌∷◌, ◌==◌, string_eq, if◌then◌else◌, All, Option-cases, inl, inr, Map, lookup,
}
use pihole_cluster_admin.Text.{trim_space}
use pihole_cluster_admin.Httpx.{GoError, no_rows, Result, ok, err, ◌>>=◌}
use pihole_cluster_admin.Httpx.Laws.{ok-injective, err-ne-ok}
use pihole_cluster_admin.Sessions.{Session, live, passed, refused, gate_of, auth_middleware}
use pihole_cluster_admin.Sessions.Laws.{
  StorageLaws, none-ne-some, gate_of-passed_iff, live-some_iff, stored_session,
  auth_middleware-passed_iff,
}
use pihole_cluster_admin.Sessions.Memory.Laws.{memory_session_store-laws}
use pihole_cluster_admin.Realtime.Sound.{some-injective}
use pihole_cluster_admin.Sessions.Memory.{memory_session_store, memory_get_user_id}
use pihole_cluster_admin.Sessions.Sqlite.{
  SessionRow, SessionTable, session_of, sessions_of, read_back, error_of, db_create_session,
  db_delete_session, sqlite_create, sqlite_get_all, sqlite_get_user_id, sqlite_delete,
  sqlite_session_store,
}

-- The table `sessions`, seen as a partial function from its primary key to its rows. An insertion
-- that succeeds adds the row, a statement that fails changes nothing, and reads do not fail.
pub record TableLaws {Db : Type 0} (table : SessionTable Db) : Type 0 where
  pub row : Db → String → Option SessionRow
  pub clock : Db → ℕ
  pub row_insert :
      (id : String) (user_id : ℤ) (expires_at : ℕ) (db : Db)
      → (table.insert id user_id expires_at db).0 ≡ none
      → (k : String)
      → row (table.insert id user_id expires_at db).1 k ≡ (
          if id == k
          then some (record {
            id = id;
            user_id = user_id;
            created_at = clock db;
            expires_at = expires_at;
          })
          else row db k)
  pub row_delete :
      (id : String) (db : Db)
      → (table.delete id db).0 ≡ none
      → (k : String) → row (table.delete id db).1 k ≡ (if id == k then none else row db k)
  pub row_delete_failed :
      (id : String) (db : Db) (e : GoError)
      → (table.delete id db).0 ≡ some e
      → (k : String) → row (table.delete id db).1 k ≡ row db k
  pub selected :
      (id : String) (db : Db) (r : SessionRow) → row db id ≡ some r → table.select_one id db ≡ ok r
  pub not_selected :
      (id : String) (db : Db) → row db id ≡ none → table.select_one id db ≡ err no_rows
  pub all_selected :
      (db : Db) (rows : List SessionRow)
      → table.select_all db ≡ ok rows
      → All (λ r. row db r.id ≡ some r) rows

abbrev found_session : Option SessionRow → Option Session
found_session none = none
found_session (some r) = some (session_of r)

map-if :
    (b : Bool) (r : SessionRow) (o : Option SessionRow)
    → found_session (if b then some r else o) ≡ (if b then some (session_of r) else found_session o)
map-if true r o = refl
map-if false r o = refl

map-if-none :
    (b : Bool) (o : Option SessionRow)
    → found_session (if b then none else o) ≡ (if b then none else found_session o)
map-if-none true o = refl
map-if-none false o = refl

read_back-none :
    (e : Option GoError) (r : Result SessionRow) → error_of (read_back e r) ≡ none → e ≡ none
read_back-none none r h = refl
read_back-none (some x) r h = cc

read_rows :
    (r : Result (List SessionRow)) (ss : List Session)
    → (r >>= (λ rows. ok (sessions_of rows))) ≡ ok ss
    → (rows : List SessionRow) × (r ≡ ok rows) × (sessions_of rows ≡ ss)
read_rows (ok rows) ss h = (rows, refl, ok-injective _ _ h)
read_rows (err e) ss h = absurd (err-ne-ok h)

module _ {Db : Type 0} (table : SessionTable Db) (laws : TableLaws table) where
  abbrev look_session : Db → String → Option Session
  look_session db k = found_session (laws.row db k)

  inserted :
      (s : Session) (db : Db)
      → (sqlite_create table s db).0 ≡ none
      → (table.insert (trim_space s.id) s.user_id s.expires_at db).0 ≡ none
  unfolding sqlite_create db_create_session
  inserted s db done = read_back-none _ _ done

  look-sqlite_create :
      (s : Session) (db : Db)
      → trim_space s.id ≡ s.id
      → (sqlite_create table s db).0 ≡ none
      → (k : String)
      → look_session (sqlite_create table s db).1 k
        ≡ (if s.id == k then some s else look_session db k)
  unfolding sqlite_create db_create_session
  look-sqlite_create s db trimmed done k =
      ap found_session
        (laws.row_insert (trim_space s.id) s.user_id s.expires_at db (inserted s db done) k)
      ∙ map-if (trim_space s.id == k) _ (laws.row db k)
      ∙ ap
          (λ i.
            if i == k
            then some (record { id = i; user_id = s.user_id; expires_at = s.expires_at })
            else look_session db k)
          trimmed

  listed-All :
      (db : Db) (rows : List SessionRow)
      → All (λ r. laws.row db r.id ≡ some r) rows
      → All (λ s. look_session db s.id ≡ some s) (sessions_of rows)
  unfolding sessions_of
  listed-All db [] all = tt
  listed-All db (r ∷ rows) (here, rest) = (ap found_session here, listed-All db rows rest)

  found_iff :
      (now : ℕ) (id : String) (db : Db) (u : ℤ)
      → (sqlite_get_user_id table now id db ≡ ok (some u))
        ↔ (live now (look_session db id) ≡ some u)
  unfolding sqlite_get_user_id live
  found_iff now id db u = elim (Option-cases (laws.row db id)) [
    | inl e ↦
        let got : sqlite_get_user_id table now id db ≡ err no_rows =
          ap (λ r. r >>= (λ row. ok (live now (some (session_of row)))))
            (laws.not_selected id db e) in
        let seen : live now (look_session db id) ≡ none = ap (λ o. live now (found_session o)) e in
        ((λ h. absurd (err-ne-ok (sym got ∙ h))), (λ h. absurd (none-ne-some (sym seen ∙ h))))
    | inr (r, e) ↦
        let got : sqlite_get_user_id table now id db ≡ ok (live now (some (session_of r))) =
          ap (λ r. r >>= (λ row. ok (live now (some (session_of row)))))
            (laws.selected id db r e) in
        let seen : live now (look_session db id) ≡ live now (some (session_of r)) =
          ap (λ o. live now (found_session o)) e in
        ((λ h. seen ∙ ok-injective _ _ (sym got ∙ h)), (λ h. got ∙ ap ok (sym seen ∙ h)))
  ]

  -- The store in SQLite satisfies the interface in every state of its table.
  pub sqlite_session_store-laws : StorageLaws (sqlite_session_store table)
  unfolding sqlite_session_store sqlite_delete db_delete_session sqlite_get_all sqlite_create
      db_create_session
  sqlite_session_store-laws = record {
    look = look_session;
    IsGood = λ db. Unit {0};
    create_good = λ s db good. tt;
    delete_good = λ id db good. tt;
    look_create = look-sqlite_create;
    look_delete = λ id db done k.
        ap found_session (laws.row_delete id db done k) ∙ map-if-none (id == k) (laws.row db k);
    look_delete_failed =
        λ id db e failed k. ap found_session (laws.row_delete_failed id db e failed k);
    listed = λ db ss good e.
        let (rows, read, same) = read_rows (table.select_all db) ss e in
        subst (All (λ s. look_session db s.id ≡ some s)) same
          (listed-All db rows (laws.all_selected db rows read));
    found = found_iff;
  }

  -- The row of a session that is found
  abbrev pub HasRow : ℕ → String → Db → ℤ → Type 0
  HasRow now id db u =
      (r : SessionRow) × (laws.row db id ≡ some r) × (u ≡ r.user_id) × (now ≤ r.expires_at)

  row_found :
      (now : ℕ) (u : ℤ) (o : Option SessionRow) (s : Session)
      → found_session o ≡ some s
      → u ≡ s.user_id
      → now ≤ s.expires_at
      → (r : SessionRow) × (o ≡ some r) × (u ≡ r.user_id) × (now ≤ r.expires_at)
  row_found now u none s h own fresh = absurd (none-ne-some h)
  row_found now u (some r) s h own fresh =
      let same : session_of r ≡ s = some-injective h in
      (
        r,
        refl,
        own ∙ sym (ap (λ (x : Session). x.user_id) same),
        subst (λ (x : Session). now ≤ x.expires_at) (sym same) fresh,
      )

  sqlite-passed_iff :
      (now : ℕ) (id : String) (db : Db) (u : ℤ)
      → (auth_middleware (sqlite_session_store table) now (some id) db ≡ passed u)
        ↔ HasRow now id db u
  unfolding auth_middleware sqlite_session_store
  sqlite-passed_iff now id db u =
      let gate = gate_of-passed_iff (sqlite_get_user_id table now id db) u in
      let look = found_iff now id db u in
      (
        (λ h.
            let (s, seen, own, fresh) =
              stored_session now u (look_session db id) (look.0 (gate.0 h)) in
            row_found now u (laws.row db id) s seen own fresh),
        (λ found.
            let (r, here, own, fresh) = found in
            gate.1 (
              look.1 (
                ap (λ o. live now (found_session o)) here
                ∙ (live-some_iff now (session_of r) u).1 (own, fresh)))),
      )

  -- Over SQLite, if its table is lawful, and over the store in memory alike, the middleware lets a
  -- request in for a user exactly when the value of its cookie is the key of a row or of an entry
  -- of that user, and the time is not after its expiry.
  pub stores_let_in :
      (now : ℕ) (id : String) (db : Db) (m : Map String Session) (u : ℤ)
      → ((auth_middleware (sqlite_session_store table) now (some id) db ≡ passed u)
          ↔ HasRow now id db u)
        × ((auth_middleware memory_session_store now (some id) m ≡ passed u)
            ↔ ((s : Session) × (lookup id m ≡ some s) × (u ≡ s.user_id) × (now ≤ s.expires_at)))
  unfolding memory_session_store-laws
  stores_let_in now id db m u = (
    sqlite-passed_iff now id db u,
    auth_middleware-passed_iff memory_session_store memory_session_store-laws now id m u,
  )

  -- A request whose cookie is the id of no session gets the status 500 over SQLite, if its table
  -- is lawful, and the status 401 over the store in memory.
  pub missing_session_status :
      (now : ℕ) (id : String) (db : Db) (m : Map String Session)
      → laws.row db id ≡ none
      → lookup id m ≡ none
      → (auth_middleware (sqlite_session_store table) now (some id) db
          ≡ refused "internal server error" 500)
        × (auth_middleware memory_session_store now (some id) m ≡ refused "Unauthorized" 401)
  unfolding auth_middleware sqlite_session_store sqlite_get_user_id memory_session_store
      memory_get_user_id
  missing_session_status now id db m gone absent = (
    ap (λ r. gate_of (r >>= (λ row. ok (live now (some (session_of row))))))
        (laws.not_selected id db gone),
    ap (λ o. gate_of (ok (live now o))) absent,
  )
