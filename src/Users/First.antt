-- ===== src/Users/First.antt =====
-- The first user: CreateUser of backend/internal/service/setupservice/service.go over the store of
-- backend/internal/store/user.go.
mod Tests
use pihole_cluster_admin.Prelude.{
  ℕ, zero, suc, ℤ, ◌≤◌, ◌<◌, ◌≡◌, refl, sym, ◌∙◌, ap, String, Bool, true, false, ltb, Option, none,
  some, List, [], ◌∷◌, arith,
}
use pihole_cluster_admin.Httpx.{GoError, Result, ok, err, ◌>>=◌}
use pihole_cluster_admin.Httpx.Laws.{ok-injective, err-ne-ok}
use pihole_cluster_admin.Domain.{User}
use pihole_cluster_admin.Crypto.{Bcrypt}
use pihole_cluster_admin.Setup.{
  InitTable, CreateUserParams, open_session, record_user, create_first_user, create_user as set_up,
}
use pihole_cluster_admin.Users.{
  UserTable, created, create_hashed, create_user, is_initialized, setup_port,
}

-- The number of users: an INSERT adds one if it succeeds and none if it fails, a SELECT COUNT that
-- succeeds reads it, and the statements on the other tables keep it.
pub record CountLaws {Db : Type 0} (table : UserTable Db) (init : InitTable Db)
    (create_session : ℤ → Db → Result String × Db) : Type 0 where
  pub rows : Db → ℕ
  pub inserted :
      (name hash : String) (db : Db) (id : ℤ)
      → (table.insert name hash db).0 ≡ ok id
      → rows (table.insert name hash db).1 ≡ suc (rows db)
  pub not_inserted :
      (name hash : String) (db : Db) (e : GoError)
      → (table.insert name hash db).0 ≡ err e
      → rows (table.insert name hash db).1 ≡ rows db
  pub counted : (db : Db) (n : ℕ) → table.count db ≡ ok n → n ≡ rows db
  pub status_kept : (b : Bool) (db : Db) → rows (init.update_user_created b db).1 ≡ rows db
  pub session_kept : (id : ℤ) (db : Db) → rows (create_session id db).1 ≡ rows db

module _ {Db : Type 0} (table : UserTable Db) (bcrypt : Bcrypt) (init : InitTable Db)
    (create_session : ℤ → Db → Result String × Db)
    (laws : CountLaws table init create_session) where
  insert_rows :
      (name hash : String) (db : Db) (r : Result ℤ)
      → (table.insert name hash db).0 ≡ r
      → laws.rows (table.insert name hash db).1 ≤ suc (laws.rows db)
  insert_rows name hash db (ok id) done =
      let more = laws.inserted name hash db id done in omega arith
  insert_rows name hash db (err e) done =
      let same = laws.not_inserted name hash db e done in omega arith

  created_rows : (r : Result ℤ × Db) → laws.rows (created table bcrypt r).1 ≡ laws.rows r.1
  created_rows (ok id, db) = refl
  created_rows (err e, db) = refl

  create_hashed_rows :
      (name : String) (hash : Result String) (db : Db)
      → laws.rows (create_hashed table bcrypt name hash db).1 ≤ suc (laws.rows db)
  create_hashed_rows name (err e) db = omega arith
  create_hashed_rows name (ok hash) db =
      let same = created_rows (table.insert name hash db) in
      let more = insert_rows name hash db _ refl in omega arith

  open_session_rows :
      (u : User) (e : Option GoError) (db : Db)
      → laws.rows (open_session init (setup_port table bcrypt create_session) u e db).1
        ≡ laws.rows db
  unfolding open_session
  open_session_rows u (some e) db = refl
  open_session_rows u none db = laws.session_kept u.id db

  record_user_rows :
      (r : Result User) (db : Db)
      → laws.rows (record_user init (setup_port table bcrypt create_session) r db).1 ≡ laws.rows db
  unfolding record_user
  record_user_rows (err e) db = refl
  record_user_rows (ok u) db =
      open_session_rows u (init.update_user_created true db).0 (init.update_user_created true db).1
      ∙ laws.status_kept true db

  no_rows_counted :
      (db : Db) (r : Result ℕ)
      → table.count db ≡ r
      → (r >>= (λ n. ok (ltb 0 n))) ≡ ok false
      → laws.rows db ≡ 0
  no_rows_counted db (err e) read h = absurd (err-ne-ok h)
  no_rows_counted db (ok n) read h =
      let none_there : ltb 0 n ≡ false = ok-injective _ _ h in
      let same = laws.counted db n read in ground arith

  no_rows_initialized : (db : Db) → is_initialized table bcrypt db ≡ ok false → laws.rows db ≡ 0
  unfolding is_initialized
  no_rows_initialized db h = no_rows_counted db (table.count db) refl h

  create_first_user_rows :
      (params : CreateUserParams) (db : Db) (r : Result Bool)
      → is_initialized table bcrypt db ≡ r
      → laws.rows db ≤ 1
      → laws.rows (create_first_user init (setup_port table bcrypt create_session) params r db).1
        ≤ 1
  unfolding create_first_user create_user
  create_first_user_rows params db (err e) read few = few
  create_first_user_rows params db (ok true) read few = few
  create_first_user_rows params db (ok false) read few =
      let empty = no_rows_initialized db read in
      let stored = create_user table bcrypt params db in
      let kept = record_user_rows stored.0 stored.1 in
      let more : laws.rows stored.1 ≤ suc (laws.rows db) = create_hashed_rows _ _ db in omega arith

  -- Requests to create the first user, one after the other
  abbrev pub set_up_all : List CreateUserParams → Db → Db
  set_up_all [] db = db
  set_up_all (params ∷ rest) db =
      set_up_all rest (set_up init (setup_port table bcrypt create_session) params db).1

  -- If the table of the users counts its rows and the other tables keep them, then however many
  -- requests to CreateUser of the setup come one after the other, and whichever of their statements,
  -- hashes and sessions fail, a database with at most one user has at most one user.
  pub create_user_once :
      (requests : List CreateUserParams) (db : Db)
      → laws.rows db ≤ 1
      → laws.rows (set_up_all requests db) ≤ 1
  unfolding set_up
  create_user_once [] db few = few
  create_user_once (params ∷ requests) db few =
      create_user_once requests (set_up init (setup_port table bcrypt create_session) params db).1
        (create_first_user_rows params db (is_initialized table bcrypt db) refl few)
