-- ===== src/Sessions/Tests.antt =====
-- Runs of the session manager over the store in memory and over a small table.
use pihole_cluster_admin.Prelude.{
  ℕ, ℤ, pos, ◌≤◌, ◌≡◌, refl, sym, ap, subst, ◌∙◌, ◌↔◌, eq_iff, Bool-cases, inl, inr, String, Bool,
  true, false, Option, none, some, List, [], ◌∷◌, ◌==◌, string_eq, if◌then◌else◌, All, Map, lookup,
  insert, delete, lookup-insert, lookup-delete,
}
use mathlib.Core.Option
use pihole_cluster_admin.Text.{to_lower}
use pihole_cluster_admin.Httpx.{no_rows, Result, ok, err}
use pihole_cluster_admin.Httpx.Laws.{ok-injective}
use pihole_cluster_admin.Sessions.{
  Session, refused, passed, auth_middleware, parse_same_site, lax_mode,
}
use pihole_cluster_admin.Sessions.Memory.{memory_session_store}
use pihole_cluster_admin.Sessions.Sqlite.{SessionRow, SessionTable, sqlite_session_store}
use pihole_cluster_admin.Sessions.Sqlite.Laws.{
  TableLaws, HasRow, stores_let_in, missing_session_status,
}

abbrev old_session : Session
old_session = record { id = "aa"; user_id = pos 7; expires_at = 10 }

abbrev one_session : Map String Session
one_session = ("aa", old_session) ∷ []

parse_same_site_test : parse_same_site "LaX" ≡ lax_mode
unfolding parse_same_site to_lower
parse_same_site_test = refl

-- A table that keeps the fields of a row under its primary key, with a clock that stands still.
abbrev Fields : Type 0
Fields = ℤ × ℕ

abbrev row_of : String → Fields → SessionRow
row_of id (user_id, expires_at) = record {
  id = id;
  user_id = user_id;
  created_at = 0;
  expires_at = expires_at;
}

abbrev row_at : Map String Fields → String → Option SessionRow
row_at db k = Option.map (row_of k) (lookup k db)

abbrev select_row : Option SessionRow → Result SessionRow
select_row none = err no_rows
select_row (some r) = ok r

abbrev keep : Option SessionRow → List SessionRow → List SessionRow
keep none rows = rows
keep (some r) rows = r ∷ rows

abbrev rows_at : Map String Fields → List (String × Fields) → List SessionRow
rows_at db [] = []
rows_at db ((k, f) ∷ rest) = keep (row_at db k) (rows_at db rest)

abbrev small_table : SessionTable (Map String Fields)
small_table = record {
  insert = λ id user_id expires_at db. (none, insert id (user_id, expires_at) db);
  select_all = λ db. ok (rows_at db db);
  select_one = λ id db. select_row (row_at db id);
  delete = λ id db. (none, delete id db);
}

keep-All :
    (db : Map String Fields) (k : String) (f : Option Fields) (rows : List SessionRow)
    → lookup k db ≡ f
    → All (λ r. row_at db r.id ≡ some r) rows
    → All (λ r. row_at db r.id ≡ some r) (keep (Option.map (row_of k) f) rows)
keep-All db k none rows e all = all
keep-All db k (some f) rows e all = (ap (λ o. Option.map (row_of k) o) e, all)

rows_at-All :
    (db : Map String Fields) (keys : List (String × Fields))
    → All (λ r. row_at db r.id ≡ some r) (rows_at db keys)
rows_at-All db [] = tt
rows_at-All db ((k, f) ∷ rest) = keep-All db k (lookup k db) _ refl (rows_at-All db rest)

map-if :
    (id k : String) (f : Fields) (o : Option Fields)
    → Option.map (row_of k) (if id == k then some f else o)
      ≡ (if id == k then some (row_of id f) else Option.map (row_of k) o)
map-if id k f o = elim (Bool-cases (id == k)) [
  | inl e ↦ rw e (ap (λ i. some (row_of i f)) (sym ((eq_iff id k).0 e)))
  | inr e ↦ rw e refl
]

map-if-none :
    (b : Bool) (k : String) (o : Option Fields)
    → Option.map (row_of k) (if b then none else o) ≡ (if b then none else Option.map (row_of k) o)
map-if-none true k o = refl
map-if-none false k o = refl

small_table-laws : TableLaws small_table
small_table-laws = record {
  row = row_at;
  clock = λ db. 0;
  row_insert = λ id user_id expires_at db done k.
      ap (λ o. Option.map (row_of k) o) (lookup-insert id k (user_id, expires_at) db)
      ∙ map-if id k (user_id, expires_at) (lookup k db);
  row_delete = λ id db done k.
      ap (λ o. Option.map (row_of k) o) (lookup-delete id k db)
      ∙ map-if-none (id == k) k (lookup k db);
  row_delete_failed = λ id db e failed k. cc;
  selected = λ id db r e. ap select_row e;
  not_selected = λ id db e. ap select_row e;
  all_selected = λ db rows e.
      subst (All (λ r. row_at db r.id ≡ some r)) (ok-injective _ _ e) (rows_at-All db db);
}

missing_session_status_example :
    (auth_middleware (sqlite_session_store small_table) 1 (some "zz") []
      ≡ refused "internal server error" 500)
    × (auth_middleware memory_session_store 1 (some "zz") [] ≡ refused "Unauthorized" 401)
unfolding lookup small_table-laws
missing_session_status_example =
    missing_session_status small_table small_table-laws 1 "zz" [] [] refl refl

abbrev one_row : Map String Fields
one_row = ("aa", (pos 7, 10)) ∷ []

stores_let_in_example :
    ((auth_middleware (sqlite_session_store small_table) 10 (some "aa") one_row ≡ passed (pos 7))
      ↔ HasRow small_table small_table-laws 10 "aa" one_row (pos 7))
    × ((auth_middleware memory_session_store 10 (some "aa") one_session ≡ passed (pos 7)) ↔ (
        (s : Session) × (lookup "aa" one_session ≡ some s)
        × (pos 7 ≡ s.user_id)
        × (10 ≤ s.expires_at)))
stores_let_in_example =
    stores_let_in small_table small_table-laws 10 "aa" one_row one_session (pos 7)
