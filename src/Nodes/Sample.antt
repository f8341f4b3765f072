-- ===== src/Nodes/Sample.antt =====
-- A small table `piholes`: the fields of a row under its id, with a clock that stands still.
use mathlib.Core.Option
use pihole_cluster_admin.Prelude.{
  ℤ, pos, ◌≡◌, refl, sym, ◌∙◌, ap, subst, String, Bool, true, false, Option, none, some, List, [],
  ◌∷◌, ◌==◌, int_eq, if◌then◌else◌, arith, length, All, Map, lookup, insert, delete, has,
  lookup-insert, lookup-delete, int_beq_iff,
}
use pihole_cluster_admin.Httpx.{GoError, no_rows, other, Result, ok, err}
use pihole_cluster_admin.Httpx.Laws.{ok-injective, err-ne-ok}
use pihole_cluster_admin.Nodes.Store.{
  PiholeRow, Assignment, scheme, host, port, name, description, password_enc, PiholeTable,
}
use pihole_cluster_admin.Nodes.Store.Laws.{assign, assign_all, TableLaws}
use pihole_cluster_admin.Nodes.Service.Start.{keyed, ListLaws}

abbrev pub Rows : Type 0
Rows = Map ℤ PiholeRow

abbrev pub row_of : ℤ → PiholeRow → PiholeRow
row_of k r = record r { id = k }

abbrev pub row_at : Rows → ℤ → Option PiholeRow
row_at db k = Option.map (row_of k) (lookup k db)

abbrev pub new_row : ℤ → String → String → ℤ → String → String → String → PiholeRow
new_row id s h p n d e = record {
  id = id;
  scheme = s;
  host = h;
  port = p;
  name = n;
  description = d;
  password_enc = e;
  created_at = 0;
  updated_at = 0;
}

abbrev pub insert_free : ℤ → PiholeRow → Bool → Rows → Result ℤ × Rows
insert_free id r true db = (err (other "UNIQUE constraint failed: piholes.host, piholes.port"), db)
insert_free id r false db = (ok id, insert id r db)

abbrev pub update_found : ℤ → List Assignment → Option PiholeRow → Rows → Rows
update_found id parts none db = db
update_found id parts (some r) db = insert id (record (assign_all parts r) { updated_at = 0 }) db

abbrev pub select_row : Option PiholeRow → Result PiholeRow
select_row none = err no_rows
select_row (some r) = ok r

abbrev pub keep : Option PiholeRow → List PiholeRow → List PiholeRow
keep none rows = rows
keep (some r) rows = r ∷ rows

abbrev pub rows_at : Rows → Rows → List PiholeRow
rows_at db [] = []
rows_at db ((k, r) ∷ rest) = keep (row_at db k) (rows_at db rest)

-- The rows of a `SELECT` that does not read the password
abbrev pub public_rows : List PiholeRow → List PiholeRow
public_rows [] = []
public_rows (r ∷ rows) = record r { password_enc = "" } ∷ public_rows rows

abbrev pub small_table : PiholeTable Rows
small_table = record {
  insert = λ s h p n d e db.
      insert_free (pos (length db)) (new_row (pos (length db)) s h p n d e)
        (has (pos (length db)) db) db;
  update = λ id parts db. (none, update_found id parts (lookup id db) db);
  select_one = λ id db. select_row (row_at db id);
  select_all = λ db. ok (public_rows (rows_at db db));
  delete = λ id db. (ok (if has id db then 1 else 0), delete id db);
}

row_at-insert :
    (id k : ℤ) (r : PiholeRow) (db : Rows)
    → row_at (insert id r db) k ≡ (if id == k then some (row_of id r) else row_at db k)
row_at-insert id k r db =
    ap (Option.map (row_of k)) (lookup-insert id k r db) ∙ ground (arith, int_beq_iff id k)

assign-row_of :
    (a : Assignment) (k : ℤ) (r : PiholeRow) → assign a (row_of k r) ≡ row_of k (assign a r)
assign-row_of (scheme s) k r = refl
assign-row_of (host s) k r = refl
assign-row_of (port p) k r = refl
assign-row_of (name s) k r = refl
assign-row_of (description s) k r = refl
assign-row_of (password_enc s) k r = refl

assign_all-row_of :
    (parts : List Assignment) (k : ℤ) (r : PiholeRow)
    → assign_all parts (row_of k r) ≡ row_of k (assign_all parts r)
assign_all-row_of [] k r = refl
assign_all-row_of (a ∷ parts) k r =
    ap (assign_all parts) (assign-row_of a k r) ∙ assign_all-row_of parts k (assign a r)

pub insert_free_done :
    (id new : ℤ) (r : PiholeRow) (b : Bool) (db : Rows)
    → has id db ≡ b
    → (insert_free id r b db).0 ≡ ok new
    → (row_at db new ≡ none)
      × ((k : ℤ)
          → row_at (insert_free id r b db).1 k
            ≡ (if new == k then some (row_of new r) else row_at db k))
insert_free_done id new r true db e h = absurd (err-ne-ok h)
insert_free_done id new r false db e h =
    subst
      (λ j.
        (row_at db j ≡ none)
        × ((k : ℤ)
            → row_at (insert id r db) k ≡ (if j == k then some (row_of j r) else row_at db k)))
      (ok-injective id new h) (ground arith, λ k. row_at-insert id k r db)

pub insert_free_failed :
    (id : ℤ) (r : PiholeRow) (b : Bool) (db : Rows) (x : GoError)
    → (insert_free id r b db).0 ≡ err x
    → (k : ℤ) → row_at (insert_free id r b db).1 k ≡ row_at db k
insert_free_failed id r true db x h k = refl
insert_free_failed id r false db x h k = absurd (err-ne-ok (sym h))

update_at :
    (id k : ℤ) (parts : List Assignment) (r : PiholeRow) (b : Bool) (o : Option PiholeRow)
    → ((b ≡ true) → (id ≡ k) × (o ≡ some r))
    → (if b
        then some (row_of id (record (assign_all parts r) { updated_at = 0 }))
        else Option.map (row_of k) o)
      ≡ (if b
          then Option.map
              (λ q. record (assign_all parts q) { updated_at = 0 })
              (Option.map (row_of k) o)
          else Option.map (row_of k) o)
update_at id k parts r true o h =
    let (same, e) = h refl in
    ap {B = Option PiholeRow} (λ j. some (record (assign_all parts r) { id = j; updated_at = 0 }))
      same
    ∙ ap {A = PiholeRow} (λ q. some (record q { updated_at = 0 }))
        (sym (assign_all-row_of parts k r))
    ∙ sym (
        ap
          (λ a.
            Option.map (λ q. record (assign_all parts q) { updated_at = 0 })
              (Option.map (row_of k) a))
          e)
update_at id k parts r false o h = refl

pub row_at-update_found :
    (id k : ℤ) (parts : List Assignment) (o : Option PiholeRow) (db : Rows)
    → lookup id db ≡ o
    → row_at (update_found id parts o db) k ≡ (
        if id == k
        then Option.map (λ r. record (assign_all parts r) { updated_at = 0 }) (row_at db k)
        else row_at db k)
row_at-update_found id k parts none db e = ground (arith, int_beq_iff id k)
row_at-update_found id k parts (some r) db e =
    row_at-insert id k _ db
    ∙ update_at id k parts r (id == k) (lookup k db) (λ b.
      ((int_beq_iff id k).0 b, subst (λ j. lookup j db ≡ some r) ((int_beq_iff id k).0 b) e))

pub row_at-keyed :
    (id : ℤ) (r : PiholeRow) (o : Option PiholeRow) → Option.map (row_of id) o ≡ some r → r.id ≡ id
row_at-keyed id r none e = absurd cc
row_at-keyed id r (some q) e = sym (ap (λ a. Option.get_or (Option.map (λ x. x.id) a) id) e)

pub row_at-delete :
    (id : ℤ) (db : Rows) (k : ℤ) → row_at (delete id db) k ≡ (if id == k then none else row_at db k)
row_at-delete id db k = ap (Option.map (row_of k)) (lookup-delete id k db) ∙ ground arith

unfoldable pub small_table-laws : TableLaws small_table
small_table-laws = record {
  row = row_at;
  now = λ db. 0;
  stamp = λ db r. 0;
  keyed = λ db id r e. row_at-keyed id r _ e;
  inserted = λ s h p n d e db id done. insert_free_done _ id _ _ db refl done;
  insert_failed = λ s h p n d e db x failed. insert_free_failed _ _ _ db x failed;
  updated = λ id parts db done k. row_at-update_found id k parts _ db refl;
  update_failed = λ id parts db x failed. absurd cc;
  selected = λ id db r e. ap select_row e;
  not_selected = λ id db e. ap select_row e;
  deleted = λ id db n done. row_at-delete id db;
  delete_failed = λ id db x failed. absurd (err-ne-ok (sym failed));
}

row_at-All :
    (db : Rows) (id : ℤ) (o : Option PiholeRow) (rows : List PiholeRow)
    → row_at db id ≡ o
    → All (λ r. row_at db r.id ≡ some r) rows
    → All (λ r. row_at db r.id ≡ some r) (keep o rows)
row_at-All db id none rows e h = h
row_at-All db id (some r) rows e h =
    (subst (λ j. row_at db j ≡ some r) (sym (row_at-keyed id r (lookup id db) e)) e, h)

rows_at-All : (db entries : Rows) → All (λ r. row_at db r.id ≡ some r) (rows_at db entries)
rows_at-All db [] = tt
rows_at-All db ((k, r) ∷ rest) = row_at-All db k _ (rows_at db rest) refl (rows_at-All db rest)

seen : Option PiholeRow → Option PiholeRow → Option PiholeRow
seen none a = none
seen (some r) a = a

seen_empty : (m : Option PiholeRow) → seen m none ≡ none
unfolding seen
seen_empty none = refl
seen_empty (some r) = refl

lookup-keep :
    (k : ℤ) (j : ℤ) (q : PiholeRow) (b : Bool) (o m a : Option PiholeRow) (rows : List PiholeRow)
    → ((b ≡ true) → a ≡ o)
    → ((r : PiholeRow) → o ≡ some r → (r.id == k) ≡ b)
    → lookup k (keyed rows) ≡ seen m a
    → lookup k (keyed (keep o rows)) ≡ seen (if b then some q else m) a
unfolding seen lookup
lookup-keep k j q true none m a rows h id ih =
    ih ∙ ap (seen m) (h refl) ∙ seen_empty m ∙ sym (h refl)
lookup-keep k j q false none m a rows h id ih = ih
lookup-keep k j q true (some r) m a rows h id ih = rw (id r refl) (sym (h refl))
lookup-keep k j q false (some r) m a rows h id ih = rw (id r refl) ih

lookup-rows_at :
    (db entries : Rows) (k : ℤ)
    → lookup k (keyed (rows_at db entries)) ≡ seen (lookup k entries) (row_at db k)
unfolding seen lookup
lookup-rows_at db [] k = refl
lookup-rows_at db ((j, q) ∷ rest) k =
    lookup-keep k j q (j == k) (row_at db j) (lookup k rest) (row_at db k) (rows_at db rest)
      (λ b. ap (row_at db) (sym ((int_beq_iff j k).0 b)))
      (λ r e. ap (λ i. i == k) (row_at-keyed j r (lookup j db) e)) (lookup-rows_at db rest k)

seen_same :
    (k : ℤ) (o : Option PiholeRow) → seen o (Option.map (row_of k) o) ≡ Option.map (row_of k) o
unfolding seen
seen_same k none = refl
seen_same k (some r) = refl

public_rows-All :
    (db : Rows) (rows : List PiholeRow)
    → All (λ r. row_at db r.id ≡ some r) rows
    → All
        (λ r. (secret : String) × (row_at db r.id ≡ some (record r { password_enc = secret })))
        (public_rows rows)
public_rows-All db [] h = tt
public_rows-All db (r ∷ rows) (here, rest) = ((r.password_enc, here), public_rows-All db rows rest)

lookup-public_rows :
    (k : ℤ) (rows : List PiholeRow)
    → lookup k (keyed (public_rows rows)) ≡ none
    → lookup k (keyed rows) ≡ none
unfolding lookup
lookup-public_rows k [] h = refl
lookup-public_rows k (r ∷ rows) h = ground (arith, lookup-public_rows k rows)

pub small_table-listed : ListLaws small_table small_table-laws
unfolding small_table-laws lookup
small_table-listed = record {
  listed = λ db rows e.
      subst
        (λ rs.
          All
            (λ r. (secret : String) × (row_at db r.id ≡ some (record r { password_enc = secret })))
            rs
          × ((k : ℤ) → lookup k (keyed rs) ≡ none → row_at db k ≡ none))
        (ok-injective _ _ e)
        (
          public_rows-All db (rows_at db db) (rows_at-All db db),
          λ k h.
              sym (seen_same k (lookup k db))
              ∙ sym (lookup-rows_at db db k)
              ∙ lookup-public_rows k (rows_at db db) h,
        );
}
