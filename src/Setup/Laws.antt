-- ===== src/Setup/Laws.antt =====
-- The status of the first Pi-hole only advances.
use pihole_cluster_admin.Prelude.{
  ℕ, ◌<◌, ◌≡◌, ◌≢◌, refl, sym, ◌∙◌, ap, subst, Bool, true, false, ◌&&◌, Option, none, some, ◌==◌,
  string_eq, if◌then◌else◌, arith, eq_iff, Bool-cases, inl, inr,
}
use pihole_cluster_admin.Httpx.{GoError, ok}
use pihole_cluster_admin.Setup.{
  PiholeStatus, pihole_uninitialized, pihole_added, pihole_skipped, is_valid, InitStatus, InitTable,
  set_pihole_status, move_status, update_pihole_initialization_status,
}

some-ne-none : {A : Type 0} {a : A} → some a ≢ none
some-ne-none h = cc

-- How far the setup has come: nothing, skipped, added.
abbrev pub rank : PiholeStatus → ℕ
rank s = if s == pihole_added then 2 else if s == pihole_skipped then 1 else 0

advances :
    (s curr : PiholeStatus)
    → is_valid s ≡ true
    → (s == curr) ≡ false
    → (s == pihole_uninitialized) ≡ false
    → (s == pihole_skipped && curr == pihole_added) ≡ false
    → rank curr < rank s
unfolding is_valid
advances s curr v a b c = ground (
  arith,
  eq_iff s curr,
  eq_iff s pihole_added,
  eq_iff s pihole_skipped,
  eq_iff curr pihole_added,
  eq_iff curr pihole_skipped,
)

-- What the tests of the service and of the store have found when the status is written
set_pihole_status-none :
    {Db : Type 0} (table : InitTable Db) (s : PiholeStatus) (db : Db)
    → (set_pihole_status table s db).0 ≡ none
    → (is_valid s ≡ true) × (set_pihole_status table s db ≡ table.update_pihole_status s db)
unfolding set_pihole_status
set_pihole_status-none table s db done = elim (Bool-cases (is_valid s)) [
  | inl e ↦ (e, rw (e, set_pihole_status) refl)
  | inr e ↦ absurd (some-ne-none (rw (e, set_pihole_status) at done))
]

refused_if :
    {Db : Type 0} (b : Bool) (e : GoError) (db : Db) (step : Option GoError × Db)
    → (if b then (some e, db) else step).0 ≡ none
    → (b ≡ false) × ((if b then (some e, db) else step) ≡ step)
refused_if true e db step h = absurd (some-ne-none h)
refused_if false e db step h = (refl, refl)

move_status-none :
    {Db : Type 0} (table : InitTable Db) (s : PiholeStatus) (curr : InitStatus) (db : Db)
    → (move_status table s (ok curr) db).0 ≡ none
    → (is_valid s ≡ true)
      × ((s == curr.pihole_status) ≡ false)
      × ((s == pihole_uninitialized) ≡ false)
      × ((s == pihole_skipped && curr.pihole_status == pihole_added) ≡ false)
      × (move_status table s (ok curr) db ≡ table.update_pihole_status s db)
unfolding move_status
move_status-none table s curr db done =
    let (other_, first) = refused_if (s == curr.pihole_status) _ db _ done in
    let done' = sym (ap (λ r. r.0) first) ∙ done in
    let (set, second) = refused_if (s == pihole_uninitialized) _ db _ done' in
    let done'' = sym (ap (λ r. r.0) second) ∙ done' in
    let (kept, third) =
      refused_if (s == pihole_skipped && curr.pihole_status == pihole_added) _ db _ done'' in
    let (valid, last) = set_pihole_status-none table s db (sym (ap (λ r. r.0) third) ∙ done'') in
    (valid, other_, set, kept, first ∙ second ∙ third ∙ last)

module _ {Db : Type 0} (table : InitTable Db)
    (select_update : (s : PiholeStatus) (db : Db) (curr : InitStatus)
      → table.select db ≡ ok curr
      → (table.update_pihole_status s db).0 ≡ none
      → table.select (table.update_pihole_status s db).1
        ≡ ok (record curr { pihole_status = s })) where
  -- If a successful UPDATE of the status is seen by the next SELECT, an update of the status that
  -- succeeds stores a valid status that is further than the old one in the order UNINITIALIZED,
  -- SKIPPED, ADDED, and keeps the other column.
  pub update_pihole_initialization_status_advances :
      (s : PiholeStatus) (db : Db) (curr : InitStatus)
      → table.select db ≡ ok curr
      → (update_pihole_initialization_status table s db).0 ≡ none
      → (is_valid s ≡ true)
        × (rank curr.pihole_status < rank s)
        × (table.select (update_pihole_initialization_status table s db).1
            ≡ ok (record curr { pihole_status = s }))
  unfolding update_pihole_initialization_status
  update_pihole_initialization_status_advances s db curr now done =
      let same = ap (λ r. move_status table s r db) now in
      let (valid, other_, set, kept, written) =
        move_status-none table s curr db (sym (ap (λ r. r.0) same) ∙ done) in
      let stored = same ∙ written in
      (
        valid,
        advances s curr.pihole_status valid other_ set kept,
        ap (λ r. table.select r.1) stored
            ∙ select_update s db curr now (sym (ap (λ r. r.0) stored) ∙ done),
      )

move_status-final :
    {Db : Type 0} (table : InitTable Db) (s : PiholeStatus) (curr : InitStatus) (db : Db)
    → curr.pihole_status ≡ pihole_added
    → ((move_status table s (ok curr) db).1 ≡ db) × ((move_status table s (ok curr) db).0 ≢ none)
unfolding move_status set_pihole_status is_valid
move_status-final table s curr db added = ground (
  arith,
  eq_iff s curr.pihole_status,
  eq_iff s pihole_added,
  eq_iff curr.pihole_status pihole_added,
)

-- Once the status is ADDED, every update of it fails and leaves the database as it was.
pub added_is_final :
    {Db : Type 0} (table : InitTable Db) (s : PiholeStatus) (db : Db) (curr : InitStatus)
    → table.select db ≡ ok curr
    → curr.pihole_status ≡ pihole_added
    → ((update_pihole_initialization_status table s db).1 ≡ db)
      × ((update_pihole_initialization_status table s db).0 ≢ none)
unfolding update_pihole_initialization_status
added_is_final table s db curr now added =
    subst (λ r. ((move_status table s r db).1 ≡ db) × ((move_status table s r db).0 ≢ none))
      (sym now) (move_status-final table s curr db added)
