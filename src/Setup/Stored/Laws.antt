-- ===== src/Setup/Stored/Laws.antt =====
-- A stored status is read back, and only advances.
use pihole_cluster_admin.Prelude.{
  ◌<◌, ◌≡◌, sym, ◌∙◌, ap, ◌⊎◌, ◌↔◌, Bool, true, String, none, arith, inl, inr,
}
use pihole_cluster_admin.Httpx.{Result, ok, err, ◌>>=◌}
use pihole_cluster_admin.Setup.{
  PiholeStatus, is_valid, InitStatus, update_pihole_initialization_status,
}
use pihole_cluster_admin.Setup.Laws.{rank, update_pihole_initialization_status_advances}
use pihole_cluster_admin.Setup.Stored.{
  Source, text, bytes, checked, scan, value, RowTable, row_to_domain, get_initialization_status,
  exec_status, init_table,
}

-- SQLite gives back the text that was written, as a string or as bytes, with the other column.
pub record RowLaws {Db : Type 0} (rows : RowTable Db) : Type 0 where
  pub written :
      (s : String) (db : Db) (created : Bool) (v : Source)
      → rows.select_row db ≡ ok (created, v)
      → (rows.set_status s db).0 ≡ none
      → (rows.select_row (rows.set_status s db).1 ≡ ok (created, text s))
        ⊎ (rows.select_row (rows.set_status s db).1 ≡ ok (created, bytes s))

checked-ok_iff : (s : PiholeStatus) → (is_valid s ≡ true) ↔ (checked s ≡ ok s)
unfolding checked
checked-ok_iff s = ground arith

-- Value and Scan are inverse on the valid statuses, and refuse every other text.
pub scan-value :
    (s : PiholeStatus)
    → (is_valid s ≡ true) ↔ ((value s ≡ ok s) × (scan (text s) ≡ ok s) × (scan (bytes s) ≡ ok s))
unfolding scan value
scan-value s =
    let valid = checked-ok_iff s in
    ((λ h. (valid.0 h, valid.0 h, valid.0 h)), (λ same. valid.1 same.0))

module _ {Db : Type 0} (rows : RowTable Db) (laws : RowLaws rows) where
  domain-created :
      (created : Bool) (r : Result PiholeStatus) (curr : InitStatus)
      → row_to_domain rows created r ≡ ok curr
      → created ≡ curr.user_created
  domain-created created (ok s) curr h = cc
  domain-created created (err e) curr h = cc

  selected_row :
      (r : Result (Bool × Source)) (curr : InitStatus)
      → (r >>= (λ row. row_to_domain rows row.0 (scan row.1))) ≡ ok curr
      → (v : Source) × (r ≡ ok (curr.user_created, v))
  selected_row (ok (created, v)) curr h =
      (v, ap (λ b. ok (b, v)) (domain-created created (scan v) curr h))
  selected_row (err e) curr h = cc

  -- A valid status is the argument of the UPDATE, any other is an error.
  exec_status-none :
      (s : PiholeStatus) (db : Db)
      → (exec_status rows s db).0 ≡ none
      → (is_valid s ≡ true) × (exec_status rows s db ≡ rows.set_status s db)
  unfolding exec_status value checked
  exec_status-none s db done = ground arith

  select-exec_status :
      (s : PiholeStatus) (db : Db) (curr : InitStatus)
      → get_initialization_status rows db ≡ ok curr
      → (exec_status rows s db).0 ≡ none
      → get_initialization_status rows (exec_status rows s db).1
        ≡ ok (record curr { pihole_status = s })
  unfolding get_initialization_status scan
  select-exec_status s db curr now done =
      let (valid, same) = exec_status-none s db done in
      let (v, row) = selected_row (rows.select_row db) curr now in
      let stored = ap (row_to_domain rows curr.user_created) ((checked-ok_iff s).0 valid) in
      elim (laws.written s db curr.user_created v row (sym (ap (λ r. r.0) same) ∙ done)) [
        | inl e ↦ rw (same, e) stored
        | inr e ↦ rw (same, e) stored
      ]

  -- If SQLite gives back the text that was written, an update of the status that succeeds stores a
  -- valid status that is further than the old one in the order UNINITIALIZED, SKIPPED, ADDED: the
  -- next GetInitializationStatus scans it without an error, with the other column as it was.
  pub stored_status_advances :
      (s : PiholeStatus) (db : Db) (curr : InitStatus)
      → get_initialization_status rows db ≡ ok curr
      → (update_pihole_initialization_status (init_table rows) s db).0 ≡ none
      → (is_valid s ≡ true)
        × (rank curr.pihole_status < rank s)
        × (get_initialization_status rows
              (update_pihole_initialization_status (init_table rows) s db).1
            ≡ ok (record curr { pihole_status = s }))
  unfolding init_table
  stored_status_advances s db curr now done =
      update_pihole_initialization_status_advances (init_table rows) select-exec_status s db curr
        now done
