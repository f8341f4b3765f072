-- ===== src/Setup/Stored/Tests.antt =====
-- A row whose status the driver gives back as bytes.
use pihole_cluster_admin.Prelude.{◌<◌, ◌≡◌, refl, ap, Bool, true, String, none, inr}
use pihole_cluster_admin.Httpx.{ok}
use pihole_cluster_admin.Httpx.Laws.{ok-injective}
use pihole_cluster_admin.Setup.{
  InitStatus, update_pihole_initialization_status, move_status, set_pihole_status, is_valid,
}
use pihole_cluster_admin.Setup.Laws.{rank}
use pihole_cluster_admin.Setup.Stored.{
  bytes, RowTable, init_table, get_initialization_status, exec_status, scan, value, checked,
}
use pihole_cluster_admin.Setup.Stored.Laws.{RowLaws, stored_status_advances}

abbrev Row : Type 0
Row = Bool × String

abbrev row_table : RowTable Row
row_table = record {
  select_row = λ row. ok (row.0, bytes row.1);
  set_created = λ b row. (none, (b, row.1));
  set_status = λ s row. (none, (row.0, s));
  scan_error = λ e. e;
  argument_error = λ e. e;
}

row_table-laws : RowLaws row_table
row_table-laws = record {
  written = λ s row created v now done. inr (ap (λ p. ok (p.0, bytes s)) (ok-injective _ _ now));
}

abbrev start : InitStatus
start = record { user_created = true; pihole_status = "SKIPPED" }

stored_status_advances_example :
    (is_valid "ADDED" ≡ true)
    × (rank "SKIPPED" < rank "ADDED")
    × (get_initialization_status row_table
          (update_pihole_initialization_status (init_table row_table) "ADDED" (true, "SKIPPED")).1
        ≡ ok (record start { pihole_status = "ADDED" }))
unfolding update_pihole_initialization_status move_status set_pihole_status is_valid init_table
    get_initialization_status exec_status scan value checked
stored_status_advances_example =
    stored_status_advances row_table row_table-laws "ADDED" (true, "SKIPPED") start refl refl
