-- ===== src/Setup/Stored.antt =====
-- Scan and Value of backend/internal/domain/init_status.go, and the store of
-- backend/internal/store/init_status.go over the SQL statements.
pub mod Laws
mod Tests
use Prim.Native.String.{◌++◌}
use pihole_cluster_admin.Prelude.{String, Bool, Option, some, if◌then◌else◌}
use pihole_cluster_admin.Httpx.{GoError, other, Result, ok, err, ◌>>=◌}
use pihole_cluster_admin.Setup.{PiholeStatus, is_valid, InitStatus, InitTable}

-- What a driver gives to Scan: a string, bytes, or a value of another type.
pub data Source : Type 0 where
  text bytes : String → Source
  value_of_type : String → Source

unfoldable pub checked : PiholeStatus → Result PiholeStatus
unfolding is_valid
checked s =
    if is_valid s then ok s else err (other ("pihole status: invalid value \"" ++ (s ++ "\"")))

-- Scan
unfoldable pub scan : Source → Result PiholeStatus
unfolding checked
scan (text s) = checked s
scan (bytes s) = checked s
scan (value_of_type t) = err (other ("pihole status: unsupported scan type " ++ t))

-- Value
unfoldable pub value : PiholeStatus → Result String
unfolding checked
value s = checked s

-- The statements on the row whose id is 1, and how database/sql reports an error of Scan or Value.
pub record RowTable (Db : Type 0) : Type 0 where
  pub select_row : Db → Result (Bool × Source)
  pub set_created : Bool → Db → Option GoError × Db
  pub set_status : String → Db → Option GoError × Db
  pub scan_error : GoError → GoError
  pub argument_error : GoError → GoError

module _ {Db : Type 0} (rows : RowTable Db) where
  -- rowToDomainInitStatus
  abbrev pub row_to_domain : Bool → Result PiholeStatus → Result InitStatus
  row_to_domain created (ok s) = ok (record { user_created = created; pihole_status = s })
  row_to_domain created (err e) = err (rows.scan_error e)

  -- GetInitializationStatus
  unfoldable pub get_initialization_status : Db → Result InitStatus
  unfolding scan
  get_initialization_status db = do row ← rows.select_row db; row_to_domain row.0 (scan row.1)

  -- SetUserCreated
  unfoldable pub set_user_created : Bool → Db → Option GoError × Db
  set_user_created = rows.set_created

  abbrev pub exec_with : Result String → Db → Option GoError × Db
  exec_with (ok v) db = rows.set_status v db
  exec_with (err e) db = (some (rows.argument_error e), db)

  -- The UPDATE of SetPiholeStatus, whose argument database/sql turns into a value first
  unfoldable pub exec_status : PiholeStatus → Db → Option GoError × Db
  unfolding value
  exec_status s db = exec_with (value s) db

  unfoldable pub init_table : InitTable Db
  unfolding get_initialization_status set_user_created exec_status
  init_table = record {
    select = get_initialization_status;
    update_user_created = set_user_created;
    update_pihole_status = exec_status;
  }
