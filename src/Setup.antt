-- ===== src/Setup.antt =====
-- backend/internal/service/setupservice, with domain/init_status.go and store/init_status.go: the
-- first user, and the status of the first Pi-hole.
--
-- The SQL statements, the user store and the sessions are the parameters `InitTable` and
-- `SetupPort`, over one state of the database.
pub mod Laws
pub mod Stored
mod Tests
use Prim.Native.String.{◌++◌}
use pihole_cluster_admin.Prelude.{
  ℤ, String, Bool, true, false, not, ◌||◌, ◌&&◌, Option, none, some, ◌==◌, string_eq, if◌then◌else◌,
}
use pihole_cluster_admin.Httpx.{GoError, http_error, forbidden, validation, other, Result, ok, err}
use pihole_cluster_admin.Domain.{User}

-- domain/init_status.go
abbrev pub PiholeStatus : Type 0
PiholeStatus = String

abbrev pub pihole_uninitialized : PiholeStatus
pihole_uninitialized = "UNINITIALIZED"

abbrev pub pihole_added : PiholeStatus
pihole_added = "ADDED"

abbrev pub pihole_skipped : PiholeStatus
pihole_skipped = "SKIPPED"

-- PiholeStatus.IsValid
unfoldable pub is_valid : PiholeStatus → Bool
is_valid s = s == pihole_uninitialized || s == pihole_added || s == pihole_skipped

pub record InitStatus : Type 0 where
  pub user_created : Bool
  pub pihole_status : PiholeStatus

-- The statements of store/init_status.go, on the row whose id is 1.
pub record InitTable (Db : Type 0) : Type 0 where
  pub select : Db → Result InitStatus
  pub update_user_created : Bool → Db → Option GoError × Db
  pub update_pihole_status : PiholeStatus → Db → Option GoError × Db

-- CreateUserParams
pub record CreateUserParams : Type 0 where
  pub username : String
  pub password : String

-- `userStore` and `sessionIssuer` of setupservice/interface.go
pub record SetupPort (Db : Type 0) : Type 0 where
  pub is_initialized : Db → Result Bool
  pub create_user : CreateUserParams → Db → Result User × Db
  pub create_session : ℤ → Db → Result String × Db

module _ {Db : Type 0} (table : InitTable Db) where
  -- SetPiholeStatus of the store
  unfoldable pub set_pihole_status : PiholeStatus → Db → Option GoError × Db
  unfolding is_valid
  set_pihole_status s db =
      if not (is_valid s)
      then (some (other ("invalid pihole status \"" ++ (s ++ "\""))), db)
      else table.update_pihole_status s db

  abbrev pub invalid : String → Option GoError
  invalid message = some (http_error validation message)

  unfoldable pub move_status : PiholeStatus → Result InitStatus → Db → Option GoError × Db
  unfolding set_pihole_status
  move_status s (err e) db = (some e, db)
  move_status s (ok curr) db =
      if s == curr.pihole_status
      then (invalid "new status is same as current status", db)
      else if s == pihole_uninitialized
      then (invalid "cannot update status to UNINITIALIZED", db)
      else if s == pihole_skipped && curr.pihole_status == pihole_added
      then (invalid "cannot update status from ADDED to SKIPPED", db)
      else set_pihole_status s db

  -- UpdatePiholeInitializationStatus
  unfoldable pub update_pihole_initialization_status : PiholeStatus → Db → Option GoError × Db
  unfolding move_status
  update_pihole_initialization_status s db = move_status s (table.select db) db

  module _ (port : SetupPort Db) where
    unfoldable pub open_session : User → Option GoError → Db → Result (User × String) × Db
    open_session user (some e) db = (err e, db)
    open_session user none db =
        let (r, db') = port.create_session user.id db in
        (elim r [ ok sid ↦ ok (user, sid) | err e ↦ err e ], db')

    unfoldable pub record_user : Result User → Db → Result (User × String) × Db
    unfolding open_session
    record_user (err e) db = (err e, db)
    record_user (ok user) db =
        let (e, db') = table.update_user_created true db in open_session user e db'

    unfoldable pub create_first_user :
        CreateUserParams → Result Bool → Db → Result (User × String) × Db
    unfolding record_user
    create_first_user params (err e) db = (err e, db)
    create_first_user params (ok true) db =
        (err (http_error forbidden "app is already initialized"), db)
    create_first_user params (ok false) db =
        record_user (port.create_user params db).0 (port.create_user params db).1

    -- CreateUser
    unfoldable pub create_user : CreateUserParams → Db → Result (User × String) × Db
    unfolding create_first_user
    create_user params db = create_first_user params (port.is_initialized db) db
