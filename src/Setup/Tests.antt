-- ===== src/Setup/Tests.antt =====
-- The setup over a row kept in memory.
use pihole_cluster_admin.Prelude.{◌≡◌, refl, pos, Bool, true, false, none}
use pihole_cluster_admin.Httpx.{ok, err, other}
use pihole_cluster_admin.Domain.{User}
use pihole_cluster_admin.Setup.{
  InitStatus, InitTable, SetupPort, CreateUserParams, create_user, create_first_user, record_user,
  open_session,
}

-- Whether there is a user, and the row of the status.
abbrev Db : Type 0
Db = Bool × InitStatus

abbrev table : InitTable Db
table = record {
  select = λ db. ok db.1;
  update_user_created = λ b db. (none, (db.0, record db.1 { user_created = b }));
  update_pihole_status = λ s db. (none, (db.0, record db.1 { pihole_status = s }));
}

abbrev root : User
root = record { id = pos 1; username = "root"; created_at = 0; updated_at = 0 }

-- No session can be created.
abbrev port : SetupPort Db
port = record {
  is_initialized = λ db. ok db.0;
  create_user = λ params db. (ok root, (true, db.1));
  create_session = λ id db. (err (other "database is locked"), db);
}

abbrev params : CreateUserParams
params = record { username = "root"; password = "pw" }

abbrev fresh_db : Db
fresh_db = (false, record { user_created = false; pihole_status = "UNINITIALIZED" })

-- The user is there, and the browser has an error and no cookie.
user_without_session : create_user table port params fresh_db ≡ (
  err (other "database is locked"),
  (true, record { user_created = true; pihole_status = "UNINITIALIZED" }),
)
unfolding create_user create_first_user record_user open_session
user_without_session = refl
