-- ===== src/Users/First/Tests.antt =====
-- Two requests for the first user, whose sessions cannot be created.
use pihole_cluster_admin.Prelude.{ℕ, suc, ℤ, pos, ◌≤◌, ◌≡◌, refl, sym, String, none, [], ◌∷◌, arith}
use pihole_cluster_admin.Text.{to_lower, trim_space}
use pihole_cluster_admin.Httpx.{other, no_rows, Result, ok, err}
use pihole_cluster_admin.Httpx.Laws.{ok-injective, err-ne-ok}
use pihole_cluster_admin.Crypto.{Bcrypt, hash_password}
use pihole_cluster_admin.Setup.{
  InitTable, CreateUserParams, create_user as set_up, create_first_user, record_user, open_session,
}
use pihole_cluster_admin.Users.{UserTable, create_user, get_user, is_initialized}
use pihole_cluster_admin.Users.First.{CountLaws, set_up_all, create_user_once}

-- The database is the number of users.
abbrev counting : UserTable ℕ
counting = record {
  to_lower = to_lower;
  insert = λ name hash db. (ok (pos db), suc db);
  update = λ id parts db. (none, db);
  select_one = λ id db. err no_rows;
  select_by_name = λ name db. err no_rows;
  count = λ db. ok db;
}

abbrev init : InitTable ℕ
init = record {
  select = λ db. err no_rows;
  update_user_created = λ b db. (none, db);
  update_pihole_status = λ s db. (none, db);
}

abbrev no_session : ℤ → ℕ → Result String × ℕ
no_session id db = (err (other "database is locked"), db)

abbrev plain : Bcrypt
plain = record { generate = λ password. ok password; compare = λ hash password. none }

abbrev counting-laws : CountLaws counting init no_session
counting-laws = record {
  rows = λ db. db;
  inserted = λ name hash db id done. refl;
  not_inserted = λ name hash db e done. absurd (err-ne-ok (sym done));
  counted = λ db n read. sym (ok-injective _ _ read);
  status_kept = λ b db. refl;
  session_kept = λ id db. refl;
}

abbrev root : CreateUserParams
root = record { username = "Root"; password = "pw" }

-- The first request has stored the user, so the second does not.
two_requests : set_up_all counting plain init no_session counting-laws (root ∷ root ∷ []) 0 ≡ 1
unfolding set_up create_first_user record_user open_session create_user get_user is_initialized
    hash_password trim_space
two_requests = refl

create_user_once_example :
    counting-laws.rows
      (set_up_all counting plain init no_session counting-laws (root ∷ root ∷ []) 0)
    ≤ 1
create_user_once_example =
    create_user_once counting plain init no_session counting-laws (root ∷ root ∷ []) 0 (omega arith)
