-- ===== src/Auth/Tests.antt =====
-- A login over one user, whose hash is the password.
use pihole_cluster_admin.Prelude.{
  ◌≡◌, refl, ℕ, pos, ◌+◌, none, some, ◌==◌, string_eq, if◌then◌else◌,
}
use pihole_cluster_admin.Text.{to_lower}
use pihole_cluster_admin.Httpx.{http_error, no_rows, unauthorized, other, ok, err}
use pihole_cluster_admin.Domain.{User}
use pihole_cluster_admin.Auth.{
  UserRow, AuthPort, login, validate_user, log_in_as, row_to_domain_user, refusal,
}
use pihole_cluster_admin.Auth.Laws.{Knows, login-Knows}

abbrev ada_row : UserRow
ada_row = record {
  id = pos 1;
  username = "ada";
  password_hash = "pw";
  created_at = 0;
  updated_at = 0;
}

abbrev ada : User
ada = record { id = pos 1; username = "ada"; created_at = 0; updated_at = 0 }

-- The state counts the sessions.
abbrev one_user : AuthPort ℕ
one_user = record {
  to_lower = to_lower;
  select_user = λ name st. if name == "ada" then ok ada_row else err no_rows;
  compare = λ hash password. if hash == password then none else some (other "mismatch");
  create_session = λ id st. (ok "sid", st + 1);
  destroy_session = λ sid st. (none, st);
}

-- An unknown user and a wrong password are answered alike.
login_unknown :
    login one_user (record { username = "bob"; password = "pw" }) 0
    ≡ (err (http_error unauthorized "invalid credentials"), 0)
unfolding login validate_user log_in_as to_lower refusal
login_unknown = refl

login_wrong :
    login one_user (record { username = "ada"; password = "no" }) 0
    ≡ (err (http_error unauthorized "invalid credentials"), 0)
unfolding login validate_user log_in_as to_lower refusal
login_wrong = refl

login-Knows_example :
    Knows one_user (record { username = "Ada"; password = "pw" }) 0 ada
    × ((one_user.create_session (pos 1) 0).0 ≡ ok "sid")
unfolding login validate_user log_in_as to_lower row_to_domain_user
login-Knows_example =
    login-Knows one_user (record { username = "Ada"; password = "pw" }) 0 (ada, "sid") refl
