-- ===== src/Api/Logins/Tests.antt =====
-- Requests of logins and of the setup over a state without users.
use pihole_cluster_admin.Prelude.{ℕ, pos, ◌≡◌, refl, true, false, none, some}
use pihole_cluster_admin.Text.{trim_space, to_lower}
use pihole_cluster_admin.Httpx.{no_rows, other, ok, err, json_error, write_json_error_from_err}
use pihole_cluster_admin.Sessions.{SessionConfig}
use pihole_cluster_admin.Auth.{AuthPort, login, log_in_as, validate_user, refusal}
use pihole_cluster_admin.Setup.{
  InitTable, SetupPort, CreateUserParams, create_user, create_first_user,
}
use pihole_cluster_admin.Api.Logins.{handle_login, handle_create_user, user_guards}

abbrev nobody : AuthPort ℕ
nobody = record {
  to_lower = to_lower;
  select_user = λ name s. err no_rows;
  compare = λ hash password. none;
  create_session = λ id s. (ok "sid", s);
  destroy_session = λ id s. (none, s);
}

abbrev initialized : SetupPort ℕ
initialized = record {
  is_initialized = λ s. ok true;
  create_user = λ params s. (err (other "unused"), s);
  create_session = λ id s. (ok "sid", s);
}

abbrev table : InitTable ℕ
table = record {
  select = λ s. err no_rows;
  update_user_created = λ b s. (none, s);
  update_pihole_status = λ status s. (none, s);
}

abbrev cfg : SessionConfig
cfg = record {
  backend = "memory";
  ttl_hours = pos 1;
  secure = true;
  allow_insecure_cookie = false;
  cookie_name = "session_id";
  cookie_path = "/";
  same_site = "Lax";
}

unknown_user :
    handle_login nobody cfg 5 (some (record { username = "Bob"; password = "pw" })) 7
    ≡ (json_error "unauthorized" 401, (none, 7))
unfolding handle_login login log_in_as validate_user refusal write_json_error_from_err
unknown_user = refl

abbrev bob : CreateUserParams
bob = record { username = "bob"; password = "pw" }

second_user :
    handle_create_user table initialized cfg 5 (some bob) 7
    ≡ (json_error "forbidden" 403, (none, 7))
unfolding handle_create_user user_guards create_user create_first_user trim_space
    write_json_error_from_err
second_user = refl

blank_password :
    handle_create_user table initialized cfg 5 (some (record bob { password = " " })) 7
    ≡ (json_error "empty password in body" 400, (none, 7))
unfolding handle_create_user user_guards trim_space
blank_password = refl
