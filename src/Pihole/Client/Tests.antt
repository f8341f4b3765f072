-- ===== src/Pihole/Client/Tests.antt =====
-- A node whose answers to all but a login have one status, and runs of the client against it.
use pihole_cluster_admin.Prelude.{ℕ, pos, ◌+◌, ◌≡◌, refl, true, none, [], ◌∷◌}
use pihole_cluster_admin.Httpx.{other, ok, err}
use pihole_cluster_admin.Pihole.Types.{ClientConfig}
use pihole_cluster_admin.Pihole.Client.{
  Method, get, post, delete, Request, Http, Node, no_session, AuthResponse, new_client, update,
  base_request, empty, do_http, do_request, ensure_session, login, login_request, login_send,
  login_answer, keep_session, new_request, retry_if_denied,
}
use pihole_cluster_admin.Pihole.Client.Calls.{
  api_call, run_request, read_response, get_rules, get_all_domain_rules,
}
use pihole_cluster_admin.Pihole.Client.Answers.{
  all_rules, IsReadFrom, request_of, run, run-IsReadFrom,
}
use pihole_cluster_admin.Pihole.Client.Laws.{do_request_keeps_refused_session, signed}

abbrev auth : AuthResponse
auth = record { valid = true; sid = "secret"; csrf = ""; validity = pos 300; took = 3 }

abbrev answer_status : ℕ → Method → ℕ
answer_status code post = 200
answer_status code get = code
answer_status code delete = code

-- The world counts the requests; the body of an answer is the count.
abbrev server : ℕ → Http ℕ ℕ
server code = record {
  now = λ w. w;
  check = λ req. none;
  send = λ req w. (ok (record { status_code = answer_status code req.method; body = w }), w + 1);
  decode_auth = λ b. ok auth;
  decode_logs = λ b. err (other "no logs");
  decode_rules = λ b. ok (record { domains = []; took = b });
  decode_added = λ b. err (other "not added");
}

abbrev cfg : ClientConfig
cfg = record {
  id = pos 1;
  name = "one";
  scheme = "http";
  host = "pi";
  port = pos 80;
  password = "pw";
}

abbrev fresh_node : Node ℕ
fresh_node = record { client = record { cfg = cfg; session = no_session }; world = 0 }

abbrev with_session : Node ℕ
with_session = record {
  client = record { cfg = cfg; session = record { sid = "old"; valid_until = 90000000000 } };
  world = 0;
}

abbrev rules_request : Request
rules_request = record {
  method = get;
  scheme = "http";
  host = "pi";
  port = pos 80;
  path = "domains" ∷ [];
  query = [];
  sid = none;
  body = empty;
}

-- The first request of a new client is a login, and the second one is the request itself.
new_client_logs_in : run (server 200) all_rules (record { client = new_client cfg; world = 0 }) ≡ (
  ok (record { domains = []; took = 1 }),
  record {
    client = record { cfg = cfg; session = record { sid = "secret"; valid_until = 300000000001 } };
    world = 2;
  },
)
unfolding get_all_domain_rules get_rules api_call run_request read_response new_request base_request
    do_request ensure_session do_http login login_request login_send login_answer keep_session
    retry_if_denied new_client
new_client_logs_in = refl

-- A new password does not end the session that the old one has opened.
update_keeps_session : (update cfg (with_session.client)).session.sid ≡ "old"
unfolding update
update_keeps_session = refl

run-IsReadFrom_example :
    IsReadFrom
      (server 200)
      200
      ((server 200).decode_rules)
      (request_of all_rules fresh_node.client)
      (record { domains = []; took = 1 })
      (run (server 200) all_rules fresh_node).1
unfolding get_all_domain_rules get_rules api_call run_request read_response new_request base_request
    do_request ensure_session do_http login login_request login_send login_answer keep_session
    retry_if_denied
run-IsReadFrom_example =
    run-IsReadFrom (server 200) all_rules fresh_node (record { domains = []; took = 1 }) refl

do_request_keeps_refused_session_example :
    do_request (server 401) rules_request with_session
    ≡ do_http
        (server 401)
        (signed (server 401) rules_request "old")
        (do_http (server 401) (signed (server 401) rules_request "old") with_session).1
unfolding do_http
do_request_keeps_refused_session_example =
    do_request_keeps_refused_session (server 401) rules_request with_session
      (record { status_code = 401; body = 0 }) refl refl refl refl
