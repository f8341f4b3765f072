-- ===== src/Pihole/Client.antt =====
-- backend/internal/pihole/client.go: the client of one Pi-hole, with the session that it keeps.
--
-- The network, the clock and the JSON decoder are the parameter `Http`: a request takes the world
-- of the node to a response and a new world. A URL is kept as its parts, which `fmt` and `net/url`
-- join and escape. The session's lock is held for single reads and writes; calls of one client do
-- not overlap here.
pub mod Calls
pub mod Port
pub mod Laws
pub mod Answers
pub mod Params
mod Tests
use Prim.Native.String.{◌++◌}
use pihole_cluster_admin.Prelude.{
  ℕ, ℤ, pos, negsuc, ◌+◌, ◌-◌, ◌*◌, String, Bool, true, false, not, ◌&&◌, ◌||◌, Option, none, some,
  List, [], ◌∷◌, ◌==◌, string_eq, nat_eq, ltb, leb, if◌then◌else◌,
}
use pihole_cluster_admin.Text.{show_nat}
use pihole_cluster_admin.Httpx.{GoError, other, error_text, Result, ok, err}
use pihole_cluster_admin.Domain.{PiholeNodeRef, second}
use pihole_cluster_admin.Pihole.Types.{
  ClientConfig, AddDomainPayload, FetchQueryLogResponse, GetDomainRulesResponse,
  AddDomainRuleResponse,
}

-- `authResponse` of auth_internal.go
pub record AuthResponse : Type 0 where
  pub valid : Bool
  pub sid : String
  pub csrf : String
  pub validity : ℤ
  pub took : ℕ

pub data Method : Type 0 where
  get post delete : Method

-- The value of a query parameter before it is written as text.
pub data Param : Type 0 where
  number : ℤ → Param
  word : String → Param
  flag : Bool → Param

pub data RequestBody : Type 0 where
  empty : RequestBody
  password : String → RequestBody
  payload : AddDomainPayload → RequestBody

-- A request to a Pi-hole; `sid` is the header X-FTL-SID, and `path` follows `/api`.
pub record Request : Type 0 where
  pub method : Method
  pub scheme : String
  pub host : String
  pub port : ℤ
  pub path : List String
  pub query : List (String × Param)
  pub sid : Option String
  pub body : RequestBody

pub record Response (Body : Type 0) : Type 0 where
  pub status_code : ℕ
  pub body : Body

-- net/http, encoding/json and the clock. `check` is the error of `http.NewRequestWithContext`.
pub record Http (World Body : Type 0) : Type 0 where
  pub now : World → ℕ
  pub check : Request → Option GoError
  pub send : Request → World → Result (Response Body) × World
  pub decode_auth : Body → Result AuthResponse
  pub decode_logs : Body → Result FetchQueryLogResponse
  pub decode_rules : Body → Result GetDomainRulesResponse
  pub decode_added : Body → Result AddDomainRuleResponse

pub record SessionState : Type 0 where
  pub sid : String
  pub valid_until : ℕ

-- The zero value of `sessionState`.
abbrev pub no_session : SessionState
no_session = record { sid = ""; valid_until = 0 }

pub record Client : Type 0 where
  pub cfg : ClientConfig
  pub session : SessionState

-- A client with the world that its requests reach.
pub record Node (World : Type 0) : Type 0 where
  pub client : Client
  pub world : World

-- A method of a client that returns a value and an error.
abbrev pub Io : Type 0 → Type 0 → Type 0
Io World A = Node World → Result A × Node World

module _ {World : Type 0} where
  abbrev pub and_then : {A B : Type 0} → Result A → (A → Io World B) → Io World B
  and_then (err e) f n = (err e, n)
  and_then (ok a) f n = f a n

  infixl 5 ◌>>=◌
  abbrev pub ◌>>=◌ : {A B : Type 0} → Io World A → (A → Io World B) → Io World B
  ◌>>=◌ m f n = and_then (m n).0 f (m n).1

  abbrev pub return : {A : Type 0} → Result A → Io World A
  return r n = (r, n)

-- fmt.Errorf("prefix%w", err)
abbrev pub wrap : {A : Type 0} → String → Result A → Result A
wrap prefix (ok a) = ok a
wrap prefix (err e) = err (other (prefix ++ error_text e))

-- `now.Add(time.Duration(v) * time.Second)`; times before the epoch are 0.
abbrev pub add_seconds : ℕ → ℤ → ℕ
add_seconds now (pos v) = now + v * second
add_seconds now (negsuc v) = now - (v + 1) * second

abbrev pub leeway : ℕ
leeway = 5 * second

unfoldable pub new_client : ClientConfig → Client
new_client cfg = record { cfg = cfg; session = no_session }

unfoldable pub update : ClientConfig → Client → Client
update cfg c = record c { cfg = cfg }

unfoldable pub get_node_info : Client → PiholeNodeRef
get_node_info c = record { id = c.cfg.id; name = c.cfg.name; host = c.cfg.host }

-- A request below the base URL of the client's configuration.
unfoldable pub base_request :
    Method → List String → List (String × Param) → Option String → RequestBody → Client → Request
base_request method path query sid body c = record {
  method = method;
  scheme = c.cfg.scheme;
  host = c.cfg.host;
  port = c.cfg.port;
  path = path;
  query = query;
  sid = sid;
  body = body;
}

module _ {World Body : Type 0} (http : Http World Body) where
  -- c.HTTP.Do(req)
  unfoldable pub do_http : Request → Io World (Response Body)
  do_http req n = ((http.send req n.world).0, record n { world = (http.send req n.world).1 })

  -- http.NewRequestWithContext, with the prefix of its error.
  unfoldable pub new_request : String → Request → Result Request
  new_request prefix req = elim (http.check req) [
    | none ↦ ok req
    | some e ↦ err (other (prefix ++ error_text e))
  ]

  unfoldable pub keep_session : AuthResponse → Io World (Unit {0})
  keep_session auth n =
      if not auth.valid || auth.sid == ""
      then (err (other "auth failed: session invalid"), n)
      else (
        ok tt,
        record n {
          client = record n.client {
            session = record {
              sid = auth.sid;
              valid_until = add_seconds (http.now n.world) auth.validity;
            };
          };
        },
      )

  unfoldable pub login_answer : Response Body → Io World (Unit {0})
  login_answer resp n =
      if not (resp.status_code == 200)
      then (err (other ("auth failed, status: " ++ show_nat resp.status_code)), n)
      else and_then (wrap "decoding auth response: " (http.decode_auth resp.body)) keep_session n

  unfoldable pub login_request : Client → Request
  unfolding base_request
  login_request c = base_request post ("auth" ∷ []) [] none (password c.cfg.password) c

  unfoldable pub login_send : Request → Io World (Unit {0})
  unfolding do_http
  login_send req n =
      and_then (wrap "auth request failed: " (do_http req n).0) login_answer (do_http req n).1

  -- Login
  unfoldable pub login : Io World (Unit {0})
  unfolding new_request login_request
  login n = and_then (new_request "creating auth request: " (login_request n.client)) login_send n

  -- The cached session is not about to expire.
  abbrev pub is_fresh : Node World → Bool
  is_fresh n =
      not (n.client.session.sid == "")
      && ltb (http.now n.world + leeway) n.client.session.valid_until

  unfoldable pub ensure_session : Io World String
  ensure_session n =
      if is_fresh n
      then (ok n.client.session.sid, n)
      else and_then (wrap "auth failed: " (login n).0) (λ _ m. (ok m.client.session.sid, m))
          (login n).1

  abbrev pub is_denied : ℕ → Bool
  is_denied code = code == 401 || code == 403

  -- The request is sent again with the session that `ensureSession` returns now.
  unfoldable pub retry_if_denied : Request → Response Body → Io World (Response Body)
  retry_if_denied req resp =
      if is_denied resp.status_code
      then (do sid ← ensure_session; do_http (record req { sid = some sid }))
      else return (ok resp)

  unfoldable pub do_request : Request → Io World (Response Body)
  do_request req = do
    sid ← ensure_session
    resp ← do_http (record req { sid = some sid })
    retry_if_denied req resp

  unfoldable pub logout_answer : Request → Io World (Unit {0})
  unfolding do_http
  logout_answer req n =
      and_then (wrap "logout request failed: " (do_http req n).0) (λ resp m. (ok tt, m))
        (do_http req n).1

  abbrev pub forget_session : Node World → Node World
  forget_session n = record n { client = record n.client { session = no_session } }

  -- Logout: the session is forgotten, whatever the node answers.
  unfoldable pub logout : Io World (Unit {0})
  unfolding new_request base_request logout_answer
  logout n =
      if n.client.session.sid == ""
      then (ok tt, forget_session n)
      else and_then
          (new_request "creating logout request: "
            (base_request delete ("auth" ∷ []) [] (some n.client.session.sid) empty n.client))
          logout_answer (forget_session n)
