-- ===== src/Nodes/Handler.antt =====
-- backend/internal/handler/piholehandler/handler.go, over the interface `service`.
--
-- A body is `none` if DecodeJSONBody fails, and else the fields that it has decoded; the id of the
-- path is `none` if strconv.ParseInt fails. A handler returns its reply and the state of the service.
pub mod Laws
use pihole_cluster_admin.Prelude.{
  ℕ, ℤ, pos, String, Bool, true, false, not, ◌&&◌, ◌||◌, Option, none, some, List, [], ◌∷◌, ◌==◌,
  string_eq, int_eq, ltb_ℤ, leb_ℤ, if◌then◌else◌, first_failed,
}
use pihole_cluster_admin.Text.{trim_space, to_lower}
use pihole_cluster_admin.Httpx.{
  GoError, Result, ok, err, Reply, json_error, json, status, write_json_error_from_err, bad_request,
  unless_failed,
}
use pihole_cluster_admin.Fields.{is_blank, is_no_port}
use pihole_cluster_admin.Domain.{PiholeNode}
use pihole_cluster_admin.Nodes.Store.{AddPiholeParams, UpdatePiholeParams}
use pihole_cluster_admin.Nodes.Service.{TestInstanceConnectionParams, TestExistingConnectionParams}

-- `service` of interface.go
pub record PiholeService (S : Type 0) : Type 0 where
  pub get_all : S → Result (List PiholeNode)
  pub add : AddPiholeParams → S → Result PiholeNode × S
  pub update : ℤ → UpdatePiholeParams → S → Result PiholeNode × S
  pub remove : ℤ → S → Result Bool × S
  pub test_existing_connection : ℤ → TestExistingConnectionParams → S → Option GoError × S
  pub test_instance_connection : TestInstanceConnectionParams → S → Option GoError × S

abbrev pub is_no_scheme : String → Bool
is_no_scheme s = not (s == "http") && not (s == "https")

-- `p != nil && test(*p)`
abbrev pub is_given {ℓ} : {A : Type ℓ} → (A → Bool) → Option A → Bool
is_given test none = false
is_given test (some a) = test a

abbrev pub is_missing {ℓ} : {A : Type ℓ} → Option A → Bool
is_missing none = true
is_missing (some a) = false

-- The early returns of `add`
unfoldable pub add_guards : AddPiholeParams → List (Bool × String)
unfolding trim_space
add_guards body =
    (is_no_scheme body.scheme, "scheme must be http or https")
    ∷ (is_blank body.host, "host must not be empty")
    ∷ (is_no_port body.port, "port must be a valid TCP port")
    ∷ (is_blank body.name, "name must not be empty")
    ∷ (is_blank body.password, "password must not be empty")
    ∷ []

-- Those of `update` after the id has been parsed
unfoldable pub update_guards : ℤ → UpdatePiholeParams → List (Bool × String)
unfolding trim_space
update_guards id body =
    (leb_ℤ id (pos 0), "invalid id (<= 0)")
    ∷ (
      is_missing body.scheme
          && is_missing body.host
          && is_missing body.port
          && is_missing body.name
          && is_missing body.description
          && is_missing body.password,
      "must provide at least one field to update",
    )
    ∷ (is_given is_no_scheme body.scheme, "scheme must be http or https")
    ∷ (is_given is_blank body.host, "host must not be empty")
    ∷ (is_given is_no_port body.port, "port must be a valid TCP port")
    ∷ (is_given is_blank body.name, "name must not be empty")
    ∷ (is_given is_blank body.password, "password must not be empty")
    ∷ []

-- The body of `testInstanceConnection` with its fields trimmed and the port that stands for none
abbrev pub default_port : String → ℤ → ℤ
default_port scheme p = if p == pos 0 then (if scheme == "https" then pos 443 else pos 80) else p

unfoldable pub normalized : TestInstanceConnectionParams → TestInstanceConnectionParams
unfolding trim_space to_lower
normalized body = record {
  scheme = to_lower (trim_space body.scheme);
  host = trim_space body.host;
  port = default_port (to_lower (trim_space body.scheme)) body.port;
  password = body.password;
}

abbrev pub test_guards : TestInstanceConnectionParams → List (Bool × String)
test_guards body =
    (is_no_scheme body.scheme, "scheme must be http or https")
    ∷ (body.host == "", "host is required")
    ∷ (ltb_ℤ body.port (pos 1) || ltb_ℤ (pos 65535) body.port, "invalid port")
    ∷ (body.password == "", "password is required")
    ∷ []

module _ {S : Type 0} (service : PiholeService S) where
  -- A node in JSON with a status, or the error
  abbrev pub node_reply : ℕ → Result PiholeNode × S → Reply PiholeNode × S
  node_reply code (ok node, s) = (json code node, s)
  node_reply code (err e, s) = (write_json_error_from_err e, s)

  abbrev pub test_reply : Option GoError × S → Reply (Unit {0}) × S
  test_reply (none, s) = (status 204, s)
  test_reply (some e, s) = (json_error "internal server error" 500, s)

  abbrev pub list_reply : Result (List PiholeNode) → Reply (List PiholeNode)
  list_reply (ok nodes) = json 200 nodes
  list_reply (err e) = json_error "internal server error" 500

  abbrev pub remove_reply : Result Bool × S → Reply (Unit {0}) × S
  remove_reply (err e, s) = (json_error "internal server error" 500, s)
  remove_reply (ok found, s) = (status (if found then 204 else 404), s)

  -- getAll
  unfoldable pub handle_get_all : S → Reply (List PiholeNode) × S
  handle_get_all s = (list_reply (service.get_all s), s)

  -- add
  unfoldable pub handle_add : Option AddPiholeParams → S → Reply PiholeNode × S
  unfolding add_guards write_json_error_from_err
  handle_add none s = bad_request "invalid JSON body" s
  handle_add (some body) s =
      unless_failed (first_failed (add_guards body)) (node_reply 201 (service.add body s)) s

  -- update
  unfoldable pub handle_update : Option UpdatePiholeParams → Option ℤ → S → Reply PiholeNode × S
  unfolding update_guards write_json_error_from_err
  handle_update none id s = bad_request "invalid JSON body" s
  handle_update (some body) none s = bad_request "error processing id path parameter" s
  handle_update (some body) (some id) s =
      unless_failed (first_failed (update_guards id body))
        (node_reply 200 (service.update id body s)) s

  -- remove
  unfoldable pub handle_remove : Option ℤ → S → Reply (Unit {0}) × S
  handle_remove none s = bad_request "error processing id path parameter" s
  handle_remove (some id) s =
      if leb_ℤ id (pos 0)
      then bad_request "invalid id (<= 0)" s
      else remove_reply (service.remove id s)

  -- testInstanceConnection
  unfoldable pub handle_test_instance_connection :
      Option TestInstanceConnectionParams → S → Reply (Unit {0}) × S
  unfolding normalized
  handle_test_instance_connection none s = bad_request "Invalid JSON" s
  handle_test_instance_connection (some body) s =
      unless_failed (first_failed (test_guards (normalized body)))
        (test_reply (service.test_instance_connection (normalized body) s)) s

  -- testExistingConnection
  unfoldable pub handle_test_existing_connection :
      Option ℤ → Option TestExistingConnectionParams → S → Reply (Unit {0}) × S
  handle_test_existing_connection none body s = bad_request "invalid id" s
  handle_test_existing_connection (some id) none s =
      bad_request (if ltb_ℤ id (pos 0) then "invalid id" else "Invalid JSON") s
  handle_test_existing_connection (some id) (some body) s =
      if ltb_ℤ id (pos 0)
      then bad_request "invalid id" s
      else test_reply (service.test_existing_connection id body s)
