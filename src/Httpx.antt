-- ===== src/Httpx.antt =====
-- backend/internal/transport/httpx: errors with a kind, and the replies that handlers write.
-- Also the other errors that the backend tells apart: sql.ErrNoRows and store.WrongPasswordError.
pub mod Laws
use Prim.Native.String.{◌++◌}
use pihole_cluster_admin.Prelude.{ℕ, String, Option, none, some, ◌==◌, string_eq, if◌then◌else◌}

-- the error values of error.go
pub data Kind : Type 0 where
  unauthorized forbidden not_found validation conflict internal_service : Kind

-- A value of Go's `error` that is not nil. `http_error` is `*HttpError`.
pub data GoError : Type 0 where
  http_error : Kind → String → GoError
  no_rows : GoError
  wrong_password : GoError
  other : String → GoError

-- What a Go function returns as `(value, error)`.
pub data Result {ℓ} (A : Type ℓ) : Type ℓ where
  ok : A → Result A
  err : GoError → Result A

-- `if err != nil { return ..., err }`
infixl 5 ◌>>=◌
abbrev pub ◌>>=◌ {ℓ κ} : {A : Type ℓ} {B : Type κ} → Result A → (A → Result B) → Result B
err failure >>= next = err failure
ok value >>= next = next value

-- `Kind.Error()`
unfoldable pub kind_text : Kind → String
kind_text unauthorized = "unauthorized"
kind_text forbidden = "forbidden"
kind_text not_found = "user not found"
kind_text validation = "validation failed"
kind_text conflict = "conflict"
kind_text internal_service = "internal service error"

-- `err.Error()`
unfoldable pub error_text : GoError → String
unfolding kind_text
error_text (http_error k m) = if m == "" then kind_text k else kind_text k ++ (": " ++ m)
error_text no_rows = "sql: no rows in result set"
error_text wrong_password = "wrong password"
error_text (other m) = m

-- What a handler has written when it returns: an error in JSON, a value in JSON, or a status alone.
-- `panicked` is a handler that did not return.
pub data Reply {ℓ} (A : Type ℓ) : Type ℓ where
  json_error : String → ℕ → Reply A
  json : ℕ → A → Reply A
  status : ℕ → Reply A
  panicked : Reply A

unfoldable pub kind_status : Kind → ℕ
kind_status unauthorized = 401
kind_status forbidden = 403
kind_status not_found = 404
kind_status validation = 400
kind_status conflict = 409
kind_status internal_service = 500

-- WriteJSONErrorFromErr
unfoldable pub write_json_error_from_err {ℓ} : {A : Type ℓ} → GoError → Reply A
unfolding kind_text kind_status
write_json_error_from_err (http_error k m) = json_error (kind_text k) (kind_status k)
write_json_error_from_err no_rows = json_error "internal service error" 500
write_json_error_from_err wrong_password = json_error "internal service error" 500
write_json_error_from_err (other m) = json_error "internal service error" 500

-- The status of a reply; net/http answers a panic that chi's Recoverer caught with 500.
unfoldable pub status_of {ℓ} : {A : Type ℓ} → Reply A → ℕ
status_of (json_error m s) = s
status_of (json s a) = s
status_of (status s) = s
status_of panicked = 500

-- httpx.WriteJSONError(w, message, http.StatusBadRequest), with the state as it was
abbrev pub bad_request {ℓ κ} : {A : Type ℓ} {S : Type κ} → String → S → Reply A × S
bad_request message s = (json_error message 400, s)

-- The answer, unless an early return comes first.
abbrev pub unless_failed {ℓ κ} :
    {A : Type ℓ} {S : Type κ} → Option String → Reply A × S → S → Reply A × S
unless_failed none answer s = answer
unless_failed (some message) answer s = bad_request message s

-- The next step of a handler with a parameter that has been parsed, or the status 400
abbrev pub parsed {ℓ κ μ} :
    {A : Type ℓ} {B : Type κ} {S : Type μ} → String → Option A → (A → Reply B × S) → S → Reply B × S
parsed message none next s = bad_request message s
parsed message (some a) next s = next a
