-- ===== src/Domain.antt =====
-- backend/internal/domain: the data that the parts of the backend exchange.
-- A `time.Time` is a number of nanoseconds; Go's `error` is `Option GoError`.
use pihole_cluster_admin.Prelude.{ℕ, ℤ, String, Bool, true, false, Option, none, some, ◌*◌}
use pihole_cluster_admin.Httpx.{GoError, Result, ok, err, error_text}

abbrev pub second : ℕ
second = 1000000000

abbrev pub hour : ℕ
hour = 3600 * second

pub record PiholeNodeRef : Type 0 where
  pub id : ℤ
  pub name : String
  pub host : String

-- pihole_node.go
pub record PiholeNode : Type 0 where
  pub id : ℤ
  pub scheme : String
  pub host : String
  pub port : ℤ
  pub name : String
  pub description : String
  pub created_at : ℕ
  pub updated_at : ℕ

pub record PiholeNodeSecret : Type 0 where
  pub node_id : ℤ
  pub password : String

-- auth.go; `took`, a float of seconds, is a number of microseconds here.
pub record AuthStatus : Type 0 where
  pub valid : Bool
  pub validity_seconds : ℤ
  pub valid_until : ℕ
  pub took : ℕ

-- user.go
pub record User : Type 0 where
  pub id : ℤ
  pub username : String
  pub created_at : ℕ
  pub updated_at : ℕ

pub record UserAuth : Type 0 where
  pub password_hash : String

-- result.go
pub record NodeResult {ℓ} (T : Type ℓ) : Type ℓ where
  pub pihole_node : PiholeNodeRef
  pub success : Bool
  pub error : Option GoError
  pub error_string : String
  pub response : Option T

-- The literal that each fan-out of cluster.go builds from `(response, err)`.
unfoldable pub node_result {ℓ} : {T : Type ℓ} → PiholeNodeRef → Result T → NodeResult T
unfolding error_text
node_result node (ok a) = record {
  pihole_node = node;
  success = true;
  error = none;
  error_string = "";
  response = some a;
}
node_result node (err e) = record {
  pihole_node = node;
  success = false;
  error = some e;
  error_string = error_text e;
  response = none;
}
