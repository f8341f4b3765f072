-- ===== src/Crypto.antt =====
-- backend/internal/crypto/crypto.go: the encryption of the passwords of nodes, and the hashes of the
-- passwords of users.
--
-- AES-GCM and base64 are the parameter `Cipher`, and bcrypt is `Bcrypt`; a text that is sealed
-- stands for its bytes. The bytes that `rand.Reader` gives are an argument.
pub mod Laws
pub mod Sample
mod Tests
use pihole_cluster_admin.Prelude.{
  ℕ, ◌-◌, String, Option, none, some, List, ◌++◌, length, take, drop, replicate, ltb, if◌then◌else◌,
}
use pihole_cluster_admin.Text.{bytes, trim_space}
use pihole_cluster_admin.Httpx.{GoError, other, Result, ok, err, ◌>>=◌}

-- `Byte` is what nonces and ciphertexts are made of. `new_gcm` is the error of `aes.NewCipher` or `cipher.NewGCM` for a key.
pub record Cipher (Byte : Type 0) : Type 0 where
  pub new_gcm : List ℕ → Option GoError
  pub nonce_size : ℕ
  pub seal : List ℕ → List Byte → String → List Byte
  pub unseal : List ℕ → List Byte → List Byte → Result String
  pub encode : List Byte → String
  pub decode : String → Result (List Byte)

pub record Bcrypt : Type 0 where
  pub generate : String → Result String
  pub compare : String → String → Option GoError

-- normalizeKey: 32 bytes, for AES-256
unfoldable pub normalize_key : String → List ℕ
normalize_key key =
    let key_bytes = bytes key in
    if ltb (length key_bytes) 32
    then key_bytes ++ replicate (32 - length key_bytes) 0
    else take 32 key_bytes

abbrev pub checked : Option GoError → Result (Unit {0})
checked none = ok tt
checked (some e) = err e

module _ {Byte : Type 0} (cipher : Cipher Byte) where
  -- EncryptPassword; `random` is what `io.ReadFull` reads.
  unfoldable pub encrypt_password : Result (List Byte) → String → String → Result String
  unfolding normalize_key
  encrypt_password random key plaintext = do
    _ ← checked (cipher.new_gcm (normalize_key key))
    nonce ← random
    ok (cipher.encode (nonce ++ cipher.seal (normalize_key key) nonce plaintext))

  unfoldable pub open_bytes : String → List Byte → Result String
  unfolding normalize_key
  open_bytes key bs =
      if ltb (length bs) cipher.nonce_size
      then err (other "malformed ciphertext")
      else cipher.unseal (normalize_key key) (take cipher.nonce_size bs) (drop cipher.nonce_size bs)

  -- DecryptPassword
  unfoldable pub decrypt_password : String → String → Result String
  unfolding normalize_key open_bytes
  decrypt_password key ciphertext = do
    bs ← cipher.decode ciphertext
    _ ← checked (cipher.new_gcm (normalize_key key))
    open_bytes key bs

module _ (bcrypt : Bcrypt) where
  -- HashPassword
  unfoldable pub hash_password : String → Result String
  hash_password password = bcrypt.generate (trim_space password)

  -- CompareHashAndPassword
  unfoldable pub compare_hash_and_password : String → String → Option GoError
  compare_hash_and_password hash password = bcrypt.compare hash password
