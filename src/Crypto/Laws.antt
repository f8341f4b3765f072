-- ===== src/Crypto/Laws.antt =====
-- What is encrypted is read back, and every key has the length of an AES-256 key.
use pihole_cluster_admin.Prelude.{
  ℕ, zero, suc, ◌+◌, ◌≤◌, ◌≡◌, refl, sym, ◌∙◌, ap, subst, String, false, List, [], ◌∷◌, ◌++◌,
  length, take, drop, replicate, ltb, if◌then◌else◌, arith, Bool-cases, Option-cases, inl, inr,
}
use pihole_cluster_admin.Text.{bytes}
use pihole_cluster_admin.Httpx.{other, ok, err, ◌>>=◌}
use pihole_cluster_admin.Httpx.Laws.{ok-injective, err-ne-ok}
use pihole_cluster_admin.Crypto.{
  Cipher, normalize_key, checked, encrypt_password, open_bytes, decrypt_password,
}

length-append {ℓ} : {A : Type ℓ} (xs ys : List A) → length (xs ++ ys) ≡ length xs + length ys
length-append [] ys = omega arith
length-append (x ∷ xs) ys = omega (arith, length-append xs ys)

length-replicate {ℓ} : {A : Type ℓ} (n : ℕ) (x : A) → length (replicate n x) ≡ n
length-replicate zero x = refl
length-replicate (suc n) x = ap suc (length-replicate n x)

length-take {ℓ} : {A : Type ℓ} (n : ℕ) (xs : List A) → n ≤ length xs → length (take n xs) ≡ n
length-take zero xs h = refl
length-take (suc n) [] h = absurd (omega arith)
length-take (suc n) (x ∷ xs) h = ap suc (length-take n xs (omega arith))

take-append {ℓ} : {A : Type ℓ} (xs ys : List A) → take (length xs) (xs ++ ys) ≡ xs
take-append [] ys = refl
take-append (x ∷ xs) ys = ap (λ zs. x ∷ zs) (take-append xs ys)

drop-append {ℓ} : {A : Type ℓ} (xs ys : List A) → drop (length xs) (xs ++ ys) ≡ ys
drop-append [] ys = refl
drop-append (x ∷ xs) ys = drop-append xs ys

-- Whatever the configured text, the key is 32 bytes long.
pub length-normalize_key : (key : String) → length (normalize_key key) ≡ 32
unfolding normalize_key
length-normalize_key key = elim (Bool-cases (ltb (length (bytes key)) 32)) [
  | inl e ↦ rw e (
      length-append (bytes key) _
      ∙ ap (λ n. length (bytes key) + n) (length-replicate _ 0)
      ∙ ground arith)
  | inr e ↦ rw e (length-take 32 (bytes key) (ground arith))
]

-- Base64 and AES-256-GCM undo themselves.
pub record CipherLaws {Byte : Type 0} (cipher : Cipher Byte) : Type 0 where
  pub decode_encode : (bs : List Byte) → cipher.decode (cipher.encode bs) ≡ ok bs
  pub unseal_seal :
      (key : List ℕ) (nonce : List Byte) (text : String)
      → length key ≡ 32
      → length nonce ≡ cipher.nonce_size
      → cipher.unseal key nonce (cipher.seal key nonce text) ≡ ok text

module _ {Byte : Type 0} (cipher : Cipher Byte) (laws : CipherLaws cipher) where
  open_bytes-seal :
      (key text : String) (nonce : List Byte)
      → length nonce ≡ cipher.nonce_size
      → open_bytes cipher key (nonce ++ cipher.seal (normalize_key key) nonce text) ≡ ok text
  unfolding open_bytes
  open_bytes-seal key text nonce h =
      let sealed = cipher.seal (normalize_key key) nonce text in
      subst
        (λ n.
          (if ltb (length (nonce ++ sealed)) n
            then err (other "malformed ciphertext")
            else cipher.unseal (normalize_key key) (take n (nonce ++ sealed))
                (drop n (nonce ++ sealed)))
          ≡ ok text)
        h
        (let long : ltb (length (nonce ++ sealed)) (length nonce) ≡ false =
            ground (arith, length-append nonce sealed) in
          rw (long, take-append nonce sealed, drop-append nonce sealed)
            (laws.unseal_seal (normalize_key key) nonce text (length-normalize_key key) h))

  -- If base64 and AES-256-GCM undo themselves and the nonce has the size that the cipher asks
  -- for, then what EncryptPassword returns for a key is decrypted to the plaintext with that key.
  pub decrypt_password-encrypt_password :
      (key text secret : String) (nonce : List Byte)
      → length nonce ≡ cipher.nonce_size
      → encrypt_password cipher (ok nonce) key text ≡ ok secret
      → decrypt_password cipher key secret ≡ ok text
  unfolding encrypt_password decrypt_password
  decrypt_password-encrypt_password key text secret nonce h done =
      let bs = nonce ++ cipher.seal (normalize_key key) nonce text in
      elim (Option-cases (cipher.new_gcm (normalize_key key))) [
        | inr (x, e) ↦
            absurd (err-ne-ok (sym (ap (λ o. checked o >>= (λ _. ok (cipher.encode bs))) e) ∙ done))
        | inl e ↦
            let same : cipher.encode bs ≡ secret =
              ok-injective _ _
                (sym (ap (λ o. checked o >>= (λ _. ok (cipher.encode bs))) e) ∙ done) in
            let step = λ (bs' : List Byte).
              checked (cipher.new_gcm (normalize_key key)) >>= (λ _. open_bytes cipher key bs') in
            ap (λ c. cipher.decode c >>= step) (sym same)
            ∙ ap (λ r. r >>= step) (laws.decode_encode bs)
            ∙ ap (λ o. checked o >>= (λ _. open_bytes cipher key bs)) e
            ∙ open_bytes-seal key text nonce h
      ]
