-- ===== src/Crypto/Tests.antt =====
-- Keys and passwords at concrete values.
use pihole_cluster_admin.Prelude.{◌≡◌, refl, ◌∷◌, replicate}
use pihole_cluster_admin.Text.{bytes}
use pihole_cluster_admin.Httpx.{ok}
use pihole_cluster_admin.Crypto.{normalize_key, encrypt_password, decrypt_password}
use pihole_cluster_admin.Crypto.Sample.{chars, text_of, toy, toy-laws}
use pihole_cluster_admin.Crypto.Laws.{decrypt_password-encrypt_password}

decrypt_password-encrypt_password_example : decrypt_password toy "secret" "!pi" ≡ ok "pi"
unfolding encrypt_password chars text_of
decrypt_password-encrypt_password_example =
    decrypt_password-encrypt_password toy toy-laws "secret" "pi" "!pi" (chars "!") refl refl

-- A short key is padded.
normalize_key_short : normalize_key "é" ≡ 0xc3 ∷ 0xa9 ∷ replicate 30 0
unfolding normalize_key bytes
normalize_key_short = refl
