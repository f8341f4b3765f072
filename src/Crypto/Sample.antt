-- ===== src/Crypto/Sample.antt =====
-- A toy cipher whose bytes are characters, and which does not hide the text.
use Prim.Native.Char.{Char}
use Prim.Native.String.{String}
use pihole_cluster_admin.Prelude.{◌≡◌, refl, ap, none, List, [], ◌∷◌}
use pihole_cluster_admin.Httpx.{ok}
use pihole_cluster_admin.Crypto.{Cipher}
use pihole_cluster_admin.Crypto.Laws.{CipherLaws}

unfoldable pub chars : String → List Char
chars String.[] = []
chars (String.◌∷◌ c s) = c ∷ chars s

unfoldable pub text_of : List Char → String
text_of [] = String.[]
text_of (c ∷ cs) = String.◌∷◌ c (text_of cs)

chars-text_of : (cs : List Char) → chars (text_of cs) ≡ cs
unfolding chars text_of
chars-text_of [] = refl
chars-text_of (c ∷ cs) = ap (λ t. c ∷ t) (chars-text_of cs)

text_of-chars : (s : String) → text_of (chars s) ≡ s
unfolding chars text_of
text_of-chars String.[] = refl
text_of-chars (String.◌∷◌ c s) = ap (λ t. String.◌∷◌ c t) (text_of-chars s)

abbrev pub toy : Cipher Char
toy = record {
  new_gcm = λ key. none;
  nonce_size = 1;
  seal = λ key nonce text. chars text;
  unseal = λ key nonce bs. ok (text_of bs);
  encode = text_of;
  decode = λ s. ok (chars s);
}

pub toy-laws : CipherLaws toy
toy-laws = record {
  decode_encode = λ bs. ap ok (chars-text_of bs);
  unseal_seal = λ key nonce text long size. ap ok (text_of-chars text);
}
