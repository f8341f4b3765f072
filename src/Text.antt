-- ===== src/Text.antt =====
-- The parts of Go's package `strings` that the program uses, over texts of code points.
-- `to_lower` changes the ASCII letters and the two other code points whose lower case is ASCII
-- (U+0130 and U+212A), so comparisons with ASCII words are exact; other letters are left alone.
-- So does `to_upper` with U+0131 and U+017F. For the names of users, which may have other letters,
-- strings.ToLower is a parameter.
pub mod Laws
use Prim.Native.Char.{Char, code}
use Prim.Native.String.{String, char_at, [], ◌∷◌}
use Prim.Native.Nat.{ℕ, zero, suc, ◌+◌, ◌-◌, ◌/◌, ◌%◌}
use mathlib.Core.Bool.{Bool, true, false, ◌&&◌, ◌||◌}
use mathlib.Core.List.{List, ◌++◌}
use mathlib.Core.List
use pihole_cluster_admin.Prelude.{ltb, leb, nat_beq, length, if◌then◌else◌}

-- unicode.IsSpace
unfoldable pub is_space : Char → Bool
is_space c =
    let n = code c in
    (leb 9 n && leb n 13)
    || nat_beq n 32
    || nat_beq n 0x85
    || nat_beq n 0xa0
    || nat_beq n 0x1680
    || (leb 0x2000 n && leb n 0x200a)
    || nat_beq n 0x2028
    || nat_beq n 0x2029
    || nat_beq n 0x202f
    || nat_beq n 0x205f
    || nat_beq n 0x3000

abbrev pub is_empty : String → Bool
is_empty [] = true
is_empty (c ∷ s) = false

unfoldable pub trim_left : String → String
unfolding is_space
trim_left [] = []
trim_left (c ∷ s) = let rest = trim_left s in if is_space c then rest else c ∷ s

unfoldable pub trim_right : String → String
unfolding is_space
trim_right [] = []
trim_right (c ∷ s) = let rest = trim_right s in if is_space c && is_empty rest then [] else c ∷ rest

-- strings.TrimSpace
unfoldable pub trim_space : String → String
unfolding trim_left trim_right
trim_space s = trim_right (trim_left s)

unfoldable pub lower_char : Char → Char
lower_char c =
    let n = code c in
    if leb b'A' n && leb n b'Z'
    then char_at "abcdefghijklmnopqrstuvwxyz" (n - b'A')
    else if nat_beq n 0x130
    then char_at "i" 0
    else if nat_beq n 0x212a
    then char_at "k" 0
    else c

-- strings.ToLower
unfoldable pub to_lower : String → String
unfolding lower_char
to_lower [] = []
to_lower (c ∷ s) = lower_char c ∷ to_lower s

unfoldable pub upper_char : Char → Char
upper_char c =
    let n = code c in
    if leb b'a' n && leb n b'z'
    then char_at "ABCDEFGHIJKLMNOPQRSTUVWXYZ" (n - b'a')
    else if nat_beq n 0x131
    then char_at "I" 0
    else if nat_beq n 0x17f
    then char_at "S" 0
    else c

-- strings.ToUpper
unfoldable pub to_upper : String → String
unfolding upper_char
to_upper [] = []
to_upper (c ∷ s) = upper_char c ∷ to_upper s

abbrev prepend : Char → List String → List String
prepend c List.[] = List.◌∷◌ (c ∷ []) List.[]
prepend c (List.◌∷◌ part parts) = List.◌∷◌ (c ∷ part) parts

-- strings.Split(s, sep) for a separator of one character: never the empty list.
unfoldable pub split : Char → String → List String
split sep [] = List.◌∷◌ [] List.[]
split sep (c ∷ s) =
    let parts = split sep s in
    if nat_beq (code c) (code sep) then List.◌∷◌ [] parts else prepend c parts

-- The decimal digits of a number in front of a text; `fuel` is more than their number.
show_from : ℕ → ℕ → String → String
show_from zero n rest = rest
show_from (suc fuel) n rest =
    let more = show_from fuel (n / 10) (char_at "0123456789" (n % 10) ∷ rest) in
    if ltb n 10 then char_at "0123456789" (n % 10) ∷ rest else more

-- fmt.Sprintf("%d", n)
unfoldable pub show_nat : ℕ → String
unfolding show_from
show_nat n = show_from (suc n) n []

-- The UTF-8 bytes of a code point.
unfoldable pub utf8 : ℕ → List ℕ
utf8 n =
    if ltb n 0x80
    then List.◌∷◌ n List.[]
    else if ltb n 0x800
    then List.◌∷◌ (0xc0 + n / 0x40) (List.◌∷◌ (0x80 + n % 0x40) List.[])
    else if ltb n 0x10000
    then List.◌∷◌ (0xe0 + n / 0x1000)
        (List.◌∷◌ (0x80 + n / 0x40 % 0x40) (List.◌∷◌ (0x80 + n % 0x40) List.[]))
    else List.◌∷◌ (0xf0 + n / 0x40000) (
        List.◌∷◌ (0x80 + n / 0x1000 % 0x40)
          (List.◌∷◌ (0x80 + n / 0x40 % 0x40) (List.◌∷◌ (0x80 + n % 0x40) List.[])))

-- []byte(s)
unfoldable pub bytes : String → List ℕ
unfolding utf8
bytes [] = List.[]
bytes (c ∷ s) = utf8 (code c) ++ bytes s

-- len(s)
unfoldable pub byte_length : String → ℕ
unfolding bytes
byte_length s = length (bytes s)

-- strings.HasPrefix(s, prefix)
unfoldable pub has_prefix : String → String → Bool
has_prefix s [] = true
has_prefix [] (p ∷ prefix) = false
has_prefix (c ∷ s) (p ∷ prefix) = nat_beq (code c) (code p) && has_prefix s prefix

-- strings.Contains(s, part)
unfoldable pub contains : String → String → Bool
unfolding has_prefix
contains [] part = is_empty part
contains (c ∷ s) part = has_prefix (c ∷ s) part || contains s part

-- strings.HasSuffix(s, suffix)
unfoldable pub has_suffix : String → String → Bool
unfolding has_prefix
has_suffix [] suffix = is_empty suffix
has_suffix (c ∷ s) suffix =
    (has_prefix (c ∷ s) suffix && has_prefix suffix (c ∷ s)) || has_suffix s suffix
