-- ===== src/Text/Laws.antt =====
-- Laws of trimming.
use Prim.Native.String.{String, [], ◌∷◌}
use pihole_cluster_admin.Prelude.{◌≡◌, refl, inl, inr, false, arith, Bool-cases}
use pihole_cluster_admin.Text.{is_space, trim_left, trim_right, trim_space}

-- A text that is empty or starts with a character that is no space.
abbrev pub StartsClean : String → Type 0
StartsClean [] = Unit
StartsClean (c ∷ s) = is_space c ≡ false

pub trim_left-StartsClean : (s : String) → StartsClean (trim_left s)
unfolding trim_left
trim_left-StartsClean [] = tt
trim_left-StartsClean (c ∷ s) = elim (Bool-cases (is_space c)) [
  | inl e ↦ rw e (trim_left-StartsClean s)
  | inr e ↦ rw e e
]

pub trim_left_of_StartsClean : (s : String) → StartsClean s → trim_left s ≡ s
unfolding trim_left
trim_left_of_StartsClean [] h = refl
trim_left_of_StartsClean (c ∷ s) h = rw h

pub trim_right-StartsClean : (s : String) → StartsClean s → StartsClean (trim_right s)
unfolding trim_right
trim_right-StartsClean [] h = tt
trim_right-StartsClean (c ∷ s) h = rw h h

pub trim_right_idempotent : (s : String) → trim_right (trim_right s) ≡ trim_right s
unfolding trim_right
trim_right_idempotent [] = refl
trim_right_idempotent (c ∷ s) = ground (arith, trim_right_idempotent s)

pub trim_space_idempotent : (s : String) → trim_space (trim_space s) ≡ trim_space s
unfolding trim_space
trim_space_idempotent s =
    rw (trim_left_of_StartsClean _ (trim_right-StartsClean _ (trim_left-StartsClean s)))
      (trim_right_idempotent (trim_left s))
