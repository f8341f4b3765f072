-- ===== src/Prelude/Int.antt =====
-- Go's `int` and `int64` where a value may be negative: ids, ports and lengths from requests.
-- The program only compares them, and both types hold every value that it compares them with.
use mathlib.Core.Path.{◌≡◌, refl}
use mathlib.Core.Logic.{◌↔◌}
use mathlib.Core.Bool.{Bool, true, false}
use Prim.Native.Nat.{ℕ, suc, ◌+◌}
use native.Mathlib.Omega.{arith}
use pihole_cluster_admin.Prelude.Tests.{ltb, leb, nat_beq}
use pihole_cluster_admin.Prelude.Classes.{Key}

-- `negsuc n` is -(n + 1).
pub data ℤ : Type 0 where
  pos : ℕ → ℤ
  negsuc : ℕ → ℤ

abbrev pub pos_part : ℤ → ℕ
pos_part (pos n) = n
pos_part (negsuc n) = 0

abbrev pub neg_part : ℤ → ℕ
neg_part (pos n) = 0
neg_part (negsuc n) = suc n

abbrev pub int_beq : ℤ → ℤ → Bool
int_beq (pos a) (pos b) = nat_beq a b
int_beq (negsuc a) (negsuc b) = nat_beq a b
int_beq (pos a) (negsuc b) = false
int_beq (negsuc a) (pos b) = false

abbrev pub ltb_ℤ : ℤ → ℤ → Bool
ltb_ℤ a b = ltb (pos_part a + neg_part b) (pos_part b + neg_part a)

abbrev pub leb_ℤ : ℤ → ℤ → Bool
leb_ℤ a b = leb (pos_part a + neg_part b) (pos_part b + neg_part a)

pub int_beq_iff : (a b : ℤ) → (int_beq a b ≡ true) ↔ (a ≡ b)
int_beq_iff a b = ground arith

pub int_beq_refl : (a : ℤ) → int_beq a a ≡ true
int_beq_refl a = (int_beq_iff a a).1 refl

pub int_beq_comm : (a b : ℤ) → int_beq a b ≡ int_beq b a
int_beq_comm a b = ground arith

instance abbrev pub int_eq : Key ℤ
int_eq = record { same = int_beq; same_iff = int_beq_iff }
