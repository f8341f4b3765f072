-- ===== src/Prelude/Classes.antt =====
-- Equality of keys: an interface, with instances for the types that key the program's maps.
use Prim.Native.Nat.{ℕ}
use Prim.Native.String.{String}
use mathlib.Core.Path.{◌≡◌, refl}
use mathlib.Core.Logic.{◌↔◌}
use mathlib.Core.Bool.{Bool, true}
use text.Mathlib.Text.{◌==◌ as str_beq}
use text.Mathlib.TextEquality.{eq_iff}
use pihole_cluster_admin.Prelude.Tests.{nat_beq, nat_beq_iff}

pub record Key {ℓ} (A : Type ℓ) : Type ℓ where
  pub same : A → A → Bool
  pub same_iff : (a b : A) → (same a b ≡ true) ↔ (a ≡ b)

infix 50 ◌==◌
abbrev pub ◌==◌ {ℓ} : {A : Type ℓ} ⦃e : Key A⦄ → A → A → Bool
◌==◌ ⦃e⦄ = e.same

instance abbrev pub string_eq : Key String
string_eq = record { same = str_beq; same_iff = eq_iff }

instance abbrev pub nat_eq : Key ℕ
nat_eq = record { same = nat_beq; same_iff = nat_beq_iff }

pub beq_refl {ℓ} : {A : Type ℓ} ⦃e : Key A⦄ (a : A) → (a == a) ≡ true
beq_refl ⦃e⦄ a = (e.same_iff a a).1 refl
