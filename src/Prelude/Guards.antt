-- ===== src/Prelude/Guards.antt =====
-- Chains of early returns: `if ... { return ... }`, one after the other.
use mathlib.Core.Path.{◌≡◌, refl}
use mathlib.Core.Logic.{◌↔◌}
use mathlib.Core.Bool.{Bool, true, false}
use mathlib.Core.Option.{Option, none, some}
use mathlib.Core.List.{List, [], ◌∷◌}
use pihole_cluster_admin.Prelude.Tests.{All}

-- What the first test that holds returns.
abbrev pub first_failed {ℓ} : {A : Type ℓ} → List (Bool × A) → Option A
first_failed [] = none
first_failed ((true, message) ∷ guards) = some message
first_failed ((false, message) ∷ guards) = first_failed guards

pub first_failed-none_iff {ℓ} :
    {A : Type ℓ} (guards : List (Bool × A))
    → (first_failed guards ≡ none) ↔ All (λ g. g.0 ≡ false) guards
first_failed-none_iff [] = ((λ h. tt), (λ h. refl))
first_failed-none_iff ((true, message) ∷ guards) = ((λ h. cc), (λ h. cc))
first_failed-none_iff ((false, message) ∷ guards) =
    let (to, from) = first_failed-none_iff guards in ((λ h. (refl, to h)), (λ h. from h.1))

-- The parts of a chain, one after the other
pub both_iff {ℓ κ μ ν} :
    {A : Type ℓ} {B : Type κ} {P : Type μ} {Q : Type ν} → A ↔ P → B ↔ Q → (A × B) ↔ (P × Q)
both_iff (to, from) (tos, froms) = ((λ h. (to h.0, tos h.1)), (λ h. (from h.0, froms h.1)))

pub last_iff {ℓ κ} : {A : Type ℓ} {P : Type κ} → A ↔ P → (A × Unit {0}) ↔ P
last_iff (to, from) = ((λ h. to h.0), (λ p. (from p, tt)))
