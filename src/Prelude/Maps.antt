-- ===== src/Prelude/Maps.antt =====
-- Go's maps: association lists, one entry for a key that `insert` has written. The order of the
-- entries is the order in which a `range` visits them, which Go leaves open.
use mathlib.Core.Path.{◌≡◌, refl}
use mathlib.Core.Bool.{Bool, true, false}
use mathlib.Core.Option.{Option, none, some}
use mathlib.Core.List.{List, [], ◌∷◌}
use native.Mathlib.Omega.{arith}
use Prim.Native.Nat.{suc}
use pihole_cluster_admin.Prelude.Tests.{if◌then◌else◌, length}
use pihole_cluster_admin.Prelude.Classes.{Key, ◌==◌}

abbrev pub Map {ℓ κ} : Type ℓ → Type κ → Type (ℓ ⊔ κ)
Map K V = List (K × V)

module _ {ℓ κ} {K : Type ℓ} {V : Type κ} ⦃e : Key K⦄ where
  -- v, ok := m[k]
  unfoldable pub lookup : K → Map K V → Option V
  lookup k [] = none
  lookup k ((j, v) ∷ m) = if j == k then some v else lookup k m

  -- delete(m, k)
  unfoldable pub delete : K → Map K V → Map K V
  delete k [] = []
  delete k ((j, v) ∷ m) = let rest = delete k m in if j == k then rest else (j, v) ∷ rest

  -- m[k] = v
  unfoldable pub insert : K → V → Map K V → Map K V
  insert key value [] = (key, value) ∷ []
  insert key value ((j, old) ∷ rest) =
      if j == key then (key, value) ∷ rest else (j, old) ∷ insert key value rest

  -- _, ok := m[k]
  abbrev pub has : K → Map K V → Bool
  has k m = elim (lookup k m) [ none ↦ false | some v ↦ true ]

  pub lookup-insert :
      (written asked : K) (value : V) (entries : Map K V)
      → lookup asked (insert written value entries)
        ≡ (if written == asked then some value else lookup asked entries)
  unfolding insert lookup
  lookup-insert written asked value [] = refl
  lookup-insert written asked value ((j, old) ∷ rest) = ground (
    arith,
    lookup-insert written asked value rest,
    e.same_iff j written,
    e.same_iff j asked,
    e.same_iff written asked,
  )

  pub lookup-delete :
      (k j : K) (m : Map K V) → lookup j (delete k m) ≡ (if k == j then none else lookup j m)
  unfolding lookup delete
  lookup-delete k j [] = ground arith
  lookup-delete k j ((i, w) ∷ m) =
      ground (arith, e.same_iff k j, e.same_iff i k, e.same_iff i j, lookup-delete k j m)

pub ruleset map_laws = (lookup-insert, lookup-delete)

-- A key has one entry.
abbrev pub IsUnique {ℓ κ} : {K : Type ℓ} {V : Type κ} ⦃e : Key K⦄ → Map K V → Type (ℓ ⊔ κ)
IsUnique [] = Unit
IsUnique ((k, v) ∷ m) = (lookup k m ≡ none) × IsUnique m

module _ {ℓ κ} {K : Type ℓ} {V : Type κ} ⦃e : Key K⦄ where
  pub insert-IsUnique : (k : K) (v : V) (m : Map K V) → IsUnique m → IsUnique (insert k v m)
  unfolding insert lookup
  insert-IsUnique k v [] h = (refl, tt)
  insert-IsUnique k v ((j, old) ∷ m) (once, rest) =
      ground
        (arith, e.same_iff k j, e.same_iff j k, insert-IsUnique k v m rest, lookup-insert k j v m)

  pub delete-IsUnique : (k : K) (m : Map K V) → IsUnique m → IsUnique (delete k m)
  unfolding delete
  delete-IsUnique k [] h = tt
  delete-IsUnique k ((j, old) ∷ m) (once, rest) =
      ground (arith, e.same_iff j k, delete-IsUnique k m rest, lookup-delete k j m)

  delete_missing : (k : K) (m : Map K V) → lookup k m ≡ none → delete k m ≡ m
  unfolding delete lookup
  delete_missing k [] h = refl
  delete_missing k ((j, old) ∷ m) h = ground (arith, e.same_iff j k, delete_missing k m)

  -- Deleting a key that has an entry takes one entry away.
  pub length-delete :
      (k : K) (v : V) (m : Map K V)
      → IsUnique m
      → lookup k m ≡ some v
      → suc (length (delete k m)) ≡ length m
  unfolding delete lookup
  length-delete k v [] h found = cc
  length-delete k v ((j, old) ∷ m) (once, rest) found =
      ground (arith, e.same_iff j k, delete_missing k m, length-delete k v m rest)
