-- ===== src/Httpx/Laws.antt =====
-- How errors become replies.
use pihole_cluster_admin.Prelude.{
  some-ne-none, ℕ, Bool, false, String, List, refl, sym, ◌∙◌, ◌↔◌, ◌⊎◌, inl, inr, All, Option-cases,
  first_failed, first_failed-none_iff, ◌≢◌, ◌≡◌, ◌≤◌, arith,
}
use pihole_cluster_admin.Httpx.{
  GoError, http_error, no_rows, write_json_error_from_err, status_of, ok, err, Reply, bad_request,
  unless_failed,
}

-- Whatever the error, the reply has a status from 400 to 500.
pub write_json_error_from_err_bounds :
    (e : GoError)
    → (400 ≤ status_of (write_json_error_from_err {A = ℕ} e))
      × (status_of (write_json_error_from_err {A = ℕ} e) ≤ 500)
unfolding write_json_error_from_err status_of
write_json_error_from_err_bounds (http_error k m) = ground arith
write_json_error_from_err_bounds no_rows = omega arith
write_json_error_from_err_bounds _ = omega arith

pub ok-injective {ℓ} : {A : Type ℓ} (a b : A) → ok a ≡ ok b → a ≡ b
ok-injective a b h = cc

pub err-ne-ok {ℓ} : {A : Type ℓ} {e : GoError} {a : A} → err e ≢ ok a
err-ne-ok h = cc

-- Early returns decide between the answer and a refusal.
pub unless_failed_lem :
    {A S : Type 0} (guards : List (Bool × String)) (answer : Reply A × S) (s : S) (P : Type 0)
    → All (λ g. g.0 ≡ false) guards ↔ P
    → (P × (unless_failed (first_failed guards) answer s ≡ answer))
      ⊎ (¬ P × ((m : String) × (unless_failed (first_failed guards) answer s ≡ bad_request m s)))
unless_failed_lem guards answer s P (to, from) = elim (Option-cases (first_failed guards)) [
  | inl e ↦ inl (to ((first_failed-none_iff guards).0 e), rw e refl)
  | inr (m, e) ↦
      inr ((λ p. some-ne-none (sym e ∙ (first_failed-none_iff guards).1 (from p))), (m, rw e refl))
]
