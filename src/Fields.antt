-- ===== src/Fields.antt =====
-- The tests on texts and numbers that the handlers and the configuration share, and what they mean.
use pihole_cluster_admin.Prelude.{
  ℕ, ℤ, pos, negsuc, ◌≤◌, ◌≡◌, ◌≢◌, ◌↔◌, refl, String, Bool, false, ◌||◌, ◌==◌, string_eq, eq_iff,
  arith, leb_ℤ, ltb_ℤ,
}
use pihole_cluster_admin.Text.{trim_space}

-- `strings.TrimSpace(s) == ""`
abbrev pub is_blank : String → Bool
is_blank s = trim_space s == ""

-- `p <= 0 || p > 65535`
abbrev pub is_no_port : ℤ → Bool
is_no_port p = leb_ℤ p (pos 0) || ltb_ℤ (pos 65535) p

abbrev pub IsFilled : String → Type 0
IsFilled s = trim_space s ≢ ""

abbrev pub IsPort : ℤ → Type 0
IsPort p = (n : ℕ) × (p ≡ pos n) × (1 ≤ n) × (n ≤ 65535)

pub is_blank_iff : (s : String) → (is_blank s ≡ false) ↔ IsFilled s
is_blank_iff s = ground (arith, eq_iff (trim_space s) "")

is_port : (n : ℕ) → IsPort (pos n) → is_no_port (pos n) ≡ false
is_port n (m, same, low, high) = ground arith

pub is_no_port_iff : (p : ℤ) → (is_no_port p ≡ false) ↔ IsPort p
is_no_port_iff (pos n) = ((λ h. (n, refl, ground arith, ground arith)), (λ h. is_port n h))
is_no_port_iff (negsuc n) = ((λ h. ground arith), (λ h. cc))

pub is_positive_iff : (id : ℤ) → (leb_ℤ id (pos 0) ≡ false) ↔ ((n : ℕ) × (id ≡ pos n) × (1 ≤ n))
is_positive_iff (pos n) = ((λ h. (n, refl, ground arith)), (λ (m, same, low). ground arith))
is_positive_iff (negsuc n) = ((λ h. absurd (ground arith)), (λ (m, same, low). absurd cc))

-- `x < k` for a constant
pub is_below_iff : (k : ℕ) (x : ℤ) → (ltb_ℤ x (pos k) ≡ false) ↔ ((n : ℕ) × (x ≡ pos n) × (k ≤ n))
is_below_iff k (pos n) = ((λ h. (n, refl, ground arith)), (λ (m, same, low). ground arith))
is_below_iff k (negsuc n) = ((λ h. absurd (ground arith)), (λ (m, same, low). absurd cc))
