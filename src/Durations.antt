-- ===== src/Durations.antt =====
-- `time.Duration`: nanoseconds in an int64, whose arithmetic wraps around, and `Time.Add`.
mod Tests
use pihole_cluster_admin.Prelude.{
  ℕ, suc, ◌+◌, ◌-◌, ◌*◌, ◌/◌, ◌%◌, ℤ, pos, negsuc, pos_part, neg_part, ltb, if◌then◌else◌,
}
use pihole_cluster_admin.Domain.{hour}

-- The difference of two numbers
abbrev pub diff : ℕ → ℕ → ℤ
diff a b = if ltb a b then negsuc (b - a - 1) else pos (a - b)

abbrev pub magnitude : ℤ → ℕ
magnitude d = pos_part d + neg_part d

-- The int64 with the bits of a number below 2 ^ 64
abbrev pub of_bits : ℕ → ℤ
of_bits n = if ltb n 9223372036854775808 then pos n else negsuc (18446744073709551616 - n - 1)

-- The int64 with the low 64 bits of an integer
unfoldable pub int64 : ℤ → ℤ
int64 (pos n) = of_bits (n % 18446744073709551616)
int64 (negsuc n) = of_bits (18446744073709551616 - n % 18446744073709551616 - 1)

-- `time.Duration(n) * unit`
unfoldable pub duration : ℤ → ℕ → ℤ
unfolding int64
duration (pos n) unit = int64 (pos (n * unit))
duration (negsuc n) unit = int64 (diff 0 (suc n * unit))

-- `d / k` of Go, which rounds towards zero
abbrev pub quotient : ℤ → ℕ → ℤ
quotient d k = diff (pos_part d / k) (neg_part d / k)

-- `now.Add(d)`; times before the epoch are 0.
abbrev pub add : ℕ → ℤ → ℕ
add now d = (now + pos_part d) - neg_part d

-- `now.Add(time.Duration(hours) * time.Hour)`
unfoldable pub after_hours : ℕ → ℤ → ℕ
unfolding duration
after_hours now hours = add now (duration hours hour)
