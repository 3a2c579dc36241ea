-- ===== src/Retry/Samples.antt =====
-- Runs of the backoff, and its theorems at the default policy: base 1s, cap 30s.
use calligraphy.Base.{ℕ, ◌-◌, ◌*◌, ◌^◌, ◌/◌, ◌≤◌, min, ◌≡◌, refl, arith}
use calligraphy.Retry.{Policy, ceiling_of}
use calligraphy.Retry.Bounds.{first, ceiling_of_lem}

abbrev half : ℕ → ℕ
half c = c / 2

abbrev policy : Policy
policy = record { base = 1000000000; cap_delay = 30000000000; scale = half }

ceiling_at_three : ceiling_of policy 3 ≡ 4000000000
unfolding ceiling_of
ceiling_at_three = refl

ceiling_capped : ceiling_of policy 9 ≡ 30000000000
unfolding ceiling_of
ceiling_capped = refl

ceiling_of_lem_example : ceiling_of policy 3 ≡ min 30000000000 (1000000000 * 2 ^ (first 3 - 1))
ceiling_of_lem_example = ceiling_of_lem policy 3 (omega arith) (omega arith)

half_le : (c : ℕ) → half c ≤ c
half_le c = omega arith

-- Beyond 2 ^ 62 ns the doubling does overflow: the ceiling is then a negative duration.
overflow_run :
    ceiling_of
      (record { base = 4611686018427387904; cap_delay = 4611686018427387905; scale = half })
      2
    ≡ 9223372036854775808
unfolding ceiling_of
overflow_run = refl
