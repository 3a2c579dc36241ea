-- ===== src/Retry.antt =====
-- internal/retry/backoff.go: full-jitter exponential backoff.
-- Durations are 64-bit patterns of nanoseconds. The random draw enters as `scale`, which stands
-- for `time.Duration(p.rng() * float64(·))`: floats are not modelled.
pub mod Bounds
mod Samples
use calligraphy.Base.{ℕ, zero, suc, ◌+◌, ◌-◌, ◌*◌, Bool, true, false, if◌then◌else◌, not, slt, i64}

pub record Policy : Type 0 where
  pub base : ℕ
  pub cap_delay : ℕ  -- the field cap
  pub scale : ℕ → ℕ

-- The loop of `Delay` with the rounds that are left, `attempt - 1` at first.
unfoldable pub grow : ℕ → ℕ → ℕ → ℕ
grow limit zero ceiling = ceiling
grow limit (suc rounds) ceiling =
    let next = grow limit rounds (i64 (ceiling * 2)) in
    if not (slt ceiling limit) then ceiling else next

unfoldable pub ceiling_of : Policy → ℕ → ℕ
unfolding grow
ceiling_of p attempt =
    let n = if slt attempt 1 then 1 else attempt in
    let c = grow p.cap_delay (n - 1) p.base in if slt p.cap_delay c then p.cap_delay else c

unfoldable pub delay : Policy → ℕ → ℕ
unfolding ceiling_of
delay p attempt = p.scale (ceiling_of p attempt)
