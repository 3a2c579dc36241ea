-- ===== src/Scale.antt =====
-- internal/scale/autoscaler.go: a worker's concurrency from the depth of the queue.
-- Counts are natural numbers. `GrowAt` is the ratio `grow_num / grow_den`, and the comparison of
-- floats is the one of the cross products, exact for counts below 2 ^ 53 at the default ratio 2.
pub mod Policy
mod Samples
use calligraphy.Base.{
  ℕ, zero, suc, ◌+◌, ◌-◌, ◌*◌, ◌/◌, max, min, List, [], ◌∷◌, Bool, ◌&&◌, Option, none, some,
  if◌then◌else◌, ltb, leb, ◌==◌, not,
}

pub record Config : Type 0 where
  pub least : ℕ  -- Min
  pub most : ℕ  -- Max
  pub grow_num : ℕ
  pub grow_den : ℕ
  pub idle_after : ℕ

unfoldable pub default_config : ℕ → ℕ → Config
default_config least most = record {
  least = least;
  most = most;
  grow_num = 2;
  grow_den = 1;
  idle_after = 5;
}

-- What the scaler keeps (`idle_ticks`), and the target of the pool that it steers.
pub record Scaler : Type 0 where
  pub idle_ticks : ℕ
  pub target : ℕ

pub record Seen : Type 0 where
  pub ready : ℕ
  pub active : ℕ

unfoldable pub backlogged : Config → Seen → ℕ → Bool
backlogged c o target = leb (c.grow_num * target) (o.ready * c.grow_den)

-- `Next`: the new tick count and the target that it returns.
unfoldable pub next : Config → Seen → Scaler → Scaler
unfolding backlogged
next c o s =
    if ltb s.target c.least
    then record s { target = c.least }
    else if backlogged c o s.target
    then record { idle_ticks = 0; target = min (s.target + max 1 (s.target / 2)) c.most }
    else if (o.ready == 0) && ltb o.active s.target
    then if leb c.idle_after (s.idle_ticks + 1)
      then record { idle_ticks = 0; target = max c.least (s.target - 1) }
      else record s { idle_ticks = s.idle_ticks + 1 }
    else record s { idle_ticks = 0 }

-- One round of `Run`: a failed depth reading holds still, and a changed target is set on the pool,
-- whose `SetTarget` does not go below 1.
unfoldable pub tick : Config → Option Seen → Scaler → Scaler
unfolding next
tick c none s = s
tick c (some o) s =
    let t = next c o s in if t.target == s.target then t else record t { target = max 1 t.target }

unfoldable pub ticks : Config → List (Option Seen) → Scaler → Scaler
ticks c [] s = s
ticks c (o ∷ os) s = ticks c os (tick c o s)
