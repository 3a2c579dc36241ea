-- ===== src/Scale/Policy.antt =====
-- The asymmetry of the scaler: bounded, eager to grow, reluctant to shrink.
use calligraphy.Base.{
  mul_mono, ℕ, suc, ◌+◌, ◌*◌, ◌/◌, ◌≤◌, ◌<◌, max, min, ◌≡◌, ◌∙◌, List, [], ◌∷◌, Option, none, some,
  arith, length,
}
use calligraphy.Scale.{Config, Scaler, Seen, next, tick, ticks}

pub record Bounded (c : Config) (s : Scaler) : Type 0 where
  pub above : c.least ≤ s.target
  pub below : s.target ≤ c.most

tick-Bounded :
    (c : Config) (o : Option Seen) (s : Scaler)
    → 1 ≤ c.least
    → c.least ≤ c.most
    → Bounded c s
    → Bounded c (tick c o s)
unfolding tick
tick-Bounded c none s p q b = b
tick-Bounded c (some o) s p q b = ground arith

-- Whatever the scaler observes, a target between Min and Max stays between them.
pub ticks-Bounded :
    (c : Config) (os : List (Option Seen)) (s : Scaler)
    → 1 ≤ c.least
    → c.least ≤ c.most
    → Bounded c s
    → Bounded c (ticks c os s)
unfolding ticks
ticks-Bounded c [] s p q b = b
ticks-Bounded c (o ∷ os) s p q b = ticks-Bounded c os (tick c o s) p q (tick-Bounded c o s p q b)

-- A round lowers the target only after at least IdleAfter - 1 idle rounds counted before it, at an
-- empty queue with a free slot, by one, and the count starts anew.
pub shrink_needs_idleness :
    (c : Config) (o : Seen) (s : Scaler)
    → s.target ≤ c.most
    → (next c o s).target < s.target
    → (o.ready ≡ 0)
      × (o.active < s.target)
      × (c.idle_after ≤ s.idle_ticks + 1)
      × ((next c o s).target + 1 ≡ s.target)
      × ((next c o s).idle_ticks ≡ 0)
unfolding next
shrink_needs_idleness c o s m h = ground arith

-- A list of readings that are all idle at a target.
abbrev pub AllIdle : ℕ → List (Option Seen) → Type 0
AllIdle target [] = Unit {0}
AllIdle target (none ∷ os) = ⊥
AllIdle target (some o ∷ os) = (o.ready ≡ 0) × (o.active < target) × AllIdle target os

idle_round :
    (c : Config) (o : Seen) (s : Scaler)
    → 0 < c.grow_num * s.target
    → c.least ≤ s.target
    → o.ready ≡ 0
    → o.active < s.target
    → s.idle_ticks + 1 < c.idle_after
    → tick c (some o) s ≡ record s { idle_ticks = s.idle_ticks + 1 }
unfolding tick
idle_round c o s g l r a i = ground arith

counts_add :
    (s : Scaler) (n : ℕ)
    → ◌≡◌ {A = Scaler}
        (record s { idle_ticks = s.idle_ticks + 1 + n })
        (record s { idle_ticks = s.idle_ticks + suc n })
counts_add s n = ground arith

-- Fewer than IdleAfter idle rounds in a row, counted with those before, leave the target alone and
-- are all counted.
pub idle_rounds_hold :
    (c : Config) (os : List (Option Seen)) (s : Scaler)
    → 0 < c.grow_num * s.target
    → c.least ≤ s.target
    → AllIdle s.target os
    → s.idle_ticks + length os < c.idle_after
    → ticks c os s ≡ record s { idle_ticks = s.idle_ticks + length os }
unfolding ticks
idle_rounds_hold c [] s g l a i = ground arith
idle_rounds_hold c (none ∷ os) s g l a i = elim a [ ]
idle_rounds_hold c (some o ∷ os) s g l a i = rw (idle_round c o s g l a.0 a.1 (omega arith)) (
    idle_rounds_hold c os (record s { idle_ticks = s.idle_ticks + 1 }) g l a.2 (omega arith)
    ∙ counts_add s (length os))

backlog_round :
    (c : Config) (o : Seen) (s : Scaler)
    → 1 ≤ c.least
    → Bounded c s
    → c.grow_num * c.most ≤ o.ready * c.grow_den
    → (tick c (some o) s).target ≡ min (s.target + max 1 (s.target / 2)) c.most
unfolding tick
backlog_round c o s p b h = ground (arith, mul_mono c.grow_num s.target c.most)

-- Every reading shows a backlog at or above the growth ratio of Max.
abbrev pub AllDeep : Config → List (Option Seen) → Type 0
AllDeep c [] = Unit {0}
AllDeep c (none ∷ os) = ⊥
AllDeep c (some o ∷ os) = (c.grow_num * c.most ≤ o.ready * c.grow_den) × AllDeep c os

-- While every reading shows such a backlog, the target is Max after Max - target rounds, or more.
pub backlog_reaches_most :
    (c : Config) (os : List (Option Seen)) (s : Scaler)
    → 1 ≤ c.least
    → c.least ≤ c.most
    → Bounded c s
    → AllDeep c os
    → c.most ≤ s.target + length os
    → (ticks c os s).target ≡ c.most
unfolding ticks
backlog_reaches_most c [] s p q b d l = omega arith
backlog_reaches_most c (none ∷ os) s p q b d l = elim d [ ]
backlog_reaches_most c (some o ∷ os) s p q b d l =
    backlog_reaches_most c os (tick c (some o) s) p q (tick-Bounded c (some o) s p q b) d.1
      (omega (arith, backlog_round c o s p b d.0))
