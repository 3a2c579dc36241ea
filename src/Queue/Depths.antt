-- ===== src/Queue/Depths.antt =====
-- internal/queue/queue.go: Depths, from what Redis answers to the commands of its pipeline.
use calligraphy.Base.{ℕ, ◌+◌, ◌-◌, ◌≤◌, ◌≡◌, List, [], ◌∷◌, Option, none, some, arith}
use calligraphy.Job.Status.{Priority, high, default, low, priority_order}

-- XLEN and ZCARD of a priority, and the count of XPENDING, unless that is an error.
pub record Counts : Type 0 where
  pub xlen : ℕ
  pub zcard : ℕ
  pub xpending : Option ℕ

pub record Depths : Type 0 where
  pub ready : List (Priority × ℕ)
  pub delayed : List (Priority × ℕ)
  pub in_flight : ℕ
  pub dlq : ℕ

abbrev pub count : Option ℕ → ℕ
count none = 0
count (some n) = n

-- `ready` stops at 0, as the subtraction does.
unfoldable pub add_depths : (Priority → Counts) → List Priority → Depths → Depths
add_depths redis [] d = d
add_depths redis (p ∷ ps) d =
    let pending = count (redis p).xpending in
    let rest = add_depths redis ps d in
    record {
      ready = (p, (redis p).xlen - pending) ∷ rest.ready;
      delayed = (p, (redis p).zcard) ∷ rest.delayed;
      in_flight = pending + rest.in_flight;
      dlq = rest.dlq;
    }

unfoldable pub depths : (Priority → Counts) → ℕ → Depths
unfolding add_depths
depths redis dlq =
    add_depths redis priority_order (record { ready = []; delayed = []; in_flight = 0; dlq = dlq })

unfoldable pub sum_ready : List (Priority × ℕ) → ℕ
sum_ready [] = 0
sum_ready ((p, n) ∷ ns) = n + sum_ready ns

unfoldable pub total_ready : Depths → ℕ
unfolding sum_ready
total_ready d = sum_ready d.ready

-- The entries of the streams, as XLEN counts them.
abbrev pub entries : (Priority → Counts) → ℕ
entries redis = (redis high).xlen + ((redis default).xlen + (redis low).xlen)

-- While no stream has more entries pending than it has, what is ready and what is in flight are
-- together the entries of the three streams.
pub ready_and_in_flight :
    (redis : Priority → Counts) (dlq : ℕ)
    → ((p : Priority) → count (redis p).xpending ≤ (redis p).xlen)
    → total_ready (depths redis dlq) + (depths redis dlq).in_flight ≡ entries redis
unfolding total_ready depths add_depths
ready_and_in_flight redis dlq h = omega (arith, h high, h default, h low)
