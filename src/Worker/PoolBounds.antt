-- ===== src/Worker/PoolBounds.antt =====
-- The pool is bounded, accounts for what it fetched, and drains.
use calligraphy.Base.{
  ℕ, ◌+◌, ◌-◌, ◌≤◌, max, ◌≡◌, ◌⊎◌, List, [], ◌∷◌, true, Option, none, some, if◌then◌else◌, arith,
  is_some,
}
use calligraphy.Worker.Pool.{
  Pool, Move, turns, fetches, fetch_fails, starts, finishes, sets_target, sets_paused, stops, move,
  or_stay, schedule,
}

abbrev pub size_of : Option ℕ → ℕ
size_of none = 0
size_of (some n) = n

-- What runs, what is fetched and not started, and what is asked for, all within the bound.
pub record Within (bound : ℕ) (p : Pool) : Type 0 where
  pub target_low : p.target ≤ bound
  pub load_low : p.active + p.claimed + size_of p.asked ≤ bound
  pub one_place : (p.claimed ≡ 0) ⊎ (p.asked ≡ none)

-- The target that a move sets is at most `bound`, and a fetch returns what it was asked for or less.
abbrev pub Keeps : ℕ → Move → Pool → Type 0
Keeps bound (sets_target n) p = max 1 n ≤ bound
Keeps bound (fetches k) p = k ≤ size_of p.asked
Keeps bound _ p = Unit {0}

unfoldable pub AllKeep : ℕ → List Move → Pool → Type 0
AllKeep bound [] p = Unit {0}
AllKeep bound (m ∷ ms) p = Keeps bound m p × AllKeep bound ms (or_stay (move m p) p)

move-Within :
    (bound : ℕ) (m : Move) (p : Pool)
    → Keeps bound m p
    → Within bound p
    → Within bound (or_stay (move m p) p)
unfolding move
move-Within bound turns p a w = ground arith
move-Within bound (fetches k) p a w = ground arith
move-Within bound fetch_fails p a w = ground arith
move-Within bound starts p a w = ground arith
move-Within bound finishes p a w = ground arith
move-Within bound (sets_target n) p a w = ground arith
move-Within bound (sets_paused b) p a w = ground arith
move-Within bound stops p a w = ground arith

-- In every interleaving of the loop, the jobs and the operators in which no target above `bound` is
-- set and no fetch returns more than it was asked for, the running jobs, the deliveries claimed and
-- not started and the size of a fetch under way together stay within `bound`: no backlog hides
-- inside the process.
pub schedule-Within :
    (bound : ℕ) (ms : List Move) (p : Pool)
    → AllKeep bound ms p
    → Within bound p
    → Within bound (schedule ms p)
unfolding schedule AllKeep
schedule-Within bound [] p t w = w
schedule-Within bound (m ∷ ms) p (k, rest) w =
    schedule-Within bound ms (or_stay (move m p) p) rest (move-Within bound m p k w)

-- How many deliveries a move brings in, and the moves of a schedule.
abbrev gain : Move → Pool → ℕ
gain (fetches k) p = if is_some p.asked then k else 0
gain _ p = 0

pub received : List Move → Pool → ℕ
received [] p = 0
received (m ∷ ms) p = gain m p + received ms (or_stay (move m p) p)

abbrev pub known : Pool → ℕ
known p = p.active + p.claimed + p.processed

abbrev pub OnePlace : Pool → Type 0
OnePlace p = (p.claimed ≡ 0) ⊎ (p.asked ≡ none)

move-known :
    (m : Move) (p : Pool)
    → OnePlace p
    → (known (or_stay (move m p) p) ≡ known p + gain m p) × OnePlace (or_stay (move m p) p)
unfolding move
move-known turns p o = ground arith
move-known _ p o = ground arith

-- Nothing that was fetched is lost or started twice: in every interleaving, what is running, waiting
-- for its goroutine or processed grows by exactly the number of deliveries fetched.
pub schedule-known :
    (ms : List Move) (p : Pool) → OnePlace p → known (schedule ms p) ≡ known p + received ms p
unfolding schedule received
schedule-known [] p o = omega arith
schedule-known (m ∷ ms) p o =
    let (here, next) = move-known m p o in
    omega (arith, here, schedule-known ms (or_stay (move m p) p) next)

-- The drain has begun and the loop holds no delivery any more.
pub record Draining (p : Pool) : Type 0 where
  pub stopping : p.stopped ≡ true
  pub not_asking : p.asked ≡ none
  pub none_claimed : p.claimed ≡ 0

abbrev drops : Move → ℕ
drops finishes = 1
drops _ = 0

-- How many goroutines end in a schedule.
pub endings : List Move → ℕ
endings [] = 0
endings (m ∷ ms) = drops m + endings ms

move-Draining :
    (m : Move) (p : Pool)
    → Draining p
    → Draining (or_stay (move m p) p) × ((or_stay (move m p) p).active ≡ p.active - drops m)
unfolding move
move-Draining turns p d = ground arith
move-Draining _ p d = ground arith

-- Once fetching is stopped and the loop holds no delivery, no schedule starts another job: the pool
-- keeps draining, and the running jobs fall by one with each that ends, to none when all have.
pub schedule-Draining :
    (ms : List Move) (p : Pool)
    → Draining p
    → Draining (schedule ms p) × ((schedule ms p).active ≡ p.active - endings ms)
unfolding schedule endings
schedule-Draining [] p d = (d, omega arith)
schedule-Draining (m ∷ ms) p d =
    let (still, fewer) = move-Draining m p d in
    let (kept, left) = schedule-Draining ms (or_stay (move m p) p) still in
    (kept, omega (arith, fewer, left))
