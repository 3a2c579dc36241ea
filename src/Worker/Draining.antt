-- ===== src/Worker/Draining.antt =====
-- internal/worker/pool.go: the end of Run, once the fetches are stopped.
use calligraphy.Base.{
  ℕ, ◌+◌, ◌*◌, ◌≤◌, ◌≡◌, refl, inl, inr, List, [], ◌∷◌, Bool, true, false, Option, none, some,
  if◌then◌else◌, is_some, Option-cases, Bool-cases, arith,
}
use calligraphy.Worker.Pool.{
  Pool, Move, turns, fetches, fetch_fails, starts, finishes, sets_target, sets_paused, stops, move,
  turn, fail_fetch, or_stay, schedule,
}

-- The moves of the loop and of the jobs; an operator makes the other ones.
abbrev pub productive : Move → Bool
productive (sets_target n) = false
productive (sets_paused b) = false
productive stops = false
productive _ = true

abbrev pub one_if : Bool → ℕ
one_if b = if b then 1 else 0

-- How many productive moves a schedule makes.
unfoldable pub steps : List Move → Pool → ℕ
unfolding move
steps [] p = 0
steps (m ∷ ms) p =
    let rest = steps ms (or_stay (move m p) p) in
    if productive m then one_if (is_some (move m p)) + rest else rest

-- A fetch brings at most three times what was asked, as Fetch does.
abbrev pub Fetchable : Move → Pool → Type 0
Fetchable (fetches k) p = (n : ℕ) → p.asked ≡ some n → k ≤ 3 * n
Fetchable _ p = Unit {0}

abbrev pub Fits : List Move → Pool → Type 0
Fits [] p = Unit {0}
Fits (m ∷ ms) p = Fetchable m p × Fits ms (or_stay (move m p) p)

abbrev pub asks : Option ℕ → ℕ
asks none = 0
asks (some n) = 1 + 6 * n

-- What is left to do for a pool that is stopped.
abbrev pub work : Pool → ℕ
work p = (if p.ended then 0 else 1) + asks p.asked + 2 * p.claimed + p.active

move-work :
    (m : Move) (p : Pool)
    → p.stopped ≡ true
    → Fetchable m p
    → let q = or_stay (move m p) p in
      (q.stopped ≡ true)
      × ((if productive m then one_if (is_some (move m p)) else 0) + work q ≤ work p)
unfolding move turn fail_fetch
move-work turns p h f = grind (arith, h)
move-work (fetches k) p h f = elim (Option-cases p.asked) [
  | inl e ↦ rw e (h, omega arith)
  | inr (n, e) ↦ grind (arith, h, e, f n e)
]
move-work fetch_fails p h f = grind (arith, h)
move-work starts p h f = grind (arith, h)
move-work finishes p h f = grind (arith, h)
move-work (sets_target n) p h f = grind (arith, h)
move-work (sets_paused b) p h f = grind (arith, h)
move-work stops p h f = grind (arith, h)

steps-work :
    (ms : List Move) (p : Pool)
    → p.stopped ≡ true
    → Fits ms p
    → steps ms p + work (schedule ms p) ≤ work p
unfolding steps schedule
steps-work [] p h f = omega arith
steps-work (m ∷ ms) p h f =
    let (h', less) = move-work m p h f.0 in
    let rest = steps-work ms (or_stay (move m p) p) h' f.1 in
    elim (Bool-cases (productive m)) [
      | inl e ↦ grind (arith, e, less, rest)
      | inr e ↦ grind (arith, e, less, rest)
    ]

-- No productive move is possible.
abbrev pub Stuck : Pool → Type 0
Stuck p = (m : Move) → productive m ≡ true → move m p ≡ none

-- The loop has ended and no job runs.
abbrev pub Drained : Pool → Type 0
Drained p = (p.ended ≡ true) × (p.claimed ≡ 0) × (p.active ≡ 0)

Stuck-Drained : (p : Pool) → Stuck p → Drained p
unfolding move
Stuck-Drained p s =
    let no_fetch = s fetch_fails refl in
    let no_start = s starts refl in
    let no_finish = s finishes refl in
    let no_turn = s turns refl in
    (grind (arith, no_fetch, no_start, no_turn), grind (arith, no_start), grind (arith, no_finish))

-- After its fetches are stopped the pool terminates. In every schedule, the moves of its loop and
-- of its jobs are at most as many as the work that is left at the stop; and where none of them is
-- possible, the loop has ended and no job runs. It asks that a fetch that was still waiting brings
-- at most three times what it asked for.
pub draining_terminates :
    (ms : List Move) (p : Pool)
    → p.stopped ≡ true
    → Fits ms p
    → (steps ms p ≤ work p) × (Stuck (schedule ms p) → Drained (schedule ms p))
draining_terminates ms p h f = (omega (arith, steps-work ms p h f), Stuck-Drained (schedule ms p))
