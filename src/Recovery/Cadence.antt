-- ===== src/Recovery/Cadence.antt =====
-- internal/recovery/recovery.go: which duties Run performs at a tick of the leader, and sweepWorkers.
use calligraphy.Base.{
  ℕ, zero, suc, ◌+◌, ◌-◌, ◌%◌, ◌<◌, ◌≡◌, refl, sym, ap, ◌∙◌, List, [], ◌∷◌, ◌++◌, Bool, true, false,
  if◌then◌else◌, ◌==◌, any, any-append, Fate, under, arith,
}
use calligraphy.Store.Db.{Db}
use calligraphy.Store.Workers.{mark_dead_workers}

pub data Duty : Type 0 where
  promoting reaping sweeping repairing_orphans repairing_stuck marking_workers : Duty

abbrev pub on : Bool → List Duty → List Duty
on b ds = if b then ds else []

-- At the nth tick that it leads, with promoteEvery 1, reapEvery 8 and sweepEvery 40.
unfoldable pub duties : ℕ → List Duty
duties n =
    on (n % 1 == 0) (promoting ∷ [])
    ++ on (n % 8 == 0) (reaping ∷ [])
    ++ on (n % 40 == 0) (sweeping ∷ repairing_orphans ∷ repairing_stuck ∷ marking_workers ∷ [])

-- The duties of the ticks n + 1 to n + k.
unfoldable pub run_ticks : ℕ → ℕ → List Duty
unfolding duties
run_ticks n zero = []
run_ticks n (suc k) = duties (n + 1) ++ run_ticks (n + 1) k

-- `sweepWorkers`, whose answer is only logged; three missed heartbeats of 5 seconds.
unfoldable pub sweep_workers : Fate → ℕ → Db → Db
sweep_workers fate now db = record db {
  workers = (under fate db.workers (mark_dead_workers 15000000000 now db.workers)).0;
}

abbrev pub same_duty : Duty → Duty → Bool
same_duty promoting promoting = true
same_duty reaping reaping = true
same_duty sweeping sweeping = true
same_duty repairing_orphans repairing_orphans = true
same_duty repairing_stuck repairing_stuck = true
same_duty marking_workers marking_workers = true
same_duty _ _ = false

abbrev pub performs : Duty → List Duty → Bool
performs d = any (same_duty d)

-- The duties of a tick are among those of the ticks around it.
within_ticks :
    (d : Duty) (n k j : ℕ)
    → j < k
    → performs d (duties (n + j + 1)) ≡ true
    → performs d (run_ticks n k) ≡ true
unfolding run_ticks
within_ticks d n zero j l h = absurd (omega (arith, l))
within_ticks d n (suc k) zero l h =
    grind (arith, h, any-append (same_duty d) (duties (n + 1)) (run_ticks (n + 1) k))
within_ticks d n (suc k) (suc j) l h =
    let same : n + suc j + 1 ≡ (n + 1) + j + 1 = omega arith in
    let later =
      within_ticks d (n + 1) k j (omega (arith, l))
        (ap (λ x. performs d (duties x)) (sym same) ∙ h) in
    grind (arith, later, any-append (same_duty d) (duties (n + 1)) (run_ticks (n + 1) k))

every :
    (d : Duty)
    → performs d (
        (promoting ∷ [])
        ++ (reaping ∷ [])
        ++ (sweeping ∷ repairing_orphans ∷ repairing_stuck ∷ marking_workers ∷ []))
      ≡ true
every promoting = refl
every reaping = refl
every sweeping = refl
every repairing_orphans = refl
every repairing_stuck = refl
every marking_workers = refl

at_forty : (d : Duty) (x : ℕ) → x % 40 ≡ 0 → performs d (duties x) ≡ true
unfolding duties
at_forty d x h =
    let one : x % 1 ≡ 0 = omega arith in
    let eight : x % 8 ≡ 0 = omega (arith, h) in rw (one, eight, h) (every d)

-- While a leader leads, each duty is performed at least once in any 40 of its ticks, which are 10
-- seconds.
pub every_duty : (d : Duty) (n : ℕ) → performs d (run_ticks n 40) ≡ true
every_duty d n =
    let j = 39 - n % 40 in
    within_ticks d n 40 j (omega arith) (at_forty d (n + j + 1) (omega arith))
