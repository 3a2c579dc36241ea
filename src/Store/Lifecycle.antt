-- ===== src/Store/Lifecycle.antt =====
-- The statements of the store refine the lifecycle of internal/job, and keep the row well formed.
use calligraphy.Base.{
  ℕ, ◌≡◌, refl, ◌⊎◌, inl, inr, List, [], ◌∷◌, Bool, true, false, Option, some, arith, is_some,
  Option-cases, ap, ◌∙◌,
}
use calligraphy.Job.Status.{
  Status, completed, failed, cancelled, transition, legal, terminal, status_valid,
}
use calligraphy.Job.Transitions.{◌⟶◌, transition_iff}
use calligraphy.Job.Errors.{Bytes}
use calligraphy.Store.Row.{Row, RowOp, apply, step, run, is_running}

-- A statement that matches keeps the status, or moves it along a legal transition.
apply_legal :
    (op : RowOp) (r : Row) {r' : Row}
    → apply op r ≡ some r'
    → (r'.status ≡ r.status) ⊎ (transition r.status r'.status ≡ legal)
unfolding apply transition
apply_legal op r h = ground arith

-- A statement leaves the status or moves it along one arrow of the documented lifecycle.
abbrev pub Moves : Status → Status → Type 0
Moves s t = (t ≡ s) ⊎ (s ⟶ t)

step-Moves : (op : RowOp) (r : Row) → Moves r.status (step op r).status
unfolding step
step-Moves op r = elim (Option-cases (apply op r)) [
  | inl e ↦ rw e (inl refl)
  | inr (r', e) ↦ rw e (elim (apply_legal op r e) [
    | inl same ↦ inl same
    | inr moved ↦ inr ((transition_iff _ _).0 moved)
  ])
]

-- Each statement of a history does so, on the row that the ones before it left.
abbrev pub Trail : List RowOp → Row → Type 0
Trail [] r = Unit {0}
Trail (op ∷ ops) r = Moves r.status (step op r).status × Trail ops (step op r)

-- Whatever statements run on a row, in whatever order, each of them leaves the status as it is or
-- moves it along one arrow of the documented lifecycle.
pub run-Trail : (ops : List RowOp) (r : Row) → Trail ops r
run-Trail [] r = tt
run-Trail (op ∷ ops) r = (step-Moves op r, run-Trail ops (step op r))

-- What the columns of a row say of each other.
pub record WellFormed (r : Row) : Type 0 where
  pub known : status_valid r.status ≡ true
  pub leased : is_some r.lease_expires_at ≡ is_running r.status
  pub finished : is_some r.completed_at ≡ terminal r.status
  pub started : is_running r.status ≡ true → is_some r.started_at ≡ true

step-WellFormed : (op : RowOp) (r : Row) → WellFormed r → WellFormed (step op r)
unfolding step apply status_valid terminal
step-WellFormed op r w = ground arith

-- In every history a well-formed row stays so: it holds a lease exactly while it is RUNNING, it
-- has a completion time exactly while its status is terminal, and a RUNNING row has a start time.
pub run-WellFormed : (ops : List RowOp) (r : Row) → WellFormed r → WellFormed (run ops r)
unfolding run
run-WellFormed [] r w = w
run-WellFormed (op ∷ ops) r w = run-WellFormed ops (step op r) (step-WellFormed op r w)

-- Terminal for good: DEAD_LETTER may be requeued.
abbrev pub settled : Status → Bool
settled completed = true
settled failed = true
settled cancelled = true
settled _ = false

-- The outcome that a row shows.
abbrev pub outcome : Row → Status × Option Bytes × Option Bytes × ℕ × ℕ
outcome r = (r.status, r.result, r.error, r.attempt_count, r.lease_epoch)

step_settled : (op : RowOp) (r : Row) → settled r.status ≡ true → outcome (step op r) ≡ outcome r
unfolding step apply
step_settled op r h = ground arith

-- Once a job is COMPLETED, FAILED or CANCELLED, no history of statements changes its status, its
-- result, its error, its attempts or its epoch.
pub run_settled :
    (ops : List RowOp) (r : Row) → settled r.status ≡ true → outcome (run ops r) ≡ outcome r
unfolding run
run_settled [] r h = refl
run_settled (op ∷ ops) r h =
    let e = step_settled op r h in run_settled ops (step op r) (rw (ap (λ o. o.0) e) h) ∙ e
