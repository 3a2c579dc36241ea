-- ===== src/Store/Budget.antt =====
-- The attempt budget of a row: a retry is only scheduled while attempts are left.
use calligraphy.Base.{◌≤◌, ◌<◌, ◌≡◌, List, [], ◌∷◌, true}
use calligraphy.Store.Row.{Row, RowOp, retries, step, is_waiting, fence}

-- The rule that the caller of `ScheduleRetry` keeps.
abbrev pub MayRetry : RowOp → Row → Type 0
MayRetry (retries e msg at now) r = fence e r ≡ true → r.attempt_count < r.max_attempts
MayRetry _ r = Unit {0}

abbrev pub AllMayRetry : List RowOp → Row → Type 0
AllMayRetry [] r = Unit {0}
AllMayRetry (op ∷ ops) r = MayRetry op r × AllMayRetry ops (step op r)

pub record InBudget (r : Row) : Type 0 where
  pub some_allowed : 1 ≤ r.max_attempts
  pub not_over : r.attempt_count ≤ r.max_attempts
  pub one_left : is_waiting r.status ≡ true → r.attempt_count < r.max_attempts
