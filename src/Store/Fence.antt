-- ===== src/Store/Fence.antt =====
-- The lease epoch as a fencing token.
use calligraphy.Base.{
  ℕ, ◌+◌, ◌≤◌, ◌<◌, ◌≡◌, refl, ◌≢◌, ◌⊎◌, inl, inr, List, [], ◌∷◌, Bool, true, false, ◌&&◌, Option,
  none, some, if◌then◌else◌, arith, is_some, String, ◌==◌, Bool-cases,
}
use calligraphy.Store.Row.{
  Row, RowOp, claims, extends, completes, fails, dead_letters, cancels_running, retries, cancels,
  reaps, requeues, apply, step, run, is_running,
}

-- The epoch that a statement carries, if it is a fenced one.
abbrev pub epoch_of : RowOp → Option ℕ
epoch_of (extends e ttl now) = some e
epoch_of (completes e res now) = some e
epoch_of (fails e msg now) = some e
epoch_of (dead_letters e msg now) = some e
epoch_of (cancels_running e now) = some e
epoch_of (retries e msg at now) = some e
epoch_of _ = none

pub step-epoch : (op : RowOp) (r : Row) → r.lease_epoch ≤ (step op r).lease_epoch
unfolding step apply
step-epoch op r = ground arith

pub run-epoch : (ops : List RowOp) (r : Row) → r.lease_epoch ≤ (run ops r).lease_epoch
unfolding run
run-epoch [] r = omega arith
run-epoch (op ∷ ops) r = omega (arith, step-epoch op r, run-epoch ops (step op r))

pub stale_refused :
    (op : RowOp) (r : Row) (e : ℕ) → epoch_of op ≡ some e → e ≢ r.lease_epoch → apply op r ≡ none
unfolding apply
stale_refused op r e h n = ground arith

-- Statements that take the job from its holder: a claim, a reap, a cancellation before the run
-- and a requeue.
abbrev pub transfers : RowOp → Bool
transfers (claims w ttl now) = true
transfers (reaps msg delay grace now) = true
transfers (cancels now) = true
transfers (requeues now) = true
transfers _ = false

transfer-epoch :
    (op : RowOp) (r : Row) {r' : Row}
    → transfers op ≡ true
    → apply op r ≡ some r'
    → r'.lease_epoch ≡ r.lease_epoch + 1
unfolding apply
transfer-epoch op r t h = ground arith

-- After a claim, a reap, a cancellation or a requeue took effect on a row, no statement that
-- carries an epoch from before it takes effect, whatever happens to the row in between.
pub zombie_refused :
    (op : RowOp) (r : Row) {r' : Row} (later : List RowOp) (write : RowOp) (e : ℕ)
    → transfers op ≡ true
    → apply op r ≡ some r'
    → e ≤ r.lease_epoch
    → epoch_of write ≡ some e
    → apply write (run later r') ≡ none
zombie_refused op r {r'} later write e t h le w =
    stale_refused write (run later r') e w
      (omega (arith, transfer-epoch op r t h, run-epoch later r'))

-- Of two claims of a job that take effect, one after the other, the later has the higher epoch,
-- whatever happens to the row in between.
pub claims_differ :
    (w v : String) (ttl now ttl' now' : ℕ) (r : Row) {r₁ r₂ : Row} (between : List RowOp)
    → apply (claims w ttl now) r ≡ some r₁
    → apply (claims v ttl' now') (run between r₁) ≡ some r₂
    → r₁.lease_epoch < r₂.lease_epoch
claims_differ w v ttl now ttl' now' r {r₁} {r₂} between h k =
    omega (arith, transfer-epoch (claims v ttl' now') (run between r₁) refl k, run-epoch between r₁)

-- A fenced statement other than a renewal ends the run that its epoch stands for.
abbrev pub closes : ℕ → RowOp → Bool
closes e (completes f res now) = f == e
closes e (fails f msg now) = f == e
closes e (dead_letters f msg now) = f == e
closes e (cancels_running f now) = f == e
closes e (retries f msg at now) = f == e
closes e _ = false

-- How many outcomes with this epoch take effect in a history.
pub outcomes : ℕ → List RowOp → Row → ℕ
outcomes e [] r = 0
outcomes e (op ∷ ops) r =
    (if closes e op && is_some (apply op r) then 1 else 0) + outcomes e ops (step op r)

-- The run with this epoch is over.
abbrev Spent : ℕ → Row → Type 0
Spent e r = (e < r.lease_epoch) ⊎ ((e ≡ r.lease_epoch) × (is_running r.status ≡ false))

step-Spent : (e : ℕ) (op : RowOp) (r : Row) → Spent e r → Spent e (step op r)
unfolding step apply
step-Spent e op r s = ground arith

Spent-refuses :
    (e : ℕ) (op : RowOp) (r : Row) → Spent e r → (closes e op && is_some (apply op r)) ≡ false
unfolding apply
Spent-refuses e op r s = ground arith

Spent-outcomes : (e : ℕ) (ops : List RowOp) (r : Row) → Spent e r → outcomes e ops r ≡ 0
unfolding outcomes
Spent-outcomes e [] r s = refl
Spent-outcomes e (op ∷ ops) r s =
    rw (Spent-refuses e op r s)
      (omega (arith, Spent-outcomes e ops (step op r) (step-Spent e op r s)))

closes-Spent :
    (e : ℕ) (op : RowOp) (r : Row)
    → (closes e op && is_some (apply op r)) ≡ true
    → Spent e (step op r)
unfolding step apply
closes-Spent e op r h = ground arith

-- For each epoch, at most one outcome (a completion, a failure, a dead letter, a cancellation or a
-- retry) takes effect in any history of a row: results are written once.
pub outcomes_le_one : (e : ℕ) (ops : List RowOp) (r : Row) → outcomes e ops r ≤ 1
unfolding outcomes
outcomes_le_one e [] r = omega arith
outcomes_le_one e (op ∷ ops) r = elim (Bool-cases (closes e op && is_some (apply op r))) [
  | inl t ↦ rw t (omega (arith, Spent-outcomes e ops (step op r) (closes-Spent e op r t)))
  | inr f ↦ rw f (omega (arith, outcomes_le_one e ops (step op r)))
]
