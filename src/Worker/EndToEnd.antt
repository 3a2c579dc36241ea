-- ===== src/Worker/EndToEnd.antt =====
-- A delivery from claim to record, on the tables.
use calligraphy.Base.{
  ℕ, ◌<◌, ◌≡◌, refl, ◌∙◌, ap, ◌⊎◌, inl, String, List, [], ◌∷◌, ◌++◌, Bool, true, false, none, some,
  if◌then◌else◌, is_some, Result, ok, Fate, served, Unavailable, arith,
}
use calligraphy.Job.Errors.{Bytes, MaybeErr, outcome_completed, classify_error, attempt_error}
use calligraphy.Job.Status.{completed}
use calligraphy.Store.Row.{Row, RowOp, claims, completes, apply, step, run, fence, is_waiting}
use calligraphy.Store.Db.{
  Db, Claim, claim_of, claim_job, complete_job, find_row, update_row, touch, record_attempt,
  or_null,
}
use calligraphy.Store.Tables.{find_row-update_self, update_row-hit, UniqueIds}
use calligraphy.Store.Fence.{run-epoch, step-epoch}
use calligraphy.Store.Budget.{MayRetry}
use calligraphy.Store.Recorder.{
  OpKind, op_complete, op_fail, op_retry, op_dead, op_cancel, Op, sync_record, op_of,
}
use calligraphy.Store.Flush.{row_op}
use calligraphy.Worker.Runner.{
  Delivery, Runner, Effect, recorded, acked, outcome_of, attempt_of, finish, run_delivery,
  Execution, settle, op_with, route, effective_lease, note, job_completed, claim_skipped,
  write_fenced,
}
use calligraphy.Worker.Routing.{finish_budget}

-- While a row keeps its epoch it keeps its attempt count, in every history.
step_epoch_attempts :
    (op : RowOp) (r : Row)
    → ((step op r).max_attempts ≡ r.max_attempts)
      × (((step op r).attempt_count ≡ r.attempt_count) ⊎ (r.lease_epoch < (step op r).lease_epoch))
unfolding step apply
step_epoch_attempts op r = ground arith

run_epoch_attempts :
    (ops : List RowOp) (r : Row)
    → ((run ops r).max_attempts ≡ r.max_attempts)
      × (((run ops r).attempt_count ≡ r.attempt_count) ⊎ (r.lease_epoch < (run ops r).lease_epoch))
unfolding run
run_epoch_attempts [] r = (refl, inl refl)
run_epoch_attempts (op ∷ ops) r = ground (
  arith,
  step_epoch_attempts op r,
  run_epoch_attempts ops (step op r),
  run-epoch ops (step op r),
  step-epoch op r,
)

MayRetry-of :
    (now : ℕ) (o : Op) (r : Row) (k : OpKind)
    → (k ≡ op_retry → fence o.epoch r ≡ true → r.attempt_count < r.max_attempts)
    → MayRetry (row_op now (op_of (record o { kind = k }))) r
unfolding op_of
MayRetry-of now o r op_complete h = tt
MayRetry-of now o r op_fail h = tt
MayRetry-of now o r op_retry h = h refl
MayRetry-of now o r op_dead h = tt
MayRetry-of now o r op_cancel h = tt

budget_left :
    (row claimed later : Row) (claim : Claim) (o : Op) (at : ℕ)
    → claim_of at (some (row, claimed)) ≡ some claim
    → claim.attempt < claim.max_attempts
    → o.epoch ≡ claim.epoch
    → (later.max_attempts ≡ claimed.max_attempts)
      × ((later.attempt_count ≡ claimed.attempt_count) ⊎ (claimed.lease_epoch < later.lease_epoch))
    → fence o.epoch later ≡ true
    → later.attempt_count < later.max_attempts
unfolding fence
budget_left row claimed later claim o at c l s k f = ground arith

claim_waits :
    (w : String) (ttl now : ℕ) (row : Row)
    → is_waiting row.status ≡ false
    → apply (claims w ttl now) row ≡ none
unfolding apply
claim_waits w ttl now row n = ground arith

-- The retries of the runner keep to the budget rule of the store: a claim that took effect gives
-- the runner its coordinates, other statements run on the row meanwhile, and a retry that `finish`
-- then records is one that the rule allows on the row as it is by then.
pub finish-MayRetry :
    (w : String) (ttl at : ℕ) (row : Row) {claimed : Row} (between : List RowOp) (r : Runner)
    (d : Delivery) (claim : Claim) (result : Bytes) (e cause : MaybeErr) (started now : ℕ)
    (fate : Fate) (db : Db) (o : Op) (res : Result Unavailable Bool) (rest : List Effect)
    → apply (claims w ttl at) row ≡ some claimed
    → claim_of at (some (row, claimed)) ≡ some claim
    → (finish r d claim result e cause started now fate db).1 ≡ recorded o res ∷ rest
    → MayRetry (row_op now (op_of o)) (run between claimed)
finish-MayRetry w ttl at row {claimed} between r d claim result e cause started now fate db o res
      rest h c f =
    let (left, dead, same) =
      finish_budget r d claim result e cause started now fate db o res rest f in
    let kept = run_epoch_attempts between claimed in
    MayRetry-of now o (run between claimed) o.kind (λ k fenced.
      budget_left row claimed (run between claimed) claim o at c (left k) same kept fenced)

module _ (r : Runner) (d : Delivery) (now : ℕ) (x : Execution) (att_fate : Fate) (db : Db) where
  -- A claim that finds the job neither PENDING nor RETRYING only acks the delivery: the work of the
  -- entry is done, or is somebody else's.
  pub not_claimed :
      (row : Row)
      → UniqueIds db.jobs
      → find_row d.env.id db.jobs ≡ some row
      → is_waiting row.status ≡ false
      → (run_delivery r d now x served att_fate db).1
        ≡ note r claim_skipped ++ acked d.priority d.entry_id ∷ []
  unfolding run_delivery claim_job touch
  not_claimed row u f n = ground (
    arith,
    update_row-hit d.env.id (claims r.worker_id (effective_lease r d.env.kind) now) db.jobs row u f,
    claim_waits r.worker_id (effective_lease r d.env.kind) now row n,
  )

-- The end of a run whose handler succeeded: the op that it records, and what `finish` returns.
module _ (r : Runner) (d : Delivery) (claim : Claim) (result : Bytes) (cause : MaybeErr)
    (started now : ℕ) (fate : Fate) (db : Db) where
  abbrev pub done : Op
  done =
      op_with op_complete d claim result [] 0
        (attempt_of r d claim none outcome_completed started now)

  abbrev pub out : Db × List Effect
  out = finish r d claim result none cause started now fate db

  out_settles : out ≡ settle r d done job_completed [] db
  unfolding finish route outcome_of classify_error attempt_error
  out_settles = refl

-- The same with a recorder that does on this op what the SyncRecorder does once its UPDATE is
-- answered, about a job that has a row.
module _ (r : Runner) (d : Delivery) (claim : Claim) (result : Bytes) (cause : MaybeErr)
    (started now at : ℕ) (fate : Fate) (db : Db) (row : Row)
    (sync : let op = done r d claim result cause started now fate db in
      r.recorder op db ≡ sync_record served fate true at op db)
    (unique : UniqueIds db.jobs) (found : find_row d.env.id db.jobs ≡ some row) where
  abbrev pub op_done : Op
  op_done = done r d claim result cause started now fate db

  abbrev pub result_of : Db × List Effect
  result_of = out r d claim result cause started now fate db

  recorded_done :
      let op = completes claim.epoch (or_null result) at in
      let (rs, hit) = update_row d.env.id (apply op) db.jobs in
      (result_of.0.jobs ≡ rs)
      × (result_of.1
          ≡ recorded op_done (ok (is_some hit))
            ∷ ((if is_some hit then [] else note r write_fenced)
                ++ (acked d.priority d.entry_id ∷ note r job_completed)))
  unfolding settle op_with sync_record complete_job touch record_attempt
  recorded_done = rw (out_settles r d claim result cause started now fate db) (ground (arith, sync))

  -- With the SyncRecorder, when Postgres answers its UPDATE, or with any recorder that does the same
  -- on this one op: if the row still carries the claim's epoch and is RUNNING, the run of a handler
  -- that succeeded completes the job with its result, acks the delivery behind the record and counts
  -- one completion. A Batcher whose flush holds this op alone is such a recorder.
  pub finish_completes :
      fence claim.epoch row ≡ true
      → (completed_row : Row) × (find_row d.env.id result_of.0.jobs ≡ some completed_row)
        × (completed_row.status ≡ completed)
        × (completed_row.result ≡ some (or_null result))
        × (completed_row.attempt_count ≡ row.attempt_count)
        × (result_of.1
            ≡ recorded op_done (ok true) ∷ acked d.priority d.entry_id ∷ note r job_completed)
  unfolding step apply fence
  finish_completes held =
      let op = completes claim.epoch (or_null result) at in
      let (jobs_after, effects) = recorded_done in
      let hit = update_row-hit d.env.id op db.jobs row unique found in
      (
        step op row,
        ap (find_row d.env.id) jobs_after ∙ find_row-update_self d.env.id op db.jobs row found,
        ground arith,
        ground arith,
        ground arith,
        effects ∙ ground (arith, hit),
      )

  -- With such a recorder, if the row no longer carries the claim's epoch as RUNNING, the write is fenced: the table of jobs
  -- stays as it is, the delivery is acked, and the completion metric counts the run all the same.
  pub finish_fenced :
      fence claim.epoch row ≡ false
      → (find_row d.env.id result_of.0.jobs ≡ some row)
        × (result_of.1
            ≡ recorded op_done (ok false)
              ∷ (note r write_fenced ++ (acked d.priority d.entry_id ∷ note r job_completed)))
  unfolding step apply fence
  finish_fenced lost =
      let op = completes claim.epoch (or_null result) at in
      let (jobs_after, effects) = recorded_done in
      let hit = update_row-hit d.env.id op db.jobs row unique found in
      (
        ap (find_row d.env.id) jobs_after
            ∙ find_row-update_self d.env.id op db.jobs row found
            ∙ ground arith,
        effects ∙ ground (arith, hit),
      )
