-- ===== src/Worker/Routing.antt =====
-- What the runner does with the end of a run.
use calligraphy.Base.{
  ℕ, ◌+◌, ◌≤◌, ◌<◌, ◌≡◌, refl, ◌≢◌, ◌⊎◌, inl, inr, List, [], ◌∷◌, ◌++◌, Bool, true, false,
  if◌then◌else◌, leb, any, Result, ok, Fate, Unavailable, arith, Bool-cases, Result-cases,
  any-append, subst, ap, ◌∙◌, sym,
}
use calligraphy.Job.Errors.{
  Bytes, MaybeErr, Outcome, outcome_completed, outcome_failed, outcome_retryable, outcome_cancelled,
  outcome_interrupted, outcome_lease_expired, outcome_panicked, attempt_error,
}
use calligraphy.Store.Db.{Db, Attempt, Claim}
use calligraphy.Store.Recorder.{
  OpKind, op_complete, op_fail, op_retry, op_dead, op_cancel, Op, unless_down,
}
use calligraphy.Worker.Runner.{
  Delivery, Runner, Effect, recorded, acked, dlq_logged, retry_handed, outcome_of, attempt_of,
  finish, settle, settle_transient, op_with, route, with_attempt, Note, job_completed, job_failed,
  job_retried, job_dead_lettered, job_cancelled, write_fenced, note, is_interruption,
}

abbrev pub is_ack : Effect → Bool
is_ack (acked p id) = true
is_ack _ = false

abbrev pub retry_time : Runner → Claim → Outcome → ℕ → ℕ
retry_time r claim o now = now + (if is_interruption o then 0 else r.backoff claim.attempt)

answered_settle :
    (r : Runner) (d : Delivery) (o : Op) (n : Note) (handoff : List Effect) (db : Db) {p : Op}
    {applied : Bool} {rest : List Effect}
    → (settle r d o n handoff db).1 ≡ recorded p (ok applied) ∷ rest
    → any is_ack (settle r d o n handoff db).1 ≡ true
unfolding settle
answered_settle r d o n handoff db h = ground (
  arith,
  any-append is_ack handoff (acked d.priority d.entry_id ∷ note r n),
  any-append is_ack (note r write_fenced) (acked d.priority d.entry_id ∷ note r n),
)

-- A run that ends in a call of the recorder: which op, which metric, which handoff.
pub record Settles (r : Runner) (d : Delivery) (claim : Claim) (db : Db) (out : Db × List Effect)
    : Type 0 where
  pub op : Op
  pub metric : Note
  pub handoff : List Effect
  pub settled : out ≡ settle r d op metric handoff db
  pub same_job : op.id ≡ d.env.id
  pub same_epoch : op.epoch ≡ claim.epoch
  pub quiet : any is_ack handoff ≡ false
  pub retry_in_budget : op.kind ≡ op_retry → claim.attempt < claim.max_attempts
  pub dead_exhausted : op.kind ≡ op_dead → claim.max_attempts ≤ claim.attempt

module _ (r : Runner) (d : Delivery) (claim : Claim) (msg : Bytes) (now : ℕ) (att : Attempt)
    (db : Db) where
  transient-Settles :
      (o : Outcome) → Settles r d claim db (settle_transient r d claim msg o now att db)
  unfolding settle_transient op_with
  transient-Settles o = elim (Bool-cases (leb claim.max_attempts claim.attempt)) [
    | inl t ↦ record {
      op = op_with op_dead d claim [] msg 0 att;
      metric = job_dead_lettered;
      handoff = dlq_logged d.env msg ∷ [];
      settled = rw t;
      same_job = refl;
      same_epoch = refl;
      quiet = refl;
      retry_in_budget = λ k. cc;
      dead_exhausted = λ k. ground arith;
    }
    | inr f ↦ record {
      op = op_with op_retry d claim [] msg (retry_time r claim o now) att;
      metric = job_retried;
      handoff =
          retry_handed (with_attempt d.env (claim.attempt + 1)) (retry_time r claim o now) ∷ [];
      settled = rw f;
      same_job = refl;
      same_epoch = refl;
      quiet = refl;
      retry_in_budget = λ k. ground arith;
      dead_exhausted = λ k. cc;
    }
  ]

  one-Settles :
      (kind : OpKind) (result text : Bytes) (n : Note)
      → kind ≢ op_retry
      → kind ≢ op_dead
      → Settles r d claim db (settle r d (op_with kind d claim result text 0 att) n [] db)
  unfolding op_with
  one-Settles kind result text n a b = record {
    op = op_with kind d claim result text 0 att;
    metric = n;
    handoff = [];
    settled = refl;
    same_job = refl;
    same_epoch = refl;
    quiet = refl;
    retry_in_budget = λ k. absurd (a k);
    dead_exhausted = λ k. absurd (b k);
  }

  pub route-Settles :
      (o : Outcome) (result : Bytes) (fate : Fate)
      → ((o ≡ outcome_lease_expired)
          × (route o r d claim result msg now fate att db ≡ (unless_down fate att db, [])))
        ⊎ Settles r d claim db (route o r d claim result msg now fate att db)
  unfolding route
  route-Settles outcome_completed result fate =
      inr (one-Settles op_complete result [] job_completed (λ k. cc) (λ k. cc))
  route-Settles outcome_failed result fate =
      inr (one-Settles op_fail [] msg job_failed (λ k. cc) (λ k. cc))
  route-Settles outcome_cancelled result fate =
      inr (one-Settles op_cancel [] [] job_cancelled (λ k. cc) (λ k. cc))
  route-Settles outcome_lease_expired result fate = inl (refl, refl)
  route-Settles outcome_interrupted result fate = inr (transient-Settles outcome_interrupted)
  route-Settles outcome_retryable result fate = inr (transient-Settles outcome_retryable)
  route-Settles outcome_panicked result fate = inr (transient-Settles outcome_panicked)

settle_op :
    (r : Runner) (d : Delivery) (o : Op) (n : Note) (handoff : List Effect) (db : Db) {p : Op}
    {res : Result Unavailable Bool} {rest : List Effect}
    → (settle r d o n handoff db).1 ≡ recorded p res ∷ rest
    → o ≡ p
unfolding settle
settle_op r d o n handoff db h = ground arith

-- What `settle` shows of the recorder's answer.
settle_ack :
    (r : Runner) (d : Delivery) (o : Op) (n : Note) (handoff : List Effect) (db : Db)
    → any is_ack (settle r d o n handoff db).1 ≡ true
    → (applied : Bool) × (rest : List Effect) × ((settle r d o n handoff db).1
        ≡ recorded o (ok applied) ∷ rest)
unfolding settle
settle_ack r d o n handoff db h = elim (Result-cases (r.recorder o db).1) [
  | inl (a, e) ↦ (
    a,
    (if a then handoff else note r write_fenced) ++ (acked d.priority d.entry_id ∷ note r n),
    rw e,
  )
  | inr (x, e) ↦ absurd (ground arith)
]

module _ (r : Runner) (d : Delivery) (claim : Claim) (result : Bytes) (e cause : MaybeErr)
    (started now : ℕ) (fate : Fate) (db : Db) where
  -- `finish` either leaves everything but the attempt row to the reaper, or calls the recorder once.
  finish_cases :
      ((outcome_of e cause ≡ outcome_lease_expired)
        × ((finish r d claim result e cause started now fate db).1 ≡ []))
      ⊎ Settles r d claim db (finish r d claim result e cause started now fate db)
  unfolding finish
  finish_cases =
      let att = attempt_of r d claim e (outcome_of e cause) started now in
      elim (route-Settles r d claim (attempt_error r.text e) now att db (outcome_of e cause) result
        fate) [ inl (lost, q) ↦ inl (lost, ap (λ out. out.1) q) | inr s ↦ inr s ]

  -- Durable record first, ack second: if `finish` acks the delivery, then its first effect is a call
  -- of the recorder about this job and this claim's epoch, and that call returned without error.
  pub finish_ack :
      let effects = (finish r d claim result e cause started now fate db).1 in
      any is_ack effects ≡ true
      → (o : Op) × (applied : Bool) × (rest : List Effect) × (effects
          ≡ recorded o (ok applied) ∷ rest)
        × (o.id ≡ d.env.id)
        × (o.epoch ≡ claim.epoch)
  finish_ack h = elim finish_cases [
    | inl (lost, q) ↦ cc
    | inr s ↦
        let acks = subst (λ (out : Db × List Effect). any is_ack out.1 ≡ true) s.settled h in
        let (a, rest, q) = settle_ack r d s.op s.metric s.handoff db acks in
        (s.op, a, rest, ap (λ out. out.1) s.settled ∙ q, s.same_job, s.same_epoch)
  ]

  -- The converse: unless the lease was lost to the reaper, a record that is answered is acked.
  pub answered_ack :
      let effects = (finish r d claim result e cause started now fate db).1 in
      (o : Op) (applied : Bool) (rest : List Effect)
      → effects ≡ recorded o (ok applied) ∷ rest
      → any is_ack effects ≡ true
  answered_ack o applied rest h = elim finish_cases [
    | inl (lost, q) ↦ cc
    | inr s ↦
        let out = ap (λ (out : Db × List Effect). out.1) s.settled in
        ap (any is_ack) out ∙ answered_settle r d s.op s.metric s.handoff db (sym out ∙ h)
  ]

  -- The attempt budget: what is recorded carries the epoch of the claim, a recorded retry has
  -- attempts left, and a recorded dead letter has none.
  pub finish_budget :
      (o : Op) (res : Result Unavailable Bool) (rest : List Effect)
      → (finish r d claim result e cause started now fate db).1 ≡ recorded o res ∷ rest
      → (o.kind ≡ op_retry → claim.attempt < claim.max_attempts)
        × (o.kind ≡ op_dead → claim.max_attempts ≤ claim.attempt)
        × (o.epoch ≡ claim.epoch)
  finish_budget o res rest h = elim finish_cases [
    | inl (lost, q) ↦ cc
    | inr s ↦
        let same =
          settle_op r d s.op s.metric s.handoff db (ap (λ out. out.1) (sym s.settled) ∙ h) in
        (
          λ k. s.retry_in_budget (ap (λ p. p.kind) same ∙ k),
          λ k. s.dead_exhausted (ap (λ p. p.kind) same ∙ k),
          ap (λ p. p.epoch) (sym same) ∙ s.same_epoch,
        )
  ]
