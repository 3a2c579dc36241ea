-- ===== src/Worker/Runner.antt =====
-- internal/worker/runner.go: one delivery, from claim to ack. Calls of the queue and of the
-- observer are listed in order; the handler's run is an argument, with what other processes did to
-- the tables meanwhile. The recorder is the interface `store.Recorder`.
use calligraphy.Base.{
  ℕ, ◌+◌, String, List, [], ◌∷◌, ◌++◌, Bool, true, false, ◌&&◌, Option, none, some, if◌then◌else◌,
  ltb, leb, is_some, Result, ok, err, Fate, under, Unavailable,
}
use calligraphy.Job.Errors.{
  Bytes, Err, MaybeErr, Outcome, outcome_completed, outcome_failed, outcome_retryable,
  outcome_cancelled, outcome_interrupted, outcome_lease_expired, outcome_panicked, classify_error,
  is_panic, is_lease_lost, attempt_error, err_no_handler,
}
use calligraphy.Job.Status.{Priority}
use calligraphy.Job.Record.{Envelope}
use calligraphy.Store.Db.{Db, Attempt, Claim, claim_job}
use calligraphy.Store.Recorder.{
  OpKind, op_complete, op_fail, op_retry, op_dead, op_cancel, Op, unless_down,
}

-- queue.Delivery
pub record Delivery : Type 0 where
  pub env : Envelope
  pub entry_id : String
  pub priority : Priority

-- handler.Options, as far as the runner reads them; 0 means the runner's own value.
pub record HandlerOptions : Type 0 where
  pub lease_ttl : ℕ
  pub exec_timeout : ℕ

abbrev pub Recorder : Type 0
Recorder = Op → Db → Db × Result Unavailable Bool

pub record Runner : Type 0 where
  pub worker_id : String
  pub lease_ttl : ℕ
  pub exec_timeout : ℕ
  pub registry : String → Option HandlerOptions
  pub backoff : ℕ → ℕ  -- Backoff.Delay
  pub text : Err → Bytes  -- the texts of leaf errors
  pub no_handler_text : Bytes
  pub recorder : Recorder
  pub observed : Bool  -- Obs is not nil

pub data Note : Type 0 where
  job_started job_completed job_failed job_retried job_dead_lettered : Note
  job_cancelled claim_skipped write_fenced : Note

-- What the runner does besides the tables, in order.
pub data Effect : Type 0 where
  recorded : Op → Result Unavailable Bool → Effect
  acked : Priority → String → Effect
  dlq_logged : Envelope → Bytes → Effect
  retry_handed : Envelope → ℕ → Effect
  noted : Note → Effect

abbrev pub note : Runner → Note → List Effect
note r n = if r.observed then noted n ∷ [] else []

abbrev pub is_retryable : Outcome → Bool
is_retryable outcome_retryable = true
is_retryable _ = false

unfoldable pub outcome_of : MaybeErr → MaybeErr → Outcome
outcome_of e cause =
    let classified = classify_error e cause in
    let o = if is_retryable classified && is_panic e then outcome_panicked else classified in
    if is_some e && is_lease_lost cause then outcome_lease_expired else o

unfoldable pub attempt_of : Runner → Delivery → Claim → MaybeErr → Outcome → ℕ → ℕ → Attempt
attempt_of r d claim e outcome started now = record {
  job_id = d.env.id;
  attempt = claim.attempt;
  worker_id = r.worker_id;
  started_at = started;
  finished_at = now;
  outcome = outcome;
  error = attempt_error r.text e;
}

unfoldable pub op_with : OpKind → Delivery → Claim → Bytes → Bytes → ℕ → Attempt → Op
op_with kind d claim result msg next_at att = record {
  kind = kind;
  id = d.env.id;
  epoch = claim.epoch;
  result = result;
  err_msg = msg;
  next_at = next_at;
  att = att;
}

-- The end of `finish`: the recorder's call, the handoff if it applied, the ack and the metric.
unfoldable pub settle : Runner → Delivery → Op → Note → List Effect → Db → Db × List Effect
settle r d o n handoff db =
    let (db', res) = r.recorder o db in
    (
      db',
      recorded o res ∷ elim res [
        | err e ↦ []
        | ok applied ↦
            (if applied then handoff else note r write_fenced)
            ++ (acked d.priority d.entry_id ∷ note r n)
      ],
    )

abbrev pub with_attempt : Envelope → ℕ → Envelope
with_attempt env n = record env { attempt = n }

abbrev pub is_interruption : Outcome → Bool
is_interruption outcome_interrupted = true
is_interruption _ = false

-- The branch of the interrupted, the retryable and the panicked.
unfoldable pub settle_transient :
    Runner → Delivery → Claim → Bytes → Outcome → ℕ → Attempt → Db → Db × List Effect
unfolding settle op_with
settle_transient r d claim msg outcome now att db =
    let next_at = now + (if is_interruption outcome then 0 else r.backoff claim.attempt) in
    if leb claim.max_attempts claim.attempt
    then settle r d (op_with op_dead d claim [] msg 0 att) job_dead_lettered
        (dlq_logged d.env msg ∷ []) db
    else settle r d (op_with op_retry d claim [] msg next_at att) job_retried
        (retry_handed (with_attempt d.env (claim.attempt + 1)) next_at ∷ []) db

-- The `switch` of `finish`.
unfoldable pub route :
    Outcome → Runner → Delivery → Claim → Bytes → Bytes → ℕ → Fate → Attempt → Db → Db × List Effect
unfolding settle settle_transient op_with
route outcome_completed r d claim result msg now fate att db =
    settle r d (op_with op_complete d claim result [] 0 att) job_completed [] db
route outcome_failed r d claim result msg now fate att db =
    settle r d (op_with op_fail d claim [] msg 0 att) job_failed [] db
route outcome_cancelled r d claim result msg now fate att db =
    settle r d (op_with op_cancel d claim [] [] 0 att) job_cancelled [] db
route outcome_lease_expired r d claim result msg now fate att db = (unless_down fate att db, [])
route outcome_interrupted r d claim result msg now fate att db =
    settle_transient r d claim msg outcome_interrupted now att db
route outcome_retryable r d claim result msg now fate att db =
    settle_transient r d claim msg outcome_retryable now att db
route outcome_panicked r d claim result msg now fate att db =
    settle_transient r d claim msg outcome_panicked now att db

unfoldable pub finish :
    Runner → Delivery → Claim → Bytes → MaybeErr → MaybeErr → ℕ → ℕ → Fate → Db → Db × List Effect
finish r d claim result e cause started now att_fate db =
    let outcome = outcome_of e cause in
    route outcome r d claim result (attempt_error r.text e) now att_fate
      (attempt_of r d claim e outcome started now) db

-- What came of the handler: its result and error, the cancellation cause of its context, the time
-- at its end, and the tables as they are by then.
pub record Execution : Type 0 where
  pub result : Bytes
  pub error : MaybeErr
  pub cause : MaybeErr
  pub ended : ℕ
  pub meanwhile : Db → Db

-- `if reg.Options.LeaseTTL > 0 { leaseTTL = … }`.
unfoldable pub effective_lease : Runner → String → ℕ
effective_lease r kind = elim (r.registry kind) [
  | none ↦ r.lease_ttl
  | some opts ↦ if ltb 0 opts.lease_ttl then opts.lease_ttl else r.lease_ttl
]

unfoldable pub run_claimed : Runner → Delivery → Claim → Execution → Fate → Db → Db × List Effect
run_claimed r d claim x att_fate db = elim (r.registry d.env.kind) [
  | none ↦
      finish r d claim [] (err_no_handler r.no_handler_text) none claim.started_at x.ended att_fate
        db
  | some opts ↦
      finish r d claim x.result x.error x.cause claim.started_at x.ended att_fate (x.meanwhile db)
]

-- `Run`: a failed claim leaves the delivery pending; a lost one acks it away.
unfoldable pub run_delivery :
    Runner → Delivery → ℕ → Execution → Fate → Fate → Db → Db × List Effect
run_delivery r d now x claim_fate att_fate db =
    let (db', c) =
      under claim_fate db (claim_job d.env.id r.worker_id (effective_lease r d.env.kind) now db) in
    elim c [
      | err e ↦ (db', [])
      | ok none ↦ (db', note r claim_skipped ++ acked d.priority d.entry_id ∷ [])
      | ok (some claim) ↦
          let (db'', effects) = run_claimed r d claim x att_fate db' in
          (db'', note r job_started ++ effects)
    ]
