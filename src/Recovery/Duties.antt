-- ===== src/Recovery/Duties.antt =====
-- internal/recovery/recovery.go: the reaper, the sweeps and the repairs, on the tables of the store.
-- Calls of the queue are listed in order, and only the answer of `Enqueue` matters. The database's
-- clock and the process's are one `now`. Each row meets its own answers of Postgres.
use calligraphy.Base.{
  ℕ, ◌+◌, max, String, List, [], ◌∷◌, ◌++◌, Bool, true, Option, none, some, if◌then◌else◌, Result,
  ok, err, Fate, under, Unavailable, map,
}
use calligraphy.Job.Errors.{Bytes, outcome_lease_expired}
use calligraphy.Job.Status.{Priority, retrying, dead_letter}
use calligraphy.Job.Record.{Envelope}
use calligraphy.Store.Db.{Db, Attempt, requeued_because, add_event, set_enqueued}
use calligraphy.Store.Submit.{ReapResult, reap_job, get_job, Requeueable, mark_promoted}
use calligraphy.Store.Queries.{
  is_pending, list_expired_running, list_unenqueued, list_stuck_retrying,
}
use calligraphy.Store.Recorder.{unless_down}
use calligraphy.Worker.Runner.{Delivery, with_attempt}

-- The messages of the source are arguments.
pub record Texts : Type 0 where
  pub presumed_dead : Bytes  -- "lease expired: worker presumed dead"
  pub no_entry : Bytes  -- "lease expired: no queue entry survived"
  pub exhausted : Bytes  -- "lease expired: attempts exhausted"

pub record Leader : Type 0 where
  pub backoff : ℕ → ℕ  -- Backoff.Delay
  pub sweep_grace : ℕ
  pub orphan_age : ℕ
  pub texts : Texts
  pub enqueue : Envelope → Result Unavailable String  -- Queue.Enqueue with no time

-- What Postgres answers to the calls about one job.
pub record Answers : Type 0 where
  pub to_update : Fate
  pub to_read : Bool
  pub to_attempt : Fate
  pub to_event : Bool

pub data Deed : Type 0 where
  puts : Envelope → Result Unavailable String → Deed  -- Queue.Enqueue
  parks : Envelope → ℕ → Deed  -- Queue.ScheduleRetry
  logs_dead : Envelope → Bytes → Deed  -- Queue.DeadLetter
  acks : Priority → String → Deed

abbrev pub batch_size : ℕ
batch_size = 256

abbrev pub lost_attempt : String → ReapResult → Bytes → ℕ → Attempt
lost_attempt id res text now = record {
  job_id = id;
  attempt = res.attempt;
  worker_id = res.prev_worker;
  started_at = now;
  finished_at = now;
  outcome = outcome_lease_expired;
  error = text;
}

-- The `switch` on the status that the reaper chose.
unfoldable pub handoff : Leader → Envelope → ReapResult → ℕ → Envelope → List Deed
handoff l next res now env = elim res.new_status [
  | retrying ↦ parks next (now + l.backoff res.attempt) ∷ []
  | dead_letter ↦ logs_dead env l.texts.exhausted ∷ []
  | _ ↦ []
]

unfoldable pub ack_unreaped : Leader → Answers → ℕ → Delivery → Db → Db × List Deed
ack_unreaped l a now d db = elim (if a.to_read then get_job d.env.id db else none) [
  | none ↦ (db, [])
  | some j ↦
      let env = record (with_attempt d.env (j.attempt_count + 1)) { enqueued_at = now } in
      let ack = acks d.priority d.entry_id in
      if is_pending j.status
      then elim (l.enqueue env) [
        | err e ↦ (db, puts env (err e) ∷ [])
        | ok id ↦ (
          add_event a.to_event d.env.id (requeued_because "reaped before claim") db,
          puts env (ok id) ∷ ack ∷ [],
        )
      ]
      else (db, ack ∷ [])
]

-- What `reapOne` does with the answer of `ReapJob`.
unfoldable pub after_reap :
    Leader → Answers → ℕ → Delivery → Db × Result Unavailable (Option ReapResult) → Db × List Deed
unfolding ack_unreaped handoff
after_reap l a now d (db, err e) = (db, [])
after_reap l a now d (db, ok none) = ack_unreaped l a now d db
after_reap l a now d (db, ok (some r)) = (
  unless_down a.to_attempt (lost_attempt d.env.id r l.texts.presumed_dead now) db,
  handoff l (with_attempt d.env (r.attempt + 1)) r now d.env ++ acks d.priority d.entry_id ∷ [],
)

unfoldable pub reap_one : Leader → Answers → ℕ → Delivery → Db → Db × List Deed
unfolding after_reap
reap_one l a now d db = after_reap l a now d (
    under a.to_update db (
      reap_job a.to_event l.texts.presumed_dead d.env.id (l.backoff (max d.env.attempt 1)) 0 now
        db))

unfoldable pub requeue_envelope : Requeueable → ℕ → ℕ → Envelope
requeue_envelope r attempt now = record {
  id = r.id;
  kind = r.kind;
  queue = r.queue;
  priority = r.priority;
  attempt = attempt;
  payload = r.payload;
  enqueued_at = now;
}

-- One row of `sweepStaleRunning`.
unfoldable pub after_sweep :
    Leader
    → Answers
    → ℕ
    → Requeueable
    → Db × Result Unavailable (Option ReapResult)
    → Db × List Deed
unfolding handoff requeue_envelope
after_sweep l a now r (db, ok (some res)) =
    let env = requeue_envelope r (res.attempt + 1) now in
    (
      unless_down a.to_attempt (lost_attempt r.id res l.texts.no_entry now) db,
      handoff l env res now env,
    )
after_sweep l a now r (db, _) = (db, [])

unfoldable pub sweep_one : Leader → Answers → ℕ → Requeueable → Db → Db × List Deed
unfolding after_sweep
sweep_one l a now r db = after_sweep l a now r (
    under a.to_update db (
      reap_job a.to_event l.texts.presumed_dead r.id (l.backoff (max r.attempt 1)) l.sweep_grace now
        db))

-- One row of `repairUnenqueued`.
unfoldable pub repair_orphan : Leader → Answers → ℕ → Requeueable → Db → Db × List Deed
unfolding requeue_envelope
repair_orphan l a now r db =
    let env = requeue_envelope r (r.attempt + 1) now in
    elim (l.enqueue env) [
      | err e ↦ (db, puts env (err e) ∷ [])
      | ok id ↦
          let marked = under a.to_update db (set_enqueued r.id id now db, true) in
          (
            add_event a.to_event r.id (requeued_because "orphaned submit") marked.0,
            puts env (ok id) ∷ [],
          )
    ]

-- One row of `repairStuckRetrying`.
unfoldable pub repair_stuck : Leader → Answers → ℕ → Requeueable → Db → Db × List Deed
unfolding requeue_envelope
repair_stuck l a now r db =
    let env = requeue_envelope r (r.attempt + 1) now in
    elim (l.enqueue env) [
      | err e ↦ (db, puts env (err e) ∷ [])
      | ok id ↦ ((under a.to_update db (mark_promoted (r.id ∷ []) now db)).0, puts env (ok id) ∷ [])
    ]

-- The loop of a duty over its rows or deliveries, whose ids choose the answers of Postgres.
unfoldable pub each : {A : Type 0} → (A → Db → Db × List Deed) → List A → Db → Db × List Deed
each f [] db = (db, [])
each f (x ∷ xs) db =
    let (db', here) = f x db in let (db'', rest) = each f xs db' in (db'', here ++ rest)

-- `reapAbandoned`, with what `Queue.ReapAbandoned` returned.
unfoldable pub reap_abandoned :
    Leader → (String → Answers) → ℕ → List Delivery → Db → Db × List Deed
unfolding reap_one each
reap_abandoned l a now ds db = each (λ d. reap_one l (a d.env.id) now d) ds db

unfoldable pub sweep_stale_running : Leader → (String → Answers) → Bool → ℕ → Db → Db × List Deed
unfolding sweep_one each
sweep_stale_running l a listed now db =
    if listed
    then each (λ r. sweep_one l (a r.id) now r)
        (list_expired_running l.sweep_grace batch_size now db) db
    else (db, [])

unfoldable pub repair_unenqueued : Leader → (String → Answers) → Bool → ℕ → Db → Db × List Deed
unfolding repair_orphan each
repair_unenqueued l a listed now db =
    if listed
    then each (λ r. repair_orphan l (a r.id) now r) (list_unenqueued l.orphan_age batch_size now db)
        db
    else (db, [])

unfoldable pub repair_stuck_retrying : Leader → (String → Answers) → Bool → ℕ → Db → Db × List Deed
unfolding repair_stuck each
repair_stuck_retrying l a listed now db =
    if listed
    then each (λ r. repair_stuck l (a r.id) now r)
        (list_stuck_retrying l.orphan_age batch_size now db) db
    else (db, [])

-- `promote`, with the envelopes that `Queue.PromoteDue` moved; no call of Postgres for none.
unfoldable pub promote : Fate → ℕ → Option (List Envelope) → Db → Db
promote fate now none db = db
promote fate now (some envs) db = (under fate db (mark_promoted (map (λ e. e.id) envs) now db)).0
