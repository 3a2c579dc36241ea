-- ===== src/Store/Recorder.antt =====
-- internal/store/batch.go: the two recorders. `SyncRecorder` writes each outcome at once; the
-- Batcher writes many in one transaction.
use calligraphy.Base.{
  ℕ, String, List, [], ◌∷◌, Bool, true, false, ◌&&◌, Option, none, some, if◌then◌else◌, str_eq,
  is_some, any, map, Result, ok, err, Fate, under, Unavailable, unavailable,
}
use calligraphy.Job.Errors.{Bytes}
use calligraphy.Store.Row.{
  Row, RowOp, completes, fails, dead_letters, cancels_running, retries, apply, fence, coalesce,
}
use calligraphy.Store.Db.{
  Attempt, Happening, was_dead_lettered, was_cancelled_null, retry_scheduled, Event, Db, update_row,
  or_null, complete_job, fail_job, dead_letter_job, cancel_running, schedule_retry, insert_attempt,
  record_attempt,
}

pub data OpKind : Type 0 where
  op_complete op_fail op_retry op_dead op_cancel : OpKind

-- A call of the interface `Recorder`, and the `op` of the Batcher less its channel.
pub record Op : Type 0 where
  pub kind : OpKind
  pub id : String
  pub epoch : ℕ
  pub result : Bytes
  pub err_msg : Bytes
  pub next_at : ℕ
  pub att : Attempt

-- One method of SyncRecorder over the Store, with the fate of its statement and of the insert of
-- the attempt, whose failure is only logged. `lands` is for the event.
abbrev pub update_of : Bool → ℕ → Op → Db → Db × Bool
update_of lands now o db = elim o.kind [
  | op_complete ↦ complete_job o.id o.epoch o.result now db
  | op_fail ↦ fail_job o.id o.epoch o.err_msg now db
  | op_retry ↦ schedule_retry lands o.id o.epoch o.err_msg o.next_at now db
  | op_dead ↦ dead_letter_job lands o.id o.epoch o.err_msg now db
  | op_cancel ↦ cancel_running lands o.id o.epoch now db
]

abbrev pub unless_down : Fate → Attempt → Db → Db
unless_down fate a db = (under fate db (record_attempt a db, true)).0

unfoldable pub sync_record : Fate → Fate → Bool → ℕ → Op → Db → Db × Result Unavailable Bool
sync_record fate att_fate lands now o db =
    let (db', r) = under fate db (update_of lands now o db) in
    elim r [ err e ↦ (db', err e) | ok applied ↦ (unless_down att_fate o.att db', ok applied) ]

-- What the Batcher's methods submit: an empty result of a completion is null.
unfoldable pub op_of : Op → Op
op_of o = elim o.kind [ op_complete ↦ record o { result = or_null o.result } | _ ↦ o ]

abbrev pub is_complete : OpKind → Bool
is_complete op_complete = true
is_complete _ = false

-- The first op of kind opComplete whose fence the row meets.
unfoldable pub completion_for : List Op → Row → Option Op
completion_for [] r = none
completion_for (o ∷ os) r =
    if is_complete o.kind && (str_eq r.id o.id && fence o.epoch r)
    then some o
    else completion_for os r

-- The multi-row UPDATE over unnest($1, $2, $3), and the ids that it returns. Where several ops
-- match one row Postgres applies one of them; here it is the first.
unfoldable pub complete_rows : ℕ → List Op → List Row → List Row × List String
complete_rows now os [] = ([], [])
complete_rows now os (r ∷ rs) =
    let (rest, ids) = complete_rows now os rs in
    elim (completion_for os r) [
      | none ↦ (r ∷ rest, ids)
      | some o ↦ (coalesce (apply (completes o.epoch o.result now) r) r ∷ rest, r.id ∷ ids)
    ]

-- The statement of each rarer kind.
abbrev pub rare_op : ℕ → Op → Option RowOp
rare_op now o = elim o.kind [
  | op_complete ↦ none
  | op_fail ↦ some (fails o.epoch o.err_msg now)
  | op_retry ↦ some (retries o.epoch o.err_msg o.next_at now)
  | op_dead ↦ some (dead_letters o.epoch o.err_msg now)
  | op_cancel ↦ some (cancels_running o.epoch now)
]

-- The loop over the rarer kinds, with the flags `applied` of all ops, in order.
unfoldable pub rare_ops : ℕ → List String → List Op → List Row → List Row × List Bool
rare_ops now ok_ids [] rs = (rs, [])
rare_ops now ok_ids (o ∷ os) rs = elim (rare_op now o) [
  | none ↦ let (rs', flags) = rare_ops now ok_ids os rs in (rs', any (str_eq o.id) ok_ids ∷ flags)
  | some op ↦
      let (rs₁, hit) = update_row o.id (apply op) rs in
      let (rs', flags) = rare_ops now ok_ids os rs₁ in (rs', is_some hit ∷ flags)
]

unfoldable pub insert_attempts : List Op → List Attempt → List Attempt
insert_attempts [] kept = kept
insert_attempts (o ∷ os) kept = insert_attempts os (insert_attempt o.att kept)

abbrev pub happening_of : Op → Option Happening
happening_of o = elim o.kind [
  | op_retry ↦ some (retry_scheduled o.next_at o.err_msg)
  | op_dead ↦ some (was_dead_lettered o.err_msg)
  | op_cancel ↦ some was_cancelled_null
  | _ ↦ none
]

unfoldable pub insert_events : List Op → List Bool → List Event → List Event
insert_events [] flags kept = kept
insert_events (o ∷ os) [] kept = kept
insert_events (o ∷ os) (f ∷ fs) kept = insert_events os fs (elim (happening_of o) [
  | none ↦ kept
  | some h ↦ if f then record { job_id = o.id; event = h } ∷ kept else kept
])

-- `flushOnce`, when its transaction commits.
unfoldable pub flush_once : ℕ → List Op → Db → Db × List Bool
unfolding complete_rows
flush_once now ops db =
    let (rows, ok_ids) = complete_rows now ops db.jobs in
    let (rows', flags) = rare_ops now ok_ids ops rows in
    (
      record db {
        jobs = rows';
        attempts = insert_attempts ops db.attempts;
        events = insert_events ops flags db.events;
      },
      flags,
    )

abbrev pub answers : List Bool → List (Result Unavailable Bool)
answers = map ok

abbrev pub failures : List Op → List (Result Unavailable Bool)
failures = map (λ _. err unavailable)

-- `flush`: a failed transaction is retried once; then every op is answered with the error.
unfoldable pub flush : Fate → Fate → ℕ → ℕ → List Op → Db → Db × List (Result Unavailable Bool)
flush first second now later ops db =
    let (db₁, r₁) = under first db (flush_once now ops db) in
    elim r₁ [
      | ok flags ↦ (db₁, answers flags)
      | err e ↦
          let (db₂, r₂) = under second db₁ (flush_once later ops db₁) in
          elim r₂ [ ok flags ↦ (db₂, answers flags) | err e ↦ (db₂, failures ops) ]
    ]
