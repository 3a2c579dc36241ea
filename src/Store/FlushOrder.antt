-- ===== src/Store/FlushOrder.antt =====
-- internal/store/batch.go: a flush of ops about different jobs does what the ops do one by one.
use calligraphy.Base.{
  ℕ, ◌≡◌, refl, sym, ◌∙◌, ap, inl, inr, String, List, [], ◌∷◌, Bool, Option, none, some,
  if◌then◌else◌, true, false, str_eq, eq_iff, eq_refl, is_some, any, map, Result, ok, err,
  Unavailable, served, arith, Bool-cases, subst,
}
use calligraphy.Store.Row.{Row, apply}
use calligraphy.Store.Db.{
  Event, Happening, was_dead_lettered, was_cancelled, was_cancelled_null, retry_scheduled, Db,
  update_row, touch, add_event, insert_attempt, complete_job, fail_job, dead_letter_job,
  cancel_running, schedule_retry, with_event, record_attempt,
}
use calligraphy.Store.Tables.{apply-SameJob}
use calligraphy.Store.Recorder.{
  Op, op_retry, op_dead, op_cancel, sync_record, op_of, is_complete, completion_for, complete_rows,
  rare_ops, insert_attempts, insert_events, flush_once,
}
use calligraphy.Store.Flush.{row_op, Avoids, DistinctIds, complete_first, rare_first}

module _ (now : ℕ) where
  -- Only the flags of completions read the returned ids.
  rare_ops-congr :
      (head : String) (xs ys : List String) (os : List Op) (rs : List Row)
      → ((id : String) → str_eq head id ≡ false → any (str_eq id) xs ≡ any (str_eq id) ys)
      → Avoids head os
      → rare_ops now xs os rs ≡ rare_ops now ys os rs
  unfolding rare_ops
  rare_ops-congr head xs ys [] rs h a = refl
  rare_ops-congr head xs ys (o ∷ os) rs h a =
      let next = λ (rs' : List Row). rare_ops-congr head xs ys os rs' h a.1 in
      ground (arith, h o.id a.0, next rs, next (update_row o.id (apply (row_op now o)) rs).0)

  complete_rows-nil : (rs : List Row) → complete_rows now [] rs ≡ (rs, [])
  unfolding complete_rows completion_for
  complete_rows-nil [] = refl
  complete_rows-nil (r ∷ rs) = ground (arith, complete_rows-nil rs)

  complete_rows-skip :
      (o : Op) (os : List Op) (rs : List Row)
      → is_complete o.kind ≡ false
      → complete_rows now (o ∷ os) rs ≡ complete_rows now os rs
  unfolding complete_rows completion_for
  complete_rows-skip o os [] k = refl
  complete_rows-skip o os (r ∷ rs) k = ground (arith, complete_rows-skip o os rs k)

  -- A change of the rows with one id changes no other id that the completions return.
  returned_ids :
      (o : Op) (os : List Op) (rs : List Row) (id : String)
      → str_eq o.id id ≡ false
      → any (str_eq id) (complete_rows now os rs).1
        ≡ any (str_eq id) (complete_rows now os (update_row o.id (apply (row_op now o)) rs).0).1
  unfolding complete_rows update_row
  returned_ids o os [] id n = refl
  returned_ids o os (r ∷ rs) id n = grind (
    arith,
    returned_ids o os rs id n,
    apply-SameJob (row_op now o) r,
    eq_iff r.id o.id,
    eq_iff id r.id,
    eq_iff id o.id,
    eq_iff o.id id,
    eq_refl o.id,
  )

  -- The statements of the batch, with its flags.
  flush_rows : List Op → List Row → List Row × List Bool
  flush_rows os rs = let (rs₁, ids) = complete_rows now os rs in rare_ops now ids os rs₁

  -- The same ops one by one.
  each_row : List Op → List Row → List Row × List Bool
  each_row [] rs = (rs, [])
  each_row (o ∷ os) rs =
      let (rs₁, hit) = update_row o.id (apply (row_op now o)) rs in
      let (rs', flags) = each_row os rs₁ in (rs', is_some hit ∷ flags)

  flush_rows-each_row :
      (os : List Op) (rs : List Row) → DistinctIds os → flush_rows os rs ≡ each_row os rs
  unfolding flush_rows each_row rare_ops
  flush_rows-each_row [] rs d = rw (complete_rows-nil rs)
  flush_rows-each_row (o ∷ os) rs d = elim (Bool-cases (is_complete o.kind)) [
    | inl k ↦
        let (same, hit, others) = complete_first now o os rs k d.0 in
        let rs₁ = (update_row o.id (apply (row_op now o)) rs).0 in
        let ids = (complete_rows now (o ∷ os) rs).1 in
        let ids₁ = (complete_rows now os rs₁).1 in
        ground (
          arith,
          same,
          hit,
          rare_ops-congr o.id ids ids₁ os (complete_rows now os rs₁).0 others d.0,
          flush_rows-each_row os rs₁ d.1,
        )
    | inr k ↦
        let (same, hit) = rare_first now o os rs k d.0 in
        let rs₁ = (update_row o.id (apply (row_op now o)) rs).0 in
        ground (
          arith,
          same,
          hit,
          complete_rows-skip o os rs k,
          rare_ops-congr o.id (complete_rows now os rs).1 (complete_rows now os rs₁).1 os
              (complete_rows now os rs₁).0 (returned_ids o os rs) d.0,
          flush_rows-each_row os rs₁ d.1,
        )
  ]

-- The SyncRecorder over a list of calls, each of them answered.
abbrev pub answer_of : Db × Result Unavailable Bool → Db × Bool
answer_of (db, ok applied) = (db, applied)
answer_of (db, err e) = (db, false)

pub sync_all : ℕ → List Op → Db → Db × List Bool
sync_all now [] db = (db, [])
sync_all now (o ∷ os) db =
    let (db₁, applied) = answer_of (sync_record served served true now o db) in
    let (db', flags) = sync_all now os db₁ in (db', applied ∷ flags)

-- The events that the methods of the Store write for the ops that applied.
abbrev event_of : Op → Option Happening
event_of o = elim o.kind [
  | op_retry ↦ some (retry_scheduled o.next_at o.err_msg)
  | op_dead ↦ some (was_dead_lettered o.err_msg)
  | op_cancel ↦ some was_cancelled
  | _ ↦ none
]

abbrev with_event_of : Op → Bool → List Event → List Event
with_event_of o f kept = elim (event_of o) [
  | none ↦ kept
  | some h ↦ if f then record { job_id = o.id; event = h } ∷ kept else kept
]

store_events : List Op → List Bool → List Event → List Event
store_events [] flags kept = kept
store_events (o ∷ os) [] kept = kept
store_events (o ∷ os) (f ∷ fs) kept = store_events os fs (with_event_of o f kept)

-- Whether the detail of a cancellation is NULL or the JSON value null is left out.
abbrev pub less_detail : Happening → Happening
less_detail was_cancelled_null = was_cancelled
less_detail h = h

abbrev pub read_event : Event → Event
read_event e = record e { event = less_detail e.event }

abbrev pub read_tables : Db → Db
read_tables db = record db { events = map read_event db.events }

one_event :
    (o : Op) (f : Bool) (xs ys : List Event)
    → map read_event xs ≡ map read_event ys
    → map read_event (insert_events (o ∷ []) (f ∷ []) xs) ≡ map read_event (with_event_of o f ys)
unfolding insert_events
one_event o f xs ys e = ground (arith, e)

insert_events-store_events :
    (os : List Op) (flags : List Bool) (xs ys : List Event)
    → map read_event xs ≡ map read_event ys
    → map read_event (insert_events os flags xs) ≡ map read_event (store_events os flags ys)
unfolding insert_events store_events
insert_events-store_events [] flags xs ys e = e
insert_events-store_events (o ∷ os) [] xs ys e = e
insert_events-store_events (o ∷ os) (f ∷ fs) xs ys e =
    insert_events-store_events os fs _ (with_event_of o f ys) (one_event o f xs ys e)

-- One call of the SyncRecorder is the statement of its op, its event if it applied, its attempt.
sync_one :
    (now : ℕ) (o : Op) (db : Db)
    → sync_record served served true now o db ≡ (
        let (rs, hit) = update_row (op_of o).id (apply (row_op now (op_of o))) db.jobs in
        (
          record db {
            jobs = rs;
            attempts = insert_attempt (op_of o).att db.attempts;
            events = with_event_of (op_of o) (is_some hit) db.events;
          },
          ok (is_some hit),
        ))
unfolding sync_record op_of complete_job fail_job dead_letter_job cancel_running schedule_retry
    with_event add_event touch record_attempt
sync_one now o db = ground arith

op_of-id : (o : Op) → (op_of o).id ≡ o.id
unfolding op_of
op_of-id o = ground arith

op_of-Avoids : (id : String) (os : List Op) → Avoids id os → Avoids id (map op_of os)
op_of-Avoids id [] a = tt
op_of-Avoids id (o ∷ os) a = (ap (str_eq id) (op_of-id o) ∙ a.0, op_of-Avoids id os a.1)

-- The tables after a batch, from the rows and flags of its statements.
abbrev with_rows : List Op → Db → List Row × List Bool → Db × List Bool
with_rows os db (rs, flags) = (
  record db {
    jobs = rs;
    attempts = insert_attempts (map op_of os) db.attempts;
    events = insert_events (map op_of os) flags db.events;
  },
  flags,
)

sync_all_lem :
    (now : ℕ) (os : List Op) (db : Db)
    → sync_all now os db ≡ (
        let (rs, flags) = each_row now (map op_of os) db.jobs in
        (
          record db {
            jobs = rs;
            attempts = insert_attempts (map op_of os) db.attempts;
            events = store_events (map op_of os) flags db.events;
          },
          flags,
        ))
unfolding sync_all each_row insert_attempts store_events
sync_all_lem now [] db = refl
sync_all_lem now (o ∷ os) db = rw (sync_one now o db) (rw (sync_all_lem now os))

op_of-DistinctIds : (os : List Op) → DistinctIds os → DistinctIds (map op_of os)
op_of-DistinctIds [] d = tt
op_of-DistinctIds (o ∷ os) d = (
  subst (λ i. Avoids i (map op_of os)) (sym (op_of-id o)) (op_of-Avoids o.id os d.0),
  op_of-DistinctIds os d.1,
)

-- For calls about different jobs, one committed flush of the Batcher leaves the same tables as the
-- SyncRecorder does one call after the other, at one `now` and with every statement answered and
-- every event written, and it answers each call alike. One thing is left out, in which the two do
-- differ: as the detail of the event of a cancellation a flush writes the JSON value null, and the
-- SyncRecorder NULL. And '' and NULL in job_attempts are one value, as they are to ListAttempts.
pub flush_once-sync_all :
    (now : ℕ) (os : List Op) (db : Db)
    → DistinctIds os
    → let (batched, flags) = flush_once now (map op_of os) db in
      let (single, answers) = sync_all now os db in
      (read_tables batched ≡ read_tables single) × (flags ≡ answers)
unfolding flush_once flush_rows
flush_once-sync_all now os db d =
    let e = flush_rows-each_row now (map op_of os) db.jobs (op_of-DistinctIds os d) in
    let flushed = each_row now (map op_of os) db.jobs in
    let kept = insert_events-store_events (map op_of os) flushed.1 db.events db.events refl in
    rw (sync_all_lem now os db) (
      ap (λ x. read_tables (with_rows os db x).0) e
          ∙ ap
              (λ es. record db {
                jobs = flushed.0;
                attempts = insert_attempts (map op_of os) db.attempts;
                events = es;
              })
              kept,
      ap (λ x. x.1) e,
    )

-- A flush that holds one completion alone does what the SyncRecorder does.
pub flush_once-sync_record :
    (now : ℕ) (o : Op) (db : Db)
    → is_complete o.kind ≡ true
    → let (batched, flags) = flush_once now (op_of o ∷ []) db in
      let (single, answer) = answer_of (sync_record served served true now o db) in
      (batched ≡ single) × (flags ≡ answer ∷ [])
unfolding flush_once flush_rows each_row insert_events insert_attempts op_of
flush_once-sync_record now o db k =
    let e = flush_rows-each_row now (op_of o ∷ []) db.jobs (tt, tt) in
    rw (sync_one now o db) (grind (arith, e, k), grind (arith, e, k))
