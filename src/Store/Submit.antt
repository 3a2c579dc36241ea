-- ===== src/Store/Submit.antt =====
-- internal/store/store.go: CreateJob with its idempotency key, GetJob, and the reaping, promotion and requeue of
-- jobs, on the tables.
use calligraphy.Base.{
  ℕ, ◌+◌, String, List, [], ◌∷◌, Bool, true, false, not, ◌&&◌, Option, none, some, if◌then◌else◌,
  ◌==◌, str_eq, is_some, Result, ok, err,
}
use calligraphy.Job.Errors.{Bytes}
use calligraphy.Job.Status.{Status, Priority, priority_valid, status_valid}
use calligraphy.Job.Record.{Job}
use calligraphy.Store.Row.{Row, reaps, promotes, requeues, coalesce}
use calligraphy.Store.Db.{
  Db, find_row, touch, add_event, submitted, lease_expired, requeued, or_null,
}

-- NULLIF(key, '')
abbrev pub null_if_empty : String → Option String
null_if_empty s = if str_eq s "" then none else some s

-- The row that the INSERT of CreateJob writes.
unfoldable pub row_of_job : Job → ℕ → Row
row_of_job j now = record {
  id = j.id;
  kind = j.kind;
  queue = j.queue;
  status = j.status;
  priority = j.priority;
  payload = or_null j.payload;
  result = none;
  error = none;
  idempotency_key = null_if_empty j.idempotency_key;
  attempt_count = 0;
  max_attempts = j.max_attempts;
  lease_epoch = 0;
  lease_expires_at = none;
  worker_id = none;
  enqueued_stream_id = none;
  created_at = j.created_at;
  scheduled_at = j.scheduled_at;
  started_at = none;
  completed_at = none;
  updated_at = now;
}

abbrev pub is_json_null : Bytes → Bool
is_json_null (a ∷ b ∷ c ∷ d ∷ []) = (a == b'n') && ((b == b'u') && ((c == b'l') && (d == b'l')))
is_json_null _ = false

-- `scanJob`: a payload or a result of null is left out.
abbrev pub from_json : Bytes → Bytes
from_json b = if is_json_null b then [] else b

unfoldable pub scan_job : Row → Job
scan_job r = record {
  id = r.id;
  kind = r.kind;
  queue = r.queue;
  status = r.status;
  priority = r.priority;
  payload = from_json r.payload;
  result = from_json (coalesce r.result []);
  error = coalesce r.error [];
  idempotency_key = coalesce r.idempotency_key "";
  attempt_count = r.attempt_count;
  max_attempts = r.max_attempts;
  lease_epoch = r.lease_epoch;
  lease_expires_at = r.lease_expires_at;
  worker_id = coalesce r.worker_id "";
  created_at = r.created_at;
  scheduled_at = r.scheduled_at;
  started_at = r.started_at;
  completed_at = r.completed_at;
}

unfoldable pub get_job : String → Db → Option Job
unfolding scan_job
get_job id db = elim (find_row id db.jobs) [ none ↦ none | some r ↦ some (scan_job r) ]

abbrev pub has_key : String → String → Row → Bool
has_key kind key r = str_eq r.kind kind && str_eq (coalesce r.idempotency_key "") key

-- type = $1 AND idempotency_key = $2, for a key that is not empty.
unfoldable pub find_key : String → String → List Row → Option Row
find_key kind key [] = none
find_key kind key (r ∷ rs) = if has_key kind key r then some r else find_key kind key rs

pub record CreateResult : Type 0 where
  pub job : Job
  pub created : Bool

pub data StoreError : Type 0 where
  duplicate_id bad_value : StoreError

-- The INSERT is checked by the CHECK constraints, then it meets the partial unique index on
-- (type, idempotency_key), on whose conflict it does nothing, then the primary key.
unfoldable pub create_job : Bool → Job → ℕ → Db → Db × Result StoreError CreateResult
unfolding row_of_job scan_job add_event
create_job lands j now db =
    let insert : Db × Result StoreError CreateResult =
      if is_some (find_row j.id db.jobs) then (db, err duplicate_id) else (
        add_event lands j.id (submitted j.queue j.priority)
            (record db { jobs = row_of_job j now ∷ db.jobs }),
        ok (record { job = j; created = true }),
      ) in
    if not (status_valid j.status && priority_valid j.priority)
    then (db, err bad_value)
    else if str_eq j.idempotency_key ""
    then insert
    else elim (find_key j.kind j.idempotency_key db.jobs) [
      | none ↦ insert
      | some r ↦ (db, ok (record { job = scan_job r; created = false }))
    ]

pub record ReapResult : Type 0 where
  pub new_status : Status
  pub attempt : ℕ
  pub max_attempts : ℕ
  pub prev_worker : String

-- `none` is Reaped = false.
unfoldable pub reap_job : Bool → Bytes → String → ℕ → ℕ → ℕ → Db → Db × Option ReapResult
unfolding add_event
reap_job lands msg id retry_delay grace now db =
    let (db', hit) = touch id (reaps msg retry_delay grace now) db in
    elim hit [
      | none ↦ (db', none)
      | some (r, r') ↦ (
        add_event lands id (lease_expired (coalesce r.worker_id "") r'.status) db',
        some (record {
          new_status = r'.status;
          attempt = r'.attempt_count;
          max_attempts = r'.max_attempts;
          prev_worker = coalesce r.worker_id "";
        }),
      )
    ]

-- UPDATE … WHERE id = ANY($1) AND status = 'RETRYING': the table and the number of rows affected.
unfoldable pub mark_promoted : List String → ℕ → Db → Db × ℕ
mark_promoted [] now db = (db, 0)
mark_promoted (id ∷ ids) now db =
    let (db', hit) = touch id (promotes now) db in
    let (db'', n) = mark_promoted ids now db' in (db'', if is_some hit then n + 1 else n)

pub record Requeueable : Type 0 where
  pub id : String
  pub kind : String
  pub queue : String
  pub priority : Priority
  pub payload : Bytes
  pub attempt : ℕ

unfoldable pub requeueable_of : Row → Requeueable
requeueable_of r = record {
  id = r.id;
  kind = r.kind;
  queue = r.queue;
  priority = r.priority;
  payload = from_json r.payload;
  attempt = r.attempt_count;
}

unfoldable pub requeue_dead_letter : Bool → String → ℕ → Db → Db × Option Requeueable
unfolding requeueable_of add_event
requeue_dead_letter lands id now db =
    let (db', hit) = touch id (requeues now) db in
    elim hit [
      | none ↦ (db', none)
      | some (r, r') ↦ (add_event lands id requeued db', some (requeueable_of r'))
    ]
