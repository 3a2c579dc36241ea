-- ===== src/Store/Db.antt =====
-- internal/store/store.go and migrations/0001_init.sql: the tables, and the methods of `Store` as
-- functions on them. `now` is the statement's now(); `lands` says whether the best-effort insert
-- of an event succeeded. A failing connection is modelled where it is handled, by the callers.
use calligraphy.Base.{
  ℕ, String, List, [], ◌∷◌, Bool, true, false, ◌&&◌, Option, none, some, if◌then◌else◌, ◌==◌,
  str_eq, is_some, any,
}
use calligraphy.Job.Errors.{Bytes, Outcome}
use calligraphy.Job.Status.{Status, Priority}
use calligraphy.Store.Row.{
  Row, RowOp, claims, extends, completes, fails, dead_letters, cancels_running, retries, cancels,
  sets_enqueued, apply,
}

-- A row of job_attempts (`store.Attempt`).
pub record Attempt : Type 0 where
  pub job_id : String
  pub attempt : ℕ
  pub worker_id : String
  pub started_at : ℕ
  pub finished_at : ℕ
  pub outcome : Outcome
  pub error : Bytes

-- What an event says; its JSON detail is the constructor's arguments.
pub data Happening : Type 0 where
  submitted : String → Priority → Happening
  was_dead_lettered : Bytes → Happening
  was_cancelled : Happening  -- its detail is NULL
  was_cancelled_null : Happening  -- its detail is the JSON value null
  retry_scheduled : ℕ → Bytes → Happening
  lease_expired : String → Status → Happening
  requeued : Happening
  requeued_because : String → Happening

pub record Event : Type 0 where
  pub job_id : String
  pub event : Happening

pub record WorkerRow : Type 0 where
  pub id : String
  pub hostname : String
  pub pid : ℕ
  pub concurrency : ℕ
  pub target_concurrency : ℕ
  pub active_jobs : ℕ
  pub processed : ℕ
  pub state : String
  pub started_at : ℕ
  pub last_heartbeat_at : ℕ

pub record Db : Type 0 where
  pub jobs : List Row
  pub attempts : List Attempt
  pub events : List Event
  pub workers : List WorkerRow

-- SELECT … WHERE id = $1; the id is the primary key.
unfoldable pub find_row : String → List Row → Option Row
find_row id [] = none
find_row id (r ∷ rs) = if str_eq r.id id then some r else find_row id rs

-- UPDATE … WHERE id = $1 AND …: every row that matches is changed; the second part is a changed row
-- before and after, if there is one.
unfoldable pub update_row : String → (Row → Option Row) → List Row → List Row × Option (Row × Row)
update_row id f [] = ([], none)
update_row id f (r ∷ rs) =
    let (rest, hit) = update_row id f rs in
    if str_eq r.id id
    then elim (f r) [ none ↦ (r ∷ rest, hit) | some r' ↦ (r' ∷ rest, some (r, r')) ]
    else (r ∷ rest, hit)

unfoldable pub touch : String → RowOp → Db → Db × Option (Row × Row)
touch id op db =
    let (rows, hit) = update_row id (apply op) db.jobs in (record db { jobs = rows }, hit)

unfoldable pub add_event : Bool → String → Happening → Db → Db
add_event lands id what db =
    if lands then record db { events = record { job_id = id; event = what } ∷ db.events } else db

-- `if tag.RowsAffected() == 1 { s.addEvent(…); return true }`.
unfoldable pub with_event : Bool → String → Happening → Db × Option (Row × Row) → Db × Bool
unfolding add_event
with_event lands id what (db, none) = (db, false)
with_event lands id what (db, some hit) = (add_event lands id what db, true)

abbrev pub applied : Db × Option (Row × Row) → Db × Bool
applied (db, hit) = (db, is_some hit)

-- "null" for an empty JSON value.
abbrev pub json_null : Bytes
json_null = b'n' ∷ b'u' ∷ b'l' ∷ b'l' ∷ []

abbrev pub or_null : Bytes → Bytes
or_null [] = json_null
or_null (c ∷ cs) = c ∷ cs

-- What `Claim` hands to the runner.
pub record Claim : Type 0 where
  pub epoch : ℕ
  pub attempt : ℕ
  pub max_attempts : ℕ
  pub started_at : ℕ

abbrev pub claim_of : ℕ → Option (Row × Row) → Option Claim
claim_of now none = none
claim_of now (some (r, r')) = some (record {
  epoch = r'.lease_epoch;
  attempt = r'.attempt_count;
  max_attempts = r'.max_attempts;
  started_at = now;
})

unfoldable pub claim_job : String → String → ℕ → ℕ → Db → Db × Option Claim
claim_job id worker ttl now db =
    let (db', hit) = touch id (claims worker ttl now) db in (db', claim_of now hit)

unfoldable pub extend_lease : String → ℕ → ℕ → ℕ → Db → Db × Bool
extend_lease id epoch ttl now db = applied (touch id (extends epoch ttl now) db)

unfoldable pub complete_job : String → ℕ → Bytes → ℕ → Db → Db × Bool
complete_job id epoch result now db = applied (touch id (completes epoch (or_null result) now) db)

unfoldable pub fail_job : String → ℕ → Bytes → ℕ → Db → Db × Bool
fail_job id epoch msg now db = applied (touch id (fails epoch msg now) db)

unfoldable pub dead_letter_job : Bool → String → ℕ → Bytes → ℕ → Db → Db × Bool
dead_letter_job lands id epoch msg now db =
    with_event lands id (was_dead_lettered msg) (touch id (dead_letters epoch msg now) db)

unfoldable pub cancel_running : Bool → String → ℕ → ℕ → Db → Db × Bool
cancel_running lands id epoch now db =
    with_event lands id was_cancelled (touch id (cancels_running epoch now) db)

unfoldable pub schedule_retry : Bool → String → ℕ → Bytes → ℕ → ℕ → Db → Db × Bool
schedule_retry lands id epoch msg next_at now db =
    with_event lands id (retry_scheduled next_at msg) (touch id (retries epoch msg next_at now) db)

unfoldable pub cancel_job : Bool → String → ℕ → Db → Db × Bool
cancel_job lands id now db = with_event lands id was_cancelled (touch id (cancels now) db)

unfoldable pub set_enqueued : String → String → ℕ → Db → Db
set_enqueued id stream now db = (touch id (sets_enqueued stream now) db).0

-- INSERT INTO job_attempts … ON CONFLICT (job_id, attempt) DO NOTHING.
abbrev pub same_attempt : Attempt → Attempt → Bool
same_attempt a b = str_eq a.job_id b.job_id && (a.attempt == b.attempt)

unfoldable pub insert_attempt : Attempt → List Attempt → List Attempt
insert_attempt a kept = if any (same_attempt a) kept then kept else a ∷ kept

unfoldable pub record_attempt : Attempt → Db → Db
record_attempt a db = record db { attempts = insert_attempt a db.attempts }
