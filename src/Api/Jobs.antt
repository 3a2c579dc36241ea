-- ===== src/Api/Jobs.antt =====
-- internal/api/server.go: the handlers of one job: get, result, attempts, cancel, and the requeue
-- of a dead letter.
use calligraphy.Base.{
  ℕ, String, [], ◌∷◌, Bool, true, false, Option, none, some, if◌then◌else◌, Result, ok, err, under,
  Unavailable,
}
use calligraphy.Job.Status.{terminal}
use calligraphy.Job.Record.{Job}
use calligraphy.Store.Row.{is_running}
use calligraphy.Store.Db.{Db, cancel_job}
use calligraphy.Store.Submit.{get_job, Requeueable, requeue_dead_letter}
use calligraphy.Store.Queries.{list_attempts}
use calligraphy.Recovery.Duties.{requeue_envelope}
use calligraphy.Api.Http.{
  Reply, job_body, result_body, attempts_body, cancellation, requeued_body, write_err, enqueued,
  flagged, Outcome, Answers,
}
use calligraphy.Api.Submit.{outcome, mark}

abbrev pub or_not_found : Option Job → Result Reply Job
or_not_found none = err (write_err 404 "not_found")
or_not_found (some j) = ok j

unfoldable pub load_job : Answers → String → Db → Result Reply Job
unfolding get_job
load_job a id db =
    if a.to_read then or_not_found (get_job id db) else err (write_err 503 "storage_unavailable")

unfoldable pub handle_get_job : Answers → String → Db → Reply
unfolding load_job
handle_get_job a id db = elim (load_job a id db) [
  | err reply ↦ reply
  | ok j ↦ record { code = 200; body = job_body j }
]

-- 200 for a job that is finished, 202 for one that is not.
unfoldable pub handle_get_result : Answers → String → Db → Reply
unfolding load_job
handle_get_result a id db = elim (load_job a id db) [
  | err reply ↦ reply
  | ok j ↦ record {
    code = if terminal j.status then 200 else 202;
    body = result_body j.id j.status j.result j.error;
  }
]

-- `listed` says whether the second query is answered.
unfoldable pub handle_get_attempts : Answers → Bool → String → Db → Reply
unfolding load_job list_attempts
handle_get_attempts a listed id db = elim (load_job a id db) [
  | err reply ↦ reply
  | ok j ↦
      if listed
      then record { code = 200; body = attempts_body j.id (list_attempts j.id db.attempts) }
      else write_err 503 "storage_unavailable"
]

-- A RUNNING job: its worker sees the flag at its next heartbeat.
unfoldable pub request_cancel : Db → String → Result Unavailable (Unit {0}) → Outcome
request_cancel db id (err e) =
    outcome db (write_err 503 "queue_unavailable") (flagged id (err e) ∷ [])
request_cancel db id (ok _) =
    outcome db (record { code = 202; body = cancellation id "requested" }) (flagged id (ok tt) ∷ [])

-- A job that waits: cancelled in the store, and flagged for stray deliveries.
unfoldable pub after_cancel : Answers → String → Db × Result Unavailable Bool → Outcome
after_cancel a id (db, err e) = outcome db (write_err 503 "storage_unavailable") []
after_cancel a id (db, ok false) = outcome db (write_err 409 "race_lost") []
after_cancel a id (db, ok true) =
    outcome db (record { code = 200; body = cancellation id "done" }) (flagged id (a.flag id) ∷ [])

unfoldable pub cancel_loaded : Answers → ℕ → Db → Result Reply Job → Outcome
unfolding request_cancel after_cancel
cancel_loaded a now db (err reply) = outcome db reply []
cancel_loaded a now db (ok j) =
    if terminal j.status
    then outcome db (write_err 409 "already_terminal") []
    else if is_running j.status
    then request_cancel db j.id (a.flag j.id)
    else after_cancel a j.id (under a.to_write db (cancel_job a.to_event j.id now db))

unfoldable pub handle_cancel : Answers → String → ℕ → Db → Outcome
unfolding cancel_loaded load_job
handle_cancel a id now db = cancel_loaded a now (a.meanwhile db) (load_job a id db)

unfoldable pub after_requeue :
    Answers → String → ℕ → Db × Result Unavailable (Option Requeueable) → Outcome
unfolding mark requeue_envelope
after_requeue a id now (db, err e) = outcome db (write_err 503 "storage_unavailable") []
after_requeue a id now (db, ok none) = outcome db (write_err 409 "not_dead_lettered") []
after_requeue a id now (db, ok (some r)) =
    let env = requeue_envelope r 1 now in
    let answer = a.enqueue env 0 in
    outcome (mark a env now (a.meanwhile db) answer)
      (record { code = 200; body = requeued_body id }) (enqueued env 0 answer ∷ [])

unfoldable pub handle_requeue_dlq : Answers → String → ℕ → Db → Outcome
unfolding after_requeue
handle_requeue_dlq a id now db =
    after_requeue a id now (under a.to_write db (requeue_dead_letter a.to_event id now db))
