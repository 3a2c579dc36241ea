-- ===== src/Api/Http.antt =====
-- internal/api/server.go: replies, and what the handlers share. A reply is its status code with the
-- value that goes into the body; the messages are left out.
use calligraphy.Base.{ℕ, String, List, Bool, Result, Unavailable, Fate}
use calligraphy.Job.Errors.{Bytes}
use calligraphy.Job.Status.{Status}
use calligraphy.Job.Record.{Job, Envelope}
use calligraphy.Store.Db.{Db, Attempt, WorkerRow}
use calligraphy.Store.Reports.{Summary}
use calligraphy.Queue.Depths.{Depths}
use calligraphy.Control.Hub.{WorkerView}

pub data Body : Type 0 where
  failure : String → Body  -- writeErr, with its error code
  job_body : Job → Body
  result_body : String → Status → Bytes → Bytes → Body
  attempts_body : String → List Attempt → Body
  cancellation : String → String → Body
  requeued_body : String → Body
  depths_body : Depths → Body
  summary_body : Summary → Body
  jobs_body : List Job → Body
  workers_body : List WorkerRow → Body
  views_body : List WorkerView → Body
  sent_body : String → Body
  concurrency_body : String → ℕ → Body
  meta_body : Body
  status_body : String → Body

pub record Reply : Type 0 where
  pub code : ℕ
  pub body : Body

abbrev pub write_err : ℕ → String → Reply
write_err code name = record { code = code; body = failure name }

-- What a handler sends to the queue: an envelope with the time it is for, or a cancel flag.
pub data Sent : Type 0 where
  enqueued : Envelope → ℕ → Result Unavailable String → Sent
  flagged : String → Result Unavailable (Unit {0}) → Sent

pub record Outcome : Type 0 where
  pub db : Db
  pub reply : Reply
  pub sent : List Sent

-- What Postgres and Redis answer to the calls of one request. `meanwhile` is what others do to the
-- tables after the first call of Postgres.
pub record Answers : Type 0 where
  pub to_read : Bool
  pub to_write : Fate
  pub to_mark : Fate
  pub to_event : Bool
  pub meanwhile : Db → Db
  pub enqueue : Envelope → ℕ → Result Unavailable String
  pub flag : String → Result Unavailable (Unit {0})
