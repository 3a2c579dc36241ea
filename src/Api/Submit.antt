-- ===== src/Api/Submit.antt =====
-- internal/api/server.go: handleSubmit. Times are nanoseconds, 0 is the zero time, and
-- `DelaySeconds` and the Duration made from it are 64-bit patterns.
use calligraphy.Base.{
  ℕ, ◌+◌, ◌-◌, ◌*◌, String, List, [], ◌∷◌, Bool, true, false, not, if◌then◌else◌, ◌==◌, ltb, slt,
  i64, any, length, str_eq, Result, ok, err, ◌>>=◌, ◌>>◌, refuse_if, under, Unavailable,
}
use calligraphy.Job.Errors.{Bytes}
use calligraphy.Job.Status.{Priority}
use calligraphy.Job.Record.{Job, Envelope, Options, new, new_envelope, AdmissionError}
use calligraphy.Store.Db.{Db, set_enqueued}
use calligraphy.Store.Submit.{create_job, CreateResult, StoreError}
use calligraphy.Api.Http.{Reply, job_body, write_err, Sent, enqueued, Outcome, Answers}

pub record Server : Type 0 where
  pub known_types : List String
  pub max_payload : ℕ

pub record SubmitRequest : Type 0 where
  pub kind : String
  pub payload : Bytes
  pub queue : String
  pub priority : Priority
  pub max_attempts : ℕ
  pub idempotency_key : String
  pub delay_seconds : ℕ
  pub scheduled_at : ℕ

-- What `json.Decoder` makes of the body, which MaxBytesReader cuts off.
pub data Decoded : Type 0 where
  too_big malformed : Decoded
  decoded : SubmitRequest → Decoded

-- `time.Time.Add` of a 64-bit Duration.
abbrev pub add_duration : ℕ → ℕ → ℕ
add_duration t d = if slt d 0 then t - (18446744073709551616 - d) else t + d

abbrev pub options_at : SubmitRequest → ℕ → Options
options_at r at = record {
  queue = r.queue;
  priority = r.priority;
  max_attempts = r.max_attempts;
  idempotency_key = r.idempotency_key;
  scheduled_at = at;
}

-- The `switch` on the schedule.
unfoldable pub options_of : SubmitRequest → ℕ → Result Reply Options
options_of r now =
    if slt 0 r.delay_seconds
    then if not (r.scheduled_at == 0)
      then err (write_err 400 "invalid_schedule")
      else ok (options_at r (add_duration now (i64 (r.delay_seconds * 1000000000))))
    else ok (options_at r r.scheduled_at)

abbrev pub or_invalid : Result AdmissionError Job → Result Reply Job
or_invalid (ok j) = ok j
or_invalid (err e) = err (write_err 400 "invalid_job")

-- Everything before the first call of the store.
unfoldable pub admit : Server → (Bytes → Bool) → String → ℕ → Decoded → Result Reply Job
unfolding options_of
admit s json_valid id now too_big = err (write_err 413 "payload_too_large")
admit s json_valid id now malformed = err (write_err 400 "invalid_json")
admit s json_valid id now (decoded r) = do
  refuse_if (not (any (str_eq r.kind) s.known_types)) (write_err 400 "unknown_type")
  refuse_if (ltb s.max_payload (length r.payload)) (write_err 413 "payload_too_large")
  opts ← options_of r now
  or_invalid (new json_valid id r.kind r.payload opts now)

abbrev pub outcome : Db → Reply → List Sent → Outcome
outcome db reply sent = record { db = db; reply = reply; sent = sent }

-- `SetEnqueued`, if the queue took the envelope; whether it succeeds is only logged.
unfoldable pub mark : Answers → Envelope → ℕ → Db → Result Unavailable String → Db
mark a env now db (err e) = db
mark a env now db (ok entry) = (under a.to_mark db (set_enqueued env.id entry now db, true)).0

-- The handoff: the job stands, whatever the queue answers. Until the mark others may have the job.
unfoldable pub hand_off : Answers → ℕ → Job → Db → Outcome
unfolding mark new_envelope
hand_off a now j db =
    let env = new_envelope j now in
    let answer = a.enqueue env j.scheduled_at in
    outcome (mark a env now (a.meanwhile db) answer) (record { code = 201; body = job_body j })
      (enqueued env j.scheduled_at answer ∷ [])

-- An idempotent replay answers with the original job.
unfoldable pub settle_created : Answers → ℕ → Job → Db → Job → Bool → Outcome
unfolding hand_off
settle_created a now j db existing true = hand_off a now j db
settle_created a now j db existing false =
    outcome db (record { code = 200; body = job_body existing }) []

unfoldable pub after_create :
    Answers → ℕ → Job → Db × Result Unavailable (Result StoreError CreateResult) → Outcome
unfolding settle_created
after_create a now j (db, err e) = outcome db (write_err 503 "storage_unavailable") []
after_create a now j (db, ok (err e)) = outcome db (write_err 503 "storage_unavailable") []
after_create a now j (db, ok (ok c)) = settle_created a now j db c.job c.created

unfoldable pub after_admit : Answers → ℕ → Db → Result Reply Job → Outcome
unfolding after_create
after_admit a now db (err reply) = outcome db reply []
after_admit a now db (ok j) =
    after_create a now j (under a.to_write db (create_job a.to_event j now db))

unfoldable pub handle_submit :
    Server → Answers → (Bytes → Bool) → String → ℕ → Decoded → Db → Outcome
unfolding admit after_admit
handle_submit s a json_valid id now request db =
    after_admit a now db (admit s json_valid id now request)
