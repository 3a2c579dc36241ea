-- ===== src/Job/Record.antt =====
-- internal/job/job.go: the record of a job, its admission by `New`, and the envelope.
-- A Go int is a 64-bit pattern. A time is a number of ticks, 0 the zero time. `json.Valid`, the
-- JSON codec of an envelope and the fresh UUID are arguments.
use Prim.Native.Char.{code}
use calligraphy.Base.{
  ℕ, String, len, List, [], ◌∷◌, Bool, false, not, ◌&&◌, ◌||◌, Option, none, some, if◌then◌else◌,
  ltb, leb, ◌==◌, slt, str_eq, length, all, Result, ok, err, ◌>>◌, refuse_if,
}
use calligraphy.Job.Errors.{Bytes}
use calligraphy.Job.Status.{
  Status, pending, Priority, high, default, low, other_priority, priority_valid,
}

abbrev pub codes : String → List ℕ
codes String.[] = []
codes (String.◌∷◌ c s) = code c ∷ codes s

abbrev pub is_alnum : ℕ → Bool
is_alnum c =
    (leb b'a' c && leb c b'z') || ((leb b'A' c && leb c b'Z') || (leb b'0' c && leb c b'9'))

abbrev pub is_name_char : ℕ → Bool
is_name_char c = is_alnum c || (c == b'_' || (c == b'.' || c == b'-'))

-- ^[a-zA-Z0-9][a-zA-Z0-9_.-]{0,99}$
unfoldable pub name_matches : List ℕ → Bool
name_matches [] = false
name_matches (c ∷ cs) = is_alnum c && (all is_name_char cs && leb (length cs) 99)

unfoldable pub valid_name : String → Bool
unfolding name_matches
valid_name s = name_matches (codes s)

abbrev pub max_payload_bytes : ℕ
max_payload_bytes = 1048576

abbrev pub max_attempts_ceiling : ℕ
max_attempts_ceiling = 25

abbrev pub default_max_attempts : ℕ
default_max_attempts = 5

abbrev pub default_queue : String
default_queue = "default"

abbrev pub max_key_bytes : ℕ
max_key_bytes = 256

pub record Job : Type 0 where
  pub id : String
  pub kind : String  -- the field Type
  pub queue : String
  pub status : Status
  pub priority : Priority
  pub payload : Bytes
  pub result : Bytes
  pub error : Bytes
  pub idempotency_key : String
  pub attempt_count : ℕ
  pub max_attempts : ℕ
  pub lease_epoch : ℕ
  pub lease_expires_at : Option ℕ
  pub worker_id : String
  pub created_at : ℕ
  pub scheduled_at : ℕ
  pub started_at : Option ℕ
  pub completed_at : Option ℕ

pub record Options : Type 0 where
  pub queue : String
  pub priority : Priority
  pub max_attempts : ℕ
  pub idempotency_key : String
  pub scheduled_at : ℕ

pub data AdmissionError : Type 0 where
  invalid_type invalid_queue : String → AdmissionError
  payload_too_large : ℕ → AdmissionError
  payload_not_json key_too_long : AdmissionError
  invalid_priority : Priority → AdmissionError
  attempts_out_of_range : ℕ → AdmissionError

abbrev pub or_default_queue : String → String
or_default_queue q = if str_eq q "" then default_queue else q

abbrev pub or_default_priority : Priority → Priority
or_default_priority (other_priority s) = if str_eq s "" then default else other_priority s
or_default_priority high = high
or_default_priority default = default
or_default_priority low = low

abbrev pub or_default_attempts : ℕ → ℕ
or_default_attempts n = if n == 0 then default_max_attempts else n

abbrev pub out_of_range : ℕ → Bool
out_of_range n = slt n 1 || slt max_attempts_ceiling n

abbrev pub or_now : ℕ → ℕ → ℕ
or_now at now = if at == 0 then now else at

-- The record that `New` returns.
unfoldable pub fresh_job : String → String → Bytes → Options → ℕ → Job
fresh_job id kind payload opts now = record {
  id = id;
  kind = kind;
  queue = or_default_queue opts.queue;
  status = pending;
  priority = or_default_priority opts.priority;
  payload = payload;
  result = [];
  error = [];
  idempotency_key = opts.idempotency_key;
  attempt_count = 0;
  max_attempts = or_default_attempts opts.max_attempts;
  lease_epoch = 0;
  lease_expires_at = none;
  worker_id = "";
  created_at = now;
  scheduled_at = or_now opts.scheduled_at now;
  started_at = none;
  completed_at = none;
}

unfoldable pub new :
    (Bytes → Bool) → String → String → Bytes → Options → ℕ → Result AdmissionError Job
unfolding fresh_job
new json_valid id kind payload opts now = do
  refuse_if (not (valid_name kind)) (invalid_type kind)
  refuse_if (ltb max_payload_bytes (length payload)) (payload_too_large (length payload))
  refuse_if (ltb 0 (length payload) && not (json_valid payload)) payload_not_json
  refuse_if (not (valid_name (or_default_queue opts.queue)))
      (invalid_queue (or_default_queue opts.queue))
  refuse_if (not (priority_valid (or_default_priority opts.priority)))
      (invalid_priority (or_default_priority opts.priority))
  refuse_if (out_of_range (or_default_attempts opts.max_attempts))
      (attempts_out_of_range (or_default_attempts opts.max_attempts))
  refuse_if (ltb max_key_bytes (len opts.idempotency_key)) key_too_long
  ok (fresh_job id kind payload opts now)

pub record Envelope : Type 0 where
  pub id : String
  pub kind : String
  pub queue : String
  pub priority : Priority
  pub attempt : ℕ
  pub payload : Bytes
  pub enqueued_at : ℕ

unfoldable pub new_envelope : Job → ℕ → Envelope
new_envelope j now = record {
  id = j.id;
  kind = j.kind;
  queue = j.queue;
  priority = j.priority;
  attempt = 1;
  payload = j.payload;
  enqueued_at = now;
}

pub data EnvelopeError : Type 0 where
  undecodable missing_id_or_type : EnvelopeError

-- `DecodeEnvelope`, over `json.Unmarshal` into an Envelope.
unfoldable pub decode_envelope : (Bytes → Option Envelope) → Bytes → Result EnvelopeError Envelope
decode_envelope unmarshal s = elim (unmarshal s) [
  | none ↦ err undecodable
  | some e ↦ if str_eq e.id "" || str_eq e.kind "" then err missing_id_or_type else ok e
]
