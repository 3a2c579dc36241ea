-- ===== src/Callback.antt =====
-- internal/handlers/httpcallback/httpcallback.go: the handler of callbacks. json.Unmarshal, the
-- parsing of the URL, EqualFold, the signature, the HTTP client and the texts of its errors are
-- arguments. Durations and `TimeoutMs` are 64-bit patterns.
pub mod Routing
mod Samples
use calligraphy.Base.{
  ℕ, ◌*◌, String, List, [], ◌∷◌, Bool, true, false, not, ◌&&◌, ◌||◌, Option, none, some,
  if◌then◌else◌, ltb, leb, ◌==◌, slt, i64, any, take, length, same_bytes, Result, ok, err,
}
use calligraphy.Job.Errors.{Bytes, Err, plain, wrapped, non_retryable}

pub record Payload : Type 0 where
  pub url : Bytes
  pub body : Bytes
  pub event : Bytes
  pub timeout_ms : ℕ

pub record Callback : Type 0 where
  pub secret : Bytes
  pub allowed_hosts : List Bytes

-- The request as it is sent; the stamp is the time and the signature.
pub record Request : Type 0 where
  pub url : Bytes
  pub body : Bytes
  pub event : Bytes
  pub job_id : String
  pub attempt : ℕ
  pub stamp : Option (ℕ × Bytes)
  pub timeout : ℕ

pub record Response : Type 0 where
  pub status : ℕ
  pub snippet : Bytes

-- What the handler says of an error, with what it prints.
pub data Complaint : Type 0 where
  bad_payload building delivering : Complaint
  bad_url bad_host : Bytes → Complaint
  redirected try_later : ℕ → Complaint
  rejected receiver_error : ℕ → Bytes → Complaint

pub record Libraries : Type 0 where
  pub unmarshal : Bytes → Result Err Payload
  pub host_of : Bytes → Result Err Bytes  -- NewRequest, then URL.Hostname
  pub equal_fold : Bytes → Bytes → Bool
  pub sign : Bytes → ℕ → Bytes → Bytes
  pub send : Request → Result Err Response
  pub text : Complaint → Bytes

abbrev pub starts_with : Bytes → Bytes → Bool
starts_with s prefix = same_bytes (take (length prefix) s) prefix

abbrev pub http : Bytes
http = b'h' ∷ b't' ∷ b't' ∷ b'p' ∷ b':' ∷ b'/' ∷ b'/' ∷ []

abbrev pub https : Bytes
https = b'h' ∷ b't' ∷ b't' ∷ b'p' ∷ b's' ∷ b':' ∷ b'/' ∷ b'/' ∷ []

unfoldable pub host_allowed : Libraries → Bytes → List Bytes → Bool
host_allowed lib host allowed = any (lib.equal_fold host) allowed

unfoldable pub timeout_of : ℕ → ℕ
timeout_of ms =
    let timeout = if slt 0 ms then i64 (ms * 1000000) else 10000000000 in
    if slt 30000000000 timeout then 30000000000 else timeout

abbrev pub is_empty : Bytes → Bool
is_empty [] = true
is_empty (c ∷ cs) = false

-- The `switch` on the status.
unfoldable pub route_status : Libraries → Response → Result Err Response
route_status lib resp =
    if leb 200 resp.status && ltb resp.status 300
    then ok resp
    else if leb 300 resp.status && ltb resp.status 400
    then err (non_retryable (plain (lib.text (redirected resp.status))))
    else if (resp.status == 408) || (resp.status == 429)
    then err (plain (lib.text (try_later resp.status)))
    else if leb 400 resp.status && ltb resp.status 500
    then err (non_retryable (plain (lib.text (rejected resp.status resp.snippet))))
    else err (plain (lib.text (receiver_error resp.status resp.snippet)))

abbrev pub after_send : Libraries → Result Err Response → Result Err Response
after_send lib (err e) = err (wrapped (lib.text delivering) e)
after_send lib (ok resp) = route_status lib resp

unfoldable pub request_of : Libraries → Callback → String → ℕ → ℕ → Payload → Request
unfolding timeout_of
request_of lib h job_id attempt now p = record {
  url = p.url;
  body = p.body;
  event = p.event;
  job_id = job_id;
  attempt = attempt;
  stamp = if is_empty h.secret then none else some (now, lib.sign h.secret now p.body);
  timeout = timeout_of p.timeout_ms;
}

abbrev pub is_nil : List Bytes → Bool
is_nil [] = true
is_nil (x ∷ xs) = false

-- What is sent, if anything is, and what the handler returns.
abbrev pub deliver :
    Libraries → Callback → Request → Result Err Bytes → Option Request × Result Err Response
deliver lib h req (err e) = (none, err (non_retryable (wrapped (lib.text building) e)))
deliver lib h req (ok host) =
    if not (is_nil h.allowed_hosts) && not (host_allowed lib host h.allowed_hosts)
    then (none, err (non_retryable (plain (lib.text (bad_host host)))))
    else (some req, after_send lib (lib.send req))

abbrev pub after_parse :
    Libraries
    → Callback
    → String
    → ℕ
    → ℕ
    → Result Err Payload
    → Option Request × Result Err Response
after_parse lib h job_id attempt now (err e) =
    (none, err (non_retryable (wrapped (lib.text bad_payload) e)))
after_parse lib h job_id attempt now (ok p) =
    if not (starts_with p.url http) && not (starts_with p.url https)
    then (none, err (non_retryable (plain (lib.text (bad_url p.url)))))
    else deliver lib h (request_of lib h job_id attempt now p) (lib.host_of p.url)

unfoldable pub handle :
    Libraries → Callback → String → ℕ → ℕ → Bytes → Option Request × Result Err Response
unfolding host_allowed route_status request_of
handle lib h job_id attempt now payload =
    after_parse lib h job_id attempt now (lib.unmarshal payload)
