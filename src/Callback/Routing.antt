-- ===== src/Callback/Routing.antt =====
-- internal/handlers/httpcallback/httpcallback.go with internal/job/errors.go: what becomes of a
-- delivery, and where one is sent.
use calligraphy.Base.{
  ℕ, ◌≤◌, ◌<◌, ◌≡◌, refl, ap, subst, ◌∷◌, ◌≢◌, ◌⊎◌, inl, inr, ◌↔◌, String, List, [], true, false,
  ◌||◌, none, some, slt, Bool-cases, Result-cases, Result, ok, err, arith,
}
use calligraphy.Job.Errors.{
  Bytes, Err, MaybeErr, classify_error, matches, in_chain, outcome_completed, outcome_failed,
  outcome_retryable, is_cancel_requested, is_interrupted, is_non_retryable, is_deadline_exceeded,
}
use calligraphy.Callback.{
  Callback, Request, Response, Libraries, route_status, request_of, deliver, handle, host_allowed,
  starts_with, http, https, timeout_of, is_nil,
}

abbrev pub error_of : Result Err Response → MaybeErr
error_of (ok resp) = none
error_of (err e) = some e

abbrev pub Final : ℕ → Type 0
Final s = (300 ≤ s) × (s < 500) × (s ≢ 408) × (s ≢ 429)

-- A delivery that the receiver answered completes the job exactly for a status of 200 to 299, fails
-- it for good exactly for one of 300 to 499 other than 408 and 429, and is retried for any other.
pub route_status_lem :
    (lib : Libraries) (resp : Response)
    → let o = classify_error (error_of (route_status lib resp)) none in
      ((o ≡ outcome_completed) ↔ ((200 ≤ resp.status) × (resp.status < 300)))
      × ((o ≡ outcome_failed) ↔ Final resp.status)
      × ((o ≡ outcome_completed) ⊎ ((o ≡ outcome_failed) ⊎ (o ≡ outcome_retryable)))
unfolding route_status classify_error is_cancel_requested is_interrupted is_non_retryable
    is_deadline_exceeded matches in_chain
route_status_lem lib resp = (
  ((λ h. grind (arith, h)), (λ h. grind (arith, h))),
  ((λ h. grind (arith, h)), (λ h. grind (arith, h))),
  grind arith,
)

-- What holds of a request that is sent.
abbrev pub Allowed : Libraries → Callback → Request → Type 0
Allowed lib h req =
    ((starts_with req.url http || starts_with req.url https) ≡ true)
    × ((host : Bytes) × (lib.host_of req.url ≡ ok host)
        × ((h.allowed_hosts ≡ []) ⊎ (host_allowed lib host h.allowed_hosts ≡ true)))
    × (slt 30000000000 req.timeout ≡ false)

timeout_of-le : (ms : ℕ) → slt 30000000000 (timeout_of ms) ≡ false
unfolding timeout_of
timeout_of-le ms = grind arith

nil-cases : (hosts : List Bytes) → (hosts ≡ []) ⊎ (is_nil hosts ≡ false)
nil-cases [] = inl refl
nil-cases (x ∷ xs) = inr refl

deliver-Allowed :
    (lib : Libraries) (h : Callback) (req sent : Request) (r : Result Err Bytes)
    → lib.host_of req.url ≡ r
    → (starts_with req.url http || starts_with req.url https) ≡ true
    → slt 30000000000 req.timeout ≡ false
    → (deliver lib h req r).0 ≡ some sent
    → Allowed lib h sent
deliver-Allowed lib h req sent (err e) q url t s = absurd (grind (arith, s))
deliver-Allowed lib h req sent (ok host) q url t s = elim (nil-cases h.allowed_hosts) [
  | inl any_host ↦
      let no_test : is_nil h.allowed_hosts ≡ true = ap is_nil any_host in
      let same : req ≡ sent = grind (arith, s, no_test) in
      subst (Allowed lib h) same (url, (host, q, inl any_host), t)
  | inr listed ↦ elim (Bool-cases (host_allowed lib host h.allowed_hosts)) [
    | inr refused ↦ absurd (grind (arith, s, listed, refused))
    | inl allowed ↦
        let same : req ≡ sent = grind (arith, s, listed, allowed) in
        subst (Allowed lib h) same (url, (host, q, inr allowed), t)
  ]
]

-- A callback is sent only to an http or https URL, only to a host of the list where there is one,
-- and with a timeout of at most 30 seconds.
pub handle-Allowed :
    (lib : Libraries) (h : Callback) (job_id : String) (attempt now : ℕ) (payload : Bytes)
    (sent : Request)
    → (handle lib h job_id attempt now payload).0 ≡ some sent
    → Allowed lib h sent
unfolding handle request_of
handle-Allowed lib h job_id attempt now payload sent s =
    elim (Result-cases (lib.unmarshal payload)) [
      | inr (e, q) ↦ absurd (grind (arith, s, q))
      | inl (p, q) ↦ elim (Bool-cases (starts_with p.url http || starts_with p.url https)) [
        | inr bad ↦ absurd (grind (arith, s, q, bad))
        | inl good ↦
            deliver-Allowed lib h (request_of lib h job_id attempt now p) sent (lib.host_of p.url)
              refl good (timeout_of-le p.timeout_ms) (grind (arith, s, q, good))
      ]
    ]
