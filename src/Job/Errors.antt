-- ===== src/Job/Errors.antt =====
-- internal/job/errors.go, with the errors of internal/worker/runner.go that wrap others.
-- A Go error is its chain of wrappers; `nil` is `none`. A text is the list of its bytes.
use calligraphy.Base.{
  ℕ, zero, suc, ◌+◌, ◌-◌, ◌/◌, ◌%◌, List, [], ◌∷◌, ◌++◌, Bool, true, false, ◌||◌, Option, none,
  some, if◌then◌else◌, ltb, length, take,
}

abbrev pub Bytes : Type 0
Bytes = List ℕ

-- The sentinels are compared by identity, so each is a constructor of its own.
pub data Err : Type 0 where
  plain : Bytes → Err  -- errors.New, and any error that wraps nothing
  cancel_requested : Err  -- job.ErrCancelRequested
  deadline_exceeded : Err  -- context.DeadlineExceeded
  context_canceled : Err  -- context.Canceled
  lease_lost : Err  -- worker.errLeaseLost
  wrapped : Bytes → Err → Err  -- fmt.Errorf("…: %w", err)
  non_retryable : Err → Err
  interrupted : Err → Err
  panicked : Err → Err  -- worker.panicError

abbrev pub MaybeErr : Type 0
MaybeErr = Option Err

unfoldable pub wrap_non_retryable : MaybeErr → MaybeErr
wrap_non_retryable none = none
wrap_non_retryable (some e) = some (non_retryable e)

unfoldable pub wrap_interrupted : MaybeErr → MaybeErr
wrap_interrupted none = none
wrap_interrupted (some e) = some (interrupted e)

-- `errors.As` and `errors.Is` look at the error itself and then at what it wraps.
unfoldable pub in_chain : (Err → Bool) → Err → Bool
in_chain p (plain s) = p (plain s)
in_chain p cancel_requested = p cancel_requested
in_chain p deadline_exceeded = p deadline_exceeded
in_chain p context_canceled = p context_canceled
in_chain p lease_lost = p lease_lost
in_chain p (wrapped s e) = p (wrapped s e) || in_chain p e
in_chain p (non_retryable e) = p (non_retryable e) || in_chain p e
in_chain p (interrupted e) = p (interrupted e) || in_chain p e
in_chain p (panicked e) = p (panicked e) || in_chain p e

unfoldable pub matches : (Err → Bool) → MaybeErr → Bool
unfolding in_chain
matches p none = false
matches p (some e) = in_chain p e

abbrev pub tags_non_retryable : Err → Bool
tags_non_retryable (non_retryable e) = true
tags_non_retryable _ = false

abbrev pub tags_interrupted : Err → Bool
tags_interrupted (interrupted e) = true
tags_interrupted _ = false

abbrev pub tags_panicked : Err → Bool
tags_panicked (panicked e) = true
tags_panicked _ = false

abbrev pub tags_cancel_requested : Err → Bool
tags_cancel_requested cancel_requested = true
tags_cancel_requested _ = false

abbrev pub tags_deadline : Err → Bool
tags_deadline deadline_exceeded = true
tags_deadline _ = false

abbrev pub tags_lease_lost : Err → Bool
tags_lease_lost lease_lost = true
tags_lease_lost _ = false

unfoldable pub is_non_retryable : MaybeErr → Bool
is_non_retryable = matches tags_non_retryable

unfoldable pub is_interrupted : MaybeErr → Bool
is_interrupted = matches tags_interrupted

unfoldable pub is_panic : MaybeErr → Bool
is_panic = matches tags_panicked

unfoldable pub is_cancel_requested : MaybeErr → Bool
is_cancel_requested = matches tags_cancel_requested

unfoldable pub is_lease_lost : MaybeErr → Bool
is_lease_lost = matches tags_lease_lost

unfoldable pub is_deadline_exceeded : MaybeErr → Bool
is_deadline_exceeded = matches tags_deadline

-- NonRetryable(errors.New("job: no handler registered for this job type"))
unfoldable pub err_no_handler : Bytes → MaybeErr
unfolding wrap_non_retryable
err_no_handler text = wrap_non_retryable (some (plain text))

pub data Outcome : Type 0 where
  outcome_completed outcome_failed outcome_retryable outcome_cancelled : Outcome
  outcome_interrupted outcome_lease_expired outcome_panicked : Outcome

unfoldable pub classify_error : MaybeErr → MaybeErr → Outcome
classify_error none cause = outcome_completed
classify_error (some e) cause =
    if is_cancel_requested cause || is_cancel_requested (some e)
    then outcome_cancelled
    else if is_interrupted (some e) || is_interrupted cause
    then outcome_interrupted
    else if is_non_retryable (some e)
    then outcome_failed
    else if is_deadline_exceeded (some e)
    then outcome_retryable
    else outcome_retryable

-- `Error()`: a marker prints what it wraps, and `%w` prints behind its prefix. The texts of the
-- errors of the standard library and of the sentinels are given by `text`.
module _ (text : Err → Bytes) where
  unfoldable pub error_text : Err → Bytes
  error_text (plain s) = s
  error_text (wrapped s e) = s ++ error_text e
  error_text (non_retryable e) = error_text e
  error_text (interrupted e) = error_text e
  error_text (panicked e) = error_text e
  error_text cancel_requested = text cancel_requested
  error_text deadline_exceeded = text deadline_exceeded
  error_text context_canceled = text context_canceled
  error_text lease_lost = text lease_lost

-- `%d` of a length: the decimal digits of a number, with fuel for their count.
unfoldable pub decimal : ℕ → ℕ → Bytes
decimal zero n = []
decimal (suc f) n =
    let rest = decimal f (n / 10) in
    if ltb n 10 then (b'0' + n) ∷ [] else rest ++ (b'0' + n % 10) ∷ []

abbrev pub max_error_bytes : ℕ
max_error_bytes = 2048

-- " [truncated " and " bytes]".
abbrev pub truncated_prefix : Bytes
truncated_prefix =
    b' ' ∷ b'[' ∷ b't' ∷ b'r' ∷ b'u' ∷ b'n' ∷ b'c' ∷ b'a' ∷ b't' ∷ b'e' ∷ b'd' ∷ b' ' ∷ []

abbrev pub truncated_suffix : Bytes
truncated_suffix = b' ' ∷ b'b' ∷ b'y' ∷ b't' ∷ b'e' ∷ b's' ∷ b']' ∷ []

-- A length is an int of at most 19 decimal digits.
unfoldable pub bound_text : Bytes → Bytes
bound_text s =
    if ltb max_error_bytes (length s)
    then take max_error_bytes s
      ++ (truncated_prefix ++ (decimal 20 (length s - max_error_bytes) ++ truncated_suffix))
    else s

unfoldable pub attempt_error : (Err → Bytes) → MaybeErr → Bytes
unfolding bound_text
attempt_error text none = []
attempt_error text (some e) = bound_text (error_text text e)
