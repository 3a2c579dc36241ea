-- ===== src/Bench.antt =====
-- internal/handlers/bench/bench.go: the handlers of the benchmark. The JSON codec, SHA-256, the
-- random draw and the comparison with a rate are arguments. Durations and counts of a payload are
-- 64-bit patterns.
pub mod Workload
mod Samples
use calligraphy.Base.{
  ℕ, zero, suc, ◌+◌, ◌*◌, ◌/◌, ◌%◌, String, List, [], ◌∷◌, ◌++◌, Bool, true, false, not, ◌&&◌,
  Option, none, some, is_some, if◌then◌else◌, slt, i64, ltb, leb, ◌==◌, Result, ok, err,
}
use Prim.Native.Nat.{bit_xor}
use calligraphy.Job.Errors.{Bytes, Err, plain, wrapped, non_retryable}
use calligraphy.Job.Record.{codes}

pub record SleepPayload : Type 0 where
  pub ms : ℕ
  pub jitter_ms : ℕ

pub data Text : Type 0 where
  bad_payload unprocessable : Text
  transient : ℕ → Text

-- What a handler returns, before it is printed.
pub data Done : Type 0 where
  slept_for : ℕ → Done  -- it prints the milliseconds
  digest : ℕ → Bytes → Done
  on_attempt : ℕ → Done

-- When the context of the attempt is done, after its start, and with what error.
pub record Ending : Type 0 where
  pub at : ℕ
  pub error : Err

-- A timer and the context: whichever is first; a duration that is not positive fires at once.
unfoldable pub wait : ℕ → Option Ending → Option Err
wait d none = none
wait d (some e) = if slt 0 d && ltb e.at (i64 d) then some e.error else none

unfoldable pub sleep_for : (ℕ → ℕ) → SleepPayload → ℕ
sleep_for draw p =
    let ms = if slt 0 p.ms then p.ms else 50 in
    i64 (i64 (ms * 1000000) + (if slt 0 p.jitter_ms then i64 (draw p.jitter_ms * 1000000) else 0))

abbrev pub slept : ℕ → Option Err → Result Err Done
slept d (some e) = err e
slept d none = ok (slept_for d)

unfoldable pub handle_sleep :
    (Text → Bytes) → (ℕ → ℕ) → Option Ending → Result Err SleepPayload → Result Err Done
unfolding sleep_for wait
handle_sleep text draw ending (err e) = err (non_retryable (wrapped (text bad_payload) e))
handle_sleep text draw ending (ok p) = let d = sleep_for draw p in slept d (wait d ending)

-- The chain: `done i` is whether the context is done when round `i` looks at it. Beside the sum
-- stands how many rounds were computed.
unfoldable pub chain : (Bytes → Bytes) → (ℕ → Option Err) → ℕ → ℕ → Bytes → Result Err Bytes × ℕ
chain sha done zero i sum = (ok sum, i)
chain sha done (suc n) i sum =
    let next = sha sum in
    let on = chain sha done n (suc i) next in
    if i % 50000 == 0 then elim (done i) [ some e ↦ (err e, suc i) | none ↦ on ] else on

abbrev pub rounds : ℕ → ℕ
rounds n = if slt 0 n then i64 n else 100000

abbrev pub digested : ℕ → Result Err Bytes × ℕ → Result Err Done
digested n (err e, k) = err e
digested n (ok sum, k) = ok (digest n sum)

unfoldable pub handle_cpu :
    (Text → Bytes) → (Bytes → Bytes) → (ℕ → Option Err) → Bytes → Result Err ℕ → Result Err Done
unfolding chain
handle_cpu text sha done id (err e) = err (non_retryable (wrapped (text bad_payload) e))
handle_cpu text sha done id (ok n) = digested (rounds n) (chain sha done (rounds n) 0 (sha id))

-- FNV-1a over 64 bits.
unfoldable pub fnv : Bytes → ℕ → ℕ
fnv [] h = h
fnv (b ∷ bs) h = fnv bs (bit_xor h b * 1099511628211 % 18446744073709551616)

-- The eight bytes of an integer, the lowest first.
unfoldable pub little_endian : ℕ → ℕ → Bytes
little_endian zero n = []
little_endian (suc k) n = (n % 256) ∷ little_endian k (n / 256)

-- `draw` in hundred-thousandths.
unfoldable pub draw : Bytes → Bytes → ℕ → ℕ
unfolding fnv little_endian
draw label id attempt = fnv (label ++ (id ++ little_endian 8 attempt)) 14695981039346656037 % 100000

-- The rates are what a draw is held against: `below n r` is n / 100000 < r.
pub record FlakyPayload (Rate : Type 0) : Type 0 where
  pub fail_rate : Rate
  pub permanent_rate : Rate
  pub sleep_ms : ℕ

module _ {Rate : Type 0} (text : Text → Bytes) (below : ℕ → Rate → Bool) where
  abbrev pub drawn : Bytes → ℕ → FlakyPayload Rate → Result Err Done
  drawn id n p =
      if below (draw (codes "permanent") id 0) p.permanent_rate
      then err (non_retryable (plain (text unprocessable)))
      else if below (draw (codes "transient") id n) p.fail_rate
      then err (plain (text (transient n)))
      else ok (on_attempt n)

  abbrev pub rested : Option Err → Bytes → ℕ → FlakyPayload Rate → Result Err Done
  rested (some e) id n p = err e
  rested none id n p = drawn id n p

  unfoldable pub handle_flaky :
      Option Ending → Bytes → ℕ → Result Err (FlakyPayload Rate) → Result Err Done
  unfolding draw wait
  handle_flaky ending id n (err e) = err (non_retryable (wrapped (text bad_payload) e))
  handle_flaky ending id n (ok p) =
      rested (if slt 0 p.sleep_ms then wait (i64 (p.sleep_ms * 1000000)) ending else none) id n p
