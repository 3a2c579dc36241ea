-- ===== src/Queue/Delayed.antt =====
-- internal/queue/queue.go: Enqueue, ScheduleRetry, DeadLetter, PromoteDue, the cancel flag and the
-- leader lock. Times are nanoseconds; json.Marshal is an argument, and `Fate` is what becomes of a
-- call of Redis.
use calligraphy.Base.{
  ℕ, ◌/◌, String, concat, List, [], ◌∷◌, ◌++◌, Bool, true, false, Option, none, some, if◌then◌else◌,
  ltb, is_some, str_eq, Result, ok, err, Unavailable, Fate, under,
}
use calligraphy.Job.Errors.{Bytes}
use calligraphy.Job.Status.{Priority, priority_order}
use calligraphy.Job.Record.{Envelope, decode_envelope}
use calligraphy.Queue.Fetch.{Queue, stream_key, priority_text}
use calligraphy.Queue.Keyspace.{Keyspace}

unfoldable pub delayed_key : Queue → Priority → String
delayed_key q p =
    concat q.prefix (concat ":delayed:" (concat q.queue (concat ":" (priority_text p))))

unfoldable pub dlq_key : Queue → String
dlq_key q = concat q.prefix (concat ":dlq:" q.queue)

unfoldable pub cancel_key : Queue → String → String
cancel_key q id = concat q.prefix (concat ":cancel:" id)

unfoldable pub leader_key : Queue → String → String
leader_key q role = concat q.prefix (concat ":leader:" role)

pub data QueueError : Type 0 where
  not_encoded not_reached : QueueError

abbrev pub reached {ℓ} :
    {S : Type 0} {A : Type ℓ} → S × Result Unavailable A → S × Result QueueError A
reached (s, ok a) = (s, ok a)
reached (s, err e) = (s, err not_reached)

-- What PromoteDue returns: the envelopes, and whether an error came with them.
pub record Promoted : Type 0 where
  pub envelopes : List Envelope
  pub failed : Bool

abbrev pub dlq_max_len : ℕ
dlq_max_len = 10000

module _ {S : Type 0} (redis : Keyspace S) (q : Queue) where
  -- A member parked until a time, whose score is its milliseconds.
  unfoldable pub park : Fate → Priority → Bytes → ℕ → S → S × Result QueueError String
  unfolding delayed_key
  park fate p member at s =
      reached (under fate s (redis.zadd (delayed_key q p) (at / 1000000) member s, "delayed"))

abbrev pub encoded_or_err :
    {S : Type 0}
    → Option Bytes
    → (Bytes → S → S × Result QueueError String)
    → S
    → S × Result QueueError String
encoded_or_err none put s = (s, err not_encoded)
encoded_or_err (some b) put s = put b s

module _ {S : Type 0} (redis : Keyspace S) (q : Queue) (marshal : Envelope → Option Bytes) where
  unfoldable pub enqueue : Fate → Envelope → ℕ → ℕ → S → S × Result QueueError String
  unfolding park stream_key
  enqueue fate env at now s =
      encoded_or_err (marshal env)
        (λ b s'.
          if ltb now at
          then park redis q fate env.priority b at s'
          else reached (under fate s' (redis.xadd (stream_key q env.priority) b s')))
        s

  unfoldable pub schedule_retry : Fate → Envelope → ℕ → S → S × Result QueueError String
  unfolding park
  schedule_retry fate env at s =
      encoded_or_err (marshal env) (λ b. park redis q fate env.priority b at) s

  unfoldable pub dead_letter : Fate → Envelope → S → S × Result QueueError String
  unfolding dlq_key
  dead_letter fate env s =
      encoded_or_err (marshal env)
        (λ b s'. reached (under fate s' (redis.xadd_capped (dlq_key q) dlq_max_len b s'))) s

module _ {S : Type 0} (redis : Keyspace S) where
  -- The loop of the script.
  unfoldable pub move_all : String → String → List Bytes → S → S
  move_all delayed stream [] s = s
  move_all delayed stream (m ∷ ms) s =
      move_all delayed stream ms (redis.zrem delayed m (redis.xadd stream m s).0)

  unfoldable pub promote_script : String → String → ℕ → ℕ → S → S × List Bytes
  unfolding move_all
  promote_script delayed stream now_ms batch s =
      let members = redis.due delayed now_ms batch s in (move_all delayed stream members s, members)

-- A poison member is dropped.
unfoldable pub decode_all : Queue → List Bytes → List Envelope
decode_all q [] = []
decode_all q (m ∷ ms) = elim (decode_envelope q.unmarshal m) [
  | err e ↦ decode_all q ms
  | ok env ↦ env ∷ decode_all q ms
]

abbrev pub holds : String → Option String → Bool
holds id none = false
holds id (some owner) = str_eq owner id

module _ {S : Type 0} (redis : Keyspace S) (q : Queue) where
  unfoldable pub after_script :
      List Envelope
      → (List Envelope → S → S × Promoted)
      → S × Result Unavailable (List Bytes)
      → S × Promoted
  unfolding decode_all
  after_script promoted rest (s, err e) = (s, record { envelopes = promoted; failed = true })
  after_script promoted rest (s, ok members) = rest (promoted ++ decode_all q members) s

  unfoldable pub promote_each :
      (Priority → Fate) → List Priority → ℕ → ℕ → List Envelope → S → S × Promoted
  unfolding after_script promote_script delayed_key stream_key
  promote_each fate [] now batch promoted s = (s, record { envelopes = promoted; failed = false })
  promote_each fate (p ∷ ps) now batch promoted s =
      after_script promoted (promote_each fate ps now batch) (
        under (fate p) s
          (promote_script redis (delayed_key q p) (stream_key q p) (now / 1000000) batch s))

  unfoldable pub promote_due : (Priority → Fate) → ℕ → ℕ → S → S × Promoted
  unfolding promote_each
  promote_due fate now batch s = promote_each fate priority_order now batch [] s

  unfoldable pub request_cancel : Fate → String → ℕ → S → S × Result Unavailable (Unit {0})
  unfolding cancel_key
  request_cancel fate id ttl s = under fate s (redis.set (cancel_key q id) "1" ttl s, tt)

  unfoldable pub is_cancel_requested : Fate → String → S → S × Result Unavailable Bool
  unfolding cancel_key
  is_cancel_requested fate id s = under fate s (s, is_some (redis.get (cancel_key q id) s))

  unfoldable pub acquire_leader : Fate → String → String → ℕ → S → S × Result Unavailable Bool
  unfolding leader_key
  acquire_leader fate role id ttl s = under fate s (redis.set_nx (leader_key q role) id ttl s)

  -- The scripts: only the owner's own lock is changed.
  unfoldable pub renew_leader : Fate → String → String → ℕ → S → S × Result Unavailable Bool
  unfolding leader_key
  renew_leader fate role id ttl s =
      let key = leader_key q role in
      under fate s
        (if holds id (redis.get key s) then (redis.pexpire key ttl s, true) else (s, false))

  unfoldable pub release_leader : Fate → String → String → S → S × Result Unavailable (Unit {0})
  unfolding leader_key
  release_leader fate role id s =
      let key = leader_key q role in
      under fate s (if holds id (redis.get key s) then (redis.del key s, tt) else (s, tt))
