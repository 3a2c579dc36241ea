-- ===== src/Queue/Reap.antt =====
-- internal/queue/queue.go: ReapAbandoned, Heartbeat and ListDLQ. XAUTOCLAIM by the reaper's
-- consumer, XCLAIM JUSTID and XREVRANGE are arguments.
use calligraphy.Base.{
  ℕ, ◌+◌, ◌*◌, ◌≤◌, ◌≡◌, refl, String, List, [], ◌∷◌, true, false, length, Result, ok, err,
  Unavailable, arith,
}
use calligraphy.Job.Errors.{Bytes}
use calligraphy.Job.Status.{Priority, priority_order}
use calligraphy.Job.Record.{Envelope, decode_envelope}
use calligraphy.Worker.Runner.{Delivery}
use calligraphy.Queue.Redis.{Message, Redis}
use calligraphy.Queue.Fetch.{Queue, Fetched, stream_key, append_messages}
use calligraphy.Queue.FetchBounds.{append_messages-length}

-- A row of the log of dead letters, and an entry of its stream.
pub record DlqEntry : Type 0 where
  pub entry_id : String
  pub env : Envelope
  pub error : Bytes
  pub at : Bytes

pub record DlqMessage : Type 0 where
  pub id : String
  pub body : Bytes
  pub error : Bytes
  pub at : Bytes

-- An entry that does not decode is passed over.
unfoldable pub list_dlq : Queue → List DlqMessage → List DlqEntry
list_dlq q [] = []
list_dlq q (m ∷ ms) = elim (decode_envelope q.unmarshal m.body) [
  | err e ↦ list_dlq q ms
  | ok env ↦ record { entry_id = m.id; env = env; error = m.error; at = m.at } ∷ list_dlq q ms
]

module _ {S : Type 0} (redis : Redis S) (q : Queue)
    (autoclaim : String → ℕ → ℕ → S → S × Result Unavailable (List Message)) where
  unfoldable pub after_claim :
      Priority
      → List Delivery
      → (List Delivery → S → S × Fetched)
      → S × Result Unavailable (List Message)
      → S × Fetched
  unfolding append_messages
  after_claim p out rest (s, err e) = (s, record { deliveries = out; failed = true })
  after_claim p out rest (s, ok messages) =
      let (s', out') = append_messages redis q out messages p s in rest out' s'

  unfoldable pub reap_each : List Priority → ℕ → ℕ → List Delivery → S → S × Fetched
  unfolding after_claim stream_key
  reap_each [] min_idle batch out s = (s, record { deliveries = out; failed = false })
  reap_each (p ∷ ps) min_idle batch out s =
      after_claim p out (reap_each ps min_idle batch) (autoclaim (stream_key q p) min_idle batch s)

  unfoldable pub reap_abandoned : ℕ → ℕ → S → S × Fetched
  unfolding reap_each
  reap_abandoned min_idle batch s = reap_each priority_order min_idle batch [] s

  module _ (batch : ℕ)
      (law : (key : String) (min_idle : ℕ) (s : S) (ms : List Message)
        → (autoclaim key min_idle batch s).1 ≡ ok ms
        → length ms ≤ batch) where
    after_claim-length :
        (most : ℕ) (p : Priority) (out : List Delivery) (rest : List Delivery → S → S × Fetched)
        (x : S × Result Unavailable (List Message))
        → ((ms : List Message) → x.1 ≡ ok ms → length ms ≤ batch)
        → length out + batch ≤ most
        → ((out' : List Delivery) (s : S)
            → length out' ≤ length out + batch
            → length (rest out' s).1.deliveries ≤ most)
        → length (after_claim p out rest x).1.deliveries ≤ most
    unfolding after_claim
    after_claim-length most p out rest (s, err e) fits room on = omega (arith, room)
    after_claim-length most p out rest (s, ok ms) fits room on =
        let (s', out') = append_messages redis q out ms p s in
        on out' s' (omega (arith, fits ms refl, append_messages-length redis q out ms p s))

    reap_each-length :
        (ps : List Priority) (min_idle : ℕ) (out : List Delivery) (s : S)
        → length (reap_each ps min_idle batch out s).1.deliveries ≤ length out + length ps * batch
    unfolding reap_each
    reap_each-length [] min_idle out s = omega arith
    reap_each-length (p ∷ ps) min_idle out s =
        after_claim-length (length out + length (p ∷ ps) * batch) p out
          (reap_each ps min_idle batch) (autoclaim (stream_key q p) min_idle batch s)
          (λ ms h. law (stream_key q p) min_idle s ms h) (grind arith)
          (λ out' s' l. grind (arith, l, reap_each-length ps min_idle out' s'))

    -- A pass of the reaper claims at most `batch` entries of each of the three streams.
    pub reap_abandoned-length :
        (min_idle : ℕ) (s : S) → length (reap_abandoned min_idle batch s).1.deliveries ≤ 3 * batch
    unfolding reap_abandoned
    reap_abandoned-length min_idle s = omega (arith, reap_each-length priority_order min_idle [] s)
