-- ===== src/Queue/Fetch.antt =====
-- internal/queue/queue.go: Fetch, with the keys, the decoding and the ack that it uses.
use calligraphy.Base.{
  ℕ, ◌-◌, String, concat, List, [], ◌∷◌, map, Bool, true, false, Option, none, some, if◌then◌else◌,
  leb, ◌==◌, length, str_eq, Result, ok, err, Unavailable, ◌++◌, not, ◌||◌,
}
use calligraphy.Job.Errors.{Bytes}
use calligraphy.Job.Status.{Priority, high, default, low, other_priority, priority_order}
use calligraphy.Job.Record.{Envelope, decode_envelope}
use calligraphy.Worker.Runner.{Delivery}
use calligraphy.Queue.Redis.{Message, Stream, Redis}

pub record Queue : Type 0 where
  pub prefix : String
  pub queue : String
  pub unmarshal : Bytes → Option Envelope  -- json.Unmarshal

abbrev pub priority_text : Priority → String
priority_text high = "high"
priority_text default = "default"
priority_text low = "low"
priority_text (other_priority s) = s

unfoldable pub stream_key : Queue → Priority → String
stream_key q p = concat q.prefix (concat ":stream:" (concat q.queue (concat ":" (priority_text p))))

unfoldable pub priority_of_stream : Queue → String → List Priority → Priority
priority_of_stream q key [] = default
priority_of_stream q key (p ∷ ps) =
    if str_eq (stream_key q p) key then p else priority_of_stream q key ps

-- What a fetch returns: the deliveries, and whether an error came with them.
pub record Fetched : Type 0 where
  pub deliveries : List Delivery
  pub failed : Bool

-- The loop over the priorities: out of it with a full list, with an error, or past the last one.
pub data Pass : Type 0 where
  full broken past : List Delivery → Pass

abbrev pub add : List Delivery → Option Delivery → List Delivery
add out none = out
add out (some d) = out ++ d ∷ []

module _ {S : Type 0} (redis : Redis S) (q : Queue) where
  unfoldable pub ack : Priority → String → S → S × Result Unavailable (Unit {0})
  unfolding stream_key
  ack p entry s = redis.ack_delete (stream_key q p) entry s

  -- A poison entry is acked away.
  unfoldable pub decode_message : Message → Priority → S → S × Option Delivery
  unfolding ack
  decode_message m p s = elim (decode_envelope q.unmarshal m.body) [
    | err e ↦ ((ack p m.id s).0, none)
    | ok env ↦ (s, some (record { env = env; entry_id = m.id; priority = p }))
  ]

  unfoldable pub append_messages : List Delivery → List Message → Priority → S → S × List Delivery
  unfolding decode_message
  append_messages out [] p s = (s, out)
  append_messages out (m ∷ ms) p s =
      let (s', d) = decode_message m p s in append_messages (add out d) ms p s'

  unfoldable pub append_deliveries :
      List Delivery → List Stream → (String → Priority) → S → S × List Delivery
  unfolding append_messages
  append_deliveries out [] p s = (s, out)
  append_deliveries out (x ∷ xs) p s =
      let (s', out') = append_messages out x.messages (p x.key) s in append_deliveries out' xs p s'

  -- What the loop does with the answer for one priority, and `rest` with the other ones.
  unfoldable pub take_in :
      Priority
      → List Delivery
      → (List Delivery → S → S × Pass)
      → S × Result Unavailable (List Stream)
      → S × Pass
  unfolding append_deliveries
  take_in p out rest (s, err e) = (s, broken out)
  take_in p out rest (s, ok streams) =
      let (s', out') = append_deliveries out streams (λ key. p) s in rest out' s'

  -- The non-blocking pass, one priority after the other.
  unfoldable pub drain : String → List Priority → ℕ → List Delivery → S → S × Pass
  unfolding take_in stream_key
  drain consumer [] most out s = (s, past out)
  drain consumer (p ∷ ps) most out s = elim (leb most (length out)) [
    | true ↦ (s, full out)
    | false ↦
        take_in p out (drain consumer ps most)
          (redis.read_group consumer (stream_key q p ∷ []) (most - length out) 0 s)
  ]

  -- The blocking pass, on all streams at once, and what becomes of its answer.
  unfoldable pub take_any : List Delivery → S × Result Unavailable (List Stream) → S × Fetched
  unfolding append_deliveries priority_of_stream
  take_any out (s, err e) = (s, record { deliveries = out; failed = true })
  take_any out (s, ok streams) =
      let (s', out') =
        append_deliveries out streams (λ key. priority_of_stream q key priority_order) s in
      (s', record { deliveries = out'; failed = false })

  unfoldable pub after_pass : String → ℕ → ℕ → S × Pass → S × Fetched
  unfolding take_any stream_key
  after_pass consumer most block (s, full out) = (s, record { deliveries = out; failed = false })
  after_pass consumer most block (s, broken out) = (s, record { deliveries = out; failed = true })
  after_pass consumer most block (s, past out) =
      if not (length out == 0) || block == 0
      then (s, record { deliveries = out; failed = false })
      else take_any out (redis.read_group consumer (map (stream_key q) priority_order) most block s)

  unfoldable pub fetch : String → ℕ → ℕ → S → S × Fetched
  unfolding drain after_pass
  fetch consumer most block s =
      after_pass consumer most block (drain consumer priority_order most [] s)
