-- ===== src/Queue/Samples.antt =====
-- A Redis that answers from a script, within COUNT, and fetches from it.
use calligraphy.Base.{
  none, ℕ, zero, suc, ◌≤◌, ◌≡◌, refl, List, [], ◌∷◌, map, take, length, length-take, all, leb, true,
  String, some, ok, Result, Unavailable, arith,
}
use calligraphy.Job.Status.{Priority, default}
use calligraphy.Queue.Depths.{Counts, count}
use calligraphy.Job.Record.{Envelope, decode_envelope}
use calligraphy.Queue.Redis.{Stream, Redis, CountLaw}
use calligraphy.Queue.Fetch.{
  Queue, fetch, drain, take_in, take_any, after_pass, append_deliveries, append_messages,
  decode_message,
}

-- The answers to come.
abbrev Script : Type 0
Script = List (List Stream)

abbrev shorten : ℕ → Stream → Stream
shorten count x = record x { messages = take count x.messages }

read : String → List String → ℕ → ℕ → Script → Script × Result Unavailable (List Stream)
read consumer keys count block [] = ([], ok [])
read consumer keys count block (a ∷ rest) = (rest, ok (take (length keys) (map (shorten count) a)))

abbrev scripted : Redis Script
scripted = record { read_group = read; ack_delete = λ key entry s. (s, ok tt) }

shortened_all :
    (n count : ℕ) (xs : List Stream)
    → all (λ x. leb (length x.messages) count) (take n (map (shorten count) xs)) ≡ true
shortened_all zero count xs = refl
shortened_all (suc n) count [] = refl
shortened_all (suc n) count (x ∷ xs) =
    ground (arith, shortened_all n count xs, length-take count x.messages)

one_each :
    (consumer : String) (keys : List String) (count block : ℕ) (s : Script) {xs : List Stream}
    → (read consumer keys count block s).1 ≡ ok xs
    → length xs ≤ length keys
unfolding read
one_each consumer keys count block [] e = ground arith
one_each consumer keys count block (a ∷ rest) e =
    grind (arith, length-take (length keys) (map (shorten count) a))

count_each :
    (consumer : String) (keys : List String) (count block : ℕ) (s : Script) {xs : List Stream}
    → (read consumer keys count block s).1 ≡ ok xs
    → all (λ x. leb (length x.messages) count) xs ≡ true
unfolding read
count_each consumer keys count block [] e = grind arith
count_each consumer keys count block (a ∷ rest) e =
    grind (arith, shortened_all (length keys) count a)

scripted-CountLaw : CountLaw scripted
scripted-CountLaw = record { one_each = one_each; count_each = count_each }

abbrev any_envelope : Envelope
any_envelope = record {
  id = "j1";
  kind = "sleep";
  queue = "default";
  priority = default;
  attempt = 1;
  payload = [];
  enqueued_at = 1;
}

abbrev queue : Queue
queue = record { prefix = "p"; queue = "default"; unmarshal = λ b. some any_envelope }

abbrev one_in : String → Stream
one_in key = record { key = key; messages = record { id = "1-0"; body = [] } ∷ [] }

abbrev patience : ℕ
patience = 5

-- Nothing is ready in the non-blocking pass; then entries reach all three streams.
abbrev late_arrivals : Script
late_arrivals =
    []
    ∷ []
    ∷ []
    ∷ (one_in "p:stream:default:high"
        ∷ one_in "p:stream:default:default"
        ∷ one_in "p:stream:default:low"
        ∷ [])
    ∷ []

-- A fetch of one delivery that brings three.
overshoot : length (fetch scripted queue "w1" 1 patience late_arrivals).1.deliveries ≡ 3
unfolding fetch drain take_in take_any after_pass append_deliveries append_messages decode_message
    decode_envelope read
overshoot = refl

-- Two entries of the default stream are in flight.
abbrev shape : Priority → Counts
shape default = record { xlen = 5; zcard = 1; xpending = some 2 }
shape p = record { xlen = 0; zcard = 0; xpending = none }
