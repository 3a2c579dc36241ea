-- ===== src/Queue/FetchBounds.antt =====
-- How much a fetch can bring.
use calligraphy.Base.{
  ℕ, ◌+◌, ◌-◌, ◌*◌, ◌≤◌, ◌≡◌, refl, inl, inr, String, List, [], ◌∷◌, map, true, Option, none, some,
  leb, length, length-append, all, Result, ok, err, Unavailable, mul_mono, Bool-cases, arith,
}
use calligraphy.Job.Status.{Priority, priority_order}
use calligraphy.Worker.Runner.{Delivery}
use calligraphy.Queue.Redis.{Message, Stream, Redis, CountLaw}
use calligraphy.Queue.Fetch.{
  Queue, stream_key, priority_of_stream, Pass, full, broken, past, decode_message, append_messages,
  add, append_deliveries, take_in, drain, take_any, after_pass, fetch,
}

abbrev pub out_of : Pass → List Delivery
out_of (full out) = out
out_of (broken out) = out
out_of (past out) = out

add-length : (out : List Delivery) (d : Option Delivery) → length (add out d) ≤ length out + 1
add-length out none = omega arith
add-length out (some d) = omega (arith, length-append out (d ∷ []))

module _ {S : Type 0} (redis : Redis S) (q : Queue) where
  pub append_messages-length :
      (out : List Delivery) (ms : List Message) (p : Priority) (s : S)
      → length (append_messages redis q out ms p s).1 ≤ length out + length ms
  unfolding append_messages
  append_messages-length out [] p s = omega arith
  append_messages-length out (m ∷ ms) p s =
      let (s', d) = decode_message redis q m p s in
      omega (arith, add-length out d, append_messages-length (add out d) ms p s')

  -- Streams of at most `count` messages each add at most that many for each stream.
  append_deliveries-length :
      (count : ℕ) (out : List Delivery) (xs : List Stream) (p : String → Priority) (s : S)
      → all (λ x. leb (length x.messages) count) xs ≡ true
      → length (append_deliveries redis q out xs p s).1 ≤ length out + length xs * count
  unfolding append_deliveries
  append_deliveries-length count out [] p s h = omega arith
  append_deliveries-length count out (x ∷ xs) p s h =
      let (s', out') = append_messages redis q out x.messages (p x.key) s in
      let here : leb (length x.messages) count ≡ true = ground arith in
      let rest : all (λ x. leb (length x.messages) count) xs ≡ true = ground arith in
      let fits : length x.messages ≤ count = ground (arith, here) in
      omega (
        arith,
        fits,
        append_messages-length out x.messages (p x.key) s,
        append_deliveries-length count out' xs p s' rest,
      )

  take_in-length :
      (most : ℕ) (p : Priority) (out : List Delivery) (rest : List Delivery → S → S × Pass)
      (x : S × Result Unavailable (List Stream))
      → ((out' : List Delivery) (s : S)
          → length out' ≤ most
          → length (out_of (rest out' s).1) ≤ most)
      → length out ≤ most
      → ((streams : List Stream)
          → x.1 ≡ ok streams
          → (length streams ≤ 1)
            × (all (λ y. leb (length y.messages) (most - length out)) streams ≡ true))
      → length (out_of (take_in redis q p out rest x).1) ≤ most
  unfolding take_in
  take_in-length most p out rest (s, err e) k h law = h
  take_in-length most p out rest (s, ok streams) k h law =
      let (s', out') = append_deliveries redis q out streams (λ key. p) s in
      let (one, counted) = law streams refl in
      let added = append_deliveries-length (most - length out) out streams (λ key. p) s counted in
      k out' s' (omega (arith, added, mul_mono (most - length out) (length streams) 1 one))

  take_any-length :
      (most : ℕ) (out : List Delivery) (x : S × Result Unavailable (List Stream))
      → length out ≡ 0
      → ((streams : List Stream)
          → x.1 ≡ ok streams
          → (length streams ≤ 3) × (all (λ y. leb (length y.messages) most) streams ≡ true))
      → length (take_any redis q out x).1.deliveries ≤ 3 * most
  unfolding take_any
  take_any-length most out (s, err e) h law = omega arith
  take_any-length most out (s, ok streams) h law =
      let (three, counted) = law streams refl in
      let key_priority : String → Priority = λ key. priority_of_stream q key priority_order in
      omega (
        arith,
        h,
        append_deliveries-length most out streams key_priority s counted,
        mul_mono most (length streams) 3 three,
      )

  module _ (law : CountLaw redis) (consumer : String) where
    drain-length :
        (ps : List Priority) (most : ℕ) (out : List Delivery) (s : S)
        → length out ≤ most
        → length (out_of (drain redis q consumer ps most out s).1) ≤ most
    unfolding drain
    drain-length [] most out s h = h
    drain-length (p ∷ ps) most out s h =
        let key = stream_key q p ∷ [] in
        let read =
          take_in-length most p out (drain redis q consumer ps most)
            (redis.read_group consumer key (most - length out) 0 s) (drain-length ps most) h
            (λ xs e. (
              law.one_each consumer key (most - length out) 0 s e,
              law.count_each consumer key (most - length out) 0 s e,
            )) in
        elim (Bool-cases (leb most (length out))) [
          | inl y ↦ grind arith
          | inr n ↦ grind (arith, read)
        ]

    after_pass-length :
        (most block : ℕ) (x : S × Pass)
        → length (out_of x.1) ≤ most
        → let got = (after_pass redis q consumer most block x).1.deliveries in
          (length got ≤ 3 * most) × (block ≡ 0 → length got ≤ most)
    unfolding after_pass
    after_pass-length most block (s, full out) h = (omega arith, λ e. h)
    after_pass-length most block (s, broken out) h = (omega arith, λ e. h)
    after_pass-length most block (s, past out) h =
        let keys = map (stream_key q) priority_order in
        let answer = redis.read_group consumer keys most block s in
        let any_of : length out ≡ 0 → length (take_any redis q out answer).1.deliveries ≤ 3 * most =
          λ none_yet. take_any-length most out answer none_yet (λ xs e. (
            law.one_each consumer keys most block s e,
            law.count_each consumer keys most block s e,
          )) in
        ground (arith, any_of)

    -- A fetch that does not block brings at most as many deliveries as it was asked for. One that
    -- may block brings at most that many for each of the three streams.
    pub fetch-length :
        (most block : ℕ) (s : S)
        → let got = (fetch redis q consumer most block s).1.deliveries in
          (length got ≤ 3 * most) × (block ≡ 0 → length got ≤ most)
    unfolding fetch
    fetch-length most block s =
        after_pass-length most block (drain redis q consumer priority_order most [] s)
          (drain-length priority_order most [] s (omega arith))
