-- ===== src/Queue/Early.antt =====
-- internal/queue/queue.go: PromoteDue and the time that a member is delayed to.
use calligraphy.Base.{
  ℕ, ◌/◌, ◌<◌, ◌≡◌, sym, ap, ◌∙◌, subst, inl, inr, List, [], ◌∷◌, Bool, false, ◌&&◌, none, some,
  leb, str_eq, eq_iff, Bool-cases, Result, ok, err, Unavailable, Fate, under, under-effect, arith,
}
use calligraphy.Job.Errors.{Bytes}
use calligraphy.Job.Status.{Priority, priority_order}
use calligraphy.Job.Record.{Envelope}
use calligraphy.Queue.Fetch.{Queue, stream_key}
use calligraphy.Queue.Keyspace.{Keyspace, QueueLaws}
use calligraphy.Queue.Delayed.{
  delayed_key, Promoted, promote_script, after_script, promote_each, promote_due,
}
use calligraphy.Queue.Moves.{has, has-all, move_all-score}

module _ {S : Type 0} (redis : Keyspace S) (laws : QueueLaws redis) (q : Queue) where
  script-early :
      (p r : Priority) (m : Bytes) (t now_ms batch : ℕ) (s : S)
      → now_ms < t
      → redis.score (delayed_key q p) m s ≡ some t
      → redis.score
          (delayed_key q p)
          m
          (promote_script redis (delayed_key q r) (stream_key q r) now_ms batch s).0
        ≡ some t
  unfolding promote_script
  script-early p r m t now_ms batch s early at =
      let dk = delayed_key q r in
      let ms = redis.due dk now_ms batch s in
      let scores = move_all-score redis laws dk (stream_key q r) (delayed_key q p) m ms s in
      elim (Bool-cases (str_eq dk (delayed_key q p) && has m ms)) [
        | inr stays ↦ grind (arith, stays, scores, at)
        | inl goes ↦
            let same = (eq_iff dk (delayed_key q p)).0 (grind (arith, goes)) in
            let bound : Bytes → Bool =
              λ x. elim (redis.score dk x s) [ none ↦ false | some n ↦ leb n now_ms ] in
            let low =
              has-all bound m ms (laws.due-scores dk now_ms batch s) (grind (arith, goes)) in
            absurd (grind (arith, low, early, ap (λ k. redis.score k m s) same ∙ at))
      ]

  after_script-early :
      (p : Priority) (m : Bytes) (t : ℕ) (acc : List Envelope)
      (rest : List Envelope → S → S × Promoted) (x : S × Result Unavailable (List Bytes))
      → ((acc' : List Envelope) (s : S)
          → redis.score (delayed_key q p) m s ≡ some t
          → redis.score (delayed_key q p) m (rest acc' s).0 ≡ some t)
      → redis.score (delayed_key q p) m x.0 ≡ some t
      → redis.score (delayed_key q p) m (after_script redis q acc rest x).0 ≡ some t
  unfolding after_script
  after_script-early p m t acc rest (s, err e) on h = h
  after_script-early p m t acc rest (s, ok ms) on h = on _ s h

  promote_each-early :
      (p : Priority) (m : Bytes) (t : ℕ) (fate : Priority → Fate) (ps : List Priority)
      (now batch : ℕ) (acc : List Envelope) (s : S)
      → now / 1000000 < t
      → redis.score (delayed_key q p) m s ≡ some t
      → redis.score (delayed_key q p) m (promote_each redis q fate ps now batch acc s).0 ≡ some t
  unfolding promote_each
  promote_each-early p m t fate [] now batch acc s early h = h
  promote_each-early p m t fate (r ∷ rs) now batch acc s early h =
      let call = promote_script redis (delayed_key q r) (stream_key q r) (now / 1000000) batch s in
      let x = under (fate r) s call in
      let stays : S → Type 0 = λ s'. redis.score (delayed_key q p) m s' ≡ some t in
      after_script-early p m t acc (promote_each redis q fate rs now batch) x
        (λ acc' s'. promote_each-early p m t fate rs now batch acc' s' early)
        (elim (under-effect (fate r) s call) [
          | inl done ↦ subst stays (sym done) (script-early p r m t (now / 1000000) batch s early h)
          | inr same ↦ subst stays (sym same) h
        ])

  -- A delayed member is not promoted before its time: with a score above the current millisecond it
  -- stays parked at that score.
  pub promote_due-early :
      (p : Priority) (m : Bytes) (t : ℕ) (fate : Priority → Fate) (now batch : ℕ) (s : S)
      → now / 1000000 < t
      → redis.score (delayed_key q p) m s ≡ some t
      → redis.score (delayed_key q p) m (promote_due redis q fate now batch s).0 ≡ some t
  unfolding promote_due
  promote_due-early p m t fate now batch s early h =
      promote_each-early p m t fate priority_order now batch [] s early h
