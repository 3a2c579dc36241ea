-- ===== src/Queue/Promotion.antt =====
-- internal/queue/queue.go: what Enqueue and PromoteDue do to the members of the queue.
use calligraphy.Base.{
  ℕ, ◌/◌, ◌≡◌, refl, sym, ap, ◌∙◌, subst, ◌⊎◌, inl, inr, String, List, [], ◌∷◌, Bool, true, false,
  ◌&&◌, Option, some, if◌then◌else◌, ltb, any-append, str_eq, eq_iff, same_bytes, same_bytes_refl,
  Bool-cases, Result, ok, err, Unavailable, Fate, under, under-effect, under-ok, arith,
}
use calligraphy.Job.Errors.{Bytes}
use calligraphy.Job.Status.{Priority, priority_order}
use calligraphy.Job.Record.{Envelope, decode_envelope}
use calligraphy.Queue.Fetch.{Queue, stream_key}
use calligraphy.Queue.Keyspace.{Keyspace, QueueLaws}
use calligraphy.Queue.Delayed.{
  delayed_key, QueueError, reached, Promoted, park, encoded_or_err, enqueue, promote_script,
  after_script, promote_each, promote_due,
}
use calligraphy.Queue.Moves.{has, delayed_key-stream_key, move_all-entries, move_all-score}

module _ {S : Type 0} (redis : Keyspace S) (laws : QueueLaws redis) (q : Queue) where
  -- On its priority's stream, or parked in its sorted set.
  abbrev pub Held : Priority → Bytes → S → Type 0
  Held p m s =
      ((t : ℕ) × (redis.score (delayed_key q p) m s ≡ some t))
      ⊎ (has m (redis.entries (stream_key q p) s) ≡ true)

  script-Held :
      (p r : Priority) (m : Bytes) (now_ms batch : ℕ) (s : S)
      → Held p m s
      → Held p m (promote_script redis (delayed_key q r) (stream_key q r) now_ms batch s).0
  unfolding promote_script
  script-Held p r m now_ms batch s h =
      let ms = redis.due (delayed_key q r) now_ms batch s in
      let moved =
        move_all-entries redis laws (delayed_key q r) (stream_key q r) (stream_key q p) ms s in
      let scores =
        move_all-score redis laws (delayed_key q r) (stream_key q r) (delayed_key q p) m ms s in
      let grown = any-append (λ x. same_bytes x m) (redis.entries (stream_key q p) s) ms in
      elim h [
        | inr there ↦ inr (grind (arith, there, moved, grown))
        | inl (t, at) ↦ elim (Bool-cases (str_eq (delayed_key q r) (delayed_key q p) && has m ms)) [
          | inr stays ↦ inl (t, grind (arith, stays, scores, at))
          | inl goes ↦
              let same =
                delayed_key-stream_key q r p
                  ((eq_iff (delayed_key q r) (delayed_key q p)).0 (grind (arith, goes))) in
              let same' = (eq_iff (stream_key q r) (stream_key q p)).1 same in
              inr (grind (arith, same', goes, moved, grown))
        ]
      ]

  after_script-Held :
      (p : Priority) (m : Bytes) (acc : List Envelope) (rest : List Envelope → S → S × Promoted)
      (x : S × Result Unavailable (List Bytes))
      → ((acc' : List Envelope) (s : S) → Held p m s → Held p m (rest acc' s).0)
      → Held p m x.0
      → Held p m (after_script redis q acc rest x).0
  unfolding after_script
  after_script-Held p m acc rest (s, err e) on h = h
  after_script-Held p m acc rest (s, ok ms) on h = on _ s h

  promote_each-Held :
      (p : Priority) (m : Bytes) (fate : Priority → Fate) (ps : List Priority) (now batch : ℕ)
      (acc : List Envelope) (s : S)
      → Held p m s
      → Held p m (promote_each redis q fate ps now batch acc s).0
  unfolding promote_each
  promote_each-Held p m fate [] now batch acc s h = h
  promote_each-Held p m fate (r ∷ rs) now batch acc s h =
      let call = promote_script redis (delayed_key q r) (stream_key q r) (now / 1000000) batch s in
      let x = under (fate r) s call in
      after_script-Held p m acc (promote_each redis q fate rs now batch) x
        (λ acc' s'. promote_each-Held p m fate rs now batch acc' s')
        (elim (under-effect (fate r) s call) [
          | inl done ↦ subst (Held p m) (sym done) (script-Held p r m (now / 1000000) batch s h)
          | inr same ↦ subst (Held p m) (sym same) h
        ])

  -- Passes of the promoter, whatever becomes of their calls.
  unfoldable pub promotions : List ((Priority → Fate) × ℕ × ℕ) → S → S
  unfolding promote_due
  promotions [] s = s
  promotions ((fate, now, batch) ∷ ps) s = promotions ps (promote_due redis q fate now batch s).0

  promotions-Held :
      (p : Priority) (m : Bytes) (ps : List ((Priority → Fate) × ℕ × ℕ)) (s : S)
      → Held p m s
      → Held p m (promotions ps s)
  unfolding promotions
  promotions-Held p m [] s h = h
  promotions-Held p m ((fate, now, batch) ∷ ps) s h =
      promotions-Held p m ps (promote_each redis q fate priority_order now batch [] s).0
        (promote_each-Held p m fate priority_order now batch [] s h)

  reached-ok :
      {A : Type 0} (x : S × Result Unavailable A) (a : A)
      → (reached x).1 ≡ ok a
      → (x.1 ≡ ok a) × ((reached x).0 ≡ x.0)
  reached-ok (s, ok b) a h = (grind (arith, h), refl)
  reached-ok (s, err e) a h = absurd (grind (arith, h))

  parked-Held :
      (fate : Fate) (p : Priority) (b : Bytes) (at : ℕ) (s : S) (entry : String)
      → (park redis q fate p b at s).1 ≡ ok entry
      → Held p b (park redis q fate p b at s).0
  unfolding park
  parked-Held fate p b at s entry e =
      let call : S × String = (redis.zadd (delayed_key q p) (at / 1000000) b s, "delayed") in
      let (arrived, same) = reached-ok (under fate s call) entry e in
      let landed = (under-ok fate s call arrived).1 in
      inl (
        at / 1000000,
        ap (redis.score (delayed_key q p) b) (same ∙ landed)
            ∙ grind (
              arith,
              laws.zadd-score (delayed_key q p) (delayed_key q p) (at / 1000000) b b s,
              same_bytes_refl b,
              (eq_iff (delayed_key q p) (delayed_key q p)).1 refl,
            ),
      )

  added-Held :
      (fate : Fate) (p : Priority) (b : Bytes) (s : S) (entry : String)
      → let x = reached (under fate s (redis.xadd (stream_key q p) b s)) in
        x.1 ≡ ok entry → Held p b x.0
  added-Held fate p b s entry e =
      let call = redis.xadd (stream_key q p) b s in
      let key = stream_key q p in
      let (arrived, same) = reached-ok (under fate s call) entry e in
      let landed = (under-ok fate s call arrived).1 in
      inr (
        ap (λ s'. has b (redis.entries key s')) (same ∙ landed)
        ∙ grind (
          arith,
          laws.xadd-entries key key b s,
          same_bytes_refl b,
          (eq_iff key key).1 refl,
          any-append (λ x. same_bytes x b) (redis.entries key s) (b ∷ []),
        ))

  put-Held :
      (late : Bool) (fate : Fate) (p : Priority) (at : ℕ) (b : Bytes) (s : S) (entry : String)
      → let x =
          if late
          then park redis q fate p b at s
          else reached (under fate s (redis.xadd (stream_key q p) b s)) in
        x.1 ≡ ok entry → Held p b x.0
  put-Held true fate p at b s entry e = parked-Held fate p b at s entry e
  put-Held false fate p at b s entry e = added-Held fate p b s entry e

  enqueue-Held :
      (marshal : Envelope → Option Bytes) (fate : Fate) (env : Envelope) (at now : ℕ) (b : Bytes)
      (s : S) (entry : String)
      → marshal env ≡ some b
      → (enqueue redis q marshal fate env at now s).1 ≡ ok entry
      → Held env.priority b (enqueue redis q marshal fate env at now s).0
  unfolding enqueue
  enqueue-Held marshal fate env at now b s entry m e =
      let put : Bytes → S → S × Result QueueError String = λ b' s'.
        if ltb now at
        then park redis q fate env.priority b' at s'
        else reached (under fate s' (redis.xadd (stream_key q env.priority) b' s')) in
      subst
        (λ o.
          (encoded_or_err o put s).1 ≡ ok entry → Held env.priority b (encoded_or_err o put s).0)
        (sym m) (put-Held (ltb now at) fate env.priority at b s entry) e

  -- An envelope that Enqueue accepted, for now or for later, stays on its priority's stream or in
  -- its delayed set through every history of promotions, whatever becomes of their calls; and the
  -- member that is held decodes to the envelope, if json.Unmarshal undoes json.Marshal on it.
  pub enqueue-kept :
      (marshal : Envelope → Option Bytes) (fate : Fate) (env : Envelope) (at now : ℕ) (b : Bytes)
      (s : S) (entry : String) (ps : List ((Priority → Fate) × ℕ × ℕ))
      → marshal env ≡ some b
      → (enqueue redis q marshal fate env at now s).1 ≡ ok entry
      → Held env.priority b (promotions ps (enqueue redis q marshal fate env at now s).0)
        × (q.unmarshal b ≡ some env
            → str_eq env.id "" ≡ false
            → str_eq env.kind "" ≡ false
            → decode_envelope q.unmarshal b ≡ ok env)
  unfolding decode_envelope
  enqueue-kept marshal fate env at now b s entry ps m e = (
    promotions-Held env.priority b ps (enqueue redis q marshal fate env at now s).0
        (enqueue-Held marshal fate env at now b s entry m e),
    (λ back id kind. grind (arith, back, id, kind)),
  )
