-- ===== src/Job/Classify.antt =====
-- What the error taxonomy of internal/job/errors.go decides.
use calligraphy.Base.{
  ◌≡◌, refl, ◌↔◌, ◌⊎◌, inl, inr, Bool, true, false, ◌||◌, none, some, arith, Bool-cases, subst,
}
use calligraphy.Job.Errors.{
  Bytes, Err, plain, cancel_requested, deadline_exceeded, context_canceled, lease_lost, wrapped,
  non_retryable, interrupted, panicked, MaybeErr, in_chain, matches, is_non_retryable,
  is_interrupted, is_cancel_requested, is_deadline_exceeded, tags_non_retryable, tags_interrupted,
  tags_cancel_requested, outcome_completed, outcome_failed, outcome_retryable, outcome_cancelled,
  outcome_interrupted, classify_error,
}

-- The errors that an error wraps, itself included.
pub data Wraps : Err → Err → Type 0 where
  itself : {e : Err} → Wraps e e
  under_text : {s : Bytes} {e f : Err} → Wraps e f → Wraps (wrapped s e) f
  under_non_retryable : {e f : Err} → Wraps e f → Wraps (non_retryable e) f
  under_interrupted : {e f : Err} → Wraps e f → Wraps (interrupted e) f
  under_panicked : {e f : Err} → Wraps e f → Wraps (panicked e) f

pub ruleset wrappers = (itself, under_text, under_non_retryable, under_interrupted, under_panicked)

in_chain_sound :
    (p : Err → Bool) (e : Err) → in_chain p e ≡ true → (f : Err) × Wraps e f × (p f ≡ true)
unfolding in_chain
in_chain_sound p (plain s) h = (_, itself, h)
in_chain_sound p cancel_requested h = (_, itself, h)
in_chain_sound p deadline_exceeded h = (_, itself, h)
in_chain_sound p context_canceled h = (_, itself, h)
in_chain_sound p lease_lost h = (_, itself, h)
in_chain_sound p (wrapped s e) h = elim (Bool-cases (p (wrapped s e))) [
  | inl t ↦ (_, itself, t)
  | inr n ↦ let (f, w, t) = in_chain_sound p e (ground arith) in (f, under_text w, t)
]
in_chain_sound p (non_retryable e) h = elim (Bool-cases (p (non_retryable e))) [
  | inl t ↦ (_, itself, t)
  | inr n ↦ let (f, w, t) = in_chain_sound p e (ground arith) in (f, under_non_retryable w, t)
]
in_chain_sound p (interrupted e) h = elim (Bool-cases (p (interrupted e))) [
  | inl t ↦ (_, itself, t)
  | inr n ↦ let (f, w, t) = in_chain_sound p e (ground arith) in (f, under_interrupted w, t)
]
in_chain_sound p (panicked e) h = elim (Bool-cases (p (panicked e))) [
  | inl t ↦ (_, itself, t)
  | inr n ↦ let (f, w, t) = in_chain_sound p e (ground arith) in (f, under_panicked w, t)
]

in_chain_self : (p : Err → Bool) (e : Err) → p e ≡ true → in_chain p e ≡ true
unfolding in_chain
in_chain_self p (plain s) h = h
in_chain_self p _ h = ground arith

in_chain_complete : (p : Err → Bool) {e f : Err} → Wraps e f → p f ≡ true → in_chain p e ≡ true
unfolding in_chain
in_chain_complete p (itself {e = e}) h = in_chain_self p e h
in_chain_complete p (under_text {s = s} {e = e} w) h = ground (arith, in_chain_complete p w h)
in_chain_complete p (under_non_retryable {e = e} w) h = ground (arith, in_chain_complete p w h)
in_chain_complete p (under_interrupted {e = e} w) h = ground (arith, in_chain_complete p w h)
in_chain_complete p (under_panicked {e = e} w) h = ground (arith, in_chain_complete p w h)

-- A possibly nil error carries a mark if it wraps an error that has it.
abbrev pub Marked : (Err → Bool) → MaybeErr → Type 0
Marked p m = (e : Err) × (m ≡ some e) × (f : Err) × Wraps e f × (p f ≡ true)

pub matches_iff : (p : Err → Bool) (m : MaybeErr) → (matches p m ≡ true) ↔ Marked p m
unfolding matches
matches_iff p none = (λ h. cc, λ (e, q, f, w, h). cc)
matches_iff p (some e) = (
  λ h. let (f, w, t) = in_chain_sound p e h in (e, refl, f, w, t),
  λ (x, q, f, w, h). in_chain_complete p (subst (λ y. Wraps y f) (ground arith) w) h,
)

cases_of_classify :
    (e : Err) (cause : MaybeErr)
    → let o = classify_error (some e) cause in
      let cancel = is_cancel_requested cause || is_cancel_requested (some e) in
      let stop = is_interrupted (some e) || is_interrupted cause in
      ((o ≡ outcome_cancelled) ↔ (cancel ≡ true))
      × ((o ≡ outcome_interrupted) ↔ ((cancel ≡ false) × (stop ≡ true)))
      × ((o ≡ outcome_failed)
          ↔ ((cancel ≡ false) × (stop ≡ false) × (is_non_retryable (some e) ≡ true)))
      × ((o ≡ outcome_retryable)
          ↔ ((cancel ≡ false) × (stop ≡ false) × (is_non_retryable (some e) ≡ false)))
unfolding classify_error
cases_of_classify e cause = ground arith

not-Marked_iff : (p : Err → Bool) (m : MaybeErr) → (matches p m ≡ false) ↔ (¬ Marked p m)
not-Marked_iff p m = (
  λ h k. cc ((matches_iff p m).1 k),
  λ h. elim (Bool-cases (matches p m)) [ inl t ↦ absurd (h ((matches_iff p m).0 t)) | inr f ↦ f ],
)

-- A cancellation was asked for, or the worker is shutting down.
abbrev pub CancelSeen : Err → MaybeErr → Type 0
CancelSeen e cause = Marked tags_cancel_requested cause ⊎ Marked tags_cancel_requested (some e)

abbrev pub StopSeen : Err → MaybeErr → Type 0
StopSeen e cause = Marked tags_interrupted (some e) ⊎ Marked tags_interrupted cause

module _ (p : Err → Bool) (m n : MaybeErr) where
  either_true : (matches p m || matches p n ≡ true) ↔ (Marked p m ⊎ Marked p n)
  either_true = (
    λ h. elim (Bool-cases (matches p m)) [
      | inl t ↦ inl ((matches_iff p m).0 t)
      | inr f ↦ inr ((matches_iff p n).0 (ground arith))
    ],
    elim [
      | inl k ↦ ground (arith, (matches_iff p m).1 k)
      | inr k ↦ ground (arith, (matches_iff p n).1 k)
    ],
  )

  either_false : (matches p m || matches p n ≡ false) ↔ (¬ (Marked p m ⊎ Marked p n))
  either_false = (
    λ h k. cc (either_true.1 k),
    λ h. elim (Bool-cases (matches p m || matches p n)) [
      | inl t ↦ absurd (h (either_true.0 t))
      | inr f ↦ f
    ],
  )

-- How the error of an attempt is routed, by what the error and the cancellation cause wrap: a
-- requested cancellation comes before a shutdown, a shutdown before a permanent failure, and an
-- error with none of these marks is retryable. A nil error is a completion.
pub classify_routes :
    (e : Err) (cause : MaybeErr)
    → let o = classify_error (some e) cause in
      let cancel = CancelSeen e cause in
      let stop = StopSeen e cause in
      let permanent = Marked tags_non_retryable (some e) in
      ((o ≡ outcome_cancelled) ↔ cancel)
      × ((o ≡ outcome_interrupted) ↔ ((¬ cancel) × stop))
      × ((o ≡ outcome_failed) ↔ ((¬ cancel) × (¬ stop) × permanent))
      × ((o ≡ outcome_retryable) ↔ ((¬ cancel) × (¬ stop) × (¬ permanent)))
      × (classify_error none cause ≡ outcome_completed)
unfolding classify_error is_cancel_requested is_interrupted is_non_retryable
classify_routes e cause =
    let r = cases_of_classify e cause in
    let c1 = either_true tags_cancel_requested cause (some e) in
    let c0 = either_false tags_cancel_requested cause (some e) in
    let s1 = either_true tags_interrupted (some e) cause in
    let s0 = either_false tags_interrupted (some e) cause in
    let n1 = matches_iff tags_non_retryable (some e) in
    let n0 = not-Marked_iff tags_non_retryable (some e) in
    (
      (λ h. c1.0 (r.0.0 h), λ k. r.0.1 (c1.1 k)),
      (λ h. let (a, b) = r.1.0 h in (c0.0 a, s1.0 b), λ (a, b). r.1.1 (c0.1 a, s1.1 b)),
      (
        λ h. let (a, b, c) = r.2.0 h in (c0.0 a, s0.0 b, n1.0 c),
        λ (a, b, c). r.2.1 (c0.1 a, s0.1 b, n1.1 c),
      ),
      (
        λ h. let (a, b, c) = r.3.0 h in (c0.0 a, s0.0 b, n0.0 c),
        λ (a, b, c). r.3.1 (c0.1 a, s0.1 b, n0.1 c),
      ),
      refl,
    )

-- Adding context with %w to an error, or containing it as a panic, never changes its route.
pub classify-wrapped :
    (s : Bytes) (e : Err) (cause : MaybeErr)
    → (classify_error (some (wrapped s e)) cause ≡ classify_error (some e) cause)
      × (classify_error (some (panicked e)) cause ≡ classify_error (some e) cause)
unfolding classify_error is_cancel_requested is_interrupted is_non_retryable is_deadline_exceeded
    matches in_chain
classify-wrapped s e cause = (refl, refl)
