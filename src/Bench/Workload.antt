-- ===== src/Bench/Workload.antt =====
-- internal/handlers/bench/bench.go: how soon the chain stops, and which failures repeat.
use calligraphy.Base.{
  ℕ, zero, suc, ◌+◌, ◌-◌, ◌%◌, ◌≤◌, ◌<◌, ◌≡◌, refl, ◌⊎◌, inl, inr, Bool, true, false, Option, none,
  some, is_some, ◌==◌, Result, ok, err, Bool-cases, Option-cases, arith,
}
use calligraphy.Job.Errors.{Bytes, Err, is_non_retryable, matches}
use calligraphy.Bench.{Text, Done, FlakyPayload, handle_flaky, chain}

-- The context stays done.
abbrev pub Stays : (ℕ → Option Err) → ℕ → Type 0
Stays done k = (i : ℕ) → k ≤ i → is_some (done i) ≡ true

module _ (sha : Bytes → Bytes) (done : ℕ → Option Err) where
  -- One round: it stops where it sees that the context is done.
  chain_step :
      (n i : ℕ) (sum : Bytes)
      → ((chain sha done (suc n) i sum).1 ≡ suc i)
        ⊎ ((chain sha done (suc n) i sum).1 ≡ (chain sha done n (suc i) (sha sum)).1)
          × ((i % 50000 ≡ 0) → done i ≡ none)
  unfolding chain
  chain_step n i sum = elim (Bool-cases (i % 50000 == 0)) [
    | inr e ↦ inr (grind (arith, e), (λ z. absurd (ground (arith, e, z))))
    | inl e ↦ elim (Option-cases (done i)) [
      | inl d ↦ inr (grind (arith, e, d), (λ z. d))
      | inr (x, d) ↦ inl (grind (arith, e, d))
    ]
  ]

  chain-nil : (i : ℕ) (sum : Bytes) → (chain sha done zero i sum).1 ≡ i
  unfolding chain
  chain-nil i sum = refl

  -- From a round at which the context is done, the next look ends it.
  chain_behind :
      (k n i : ℕ) (sum : Bytes)
      → Stays done k
      → k ≤ i
      → (chain sha done n i sum).1 ≤ i + (50000 - i % 50000) % 50000 + 1
  chain_behind k zero i sum h l = omega (arith, chain-nil i sum)
  chain_behind k (suc n) i sum h l = elim (chain_step n i sum) [
    | inl e ↦ omega arith
    | inr (e, look) ↦ elim (Bool-cases (i % 50000 == 0)) [
      | inl z ↦ absurd (grind (arith, look (ground (arith, z)), h i l))
      | inr z ↦
          let rest = chain_behind k n (suc i) (sha sum) h (omega arith) in
          let off : 0 < i % 50000 = ground (arith, z) in omega arith
    ]
  ]

  -- A chain whose context is done from round `k` on computes at most 50000 rounds more.
  pub chain_stops :
      (k n i : ℕ) (sum : Bytes) → Stays done k → i ≤ k → (chain sha done n i sum).1 ≤ k + 50000
  chain_stops k zero i sum h l = omega (arith, chain-nil i sum)
  chain_stops k (suc n) i sum h l = elim (Bool-cases (i == k)) [
    | inl e ↦
        let same : i ≡ k = ground (arith, e) in
        omega (arith, chain_behind k (suc n) i sum h (omega arith))
    | inr e ↦
        let lt : i < k = ground (arith, e) in
        elim (chain_step n i sum) [
          | inl s ↦ omega arith
          | inr (s, look) ↦ omega (arith, chain_stops k n (suc i) (sha sum) h (omega arith))
        ]
  ]

abbrev pub permanent : Result Err Done → Bool
permanent (ok d) = false
permanent (err e) = is_non_retryable (some e)

-- While the context does not end, a job fails for good at every attempt or at none.
pub flaky_repeats :
    {Rate : Type 0} (text : Text → Bytes) (below : ℕ → Rate → Bool) (id : Bytes)
    (p : FlakyPayload Rate) (m n : ℕ)
    → permanent (handle_flaky text below none id m (ok p))
      ≡ permanent (handle_flaky text below none id n (ok p))
unfolding handle_flaky is_non_retryable matches
flaky_repeats text below id p m n = ground arith
