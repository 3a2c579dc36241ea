-- ===== src/Article/Picks.antt =====
-- internal/handlers/articleanalysis/analyzer.go: what a range over the votes picks.
use calligraphy.Base.{
  ℕ, ◌≤◌, ◌<◌, ◌≡◌, refl, sym, ap, ◌∙◌, subst, ◌⊎◌, inl, inr, List, [], ◌∷◌, ltb, Bool-cases, arith,
}
use calligraphy.Article.Language.{Language, pick}

abbrev pub In : Language → List Language → Type 0
In l [] = ⊥
In l (m ∷ ms) = (l ≡ m) ⊎ In l ms

-- The best of the languages that were visited, or what stood before.
abbrev pub Best : (Language → ℕ) → List Language → Language × ℕ → Language × ℕ → Type 0
Best score order (best, n) (b, m) =
    (n ≤ m)
    × ((l : Language) → In l order → score l ≤ m)
    × (((b ≡ best) × (m ≡ n)) ⊎ (In b order × (m ≡ score b) × (n < m)))

module _ (score : Language → ℕ) where
  Best-cons :
      (k : Language) (order : List Language) (best : Language) (n : ℕ) (r : Language × ℕ)
      → n < score k
      → Best score order (k, score k) r
      → Best score (k ∷ order) (best, n) r
  Best-cons k order best n (b, m) lt (up, top, inl (e, f)) = (
    omega arith,
    (λ l. elim [ inl q ↦ rw q (omega arith) | inr h ↦ top l h ]),
    inr (inl e, f ∙ ap score (sym e), omega arith),
  )
  Best-cons k order best n (b, m) lt (up, top, inr (i, f, g)) = (
    omega arith,
    (λ l. elim [ inl q ↦ rw q (omega arith) | inr h ↦ top l h ]),
    inr (inr i, f, omega arith),
  )

  Best-skip :
      (k : Language) (order : List Language) (best : Language) (n : ℕ) (r : Language × ℕ)
      → score k ≤ n
      → Best score order (best, n) r
      → Best score (k ∷ order) (best, n) r
  Best-skip k order best n (b, m) le (up, top, inl (e, f)) =
      (up, (λ l. elim [ inl q ↦ rw q (omega arith) | inr h ↦ top l h ]), inl (e, f))
  Best-skip k order best n (b, m) le (up, top, inr (i, f, g)) =
      (up, (λ l. elim [ inl q ↦ rw q (omega arith) | inr h ↦ top l h ]), inr (inr i, f, g))

  pub pick-cons :
      (k : Language) (order : List Language) (best : Language) (n : ℕ)
      → ((n < score k) × (pick score (k ∷ order) (best, n) ≡ pick score order (k, score k)))
        ⊎ ((score k ≤ n) × (pick score (k ∷ order) (best, n) ≡ pick score order (best, n)))
  unfolding pick
  pick-cons k order best n = elim (Bool-cases (ltb n (score k))) [
    | inl e ↦ inl (ground (arith, e), ground (arith, e))
    | inr e ↦ inr (ground (arith, e), ground (arith, e))
  ]

  pick-nil : (best : Language) (n : ℕ) → pick score [] (best, n) ≡ (best, n)
  unfolding pick
  pick-nil best n = refl

  pub pick-Best :
      (order : List Language) (best : Language) (n : ℕ)
      → Best score order (best, n) (pick score order (best, n))
  pick-Best [] best n =
      subst (Best score [] (best, n)) (sym (pick-nil best n))
        (omega arith, (λ l h. absurd h), inl (refl, refl))
  pick-Best (k ∷ order) best n = elim (pick-cons k order best n) [
    | inl (lt, e) ↦
        subst (Best score (k ∷ order) (best, n)) (sym e) (
          Best-cons k order best n (pick score order (k, score k)) lt (pick-Best order k (score k)))
    | inr (le, e) ↦
        subst (Best score (k ∷ order) (best, n)) (sym e)
          (Best-skip k order best n (pick score order (best, n)) le (pick-Best order best n))
  ]
