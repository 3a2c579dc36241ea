-- ===== src/Article/Sentences.antt =====
-- internal/handlers/articleanalysis/analyzer.go: what the sentences of a text are.
use calligraphy.Base.{
  All, All-append, ℕ, zero, suc, ◌≤◌, ◌≡◌, ◌≢◌, refl, sym, ap, ◌∙◌, inl, inr, [], ◌∷◌, ◌++◌, true,
  length, Bool-cases, append_nil, append_assoc, arith,
}
use calligraphy.Article.Text.{
  Runes, Unicode, is_empty, trim, is_end, ends, after_ends, ends_here, flush, scan_sentences,
  split_sentences,
}
use calligraphy.Article.Pieces.{
  flatten, flatten-append, flatten_one, flatten-nil, without, without-nil, without-append,
  without-trim, StartsClear, EndsClear, trim_ends,
}

ends-append : (cs : Runes) → ends cs ++ after_ends cs ≡ cs
unfolding ends after_ends
ends-append [] = refl
ends-append (c ∷ cs) = grind (arith, ends-append cs)

length-after_ends : (cs : Runes) → length (after_ends cs) ≤ length cs
unfolding after_ends
length-after_ends [] = omega arith
length-after_ends (c ∷ cs) = grind (arith, length-after_ends cs)

pub empty-nil : (cs : Runes) → is_empty cs ≡ true → cs ≡ []
empty-nil [] h = refl
empty-nil (c ∷ cs) h = absurd (ground arith)

module _ (u : Unicode) where
  abbrev pub ink : Runes → Runes
  ink cs = without u.is_space cs

  flush-ink : (cur : Runes) → ink (flatten (flush u cur)) ≡ ink cur
  flush-ink cur = elim (Bool-cases (is_empty (trim u.is_space cur))) [
    | inl e ↦
        rw (e, flatten-nil)
          (ap ink (sym (empty-nil (trim u.is_space cur) e)) ∙ without-trim u.is_space cur)
    | inr e ↦ rw (e, flatten_one) (without-trim u.is_space cur)
  ]

  -- The text so far, and what is behind the run of terminators.
  run-ink :
      (r : ℕ) (rs cur : Runes)
      → ink (cur ++ r ∷ ends rs) ++ ink (after_ends rs) ≡ ink cur ++ ink (r ∷ rs)
  run-ink r rs cur =
      sym (without-append u.is_space (cur ++ r ∷ ends rs) (after_ends rs))
      ∙ ap ink
          (append_assoc cur (r ∷ ends rs) (after_ends rs) ∙ ap (λ t. cur ++ r ∷ t) (ends-append rs))
      ∙ without-append u.is_space cur (r ∷ rs)

  scan_sentences-ink :
      (fuel : ℕ) (rest cur : Runes)
      → ink (flatten (scan_sentences u fuel rest cur)) ≡ ink cur ++ ink rest
  unfolding scan_sentences
  scan_sentences-ink zero rest cur = flush-ink (cur ++ rest) ∙ without-append u.is_space cur rest
  scan_sentences-ink (suc fuel) [] cur =
      flush-ink cur
      ∙ sym (append_nil (ink cur))
      ∙ ap (λ t. ink cur ++ t) (sym (without-nil u.is_space))
  scan_sentences-ink (suc fuel) (r ∷ rs) cur = elim (Bool-cases (is_end r)) [
    | inr e ↦
        rw (e, scan_sentences-ink fuel rs (cur ++ r ∷ []), without-append u.is_space cur (r ∷ []))
          (append_assoc (ink cur) (ink (r ∷ [])) (ink rs)
            ∙ ap (λ t. ink cur ++ t) (sym (without-append u.is_space (r ∷ []) rs)))
    | inl e ↦ elim (Bool-cases (ends_here u r (cur ++ r ∷ ends rs) (after_ends rs))) [
      | inl k ↦
          rw
            (
              e,
              k,
              flatten-append,
              without-append u.is_space (flatten (flush u (cur ++ r ∷ ends rs))),
              flush-ink,
              scan_sentences-ink fuel (after_ends rs) [],
              without-nil,
            )
            (run-ink r rs cur)
      | inr k ↦
          rw (e, k, scan_sentences-ink fuel (after_ends rs) (cur ++ r ∷ ends rs)) (run-ink r rs cur)
    ]
  ]

  -- Fuel for each character is enough: more changes nothing.
  scan_sentences_fuel :
      (fuel : ℕ) (rest cur : Runes)
      → length rest ≤ fuel
      → scan_sentences u (suc fuel) rest cur ≡ scan_sentences u fuel rest cur
  unfolding scan_sentences
  scan_sentences_fuel zero [] cur h = ap (flush u) (sym (append_nil cur))
  scan_sentences_fuel zero (r ∷ rs) cur h = absurd (omega arith)
  scan_sentences_fuel (suc fuel) [] cur h = refl
  scan_sentences_fuel (suc fuel) (r ∷ rs) cur h =
      let behind : length (after_ends rs) ≤ fuel = omega (arith, length-after_ends rs) in
      ground (
        arith,
        scan_sentences_fuel fuel rs (cur ++ r ∷ []),
        scan_sentences_fuel fuel (after_ends rs) [],
        scan_sentences_fuel fuel (after_ends rs) (cur ++ r ∷ ends rs),
      )

  abbrev pub IsTrimmed : Runes → Type 0
  IsTrimmed s = (s ≢ []) × StartsClear u.is_space s × EndsClear u.is_space s

  flush-Trimmed : (cur : Runes) → All IsTrimmed (flush u cur)
  flush-Trimmed cur = elim (Bool-cases (is_empty (trim u.is_space cur))) [
    | inl e ↦ rw e tt
    | inr e ↦
        let (starts, stops) = trim_ends u.is_space cur in
        rw e (((λ n. absurd (grind (arith, n, e))), starts, stops), tt)
  ]

  scan_sentences-Trimmed :
      (fuel : ℕ) (rest cur : Runes) → All IsTrimmed (scan_sentences u fuel rest cur)
  unfolding scan_sentences
  scan_sentences-Trimmed zero rest cur = flush-Trimmed (cur ++ rest)
  scan_sentences-Trimmed (suc fuel) [] cur = flush-Trimmed cur
  scan_sentences-Trimmed (suc fuel) (r ∷ rs) cur = elim (Bool-cases (is_end r)) [
    | inr e ↦ rw e (scan_sentences-Trimmed fuel rs (cur ++ r ∷ []))
    | inl e ↦ elim (Bool-cases (ends_here u r (cur ++ r ∷ ends rs) (after_ends rs))) [
      | inl k ↦
          rw (e, k)
            (All-append IsTrimmed (flush u (cur ++ r ∷ ends rs))
              (scan_sentences u fuel (after_ends rs) []) (flush-Trimmed (cur ++ r ∷ ends rs))
              (scan_sentences-Trimmed fuel (after_ends rs) []))
      | inr k ↦ rw (e, k) (scan_sentences-Trimmed fuel (after_ends rs) (cur ++ r ∷ ends rs))
    ]
  ]

  -- The sentences of a text are the text, up to white space: no other character is lost, doubled,
  -- made up or moved, wherever the sentences are taken to end. None is empty, and none starts or
  -- ends with white space.
  pub split_sentences-ink :
      (text : Runes)
      → (without u.is_space (flatten (split_sentences u text)) ≡ without u.is_space text)
        × All IsTrimmed (split_sentences u text)
  unfolding split_sentences
  split_sentences-ink text = (
    scan_sentences-ink (length text) text [] ∙ ap (λ t. t ++ ink text) (without-nil u.is_space),
    scan_sentences-Trimmed (length text) text [],
  )
