-- ===== src/Article/Paragraphs.antt =====
-- internal/handlers/articleanalysis/analyzer.go: what the paragraphs of a text are.
use calligraphy.Base.{
  ℕ, zero, suc, ◌≤◌, ◌≡◌, refl, sym, ap, ◌∙◌, inl, inr, [], ◌∷◌, ◌++◌, true, ◌==◌, some, length,
  Bool-cases, Option-cases, append_nil, append_assoc, arith,
}
use calligraphy.Article.Text.{
  Runes, Unicode, is_empty, trim, is_ws, last_break, match_break, keep_piece, cut_paragraphs,
  split_paragraphs,
}
use calligraphy.Article.Pieces.{
  flatten, flatten-append, flatten_one, flatten-nil, without, without-nil, without-cons,
  without-append, without-trim,
}
use calligraphy.Article.Sentences.{ink, empty-nil}

last_break-length : (cs rest : Runes) → last_break cs ≡ some rest → length rest ≤ length cs
unfolding last_break
last_break-length [] rest e = absurd (ground arith)
last_break-length (c ∷ cs) rest e = elim (Option-cases (last_break cs)) [
  | inl n ↦ grind (arith, n, e)
  | inr (later, n) ↦ grind (arith, n, e, last_break-length cs later n)
]

match_break-length :
    (c : ℕ) (cs rest : Runes) → match_break (c ∷ cs) ≡ some rest → length rest ≤ length cs
unfolding match_break
match_break-length c cs rest e = grind (arith, e, last_break-length cs rest)

module _ (u : Unicode) where
  -- Fuel for each character is enough: more changes nothing.
  cut_paragraphs_fuel :
      (fuel : ℕ) (text cur : Runes)
      → length text ≤ fuel
      → cut_paragraphs u (suc fuel) text cur ≡ cut_paragraphs u fuel text cur
  unfolding cut_paragraphs
  cut_paragraphs_fuel zero [] cur h = ap (keep_piece u) (sym (append_nil cur))
  cut_paragraphs_fuel zero (c ∷ cs) cur h = absurd (omega arith)
  cut_paragraphs_fuel (suc fuel) [] cur h = refl
  cut_paragraphs_fuel (suc fuel) (c ∷ cs) cur h = elim (Option-cases (match_break (c ∷ cs))) [
    | inl e ↦ rw (e, cut_paragraphs) (cut_paragraphs_fuel fuel cs (cur ++ c ∷ []) (omega arith))
    | inr (rest, e) ↦
        rw (e, cut_paragraphs)
          (ap (λ t. keep_piece u cur ++ t)
            (cut_paragraphs_fuel fuel rest [] (omega (arith, match_break-length c cs rest e))))
  ]

  keep_piece-ink : (p : Runes) → ink u (flatten (keep_piece u p)) ≡ ink u p
  keep_piece-ink p = elim (Bool-cases (is_empty (trim u.is_space p))) [
    | inl e ↦
        rw (e, flatten-nil)
          (ap (ink u) (sym (empty-nil (trim u.is_space p) e)) ∙ without-trim u.is_space p)
    | inr e ↦ rw (e, flatten_one)
  ]

  -- unicode.IsSpace knows the white space of ASCII.
  abbrev pub KnowsAscii : Type 0
  KnowsAscii = (c : ℕ) → is_ws c ≡ true → u.is_space c ≡ true

  module _ (known : KnowsAscii) where
    last_break-ink : (cs rest : Runes) → last_break cs ≡ some rest → ink u cs ≡ ink u rest
    unfolding last_break
    last_break-ink [] rest e = absurd (ground arith)
    last_break-ink (c ∷ cs) rest e = elim (Bool-cases (is_ws c)) [
      | inr n ↦ absurd (ground (arith, n))
      | inl w ↦ elim (Option-cases (last_break cs)) [
        | inl n ↦
            let here : cs ≡ rest = ground (arith, n) in
            rw (without-cons u.is_space c cs, known c w) (ap (ink u) here)
        | inr (later, n) ↦
            let here : later ≡ rest = ground (arith, n) in
            rw (without-cons u.is_space c cs, known c w)
              (last_break-ink cs later n ∙ ap (ink u) here)
      ]
    ]

    match_break-ink : (cs rest : Runes) → match_break cs ≡ some rest → ink u cs ≡ ink u rest
    unfolding match_break
    match_break-ink [] rest e = absurd (ground arith)
    match_break-ink (c ∷ cs) rest e =
        let newline : (c == b'\n') ≡ true = ground arith in
        rw (without-cons u.is_space c cs, known c (ground (arith, newline)))
          (last_break-ink cs rest (ground arith))

    cut_paragraphs-ink :
        (fuel : ℕ) (text cur : Runes)
        → ink u (flatten (cut_paragraphs u fuel text cur)) ≡ ink u cur ++ ink u text
    unfolding cut_paragraphs
    cut_paragraphs-ink zero text cur =
        keep_piece-ink (cur ++ text) ∙ without-append u.is_space cur text
    cut_paragraphs-ink (suc fuel) [] cur =
        keep_piece-ink cur
        ∙ sym (append_nil (ink u cur))
        ∙ ap (λ t. ink u cur ++ t) (sym (without-nil u.is_space))
    cut_paragraphs-ink (suc fuel) (c ∷ cs) cur = elim (Option-cases (match_break (c ∷ cs))) [
      | inl e ↦
          rw
            (
              e,
              cut_paragraphs,
              cut_paragraphs-ink fuel cs (cur ++ c ∷ []),
              without-append u.is_space cur (c ∷ []),
            )
            (append_assoc (ink u cur) (ink u (c ∷ [])) (ink u cs)
              ∙ ap (λ t. ink u cur ++ t) (sym (without-append u.is_space (c ∷ []) cs)))
      | inr (rest, e) ↦
          rw
            (
              e,
              cut_paragraphs,
              flatten-append,
              without-append u.is_space (flatten (keep_piece u cur)),
              keep_piece-ink,
              cut_paragraphs-ink fuel rest [],
              without-nil,
            )
            (ap (λ t. ink u cur ++ t) (sym (match_break-ink (c ∷ cs) rest e)))
    ]

    -- The paragraphs of a text are the text, up to white space.
    pub split_paragraphs-ink :
        (text : Runes)
        → without u.is_space (flatten (split_paragraphs u text)) ≡ without u.is_space text
    unfolding split_paragraphs
    split_paragraphs-ink text =
        cut_paragraphs-ink (length text) text []
        ∙ ap (λ t. t ++ ink u text) (without-nil u.is_space)
