-- ===== src/Article/Tokens.antt =====
-- internal/handlers/articleanalysis/analyzer.go: what the tokens of a text are.
use calligraphy.Base.{
  All, All-append, ℕ, ◌≡◌, ◌≢◌, sym, ap, ◌∙◌, inl, inr, [], ◌∷◌, ◌++◌, true, false, not, ◌&&◌,
  if◌then◌else◌, Bool-cases, append_nil, append_assoc, arith,
}
use calligraphy.Article.Text.{Runes, Unicode, is_empty}
use calligraphy.Article.Words.{is_mark, is_word, emit, scan_words, tokenize}
use calligraphy.Article.Pieces.{
  flatten, flatten-append, flatten_one, flatten-nil, without, without-nil, without-append,
  without_snoc, without-trim_right, StartsClear, EndsClear, trim_right-EndsClear, trim_right_clear,
  StartsClear-snoc,
}

-- What the tables of package unicode say of an apostrophe and a hyphen: they are neither letters nor
-- digits, and no lower case of these.
pub record SparesMarks (u : Unicode) : Type 0 where
  pub no_word : (c : ℕ) → is_mark c ≡ true → is_word u c ≡ false
  pub no_lower : (c : ℕ) → is_word u c ≡ true → is_mark (u.to_lower c) ≡ false

-- The letters and digits of a text, in lower case.
pub lowered : Unicode → Runes → Runes
lowered u [] = []
lowered u (c ∷ cs) = if is_word u c then u.to_lower c ∷ lowered u cs else lowered u cs

abbrev pub IsToken : Runes → Type 0
IsToken w = (w ≢ []) × StartsClear is_mark w × EndsClear is_mark w

abbrev StartsWord : Runes → Type 0
StartsWord cur = StartsClear is_mark cur

module _ (u : Unicode) (s : SparesMarks u) where
  emit-letters : (cur : Runes) → without is_mark (flatten (emit cur)) ≡ without is_mark cur
  emit-letters [] = ap (without is_mark) flatten-nil
  emit-letters (c ∷ cs) = rw flatten_one (without-trim_right is_mark (c ∷ cs))

  scan_words-letters :
      (text cur : Runes)
      → without is_mark (flatten (scan_words u text cur)) ≡ without is_mark cur ++ lowered u text
  unfolding scan_words lowered
  scan_words-letters [] cur = emit-letters cur ∙ sym (append_nil (without is_mark cur))
  scan_words-letters (r ∷ rs) cur = elim (Bool-cases (is_word u r)) [
    | inl e ↦
        rw
          (
            e,
            scan_words-letters rs (cur ++ u.to_lower r ∷ []),
            without_snoc is_mark cur,
            s.no_lower r e,
          )
          (append_assoc (without is_mark cur) (u.to_lower r ∷ []) (lowered u rs))
    | inr e ↦ elim (Bool-cases (is_mark r && not (is_empty cur))) [
      | inl k ↦
          let m : is_mark r ≡ true = ground arith in
          rw (e, k, scan_words-letters rs (cur ++ r ∷ []), without_snoc is_mark cur, m)
            (append_assoc (without is_mark cur) [] (lowered u rs))
      | inr k ↦ rw (
        e,
        k,
        flatten-append (emit cur),
        without-append is_mark,
        emit-letters cur,
        scan_words-letters rs [],
        without-nil,
      )
    ]
  ]

  emit-Tokens : (cur : Runes) → StartsWord cur → All IsToken (emit cur)
  emit-Tokens [] w = tt
  emit-Tokens (c ∷ cs) w =
      let kept = trim_right_clear is_mark c cs w in
      ((λ e. cc (kept, e), rw kept w, trim_right-EndsClear is_mark (c ∷ cs)), tt)

  scan_words-Tokens : (text cur : Runes) → StartsWord cur → All IsToken (scan_words u text cur)
  unfolding scan_words
  scan_words-Tokens [] cur w = emit-Tokens cur w
  scan_words-Tokens (r ∷ rs) cur w = elim (Bool-cases (is_word u r)) [
    | inl e ↦
        let clear : is_empty cur && is_mark (u.to_lower r) ≡ false =
          ground (arith, s.no_lower r e) in
        rw e (
          scan_words-Tokens rs (cur ++ u.to_lower r ∷ [])
            (StartsClear-snoc is_mark cur (u.to_lower r) w clear))
    | inr e ↦ elim (Bool-cases (is_mark r && not (is_empty cur))) [
      | inl k ↦
          rw (e, k)
            (scan_words-Tokens rs (cur ++ r ∷ []) (StartsClear-snoc is_mark cur r w (ground arith)))
      | inr k ↦
          rw (e, k)
            (All-append IsToken (emit cur) (scan_words u rs []) (emit-Tokens cur w)
              (scan_words-Tokens rs [] tt))
    ]
  ]

  -- The tokens of a text hold exactly its letters and digits, in lower case and in their order; none
  -- is lost, doubled or made up. A token is not empty, and no apostrophe or hyphen stands at its
  -- start or its end.
  pub tokenize-letters :
      (text : Runes)
      → (without is_mark (flatten (tokenize u text)) ≡ lowered u text)
        × All IsToken (tokenize u text)
  unfolding tokenize
  tokenize-letters text = (
    scan_words-letters text [] ∙ ap (λ t. t ++ lowered u text) (without-nil is_mark),
    scan_words-Tokens text [] tt,
  )
