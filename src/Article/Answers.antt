-- ===== src/Article/Answers.antt =====
-- internal/handlers/articleanalysis/handler.go: what the handler answers.
use calligraphy.Base.{
  ℕ, suc, ◌≤◌, ◌≡◌, refl, ap, sym, ◌⊎◌, subst, inl, inr, List, [], ◌∷◌, Bool, true, false, Option,
  none, some, if◌then◌else◌, length, Result, ok, err, arith,
}
use calligraphy.Job.Errors.{Bytes, Err, plain, non_retryable, is_non_retryable, matches}
use calligraphy.Article.Text.{Runes, Unicode, is_empty, split_sentences}
use calligraphy.Article.Words.{tokenize}
use calligraphy.Article.Ranking.{Floats}
use calligraphy.Article.Keywords.{or_default, keyword_text_rank-AreKeywords}
use calligraphy.Article.Excerpt.{summary-InOrder}
use calligraphy.Article.Places.{excerpt}
use calligraphy.Article.Handle.{
  Payload, capped, Orders, Analysis, analysis_of, analyze, Libraries, sent, encode, unless_done,
  after_parse, handle,
}

capped-summary : (n : ℕ) → or_default (capped 3 10 n) 3 ≤ 10
unfolding capped
capped-summary n = ground arith

capped-keywords : (n : ℕ) → or_default (capped 10 50 n) 10 ≤ 50
unfolding capped
capped-keywords n = ground arith

length-excerpt : (ss : List Runes) (is : List ℕ) → length (excerpt ss is) ≡ length is
length-excerpt ss [] = refl
length-excerpt ss (i ∷ is) = ap suc (length-excerpt ss is)

module _ (fl : Floats) (o : Orders fl) (u : Unicode) where
  -- What is encoded is bounded; if nothing is, the error is permanent, unless it is the context's.
  abbrev pub Answer : Option Err → Option (Analysis fl o u) → Result Err Bytes → Type 0
  Answer ctx_err none (ok out) = ⊥
  Answer ctx_err none (err e) = (is_non_retryable (some e) ≡ true) ⊎ (ctx_err ≡ some e)
  Answer ctx_err (some a) r = (length a.keywords ≤ 50) × (length a.summary ≤ 10)

  abbrev Answers : Option Err → Option (Option (Analysis fl o u) × Result Err Bytes) → Type 0
  Answers ctx_err none = ⊥
  Answers ctx_err (some (enc, r)) = Answer ctx_err enc r

  analysis_bounded :
      (text : Runes) (k n : ℕ)
      → or_default k 10 ≤ 50
      → or_default n 3 ≤ 10
      → (a : Analysis fl o u) × (analyze fl o u text k n ≡ some a)
        × (length a.keywords ≤ 50)
        × (length a.summary ≤ 10)
  unfolding analyze
  analysis_bounded text k n hk hn =
      let ss = split_sentences u text in
      let (is, same, ordered, number) = summary-InOrder fl o.edges u ss n (omega arith) in
      let (are, differ, count) = keyword_text_rank-AreKeywords fl o.edges u (tokenize u text) k in
      (
        analysis_of fl o u text k (excerpt ss is),
        ground (arith, same),
        omega arith,
        omega (arith, length-excerpt ss is),
      )

  sent-Answer :
      (lib : Libraries fl o u) (ctx_err : Option Err) (a : Analysis fl o u) (r : Result Err Bytes)
      → (length a.keywords ≤ 50) × (length a.summary ≤ 10)
      → Answer ctx_err (sent fl o u lib a r).0 (sent fl o u lib a r).1
  sent-Answer lib ctx_err a (ok out) h = h
  sent-Answer lib ctx_err a (err e) h = h

  unless_done-Answers :
      (lib : Libraries fl o u) (elapsed : ℕ) (p : Payload) (ctx_err : Option Err)
      → Answers ctx_err (unless_done fl o u lib elapsed p ctx_err)
  unless_done-Answers lib elapsed p (some e) = inr refl
  unless_done-Answers lib elapsed p none =
      let (a, same, kws, lines) =
        analysis_bounded p.text (capped 10 50 p.top_keywords) (capped 3 10 p.summary_sentences)
          (capped-keywords p.top_keywords) (capped-summary p.summary_sentences) in
      subst (λ x. Answers none (encode fl o u lib p.article_id elapsed x)) (sym same)
        (sent-Answer lib none a (lib.marshal p.article_id a elapsed) (kws, lines))

  after_parse-Answers :
      (lib : Libraries fl o u) (ctx_err : Option Err) (elapsed : ℕ) (r : Result Err Payload)
      → Answers ctx_err (after_parse fl o u lib ctx_err elapsed r)
  unfolding is_non_retryable matches
  after_parse-Answers lib ctx_err elapsed (err e) = inl refl
  after_parse-Answers lib ctx_err elapsed (ok p) = on_text (is_empty p.text)
    where
      on_text :
          (b : Bool)
          → Answers ctx_err (
              if b
              then some (none, err (non_retryable (plain lib.text_required)))
              else unless_done fl o u lib elapsed p ctx_err)
      on_text true = inl refl
      on_text false = unless_done-Answers lib elapsed p ctx_err

  answered :
      (ctx_err : Option Err) (x : Option (Option (Analysis fl o u) × Result Err Bytes))
      → Answers ctx_err x
      → (enc : Option (Analysis fl o u)) × (r : Result Err Bytes) × (x ≡ some (enc, r))
        × Answer ctx_err enc r
  answered ctx_err none h = absurd h
  answered ctx_err (some (enc, r)) h = (enc, r, refl, h)

  -- The handler never panics, whatever the payload asks for. It encodes an analysis with at most 50
  -- keywords and at most 10 sentences of a summary; or it encodes none and fails, for good unless
  -- the error is that of the context.
  pub handle_bounded :
      (lib : Libraries fl o u) (ctx_err : Option Err) (elapsed : ℕ) (payload : Bytes)
      → (enc : Option (Analysis fl o u)) × (r : Result Err Bytes) × (handle fl o u lib ctx_err
            elapsed payload
          ≡ some (enc, r))
        × Answer ctx_err enc r
  unfolding handle
  handle_bounded lib ctx_err elapsed payload =
      answered ctx_err (handle fl o u lib ctx_err elapsed payload)
        (after_parse-Answers lib ctx_err elapsed (lib.unmarshal payload))
