-- ===== src/Article/Keywords.antt =====
-- internal/handlers/articleanalysis/analyzer.go: the keywords of a text.
use calligraphy.Base.{
  All, All-append, All-imp, Pairwise, length-sort_by, sort_by, sort_by-All, sort_by-Pairwise,
  take-All, take-Pairwise, text_lt, ℕ, suc, ◌≡◌, ◌≢◌, refl, ap, sym, ◌∙◌, inl, inr, min, List, [],
  ◌∷◌, ◌++◌, Bool, true, not, Option, none, if◌then◌else◌, slt, length, take, length-take,
  Bool-cases, Option-cases, same_bytes, same_bytes_refl, arith,
}
use calligraphy.Article.Text.{Runes, Unicode}
use calligraphy.Article.Words.{bytes_of}
use calligraphy.Article.Language.{has}
use calligraphy.Article.Ranking.{Floats, Row, pagerank, length-pagerank}
use calligraphy.Article.Graph.{Graph, is_candidate, id_of, index_words, link_all, no_edges}

abbrev pub or_default : ℕ → ℕ → ℕ
or_default n default = if slt 0 n then n else default

module _ (fl : Floats) where
  open fl use {F, of_ℕ, eq, lt, round4}

  pub record Keyword : Type 0 where
    pub term : Runes
    pub score : F

  abbrev pub float_row : List (ℕ × ℕ) → Row fl
  float_row [] = []
  float_row ((i, w) ∷ row) = (i, of_ℕ w) ∷ float_row row

  -- The rows of the nodes `i`, `i + 1`, …, one for each word.
  unfoldable pub rows_of : Graph → ℕ → List Runes → List (Row fl)
  rows_of g i [] = []
  rows_of g i (v ∷ vs) = float_row (g i) ∷ rows_of g (suc i) vs

  unfoldable pub pair_up : List Runes → List F → List Keyword
  pair_up (v ∷ vs) (r ∷ rs) = record { term = v; score = r } ∷ pair_up vs rs
  pair_up _ _ = []

  unfoldable pub before : Keyword → Keyword → Bool
  unfolding text_lt
  before a b =
      if not (eq a.score b.score)
      then lt b.score a.score
      else text_lt (bytes_of a.term) (bytes_of b.term)

  abbrev pub rounded : List Keyword → List Keyword
  rounded [] = []
  rounded (k ∷ ks) = record k { score = round4 k.score } ∷ rounded ks

  abbrev pub ranked : (Row fl → Row fl) → ℕ → List Runes × List (Option ℕ) → List Keyword
  ranked visit top_k (vocab, seq) =
      let rank = pagerank fl visit (rows_of (link_all seq no_edges) 0 vocab) 30 in
      rounded (take (or_default top_k 10) (sort_by before (pair_up vocab rank)))

  unfoldable pub keyword_text_rank : (Row fl → Row fl) → Unicode → List Runes → ℕ → List Keyword
  unfolding rows_of pair_up before
  keyword_text_rank visit u words top_k = ranked visit top_k (index_words u words [])

  abbrev pub DifferentTerms : Keyword → Keyword → Type 0
  DifferentTerms a b = a.term ≢ b.term

  length-rows_of : (g : Graph) (i : ℕ) (vs : List Runes) → length (rows_of g i vs) ≡ length vs
  unfolding rows_of
  length-rows_of g i [] = refl
  length-rows_of g i (v ∷ vs) = ap suc (length-rows_of g (suc i) vs)

  length-pair_up :
      (vs : List Runes) (rs : List F) → length rs ≡ length vs → length (pair_up vs rs) ≡ length vs
  unfolding pair_up
  length-pair_up [] [] h = refl
  length-pair_up [] (r ∷ rs) h = refl
  length-pair_up (v ∷ vs) [] h = absurd (omega arith)
  length-pair_up (v ∷ vs) (r ∷ rs) h = ap suc (length-pair_up vs rs (omega arith))

  length-rounded : (ks : List Keyword) → length (rounded ks) ≡ length ks
  length-rounded [] = refl
  length-rounded (k ∷ ks) = ap suc (length-rounded ks)

  module _ (P : Runes → Type 0) where
    abbrev pub OfTerm : Keyword → Type 0
    OfTerm k = P k.term

    pair_up-All : (vs : List Runes) (rs : List F) → All P vs → All OfTerm (pair_up vs rs)
    unfolding pair_up
    pair_up-All [] rs h = tt
    pair_up-All (v ∷ vs) [] h = tt
    pair_up-All (v ∷ vs) (r ∷ rs) h = (h.0, pair_up-All vs rs h.1)

    rounded-All : (ks : List Keyword) → All OfTerm ks → All OfTerm (rounded ks)
    rounded-All [] h = tt
    rounded-All (k ∷ ks) h = (h.0, rounded-All ks h.1)

  pair_up-Pairwise :
      (vs : List Runes) (rs : List F)
      → Pairwise (λ a b. a ≢ b) vs
      → Pairwise DifferentTerms (pair_up vs rs)
  unfolding pair_up
  pair_up-Pairwise [] rs w = tt
  pair_up-Pairwise (v ∷ vs) [] w = tt
  pair_up-Pairwise (v ∷ vs) (r ∷ rs) w =
      (pair_up-All (λ t. v ≢ t) vs rs w.0, pair_up-Pairwise vs rs w.1)

  rounded-Pairwise :
      (ks : List Keyword) → Pairwise DifferentTerms ks → Pairwise DifferentTerms (rounded ks)
  rounded-Pairwise [] w = tt
  rounded-Pairwise (k ∷ ks) w = (rounded-All (λ t. k.term ≢ t) ks w.0, rounded-Pairwise ks w.1)

id_of-none : (w : Runes) (vs : List Runes) → id_of w vs ≡ none → All (λ v. v ≢ w) vs
unfolding id_of
id_of-none w [] h = tt
id_of-none w (v ∷ vs) h = elim (Bool-cases (same_bytes w v)) [
  | inl e ↦ absurd (grind (arith, h, e))
  | inr e ↦ (
    (λ q. absurd (cc (e, ap (λ t. same_bytes w t) q, same_bytes_refl w))),
    id_of-none w vs (grind (arith, h, e)),
  )
]

Pairwise-snoc :
    (vs : List Runes) (w : Runes)
    → Pairwise (λ a b. a ≢ b) vs
    → All (λ v. v ≢ w) vs
    → Pairwise (λ a b. a ≢ b) (vs ++ w ∷ [])
Pairwise-snoc [] w p h = (tt, tt)
Pairwise-snoc (v ∷ vs) w p h =
    (All-append (λ t. v ≢ t) vs (w ∷ []) p.0 (h.0, tt), Pairwise-snoc vs w p.1 h.1)

module _ (u : Unicode) (P : Runes → Type 0) where
  -- The vocabulary has candidates of the text only, each once.
  index_words-Vocabulary :
      (ws vocab : List Runes)
      → All (λ w. is_candidate u w ≡ true → P w) ws
      → All P vocab
      → Pairwise (λ a b. a ≢ b) vocab
      → All P (index_words u ws vocab).0 × Pairwise (λ a b. a ≢ b) (index_words u ws vocab).0
  unfolding index_words
  index_words-Vocabulary [] vocab c h p = (h, p)
  index_words-Vocabulary (w ∷ ws) vocab c h p = elim (Bool-cases (is_candidate u w)) [
    | inr e ↦ rw (e, index_words) (index_words-Vocabulary ws vocab c.1 h p)
    | inl e ↦ elim (Option-cases (id_of w vocab)) [
      | inr (i, k) ↦ rw (e, k, index_words) (index_words-Vocabulary ws vocab c.1 h p)
      | inl k ↦
          rw (e, k, index_words)
            (index_words-Vocabulary ws (vocab ++ w ∷ []) c.1
              (All-append P vocab (w ∷ []) h (c.0 e, tt))
              (Pairwise-snoc vocab w p (id_of-none w vocab k)))
    ]
  ]

abbrev pub HasWord : List Runes → Runes → Type 0
HasWord words w = has words w ≡ true

has_own : (words : List Runes) → All (HasWord words) words
has_own [] = tt
has_own (w ∷ ws) = (
  ground (arith, same_bytes_refl w),
  All-imp (HasWord ws) (HasWord (w ∷ ws)) (λ v h. grind (arith, h)) ws (has_own ws),
)

-- What a keyword is: a candidate that stands in the text.
abbrev pub IsKeyword : Unicode → List Runes → Runes → Type 0
IsKeyword u words w = (is_candidate u w ≡ true) × HasWord words w

module _ (fl : Floats) (visit : Row fl → Row fl) (u : Unicode) where
  -- The keywords are words of the text that are candidates, no two alike, and as many as were asked
  -- for, or all the different candidates where there are fewer. This is so whatever the ranks are.
  pub keyword_text_rank-AreKeywords :
      (words : List Runes) (top_k : ℕ)
      → let kws = keyword_text_rank fl visit u words top_k in
        All (OfTerm fl (IsKeyword u words)) kws
        × Pairwise (DifferentTerms fl) kws
        × (length kws ≡ min (or_default top_k 10) (length (index_words u words []).0))
  unfolding keyword_text_rank
  keyword_text_rank-AreKeywords words top_k =
      let own : All (λ w. is_candidate u w ≡ true → IsKeyword u words w) words =
        All-imp (HasWord words) (λ w. is_candidate u w ≡ true → IsKeyword u words w)
          (λ w h c. (c, h)) words (has_own words) in
      let known = index_words-Vocabulary u (IsKeyword u words) words [] own tt tt in
      finish (index_words u words []) known
    where
      finish :
          (x : List Runes × List (Option ℕ))
          → All (IsKeyword u words) x.0 × Pairwise (λ a b. a ≢ b) x.0
          → All (OfTerm fl (IsKeyword u words)) (ranked fl visit top_k x)
            × Pairwise (DifferentTerms fl) (ranked fl visit top_k x)
            × (length (ranked fl visit top_k x) ≡ min (or_default top_k 10) (length x.0))
      finish (vocab, seq) (words_are, differ) =
          let rows = rows_of fl (link_all seq no_edges) 0 vocab in
          let rank = pagerank fl visit rows 30 in
          let pairs = pair_up fl vocab rank in
          let top = or_default top_k 10 in
          let sorted = sort_by (before fl) pairs in
          (
            rounded-All fl (IsKeyword u words) (take top sorted) (
                take-All (OfTerm fl (IsKeyword u words)) top sorted (
                  sort_by-All (before fl) (OfTerm fl (IsKeyword u words)) pairs
                    (pair_up-All fl (IsKeyword u words) vocab rank words_are))),
            rounded-Pairwise fl (take top sorted) (
                take-Pairwise (DifferentTerms fl) top sorted (
                  sort_by-Pairwise (DifferentTerms fl) (λ a b n e. n (sym e)) (before fl) pairs
                    (pair_up-Pairwise fl vocab rank differ))),
            length-rounded fl (take top sorted)
                ∙ length-take top sorted
                ∙ ap (min top) (
                    length-sort_by (before fl) pairs
                    ∙ length-pair_up fl vocab rank (
                        length-pagerank fl visit rows 30
                        ∙ length-rows_of fl (link_all seq no_edges) 0 vocab)),
          )
