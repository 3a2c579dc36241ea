-- ===== src/Article/Summary.antt =====
-- internal/handlers/articleanalysis/analyzer.go: the summary of a text. `none` is a slice out of
-- range.
use calligraphy.Base.{
  sort_by, ℕ, zero, suc, ◌+◌, List, [], ◌∷◌, ◌++◌, Bool, not, ◌&&◌, ◌||◌, Option, none, some,
  if◌then◌else◌, ltb, leb, ◌==◌, length, take,
}
use calligraphy.Article.Text.{Runes, Unicode, is_empty}
use calligraphy.Article.Words.{bytes_of, tokenize}
use calligraphy.Article.Language.{has, stopwords_en}
use calligraphy.Article.Ranking.{Floats, Row, pagerank}
use calligraphy.Article.Keywords.{or_default}

-- The set of the words of a sentence, stopwords and short ones left out.
unfoldable pub add_words : List Runes → List Runes → List Runes
add_words [] set = set
add_words (w ∷ ws) set = add_words ws (
    if not (ltb (length (bytes_of w)) 3) && not (has stopwords_en w || has set w)
    then set ++ w ∷ []
    else set)

unfoldable pub word_sets : Unicode → List Runes → List (List Runes)
unfolding add_words
word_sets u [] = []
word_sets u (s ∷ ss) = add_words (tokenize u s) [] ∷ word_sets u ss

unfoldable pub overlap : List Runes → List Runes → ℕ
overlap [] large = 0
overlap (w ∷ ws) large = (if has large w then 1 else 0) + overlap ws large

-- The smaller set is the one that is gone through.
abbrev pub common : List Runes → List Runes → ℕ
common a b = if ltb (length b) (length a) then overlap b a else overlap a b

abbrev pub sentence_at : List Runes → ℕ → Runes
sentence_at [] i = []
sentence_at (s ∷ ss) zero = s
sentence_at (s ∷ ss) (suc i) = sentence_at ss i

module _ (fl : Floats) where
  open fl use {F, of_ℕ, add, div, log, eq, lt}

  unfoldable pub similarity : List Runes → List Runes → ℕ → F
  similarity a b n =
      div (of_ℕ n)
        (add (log (add (of_ℕ (length a)) (of_ℕ 1))) (log (add (of_ℕ (length b)) (of_ℕ 1))))

  abbrev pub Adjacency : Type 0
  Adjacency = ℕ → Row fl

  abbrev pub put_edge : ℕ → ℕ → F → Adjacency → Adjacency
  put_edge i j w g k = if k == i then g k ++ (j, w) ∷ [] else g k

  -- The sentences behind the one at `i`, from the one at `j`.
  unfoldable pub link_behind : ℕ → List Runes → ℕ → List (List Runes) → Adjacency → Adjacency
  unfolding overlap similarity
  link_behind i a j [] g = g
  link_behind i a j (b ∷ sets) g =
      let n = common a b in
      let w = similarity a b n in
      link_behind i a (suc j) sets
        (if is_empty b || (n == 0) then g else put_edge j i w (put_edge i j w g))

  unfoldable pub link_sentences : ℕ → List (List Runes) → Adjacency → Adjacency
  unfolding link_behind
  link_sentences i [] g = g
  link_sentences i (a ∷ sets) g =
      link_sentences (suc i) sets (if is_empty a then g else link_behind i a (suc i) sets g)

  unfoldable pub rows_from : Adjacency → ℕ → List (List Runes) → List (Row fl)
  rows_from g i [] = []
  rows_from g i (a ∷ sets) = g i ∷ rows_from g (suc i) sets

  pub record Scored : Type 0 where
    pub idx : ℕ
    pub score : F

  unfoldable pub scored_from : ℕ → List F → List Scored
  scored_from i [] = []
  scored_from i (r ∷ rs) = record { idx = i; score = r } ∷ scored_from (suc i) rs

  unfoldable pub higher : Scored → Scored → Bool
  higher a b = if not (eq a.score b.score) then lt b.score a.score else ltb a.idx b.idx

  abbrev pub earlier : Scored → Scored → Bool
  earlier a b = ltb a.idx b.idx

  abbrev pub texts_of : List Runes → List Scored → List Runes
  texts_of sentences [] = []
  texts_of sentences (s ∷ ss) = sentence_at sentences s.idx ∷ texts_of sentences ss

  -- `order` for the sentences that compete.
  unfoldable pub rank_sentences : (Row fl → Row fl) → Unicode → List Runes → List Scored
  unfolding link_sentences rows_from scored_from higher word_sets
  rank_sentences visit u sentences =
      let sets = word_sets u sentences in
      let adj = rows_from (link_sentences 0 sets (λ i. [])) 0 sets in
      sort_by higher (scored_from 0 (pagerank fl visit adj 30))

  abbrev pub pick_first : List Runes → ℕ → List Scored → Option (List Runes)
  pick_first sentences k order =
      if ltb (length order) k
      then none
      else some (texts_of sentences (sort_by earlier (take k order)))

  unfoldable pub summary_text_rank :
      (Row fl → Row fl) → Unicode → List Runes → ℕ → Option (List Runes)
  unfolding rank_sentences
  summary_text_rank visit u sentences summary_len =
      let k = or_default summary_len 3 in
      if leb (length sentences) k
      then some sentences
      else pick_first sentences k (rank_sentences visit u (take 600 sentences))
