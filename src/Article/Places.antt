-- ===== src/Article/Places.antt =====
-- internal/handlers/articleanalysis/analyzer.go: the places of sentences in a ranking and in a text.
use calligraphy.Base.{
  All, All-imp, Pairwise, insert_sorted, insert_sorted-All, sort_by, sort_by-All, ℕ, suc, ◌+◌, ◌≤◌,
  ◌<◌, ◌≡◌, ◌≢◌, refl, ap, ◌∙◌, inl, inr, List, [], ◌∷◌, ltb, length, Bool-cases, arith,
}
use calligraphy.Article.Text.{Runes}
use calligraphy.Article.Ranking.{Floats}
use calligraphy.Article.Summary.{sentence_at, Scored, scored_from, earlier, texts_of}

-- The sentences at some places.
abbrev pub excerpt : List Runes → List ℕ → List Runes
excerpt sentences [] = []
excerpt sentences (i ∷ is) = sentence_at sentences i ∷ excerpt sentences is

abbrev pub positions : ℕ → List Runes → List ℕ
positions i [] = []
positions i (s ∷ ss) = i ∷ positions (suc i) ss

-- Places in reading order, each once, of which every one is below a bound.
abbrev pub InOrder : ℕ → List ℕ → Type 0
InOrder n is = Pairwise (λ i j. i < j) is × All (λ i. i < n) is

excerpt_shift :
    (s : Runes) (ss xs : List Runes) (i : ℕ)
    → excerpt (s ∷ ss) (positions (suc i) xs) ≡ excerpt ss (positions i xs)
excerpt_shift s ss [] i = refl
excerpt_shift s ss (x ∷ xs) i = ap (λ t. sentence_at ss i ∷ t) (excerpt_shift s ss xs (suc i))

pub excerpt_all : (ss : List Runes) → excerpt ss (positions 0 ss) ≡ ss
excerpt_all [] = refl
excerpt_all (s ∷ ss) = ap (λ t. s ∷ t) (excerpt_shift s ss ss 0 ∙ excerpt_all ss)

pub length-positions : (i : ℕ) (ss : List Runes) → length (positions i ss) ≡ length ss
length-positions i [] = refl
length-positions i (s ∷ ss) = ap suc (length-positions (suc i) ss)

pub positions_within :
    (i : ℕ) (ss : List Runes) → All (λ j. (i ≤ j) × (j < i + length ss)) (positions i ss)
positions_within i [] = tt
positions_within i (s ∷ ss) = (
  omega arith,
  All-imp (λ j. (suc i ≤ j) × (j < suc i + length ss)) (λ j. (i ≤ j) × (j < i + suc (length ss)))
      (λ j h. omega arith) (positions (suc i) ss) (positions_within (suc i) ss),
)

pub positions-InOrder : (i : ℕ) (ss : List Runes) → Pairwise (λ j k. j < k) (positions i ss)
positions-InOrder i [] = tt
positions-InOrder i (s ∷ ss) = (
  All-imp (λ j. (suc i ≤ j) × (j < suc i + length ss)) (λ j. i < j) (λ j h. h.0)
      (positions (suc i) ss) (positions_within (suc i) ss),
  positions-InOrder (suc i) ss,
)

module _ (fl : Floats) where
  abbrev pub places : List (Scored fl) → List ℕ
  places [] = []
  places (s ∷ ss) = s.idx ∷ places ss

  unfoldable pub Apart : Scored fl → Scored fl → Type 0
  Apart a b = a.idx ≢ b.idx

  pub Before : Scored fl → Scored fl → Type 0
  Before a b = a.idx < b.idx

  insert_earlier :
      (x : Scored fl) (xs : List (Scored fl))
      → All (Apart x) xs
      → Pairwise Before xs
      → Pairwise Before (insert_sorted (earlier fl) x xs)
  unfolding insert_sorted Apart Before
  insert_earlier x [] h w = (tt, tt)
  insert_earlier x (y ∷ ys) h w = elim (Bool-cases (ltb x.idx y.idx)) [
    | inl e ↦
        let lt : x.idx < y.idx = ground (arith, e) in
        rw e ((lt, All-imp (Before y) (Before x) (λ z b. omega arith) ys w.0), w)
    | inr e ↦
        let gt : y.idx < x.idx = ground (arith, e, h.0) in
        rw e (insert_sorted-All (earlier fl) (Before y) x ys gt w.0, insert_earlier x ys h.1 w.1)
  ]

  pub sort_earlier :
      (xs : List (Scored fl)) → Pairwise Apart xs → Pairwise Before (sort_by (earlier fl) xs)
  unfolding sort_by
  sort_earlier [] w = tt
  sort_earlier (x ∷ xs) w =
      insert_earlier x (sort_by (earlier fl) xs) (sort_by-All (earlier fl) (Apart x) xs w.0)
        (sort_earlier xs w.1)

  pub scored_within :
      (i : ℕ) (rs : List fl.F)
      → All (λ s. (i ≤ s.idx) × (s.idx < i + length rs)) (scored_from fl i rs)
  unfolding scored_from
  scored_within i [] = tt
  scored_within i (r ∷ rs) = (
    omega arith,
    All-imp (λ s. (suc i ≤ s.idx) × (s.idx < suc i + length rs))
        (λ s. (i ≤ s.idx) × (s.idx < i + suc (length rs))) (λ s h. omega arith)
        (scored_from fl (suc i) rs) (scored_within (suc i) rs),
  )

  pub scored-Apart : (i : ℕ) (rs : List fl.F) → Pairwise Apart (scored_from fl i rs)
  unfolding scored_from Apart
  scored-Apart i [] = tt
  scored-Apart i (r ∷ rs) = (
    All-imp (λ s. (suc i ≤ s.idx) × (s.idx < suc i + length rs)) (λ s. i ≢ s.idx)
        (λ s h. omega arith) (scored_from fl (suc i) rs) (scored_within (suc i) rs),
    scored-Apart (suc i) rs,
  )

  pub length-scored : (i : ℕ) (rs : List fl.F) → length (scored_from fl i rs) ≡ length rs
  unfolding scored_from
  length-scored i [] = refl
  length-scored i (r ∷ rs) = ap suc (length-scored (suc i) rs)

  pub texts_of-excerpt :
      (sentences : List Runes) (ss : List (Scored fl))
      → texts_of fl sentences ss ≡ excerpt sentences (places ss)
  texts_of-excerpt sentences [] = refl
  texts_of-excerpt sentences (s ∷ ss) =
      ap (λ t. sentence_at sentences s.idx ∷ t) (texts_of-excerpt sentences ss)

  pub places-All :
      (P : ℕ → Type 0) (xs : List (Scored fl)) → All (λ x. P x.idx) xs → All P (places xs)
  places-All P [] h = tt
  places-All P (x ∷ xs) h = (h.0, places-All P xs h.1)

  pub length-places : (xs : List (Scored fl)) → length (places xs) ≡ length xs
  length-places [] = refl
  length-places (x ∷ xs) = ap suc (length-places xs)

  pub places-Pairwise :
      (ss : List (Scored fl)) → Pairwise Before ss → Pairwise (λ i j. i < j) (places ss)
  unfolding Before
  places-Pairwise [] w = tt
  places-Pairwise (s ∷ ss) w = (places-All (λ j. s.idx < j) ss w.0, places-Pairwise ss w.1)

  unfoldable pub Below : ℕ → Scored fl → Type 0
  Below n s = s.idx < n
