-- ===== src/Article/Graph.antt =====
-- internal/handlers/articleanalysis/analyzer.go: the vocabulary of a text and the graph of words
-- that stand near one another. A map from a node to its edges is a function; all ids are below the
-- size of the vocabulary.
use calligraphy.Base.{
  ℕ, zero, suc, ◌+◌, ◌≡◌, refl, inl, inr, List, [], ◌∷◌, ◌++◌, Bool, false, not, ◌&&◌, ◌||◌, Option,
  none, some, if◌then◌else◌, ltb, ◌==◌, length, all, Bool-cases, same_bytes, arith,
}
use calligraphy.Article.Text.{Runes, Unicode, is_empty}
use calligraphy.Article.Words.{bytes_of}
use calligraphy.Article.Language.{has, stopwords_en}

unfoldable pub is_numeric : Unicode → Runes → Bool
is_numeric u w = all u.is_digit w && not (is_empty w)

unfoldable pub is_candidate : Unicode → Runes → Bool
unfolding is_numeric
is_candidate u w = not (ltb (length (bytes_of w)) 3 || has stopwords_en w || is_numeric u w)

-- The map from words to ids, as the list of the words in the order of their ids.
unfoldable pub id_of : Runes → List Runes → Option ℕ
id_of w [] = none
id_of w (v ∷ vs) =
    if same_bytes w v then some 0 else elim (id_of w vs) [ none ↦ none | some i ↦ some (suc i) ]

abbrev pub with_id : Option ℕ → List Runes × List (Option ℕ) → List Runes × List (Option ℕ)
with_id o (vocab, seq) = (vocab, o ∷ seq)

-- The vocabulary, and the id at each place of the text, if it has one.
unfoldable pub index_words : Unicode → List Runes → List Runes → List Runes × List (Option ℕ)
unfolding is_candidate id_of
index_words u [] vocab = (vocab, [])
index_words u (w ∷ ws) vocab =
    let known = index_words u ws vocab in
    let grown = index_words u ws (vocab ++ w ∷ []) in
    if not (is_candidate u w) then with_id none known else elim (id_of w vocab) [
      | some i ↦ with_id (some i) known
      | none ↦ with_id (some (length vocab)) grown
    ]

abbrev pub Graph : Type 0
Graph = ℕ → List (ℕ × ℕ)

unfoldable pub weight_in : ℕ → List (ℕ × ℕ) → ℕ
weight_in b [] = 0
weight_in b ((k, w) ∷ row) = if k == b then w else weight_in b row

abbrev pub weight : Graph → ℕ → ℕ → ℕ
weight g a b = weight_in b (g a)

-- `adj[a][b]++`.
unfoldable pub bump : ℕ → List (ℕ × ℕ) → List (ℕ × ℕ)
bump b [] = (b, 1) ∷ []
bump b ((k, w) ∷ row) = if k == b then (k, w + 1) ∷ row else (k, w) ∷ bump b row

unfoldable pub bump_at : ℕ → ℕ → Graph → Graph
unfolding bump
bump_at a b g c = if c == a then bump b (g c) else g c

unfoldable pub link : ℕ → ℕ → Graph → Graph
unfolding bump_at
link a b g = bump_at b a (bump_at a b g)

-- The words in the window behind a word.
unfoldable pub near : ℕ → ℕ → List (Option ℕ) → Graph → Graph
unfolding link
near zero a seq g = g
near (suc n) a [] g = g
near (suc n) a (none ∷ seq) g = near n a seq g
near (suc n) a (some b ∷ seq) g = near n a seq (if b == a then g else link a b g)

unfoldable pub link_all : List (Option ℕ) → Graph → Graph
unfolding near
link_all [] g = g
link_all (none ∷ seq) g = link_all seq g
link_all (some a ∷ seq) g = link_all seq (near 4 a seq g)

abbrev pub no_edges : Graph
no_edges a = []

-- How often two words meet: the pairs of places, at most four apart, that hold the two.
abbrev meets : ℕ → ℕ → ℕ → ℕ → Bool
meets x y a b = not (x == y) && (((x == a) && (y == b)) || ((x == b) && (y == a)))

abbrev one_if : Bool → ℕ
one_if b = if b then 1 else 0

pub meetings_near : ℕ → ℕ → List (Option ℕ) → ℕ → ℕ → ℕ
meetings_near zero x seq a b = 0
meetings_near (suc n) x [] a b = 0
meetings_near (suc n) x (none ∷ seq) a b = meetings_near n x seq a b
meetings_near (suc n) x (some y ∷ seq) a b = one_if (meets x y a b) + meetings_near n x seq a b

pub meetings : List (Option ℕ) → ℕ → ℕ → ℕ
meetings [] a b = 0
meetings (none ∷ seq) a b = meetings seq a b
meetings (some x ∷ seq) a b = meetings_near 4 x seq a b + meetings seq a b

weight_in-bump :
    (b : ℕ) (row : List (ℕ × ℕ)) (c : ℕ)
    → weight_in c (bump b row) ≡ weight_in c row + one_if (c == b)
unfolding weight_in bump
weight_in-bump b [] c = grind arith
weight_in-bump b ((k, w) ∷ row) c = grind (arith, weight_in-bump b row c)

weight-bump_at :
    (x y : ℕ) (g : Graph) (a b : ℕ)
    → weight (bump_at x y g) a b ≡ weight g a b + one_if ((a == x) && (b == y))
unfolding bump_at
weight-bump_at x y g a b = elim (Bool-cases (a == x)) [
  | inl e ↦ rw e (weight_in-bump y (g a) b)
  | inr e ↦ rw e (omega arith)
]

weight-link :
    (x y : ℕ) (g : Graph) (a b : ℕ)
    → (x == y) ≡ false
    → weight (link x y g) a b ≡ weight g a b + one_if (meets x y a b)
unfolding link
weight-link x y g a b d =
    grind (arith, weight-bump_at y x (bump_at x y g) a b, weight-bump_at x y g a b, d)

weight-near :
    (n x : ℕ) (seq : List (Option ℕ)) (g : Graph) (a b : ℕ)
    → weight (near n x seq g) a b ≡ weight g a b + meetings_near n x seq a b
unfolding near meetings_near
weight-near zero x seq g a b = omega arith
weight-near (suc n) x [] g a b = omega arith
weight-near (suc n) x (none ∷ seq) g a b = weight-near n x seq g a b
weight-near (suc n) x (some y ∷ seq) g a b = elim (Bool-cases (y == x)) [
  | inl e ↦ rw e (grind (arith, weight-near n x seq g a b, e))
  | inr e ↦ rw e (
      grind
        (arith, weight-near n x seq (link x y g) a b, weight-link x y g a b (grind (arith, e)), e))
]

weight-link_all :
    (seq : List (Option ℕ)) (g : Graph) (a b : ℕ)
    → weight (link_all seq g) a b ≡ weight g a b + meetings seq a b
unfolding link_all meetings
weight-link_all [] g a b = omega arith
weight-link_all (none ∷ seq) g a b = weight-link_all seq g a b
weight-link_all (some x ∷ seq) g a b =
    omega (arith, weight-link_all seq (near 4 x seq g) a b, weight-near 4 x seq g a b)

meetings_near_comm :
    (n x : ℕ) (seq : List (Option ℕ)) (a b : ℕ)
    → meetings_near n x seq a b ≡ meetings_near n x seq b a
unfolding meetings_near
meetings_near_comm zero x seq a b = refl
meetings_near_comm (suc n) x [] a b = refl
meetings_near_comm (suc n) x (none ∷ seq) a b = meetings_near_comm n x seq a b
meetings_near_comm (suc n) x (some y ∷ seq) a b = grind (arith, meetings_near_comm n x seq a b)

meetings_comm : (seq : List (Option ℕ)) (a b : ℕ) → meetings seq a b ≡ meetings seq b a
unfolding meetings
meetings_comm [] a b = refl
meetings_comm (none ∷ seq) a b = meetings_comm seq a b
meetings_comm (some x ∷ seq) a b =
    omega (arith, meetings_near_comm 4 x seq a b, meetings_comm seq a b)

-- The weight of an edge between two words is how often they meet, stopwords and other gaps counted
-- in the distance, and it is the same in both directions.
pub weight-meetings :
    (seq : List (Option ℕ)) (a b : ℕ)
    → (weight (link_all seq no_edges) a b ≡ meetings seq a b)
      × (weight (link_all seq no_edges) a b ≡ weight (link_all seq no_edges) b a)
unfolding weight_in
weight-meetings seq a b =
    let here = weight-link_all seq no_edges a b in
    let there = weight-link_all seq no_edges b a in
    (omega arith, omega (arith, meetings_comm seq a b))
