-- ===== src/Article/Ranking.antt =====
-- internal/handlers/articleanalysis/analyzer.go: pagerank, and the sorts that follow it. The
-- floating-point numbers and their operations are arguments, and so is the order in which a range
-- visits a map.
use calligraphy.Base.{
  ℕ, zero, suc, ◌≡◌, refl, ap, ◌∙◌, inl, inr, String, List, [], ◌∷◌, Bool, if◌then◌else◌, length,
  Bool-cases,
}

pub record Floats : Type 1 where
  pub F : Type 0
  pub of_ℕ : ℕ → F
  pub lit : String → F  -- a constant of the source
  pub add : F → F → F
  pub sub : F → F → F
  pub mul : F → F → F
  pub div : F → F → F
  pub log : F → F
  pub eq : F → F → Bool
  pub lt : F → F → Bool
  pub round1 : F → F
  pub round4 : F → F

module _ (fl : Floats) where
  open fl use {F, of_ℕ, lit, add, mul, div, eq}

  abbrev pub Row : Type 0
  Row = List (ℕ × F)

  abbrev pub sum_from : F → Row → F
  sum_from acc [] = acc
  sum_from acc ((i, w) ∷ row) = sum_from (add acc w) row

  -- `next[i] += x`.
  unfoldable pub add_at : ℕ → F → List F → List F
  add_at i x [] = []
  add_at zero x (y ∷ ys) = add y x ∷ ys
  add_at (suc i) x (y ∷ ys) = y ∷ add_at i x ys

  unfoldable pub spread : F → Row → List F → List F
  unfolding add_at
  spread share [] next = next
  spread share ((i, w) ∷ row) next = spread share row (add_at i (mul share w) next)

  -- One round: every node with an edge spreads its rank.
  unfoldable pub spread_all : List Row → List F → List F → List F → List F
  unfolding spread
  spread_all (row ∷ rows) (r ∷ rank) (o ∷ out) next =
      spread_all rows rank out
        (if eq o (of_ℕ 0) then next else spread (div (mul (lit "0.85") r) o) row next)
  spread_all _ _ _ next = next

  unfoldable pub fill {ℓ} : {B : Type ℓ} → ℕ → B → List B
  fill zero x = []
  fill (suc n) x = x ∷ fill n x

  unfoldable pub rounds : ℕ → List Row → List F → List F → List F
  unfolding spread_all fill
  rounds zero adj out rank = rank
  rounds (suc it) adj out rank =
      rounds it adj out
        (spread_all adj rank out (fill (length adj) (div (lit "0.15") (of_ℕ (length adj)))))

  abbrev pub out_sums : (Row → Row) → List Row → List F
  out_sums visit [] = []
  out_sums visit (row ∷ rows) = sum_from (of_ℕ 0) (visit row) ∷ out_sums visit rows

  unfoldable pub pagerank : (Row → Row) → List Row → ℕ → List F
  unfolding rounds fill
  pagerank visit adj iters =
      rounds iters adj (out_sums visit adj) (fill (length adj) (div (of_ℕ 1) (of_ℕ (length adj))))

  length-add_at : (i : ℕ) (x : F) (xs : List F) → length (add_at i x xs) ≡ length xs
  unfolding add_at
  length-add_at zero x [] = refl
  length-add_at (suc i) x [] = refl
  length-add_at zero x (y ∷ ys) = refl
  length-add_at (suc i) x (y ∷ ys) = ap suc (length-add_at i x ys)

  length-spread :
      (share : F) (row : Row) (next : List F) → length (spread share row next) ≡ length next
  unfolding spread
  length-spread share [] next = refl
  length-spread share ((i, w) ∷ row) next =
      length-spread share row (add_at i (mul share w) next) ∙ length-add_at i (mul share w) next

  length-spread_all :
      (rows : List Row) (rank out next : List F)
      → length (spread_all rows rank out next) ≡ length next
  unfolding spread_all
  length-spread_all [] rank out next = refl
  length-spread_all (row ∷ rows) [] out next = refl
  length-spread_all (row ∷ rows) (r ∷ rank) [] next = refl
  length-spread_all (row ∷ rows) (r ∷ rank) (o ∷ out) next = elim (Bool-cases (eq o (of_ℕ 0))) [
    | inl e ↦ rw e (length-spread_all rows rank out next)
    | inr e ↦ rw e (
        length-spread_all rows rank out (spread (div (mul (lit "0.85") r) o) row next)
        ∙ length-spread (div (mul (lit "0.85") r) o) row next)
  ]

  length-fill {ℓ} : {B : Type ℓ} (n : ℕ) (x : B) → length (fill n x) ≡ n
  unfolding fill
  length-fill zero x = refl
  length-fill (suc n) x = ap suc (length-fill n x)

  length-rounds :
      (it : ℕ) (adj : List Row) (out rank : List F)
      → length rank ≡ length adj
      → length (rounds it adj out rank) ≡ length adj
  unfolding rounds
  length-rounds zero adj out rank h = h
  length-rounds (suc it) adj out rank h = length-rounds it adj out _ (
      length-spread_all adj rank out _
      ∙ length-fill (length adj) (div (lit "0.15") (of_ℕ (length adj))))

  -- Every node has a rank.
  pub length-pagerank :
      (visit : Row → Row) (adj : List Row) (iters : ℕ)
      → length (pagerank visit adj iters) ≡ length adj
  unfolding pagerank
  length-pagerank visit adj iters =
      length-rounds iters adj (out_sums visit adj) _
        (length-fill (length adj) (div (of_ℕ 1) (of_ℕ (length adj))))
