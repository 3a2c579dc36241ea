-- ===== src/Base/Sorting.antt =====
-- Sorts with an order that is given, and predicates on the members of a list.
use Prim.Native.Nat.{ℕ, zero, suc}
use mathlib.Core.Path.{◌≡◌, refl}
use mathlib.Core.Logic.{inl, inr}
use mathlib.Core.Bool.{Bool, true, false, ◌&&◌, ◌||◌}
use mathlib.Core.List.{List, [], ◌∷◌, ◌++◌}
use native.Mathlib.Omega.{arith}
use calligraphy.Base.Tests.{if◌then◌else◌, ltb, ◌==◌, Bool-cases}
use calligraphy.Base.Lists.{length, take}

abbrev pub All {ℓ κ} : {A : Type ℓ} → (A → Type κ) → List A → Type κ
All P [] = Unit
All P (x ∷ xs) = P x × All P xs

pub All-append {ℓ κ} :
    {A : Type ℓ} (P : A → Type κ) (xs ys : List A) → All P xs → All P ys → All P (xs ++ ys)
All-append P [] ys h k = k
All-append P (x ∷ xs) ys h k = (h.0, All-append P xs ys h.1 k)

pub All-imp {ℓ κ} :
    {A : Type ℓ} (P Q : A → Type κ) → ((x : A) → P x → Q x) → (xs : List A) → All P xs → All Q xs
All-imp P Q f [] h = tt
All-imp P Q f (x ∷ xs) h = (f x h.0, All-imp P Q f xs h.1)

-- The order of Go's strings, byte by byte.
unfoldable pub text_lt : List ℕ → List ℕ → Bool
text_lt xs [] = false
text_lt [] (d ∷ ds) = true
text_lt (c ∷ cs) (d ∷ ds) = ltb c d || ((c == d) && text_lt cs ds)

-- sort.Slice, for a `less` that orders what it sorts.
module _ {A : Type 0} (less : A → A → Bool) where
  unfoldable pub insert_sorted : A → List A → List A
  insert_sorted x [] = x ∷ []
  insert_sorted x (y ∷ ys) =
      let rest = insert_sorted x ys in if less x y then x ∷ y ∷ ys else y ∷ rest

  unfoldable pub sort_by : List A → List A
  unfolding insert_sorted
  sort_by [] = []
  sort_by (x ∷ xs) = insert_sorted x (sort_by xs)

  length-insert_sorted : (x : A) (xs : List A) → length (insert_sorted x xs) ≡ suc (length xs)
  unfolding insert_sorted
  length-insert_sorted x [] = refl
  length-insert_sorted x (y ∷ ys) = grind (arith, length-insert_sorted x ys)

  pub length-sort_by : (xs : List A) → length (sort_by xs) ≡ length xs
  unfolding sort_by
  length-sort_by [] = refl
  length-sort_by (x ∷ xs) = omega (arith, length-insert_sorted x (sort_by xs), length-sort_by xs)

  module _ (P : A → Type 0) where
    pub insert_sorted-All : (x : A) (xs : List A) → P x → All P xs → All P (insert_sorted x xs)
    unfolding insert_sorted
    insert_sorted-All x [] p h = (p, tt)
    insert_sorted-All x (y ∷ ys) p h = elim (Bool-cases (less x y)) [
      | inl e ↦ rw e (p, h)
      | inr e ↦ rw e (h.0, insert_sorted-All x ys p h.1)
    ]

    pub sort_by-All : (xs : List A) → All P xs → All P (sort_by xs)
    unfolding sort_by
    sort_by-All [] h = tt
    sort_by-All (x ∷ xs) h = insert_sorted-All x (sort_by xs) h.0 (sort_by-All xs h.1)

-- Any two of a list are so related.
abbrev pub Pairwise {ℓ κ} : {A : Type ℓ} → (A → A → Type κ) → List A → Type κ
Pairwise R [] = Unit
Pairwise R (x ∷ xs) = All (R x) xs × Pairwise R xs

module _ {A : Type 0} (R : A → A → Type 0) (swap : (a b : A) → R a b → R b a)
    (less : A → A → Bool) where
  insert_sorted-Pairwise :
      (x : A) (xs : List A) → All (R x) xs → Pairwise R xs → Pairwise R (insert_sorted less x xs)
  unfolding insert_sorted
  insert_sorted-Pairwise x [] h w = (tt, tt)
  insert_sorted-Pairwise x (y ∷ ys) h w = elim (Bool-cases (less x y)) [
    | inl e ↦ rw e (h, w)
    | inr e ↦
        rw e (
          insert_sorted-All less (R y) x ys (swap x y h.0) w.0,
          insert_sorted-Pairwise x ys h.1 w.1,
        )
  ]

  pub sort_by-Pairwise : (xs : List A) → Pairwise R xs → Pairwise R (sort_by less xs)
  unfolding sort_by
  sort_by-Pairwise [] w = tt
  sort_by-Pairwise (x ∷ xs) w =
      insert_sorted-Pairwise x (sort_by less xs) (sort_by-All less (R x) xs w.0)
        (sort_by-Pairwise xs w.1)

module _ {A : Type 0} where
  pub take-All : (P : A → Type 0) (n : ℕ) (xs : List A) → All P xs → All P (take n xs)
  take-All P zero xs h = tt
  take-All P (suc n) [] h = tt
  take-All P (suc n) (x ∷ xs) h = (h.0, take-All P n xs h.1)

  pub take-Pairwise :
      (R : A → A → Type 0) (n : ℕ) (xs : List A) → Pairwise R xs → Pairwise R (take n xs)
  take-Pairwise R zero xs w = tt
  take-Pairwise R (suc n) [] w = tt
  take-Pairwise R (suc n) (x ∷ xs) w = (take-All (R x) n xs w.0, take-Pairwise R n xs w.1)
