-- ===== src/Control/Maps.antt =====
-- internal/control/server.go: the map of sessions by worker.
use calligraphy.Base.{
  ℕ, ◌≡◌, refl, ◌≢◌, ◌⊎◌, inl, inr, String, List, [], ◌∷◌, none, some, str_eq, eq_iff, eq_refl,
  Bool-cases, arith,
}
use calligraphy.Control.Hub.{lookup, assign, delete}

pub lookup-assign_self :
    (id : String) (k : ℕ) (m : List (String × ℕ)) → lookup id (assign id k m) ≡ some k
unfolding lookup assign
lookup-assign_self id k [] = grind (arith, eq_refl id)
lookup-assign_self id k ((j, v) ∷ m) = grind (arith, lookup-assign_self id k m, eq_refl id)

pub lookup-assign_ne :
    (id i : String) (k : ℕ) (m : List (String × ℕ)) → i ≢ id → lookup i (assign id k m) ≡ lookup i m
unfolding lookup assign
lookup-assign_ne id i k [] n = grind (arith, n, eq_iff id i)
lookup-assign_ne id i k ((j, v) ∷ m) n =
    grind (arith, lookup-assign_ne id i k m n, n, eq_iff id i, eq_iff j i, eq_iff j id)

pub lookup-delete_self : (id : String) (m : List (String × ℕ)) → lookup id (delete id m) ≡ none
unfolding lookup delete
lookup-delete_self id [] = refl
lookup-delete_self id ((j, v) ∷ m) = grind (arith, lookup-delete_self id m)

pub lookup-delete_ne :
    (id i : String) (m : List (String × ℕ)) → i ≢ id → lookup i (delete id m) ≡ lookup i m
unfolding lookup delete
lookup-delete_ne id i [] n = refl
lookup-delete_ne id i ((j, v) ∷ m) n =
    grind (arith, lookup-delete_ne id i m n, n, eq_iff j i, eq_iff j id)

pub str_cases : (a b : String) → (a ≡ b) ⊎ (a ≢ b)
str_cases a b = elim (Bool-cases (str_eq a b)) [
  | inl e ↦ inl ((eq_iff a b).0 e)
  | inr e ↦ inr (λ q. grind (arith, e, q, eq_refl b))
]
