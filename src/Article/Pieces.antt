-- ===== src/Article/Pieces.antt =====
-- What is left of a text without the characters of a test, and trimmed pieces.
use calligraphy.Base.{
  ℕ, ◌≡◌, refl, sym, ap, ◌∙◌, inl, inr, List, [], ◌∷◌, ◌++◌, Bool, false, not, ◌&&◌, if◌then◌else◌,
  filter, Bool-cases, append_nil, append_assoc, arith,
}
use calligraphy.Article.Text.{Runes, is_empty, trim_left, trim_right, trim}

pub flatten {ℓ} : {A : Type ℓ} → List (List A) → List A
flatten [] = []
flatten (x ∷ xs) = x ++ flatten xs

pub flatten-append {ℓ} :
    {A : Type ℓ} (xs ys : List (List A)) → flatten (xs ++ ys) ≡ flatten xs ++ flatten ys
unfolding flatten
flatten-append [] ys = refl
flatten-append (x ∷ xs) ys =
    ap (λ t. x ++ t) (flatten-append xs ys) ∙ sym (append_assoc x (flatten xs) (flatten ys))

pub flatten-nil {ℓ} : {A : Type ℓ} → flatten {A = A} [] ≡ []
unfolding flatten
flatten-nil = refl

pub flatten_one {ℓ} : {A : Type ℓ} (x : List A) → flatten (x ∷ []) ≡ x
unfolding flatten
flatten_one x = append_nil x

-- The text without what passes the test.
pub without : (ℕ → Bool) → Runes → Runes
without p cs = filter (λ c. not (p c)) cs

module _ (p : ℕ → Bool) where
  pub without-nil : without p [] ≡ []
  unfolding without
  without-nil = refl

  pub without-cons :
      (c : ℕ) (cs : Runes) → without p (c ∷ cs) ≡ (if p c then without p cs else c ∷ without p cs)
  unfolding without
  without-cons c cs = ground arith

  pub without-append : (xs ys : Runes) → without p (xs ++ ys) ≡ without p xs ++ without p ys
  unfolding without
  without-append [] ys = refl
  without-append (x ∷ xs) ys = grind (arith, without-append xs ys)

  -- One character more at the end.
  pub without_snoc :
      (cs : Runes) (c : ℕ) → without p (cs ++ c ∷ []) ≡ without p cs ++ (if p c then [] else c ∷ [])
  without_snoc cs c = grind (arith, without-append cs (c ∷ []), without-cons c [], without-nil)

  without-trim_left : (cs : Runes) → without p (trim_left p cs) ≡ without p cs
  unfolding without trim_left
  without-trim_left [] = refl
  without-trim_left (c ∷ cs) = grind (arith, without-trim_left cs)

  pub without-trim_right : (cs : Runes) → without p (trim_right p cs) ≡ without p cs
  unfolding without trim_right
  without-trim_right [] = refl
  without-trim_right (c ∷ cs) = grind (arith, without-trim_right cs)

  pub without-trim : (cs : Runes) → without p (trim p cs) ≡ without p cs
  unfolding trim
  without-trim cs = without-trim_right (trim_left p cs) ∙ without-trim_left cs

  abbrev pub StartsClear : Runes → Type 0
  StartsClear [] = Unit {0}
  StartsClear (c ∷ cs) = p c ≡ false

  abbrev pub EndsClear : Runes → Type 0
  EndsClear [] = Unit {0}
  EndsClear (c ∷ []) = p c ≡ false
  EndsClear (c ∷ d ∷ cs) = EndsClear (d ∷ cs)

  trim_left-StartsClear : (cs : Runes) → StartsClear (trim_left p cs)
  unfolding trim_left
  trim_left-StartsClear [] = tt
  trim_left-StartsClear (c ∷ cs) = elim (Bool-cases (p c)) [
    | inl e ↦ rw e (trim_left-StartsClear cs)
    | inr e ↦ rw e e
  ]

  kept_last :
      (c : ℕ) (rest : Runes)
      → EndsClear rest
      → EndsClear (if is_empty rest && p c then [] else c ∷ rest)
  kept_last c [] h = elim (Bool-cases (p c)) [ inl e ↦ rw e tt | inr e ↦ rw e e ]
  kept_last c (d ∷ cs) h = h

  pub trim_right-EndsClear : (cs : Runes) → EndsClear (trim_right p cs)
  unfolding trim_right
  trim_right-EndsClear [] = tt
  trim_right-EndsClear (c ∷ cs) = kept_last c (trim_right p cs) (trim_right-EndsClear cs)

  kept_first :
      (c : ℕ) (rest : Runes)
      → p c ≡ false
      → StartsClear (if is_empty rest && p c then [] else c ∷ rest)
  kept_first c [] h = rw h h
  kept_first c (d ∷ cs) h = h

  trim_right-StartsClear : (cs : Runes) → StartsClear cs → StartsClear (trim_right p cs)
  unfolding trim_right
  trim_right-StartsClear [] h = tt
  trim_right-StartsClear (c ∷ cs) h = kept_first c (trim_right p cs) h

  pub trim_right_clear :
      (c : ℕ) (cs : Runes) → p c ≡ false → trim_right p (c ∷ cs) ≡ c ∷ trim_right p cs
  unfolding trim_right
  trim_right_clear c cs h = ground arith

  pub StartsClear-snoc :
      (cs : Runes) (c : ℕ)
      → StartsClear cs
      → is_empty cs && p c ≡ false
      → StartsClear (cs ++ c ∷ [])
  StartsClear-snoc [] c h e = e
  StartsClear-snoc (d ∷ cs) c h e = h

  pub trim_ends : (cs : Runes) → StartsClear (trim p cs) × EndsClear (trim p cs)
  unfolding trim
  trim_ends cs = (
    trim_right-StartsClear (trim_left p cs) (trim_left-StartsClear cs),
    trim_right-EndsClear (trim_left p cs),
  )
