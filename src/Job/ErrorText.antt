-- ===== src/Job/ErrorText.antt =====
-- The bound on the error texts that are stored, and the decimal count inside one.
use calligraphy.Base.{
  ℕ, zero, suc, ◌+◌, ◌-◌, ◌*◌, ◌^◌, ◌/◌, ◌%◌, ◌≤◌, ◌<◌, ◌≡◌, refl, ◌∙◌, inl, inr, [], ◌∷◌, ◌++◌,
  arith, length, take, length-append, length-take, ltb, Bool-cases,
}
use calligraphy.Job.Errors.{Bytes, decimal, bound_text, truncated_prefix, truncated_suffix}

-- The number that decimal digits stand for.
abbrev pub value_from : ℕ → Bytes → ℕ
value_from acc [] = acc
value_from acc (d ∷ ds) = value_from (acc * 10 + (d - b'0')) ds

value_from-append :
    (acc d : ℕ) (ds : Bytes) → value_from acc (ds ++ d ∷ []) ≡ value_from acc ds * 10 + (d - b'0')
value_from-append acc d [] = refl
value_from-append acc d (x ∷ ds) = value_from-append (acc * 10 + (x - b'0')) d ds

pow_ten : (f : ℕ) → 10 ^ suc f ≡ 10 * 10 ^ f
pow_ten f = grind arith

-- With fuel for all its digits, the decimal text of a number reads back as that number, and has
-- at most as many digits as the fuel.
pub value_from-decimal :
    (f n : ℕ) → n < 10 ^ f → (value_from 0 (decimal f n) ≡ n) × (length (decimal f n) ≤ f)
unfolding decimal
value_from-decimal zero n h = omega arith
value_from-decimal (suc f) n h = elim (Bool-cases (ltb n 10)) [
  | inl t ↦ ground arith
  | inr t ↦
      let (v, l) = value_from-decimal f (n / 10) (omega (arith, pow_ten f)) in
      rw t (
        value_from-append 0 (b'0' + n % 10) (decimal f (n / 10)) ∙ omega arith,
        omega (arith, length-append (decimal f (n / 10)) ((b'0' + n % 10) ∷ [])),
      )
]

note_length :
    (s ds : Bytes)
    → length (take 2048 s ++ (truncated_prefix ++ (ds ++ truncated_suffix)))
      ≡ length (take 2048 s) + 12 + length ds + 7
note_length s ds = omega (
  arith,
  length-append (take 2048 s) (truncated_prefix ++ (ds ++ truncated_suffix)),
  length-append ds truncated_suffix,
)

-- A stored error text has at most 2087 bytes. A text of at most 2048 bytes is stored as it is; a
-- longer one, of fewer than 10 ^ 20 bytes, is stored as its first 2048 bytes and then a note, in
-- which the digits read as the number of bytes that were cut.
pub bound_text_lem :
    (s : Bytes)
    → length s < 10 ^ 20
    → let stored = bound_text s in
      (length stored ≤ 2087)
      × (length s ≤ 2048 → stored ≡ s)
      × (2048 < length s
          → (ds : Bytes) × (stored ≡ take 2048 s ++ (truncated_prefix ++ (ds ++ truncated_suffix)))
            × (value_from 0 ds ≡ length s - 2048))
unfolding bound_text
bound_text_lem s h = elim (Bool-cases (ltb 2048 (length s))) [
  | inl t ↦
      let (v, l) = value_from-decimal 20 (length s - 2048) (omega arith) in
      rw t (
        rw (note_length s (decimal 20 (length s - 2048))) (omega (arith, length-take 2048 s)),
        λ le. absurd (ground arith),
        λ _. (decimal 20 (length s - 2048), refl, v),
      )
  | inr t ↦ rw t (ground arith, λ _. refl, λ lt. absurd (ground arith))
]
