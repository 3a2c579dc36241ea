-- ===== src/Api/Auth.antt =====
-- internal/api/server.go: NewServer's tokens and `auth`. SHA-256 is an argument: `digest`.
-- ConstantTimeCompare is 1 for equal lengths and equal bytes.
use calligraphy.Base.{
  same_bytes, same_bytes-eq, same_bytes_refl, ◌≤◌, ◌≡◌, refl, sym, ap, ◌∙◌, ◌⊎◌, inl, inr, ◌↔◌,
  List, [], ◌∷◌, ◌++◌, map, Bool, true, false, ◌||◌, not, Option, none, some, if◌then◌else◌, leb,
  length, any, Bool-cases, Option-cases, subst, arith, drop, take, take-drop, length-append,
}
use calligraphy.Job.Errors.{Bytes}

abbrev pub bearer : Bytes
bearer = b'B' ∷ b'e' ∷ b'a' ∷ b'r' ∷ b'e' ∷ b'r' ∷ b' ' ∷ []

-- What follows the prefix in the header, if it starts with it and something follows.
unfoldable pub presented : Bytes → Option Bytes
unfolding same_bytes
presented h =
    if leb (length h) (length bearer) || not (same_bytes (take (length bearer) h) bearer)
    then none
    else some (drop (length bearer) h)

abbrev pub is_one : (Bytes → Bytes) → List Bytes → Option Bytes → Bool
is_one digest digests none = false
is_one digest digests (some token) = any (same_bytes (digest token)) digests

-- Whether the request goes on to its handler; with no tokens at all, each does.
unfoldable pub admits : (Bytes → Bytes) → List Bytes → Bytes → Bool
unfolding presented same_bytes
admits digest [] header = true
admits digest (d ∷ ds) header = is_one digest (d ∷ ds) (presented header)

-- The digests that NewServer keeps.
abbrev pub digests_of : (Bytes → Bytes) → List Bytes → List Bytes
digests_of digest tokens = map digest tokens

-- Some token of the list has the digest of this one.
abbrev pub One : (Bytes → Bytes) → Bytes → List Bytes → Type 0
One digest token [] = ⊥
One digest token (t ∷ ts) = (digest token ≡ digest t) ⊎ One digest token ts

-- The header is the prefix and a token that is not empty.
presented-some :
    (h token : Bytes) → presented h ≡ some token → (h ≡ bearer ++ token) × (1 ≤ length token)
unfolding presented
presented-some h token e =
    let whole = take-drop 7 h in
    elim (Bool-cases (same_bytes (take 7 h) bearer)) [
      | inr n ↦ absurd (grind (arith, e, n))
      | inl q ↦ elim (Bool-cases (leb (length h) 7)) [
        | inl short ↦ absurd (grind (arith, e, q, short))
        | inr long ↦
            let same = same_bytes-eq (take 7 h) bearer q in
            let rest : drop 7 h ≡ token = grind (arith, e, q, long) in
            let split : bearer ++ token ≡ h =
              ap (λ x. bearer ++ x) (sym rest) ∙ ap (λ x. x ++ drop 7 h) (sym same) ∙ whole in
            (sym split, grind (arith, long, ap length split, length-append bearer token))
      ]
    ]

presented-bearer : (token : Bytes) → 1 ≤ length token → presented (bearer ++ token) ≡ some token
unfolding presented same_bytes
presented-bearer token l = grind (arith, l)

any-One :
    (digest : Bytes → Bytes) (token : Bytes) (ts : List Bytes)
    → any (same_bytes (digest token)) (digests_of digest ts) ≡ true ↔ One digest token ts
any-One digest token [] = ((λ h. absurd (grind (arith, h))), (λ x. absurd x))
any-One digest token (t ∷ ts) =
    let (there, back) = any-One digest token ts in
    elim (Bool-cases (same_bytes (digest token) (digest t))) [
      | inl q ↦ ((λ h. inl (same_bytes-eq (digest token) (digest t) q)), (λ x. rw q refl))
      | inr q ↦ (
        (λ h. inr (there (grind (arith, h, q)))),
        (λ x. elim x [
          | inl e ↦
              absurd
                (grind (arith, q, ap (same_bytes (digest token)) e, same_bytes_refl (digest token)))
          | inr o ↦ rw q (back o)
        ]),
      )
    ]

-- With tokens, a request is admitted exactly if its header is the prefix and a token, not empty,
-- whose digest is that of one of them; with none, every request is.
pub admits_iff :
    (digest : Bytes → Bytes) (tokens : List Bytes) (header : Bytes)
    → (admits digest (digests_of digest tokens) header ≡ true) ↔ (
        (tokens ≡ [])
        ⊎ ((token : Bytes) × (header ≡ bearer ++ token)
            × (1 ≤ length token)
            × One digest token tokens))
unfolding admits
admits_iff digest [] header = ((λ h. inl refl), (λ x. refl))
admits_iff digest (t ∷ ts) header = (
  (λ h. elim (Option-cases (presented header)) [
    | inl n ↦ absurd (grind (arith, h, n))
    | inr (token, e) ↦
        let (whole, some_bytes) = presented-some header token e in
        inr (
          token,
          whole,
          some_bytes,
          (any-One digest token (t ∷ ts)).0
              (subst (λ o. is_one digest (digests_of digest (t ∷ ts)) o ≡ true) e h),
        )
  ]),
  (λ x. elim x [
    | inl nil ↦ absurd (grind (arith, nil))
    | inr (token, whole, some_bytes, known) ↦
        subst (λ o. is_one digest (digests_of digest (t ∷ ts)) o ≡ true)
          (sym (ap presented whole ∙ presented-bearer token some_bytes))
          ((any-One digest token (t ∷ ts)).1 known)
  ]),
)
