-- ===== src/Base/Tests.antt =====
-- Boolean tests on the native numbers, the conditional, and Go's signed 64-bit integers.
use Prim.Native.Nat.{ℕ, ◌+◌, ◌*◌, ◌≤◌, ◌%◌, compare, Ordering}
use mathlib.Core.Path.{◌≡◌, refl}
use mathlib.Core.Logic.{◌⊎◌, inl, inr}
use mathlib.Core.Bool.{Bool, true, false}
use mathlib.Core.Option.{Option, none, some}
use native.Mathlib.Omega.{arith}

abbrev pub ltb : ℕ → ℕ → Bool
ltb a b = elim (compare a b) [ Ordering.lt ↦ true | _ ↦ false ]

abbrev pub leb : ℕ → ℕ → Bool
leb a b = elim (compare a b) [ Ordering.gt ↦ false | _ ↦ true ]

infix 50 ◌==◌
abbrev pub ◌==◌ : ℕ → ℕ → Bool
a == b = elim (compare a b) [ Ordering.eq ↦ true | _ ↦ false ]

infix 1 if◌then◌else◌
abbrev pub if◌then◌else◌ {ℓ} : {A : Type ℓ} → Bool → A → A → A
if true then x else y = x
if false then x else y = y

pub Bool-cases : (b : Bool) → (b ≡ true) ⊎ (b ≡ false)
Bool-cases true = inl refl
Bool-cases false = inr refl

pub Option-cases {ℓ} : {A : Type ℓ} (o : Option A) → (o ≡ none) ⊎ ((a : A) × (o ≡ some a))
Option-cases none = inl refl
Option-cases (some a) = inr (a, refl)

abbrev pub is_some {ℓ} : {A : Type ℓ} → Option A → Bool
is_some none = false
is_some (some a) = true

-- Two's complement: a 64-bit integer is its bit pattern, below 2 ^ 64, and the signed order
-- compares patterns whose sign bits are flipped.
abbrev pub i64 : ℕ → ℕ
i64 n = n % 18446744073709551616

abbrev pub slt : ℕ → ℕ → Bool
slt a b = ltb (i64 (a + 9223372036854775808)) (i64 (b + 9223372036854775808))

-- A fallible call, and sequencing that stops at the first error.
pub data Result {ℓ κ} (E : Type ℓ) (A : Type κ) : Type (ℓ ⊔ κ) where
  ok : A → Result E A
  err : E → Result E A

pub Result-cases {ℓ κ} :
    {E : Type ℓ} {A : Type κ} (r : Result E A) → ((a : A) × (r ≡ ok a)) ⊎ ((e : E) × (r ≡ err e))
Result-cases (ok a) = inl (a, refl)
Result-cases (err e) = inr (e, refl)

infixl 5 ◌>>=◌ ◌>>◌
abbrev pub ◌>>=◌ {ℓ κ μ} :
    {E : Type ℓ} {A : Type κ} {B : Type μ} → Result E A → (A → Result E B) → Result E B
ok a >>= f = f a
err e >>= f = err e

abbrev pub ◌>>◌ {ℓ κ} : {E : Type ℓ} {B : Type κ} → Result E (Unit {0}) → Result E B → Result E B
m >> k = m >>= λ _. k

-- `if bad { return e }`.
abbrev pub refuse_if {ℓ} : {E : Type ℓ} → Bool → E → Result E (Unit {0})
refuse_if true e = err e
refuse_if false e = ok tt

-- What a call to Postgres or Redis meets: it is served; it fails with no effect; or it takes effect
-- and its answer is lost, which the caller sees as an error.
pub data Fate : Type 0 where
  served unreachable answer_lost : Fate

pub data Unavailable : Type 0 where
  unavailable : Unavailable

abbrev pub under {ℓ} : {S : Type 0} {A : Type ℓ} → Fate → S → S × A → S × Result Unavailable A
under served s (s', a) = (s', ok a)
under unreachable s (s', a) = (s, err unavailable)
under answer_lost s (s', a) = (s', err unavailable)

-- An answer that arrives is the call's, and the call took effect.
pub under-ok {ℓ} :
    {S : Type 0} {A : Type ℓ} (fate : Fate) (s : S) (x : S × A) {a : A}
    → (under fate s x).1 ≡ ok a
    → (x.1 ≡ a) × ((under fate s x).0 ≡ x.0)
under-ok served s x h = (grind arith, refl)
under-ok unreachable s x h = absurd (grind arith)
under-ok answer_lost s x h = absurd (grind arith)

pub mul_mono : (k a b : ℕ) → a ≤ b → k * a ≤ k * b
mul_mono k a b h = grind arith

-- Whatever comes of a call, it took effect or it did not.
pub under-effect {ℓ} :
    {S : Type 0} {A : Type ℓ} (fate : Fate) (s : S) (x : S × A)
    → ((under fate s x).0 ≡ x.0) ⊎ ((under fate s x).0 ≡ s)
under-effect served s x = inl refl
under-effect unreachable s x = inr refl
under-effect answer_lost s x = inl refl
