-- ===== src/Retry/Bounds.antt =====
-- The ceiling of the backoff is the closed form of its documentation.
use calligraphy.Base.{
  ℕ, zero, suc, ◌+◌, ◌-◌, ◌*◌, ◌^◌, ◌≤◌, ◌<◌, min, ◌≡◌, ◌∙◌, ap, sym, true, false, if◌then◌else◌,
  slt, i64, arith, Bool-cases, inl, inr,
}
use calligraphy.Retry.{Policy, grow, ceiling_of, delay}

abbrev pub small : ℕ
small = 4611686018427387904

slt_small : (a b : ℕ) → a < 9223372036854775808 → b < 9223372036854775808 → slt a b ≡ true → a < b
slt_small a b p q h = ground arith

not_slt_small :
    (a b : ℕ) → a < 9223372036854775808 → b < 9223372036854775808 → slt a b ≡ false → b ≤ a
not_slt_small a b p q h = ground arith

pow_pos : (k : ℕ) → 1 ≤ 2 ^ k
pow_pos zero = omega arith
pow_pos (suc k) = grind (arith, pow_pos k)

double_pow : (c k : ℕ) → c * 2 ^ suc k ≡ c * 2 * 2 ^ k
double_pow c k = grind arith

le-mul_pow : (c k : ℕ) → c ≤ c * 2 ^ k
le-mul_pow c k = grind (arith, pow_pos k)

clamp :
    (limit c : ℕ)
    → limit ≤ 4611686018427387904
    → c < 9223372036854775808
    → (if slt limit c then limit else c) ≡ min limit c
clamp limit c l s = ground arith

-- Doubling that stops at the limit has the minimum of the closed form, and stays below 2 ^ 63.
grow-min :
    (limit rounds c : ℕ)
    → limit ≤ 4611686018427387904
    → c < 9223372036854775808
    → (min limit (grow limit rounds c) ≡ min limit (c * 2 ^ rounds))
      × (grow limit rounds c < 9223372036854775808)
unfolding grow
grow-min limit zero c l s = (omega arith, s)
grow-min limit (suc rounds) c l s = elim (Bool-cases (slt c limit)) [
  | inl t ↦
      let (e, b) =
        grow-min limit rounds (c * 2) l (omega (arith, slt_small c limit s (omega arith) t)) in
      let exact : i64 (c * 2) ≡ c * 2 = omega (arith, slt_small c limit s (omega arith) t) in
      rw (t, exact) (e ∙ ap (min limit) (sym (double_pow c rounds)), b)
  | inr t ↦
      rw t (omega (arith, not_slt_small c limit s (omega arith) t, le-mul_pow c (suc rounds)), s)
]

-- The first attempt counts as attempt 1.
abbrev pub first : ℕ → ℕ
first attempt = if slt attempt 1 then 1 else attempt

-- For a base of a 64-bit duration and a cap of at most 2 ^ 62 ns (146 years), the ceiling of the
-- delay after attempt n is min(cap, base * 2 ^ (n - 1)), where attempts below 1 count as 1: the
-- doubling never overflows.
pub ceiling_of_lem :
    (p : Policy) (attempt : ℕ)
    → p.cap_delay ≤ 4611686018427387904
    → p.base < 9223372036854775808
    → ceiling_of p attempt ≡ min p.cap_delay (p.base * 2 ^ (first attempt - 1))
unfolding ceiling_of
ceiling_of_lem p attempt l s =
    let (e, b) = grow-min p.cap_delay (first attempt - 1) p.base l s in
    clamp p.cap_delay (grow p.cap_delay (first attempt - 1) p.base) l b ∙ e

-- For a draw that does not exceed what it scales, under the same bounds: the delay is at most the
-- cap, and at most base * 2 ^ (n - 1).
pub delay_le :
    (p : Policy) (attempt : ℕ)
    → ((c : ℕ) → p.scale c ≤ c)
    → p.cap_delay ≤ 4611686018427387904
    → p.base < 9223372036854775808
    → (delay p attempt ≤ p.cap_delay) × (delay p attempt ≤ p.base * 2 ^ (first attempt - 1))
unfolding delay
delay_le p attempt d l s = omega (arith, ceiling_of_lem p attempt l s, d (ceiling_of p attempt))

first_pos : (attempt : ℕ) → 1 ≤ attempt → attempt < 9223372036854775808 → first attempt ≡ attempt
first_pos attempt a b = ground arith

first-suc :
    (attempt : ℕ)
    → 1 ≤ attempt
    → attempt < 9223372036854775807
    → first (attempt + 1) - 1 ≡ suc (attempt - 1)
first-suc attempt a b = ground arith

pow_grows : (c k : ℕ) → c * 2 ^ k ≤ c * 2 ^ suc k
pow_grows c k = rw double_pow (grind arith)

-- Under the same bounds the ceilings never shrink from one attempt to the next.
pub ceiling_of_mono :
    (p : Policy) (attempt : ℕ)
    → 1 ≤ attempt
    → attempt < 9223372036854775807
    → p.cap_delay ≤ 4611686018427387904
    → p.base < 9223372036854775808
    → ceiling_of p attempt ≤ ceiling_of p (attempt + 1)
ceiling_of_mono p attempt a b l s =
    rw
      (
        ceiling_of_lem p attempt l s,
        ceiling_of_lem p (attempt + 1) l s,
        first_pos attempt a (omega arith),
        first-suc attempt a b,
      )
      (omega (arith, pow_grows p.base (attempt - 1)))
