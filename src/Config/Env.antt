-- ===== src/Config/Env.antt =====
-- internal/config/config.go: the variables of the environment. An int is a 64-bit pattern, and so
-- is a Duration; time.ParseDuration is an argument. TrimSpace trims the ASCII spaces.
use calligraphy.Base.{
  ℕ, ◌+◌, ◌-◌, ◌*◌, ◌<◌, ◌≡◌, String, List, [], ◌∷◌, Bool, true, false, ◌&&◌, ◌||◌, Option, none,
  some, if◌then◌else◌, ltb, leb, ◌==◌, i64, str_eq, Bool-cases, arith, inl, inr,
}
use calligraphy.Job.Errors.{Bytes}
use calligraphy.Job.Record.{codes}
use calligraphy.Store.Row.{coalesce}

abbrev pub is_digit : ℕ → Bool
is_digit c = leb b'0' c && leb c b'9'

-- strconv.Atoi
unfoldable pub digits : ℕ → Bytes → Option ℕ
digits n [] = some n
digits n (c ∷ cs) = let rest = digits (n * 10 + (c - b'0')) cs in if is_digit c then rest else none

abbrev pub in_range : Bool → ℕ → Option ℕ
in_range negative n =
    if negative
    then if leb n 9223372036854775808 then some (i64 (18446744073709551616 - n)) else none
    else if ltb n 9223372036854775808
    then some n
    else none

abbrev pub ranged : Bool → Option ℕ → Option ℕ
ranged negative none = none
ranged negative (some n) = in_range negative n

unfoldable pub number : Bool → Bytes → Option ℕ
unfolding digits
number negative [] = none
number negative (c ∷ cs) = ranged negative (digits 0 (c ∷ cs))

unfoldable pub atoi : Bytes → Option ℕ
unfolding number
atoi [] = none
atoi (c ∷ cs) =
    if c == b'-'
    then number true cs
    else if c == b'+'
    then number false cs
    else number false (c ∷ cs)

-- strconv.ParseBool
abbrev pub is_one_of : String → List String → Bool
is_one_of s [] = false
is_one_of s (t ∷ ts) = str_eq s t || is_one_of s ts

unfoldable pub parse_bool : String → Option Bool
parse_bool s =
    if is_one_of s ("1" ∷ "t" ∷ "T" ∷ "TRUE" ∷ "true" ∷ "True" ∷ [])
    then some true
    else if is_one_of s ("0" ∷ "f" ∷ "F" ∷ "FALSE" ∷ "false" ∷ "False" ∷ [])
    then some false
    else none

-- os.LookupEnv, and a value that is there and not empty.
abbrev pub Environment : Type 0
Environment = String → Option String

abbrev pub given : Option String → Option String
given none = none
given (some v) = if str_eq v "" then none else some v

unfoldable pub getenv : Environment → String → String → String
getenv env key def = coalesce (given (env key)) def

abbrev pub parsed {ℓ} : {A : Type ℓ} → (String → Option A) → Option String → A → A
parsed parse none def = def
parsed parse (some v) def = coalesce (parse v) def

unfoldable pub getenv_int : Environment → String → ℕ → ℕ
unfolding atoi
getenv_int env key def = parsed (λ v. atoi (codes v)) (given (env key)) def

unfoldable pub getenv_bool : Environment → String → Bool → Bool
unfolding parse_bool
getenv_bool env key def = parsed parse_bool (given (env key)) def

unfoldable pub getenv_dur : (String → Option ℕ) → Environment → String → ℕ → ℕ
getenv_dur parse_duration env key def = parsed parse_duration (given (env key)) def

-- strings.Split at commas, strings.TrimSpace.
abbrev pub add_to_first : ℕ → List Bytes → List Bytes
add_to_first c [] = (c ∷ []) ∷ []
add_to_first c (p ∷ ps) = (c ∷ p) ∷ ps

unfoldable pub split : Bytes → List Bytes
split [] = [] ∷ []
split (c ∷ cs) = let rest = split cs in if c == b',' then [] ∷ rest else add_to_first c rest

abbrev pub is_space : ℕ → Bool
is_space c = (c == 32) || (leb 9 c && leb c 13)

unfoldable pub trim_left : Bytes → Bytes
trim_left [] = []
trim_left (c ∷ cs) = let rest = trim_left cs in if is_space c then rest else c ∷ cs

unfoldable pub trim_right : Bytes → Bytes
trim_right [] = []
trim_right (c ∷ cs) = elim (trim_right cs) [
  | [] ↦ if is_space c then [] else c ∷ []
  | d ∷ ds ↦ c ∷ d ∷ ds
]

abbrev pub keep : Bytes → List Bytes → List Bytes
keep [] out = out
keep (c ∷ cs) out = (c ∷ cs) ∷ out

unfoldable pub keep_pieces : List Bytes → List Bytes
unfolding trim_left trim_right
keep_pieces [] = []
keep_pieces (p ∷ ps) = keep (trim_left (trim_right p)) (keep_pieces ps)

unfoldable pub split_non_empty : String → List Bytes
unfolding split keep_pieces
split_non_empty s = keep_pieces (split (codes s))

ranged-lt :
    (negative : Bool) (o : Option ℕ) (n : ℕ) → ranged negative o ≡ some n → n < 18446744073709551616
ranged-lt negative none n h = absurd (grind (arith, h))
ranged-lt true (some m) n h = grind (arith, h)
ranged-lt false (some m) n h = grind (arith, h)

number-lt :
    (negative : Bool) (s : Bytes) (n : ℕ) → number negative s ≡ some n → n < 18446744073709551616
unfolding number
number-lt negative [] n h = absurd (grind (arith, h))
number-lt negative (c ∷ cs) n h = ranged-lt negative (digits 0 (c ∷ cs)) n h

-- Atoi gives a 64-bit pattern.
pub atoi-lt : (s : Bytes) (n : ℕ) → atoi s ≡ some n → n < 18446744073709551616
unfolding atoi
atoi-lt [] n h = absurd (grind (arith, h))
atoi-lt (c ∷ cs) n h = elim (Bool-cases (c == b'-')) [
  | inl e ↦ number-lt true cs n (grind (arith, h, e))
  | inr e ↦ elim (Bool-cases (c == b'+')) [
    | inl f ↦ number-lt false cs n (grind (arith, h, e, f))
    | inr f ↦ number-lt false (c ∷ cs) n (grind (arith, h, e, f))
  ]
]
