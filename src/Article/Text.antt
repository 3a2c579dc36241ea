-- ===== src/Article/Text.antt =====
-- internal/handlers/articleanalysis/analyzer.go: paragraphs and sentences. A text is its code
-- points. The tables of package unicode are arguments.
use calligraphy.Base.{
  ℕ, zero, suc, List, [], ◌∷◌, ◌++◌, map, Bool, true, false, not, ◌&&◌, ◌||◌, Option, none, some,
  if◌then◌else◌, ltb, ◌==◌, any, length, same_bytes,
}
use calligraphy.Job.Record.{codes}

abbrev pub Runes : Type 0
Runes = List ℕ

pub record Unicode : Type 0 where
  pub is_letter : ℕ → Bool
  pub is_digit : ℕ → Bool
  pub is_upper : ℕ → Bool
  pub is_space : ℕ → Bool
  pub to_lower : ℕ → ℕ

abbrev pub is_empty {ℓ} : {A : Type ℓ} → List A → Bool
is_empty [] = true
is_empty (c ∷ cs) = false

-- strings.TrimLeft, TrimRight and TrimFunc, by a test on code points.
unfoldable pub trim_left : (ℕ → Bool) → Runes → Runes
trim_left p [] = []
trim_left p (c ∷ cs) = let rest = trim_left p cs in if p c then rest else c ∷ cs

unfoldable pub trim_right : (ℕ → Bool) → Runes → Runes
trim_right p [] = []
trim_right p (c ∷ cs) = let rest = trim_right p cs in if is_empty rest && p c then [] else c ∷ rest

unfoldable pub trim : (ℕ → Bool) → Runes → Runes
unfolding trim_left trim_right
trim p cs = trim_right p (trim_left p cs)

-- The white space of regexp's \s.
abbrev pub is_ws : ℕ → Bool
is_ws c = (c == b' ') || (c == b'\n') || (c == b'\t') || (c == b'\r') || (c == 12)

-- Behind the last newline of the white space at the head.
unfoldable pub last_break : Runes → Option Runes
last_break [] = none
last_break (c ∷ cs) =
    let later = last_break cs in
    if is_ws c
    then elim later [ some rest ↦ some rest | none ↦ if c == b'\n' then some cs else none ]
    else none

-- `\n\s*\n` at the head, greedy.
unfoldable pub match_break : Runes → Option Runes
unfolding last_break
match_break [] = none
match_break (c ∷ cs) = if c == b'\n' then last_break cs else none

-- `Split` on it, and the pieces that are not blank. The fuel is the number of code points.
abbrev pub keep_piece : Unicode → Runes → List Runes
keep_piece u p = if is_empty (trim u.is_space p) then [] else p ∷ []

unfoldable pub cut_paragraphs : Unicode → ℕ → Runes → Runes → List Runes
unfolding match_break trim
cut_paragraphs u zero text cur = keep_piece u (cur ++ text)
cut_paragraphs u (suc fuel) [] cur = keep_piece u cur
cut_paragraphs u (suc fuel) (c ∷ cs) cur = elim (match_break (c ∷ cs)) [
  | some rest ↦ keep_piece u cur ++ cut_paragraphs u fuel rest []
  | none ↦ cut_paragraphs u fuel cs (cur ++ c ∷ [])
]

unfoldable pub split_paragraphs : Unicode → Runes → List Runes
unfolding cut_paragraphs
split_paragraphs u text = cut_paragraphs u (length text) text []

abbrev pub abbreviations : List Runes
abbreviations =
    codes "mr"
    ∷ codes "mrs"
    ∷ codes "ms"
    ∷ codes "dr"
    ∷ codes "prof"
    ∷ codes "sr"
    ∷ codes "jr"
    ∷ codes "st"
    ∷ codes "vs"
    ∷ codes "etc"
    ∷ codes "e.g"
    ∷ codes "i.e"
    ∷ codes "fig"
    ∷ codes "no"
    ∷ codes "vol"
    ∷ []

abbrev pub is_end : ℕ → Bool
is_end c = (c == b'.') || (c == b'!') || (c == b'?')

-- The run of terminators at the head, and what is behind it.
unfoldable pub ends : Runes → Runes
ends [] = []
ends (c ∷ cs) = let rest = ends cs in if is_end c then c ∷ rest else []

unfoldable pub after_ends : Runes → Runes
after_ends [] = []
after_ends (c ∷ cs) = let rest = after_ends cs in if is_end c then rest else c ∷ cs

abbrev pub is_gap : ℕ → Bool
is_gap c = (c == b' ') || (c == b'\n') || (c == b'\t')

-- LastIndexAny: behind the last gap.
unfoldable pub behind_gap : Runes → Option Runes
behind_gap [] = none
behind_gap (c ∷ cs) = elim (behind_gap cs) [
  | some w ↦ some w
  | none ↦ if is_gap c then some cs else none
]

unfoldable pub last_word : Runes → Runes
unfolding trim_right behind_gap
last_word s =
    let t = trim_right (λ c. (c == b'.') || (c == b' ')) s in
    elim (behind_gap t) [ some w ↦ w | none ↦ t ]

-- TrimSuffix by ".".
unfoldable pub trim_dot : Runes → Runes
trim_dot [] = []
trim_dot (c ∷ cs) = if is_empty cs && (c == b'.') then [] else c ∷ trim_dot cs

unfoldable pub is_abbreviation : Unicode → Runes → Bool
unfolding last_word trim_dot
is_abbreviation u cur = any (same_bytes (map u.to_lower (trim_dot (last_word cur)))) abbreviations

abbrev pub starts_digit : Unicode → Runes → Bool
starts_digit u [] = false
starts_digit u (c ∷ cs) = u.is_digit c

abbrev pub is_blank : ℕ → Bool
is_blank c = (c == b' ') || (c == b'\n') || (c == b'\t') || (c == b'\r')

abbrev pub opens : Unicode → ℕ → Bool
opens u c = u.is_upper c || u.is_digit c || (c == b'"') || (c == 0x201c)

-- Whether what follows a run of terminators lets a sentence end there.
unfoldable pub at_boundary : Unicode → Runes → Bool
unfolding trim_left
at_boundary u rest =
    let next = trim_left is_blank rest in
    elim next [ [] ↦ true | c ∷ cs ↦ ltb (suc (length cs)) (length rest) && opens u c ]

-- The sentence in `cur` ends at a run that begins with `r`.
unfoldable pub ends_here : Unicode → ℕ → Runes → Runes → Bool
unfolding is_abbreviation at_boundary
ends_here u r cur rest =
    if (r == b'.') && (is_abbreviation u cur || starts_digit u rest)
    then false
    else at_boundary u rest

abbrev pub flush : Unicode → Runes → List Runes
flush u cur = let s = trim u.is_space cur in if is_empty s then [] else s ∷ []

-- The scan of splitSentences. The fuel is the number of code points.
unfoldable pub scan_sentences : Unicode → ℕ → Runes → Runes → List Runes
unfolding ends after_ends ends_here trim
scan_sentences u zero rest cur = flush u (cur ++ rest)
scan_sentences u (suc fuel) [] cur = flush u cur
scan_sentences u (suc fuel) (r ∷ rs) cur =
    let on = scan_sentences u fuel rs (cur ++ r ∷ []) in
    let text = cur ++ r ∷ ends rs in
    let cut = flush u text ++ scan_sentences u fuel (after_ends rs) [] in
    let past = scan_sentences u fuel (after_ends rs) text in
    if not (is_end r) then on else if ends_here u r text (after_ends rs) then cut else past

unfoldable pub split_sentences : Unicode → Runes → List Runes
unfolding scan_sentences
split_sentences u text = scan_sentences u (length text) text []
