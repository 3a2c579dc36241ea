-- ===== src/Article/Words.antt =====
-- internal/handlers/articleanalysis/analyzer.go: tokens and syllables.
use calligraphy.Base.{
  ℕ, ◌+◌, ◌-◌, ◌/◌, ◌%◌, List, [], ◌∷◌, ◌++◌, map, Bool, false, not, ◌&&◌, ◌||◌, if◌then◌else◌, ltb,
  leb, ◌==◌, length, same_bytes,
}
use calligraphy.Job.Record.{codes}
use calligraphy.Article.Text.{is_empty, Runes, trim_right, Unicode}

abbrev pub is_mark : ℕ → Bool
is_mark c = (c == b'\'') || (c == b'-')

abbrev pub is_word : Unicode → ℕ → Bool
is_word u c = u.is_letter c || u.is_digit c

abbrev pub emit : Runes → List Runes
emit cur = if is_empty cur then [] else trim_right is_mark cur ∷ []

unfoldable pub scan_words : Unicode → Runes → Runes → List Runes
unfolding trim_right
scan_words u [] cur = emit cur
scan_words u (r ∷ rs) cur =
    let grown = scan_words u rs (cur ++ u.to_lower r ∷ []) in
    let marked = scan_words u rs (cur ++ r ∷ []) in
    let cut = emit cur ++ scan_words u rs [] in
    if is_word u r then grown else if is_mark r && not (is_empty cur) then marked else cut

unfoldable pub tokenize : Unicode → Runes → List Runes
unfolding scan_words
tokenize u text = scan_words u text []

-- UTF-8, for what looks at the bytes of a word.
unfoldable pub utf8 : ℕ → Runes
utf8 c =
    if ltb c 0x80
    then c ∷ []
    else if ltb c 0x800
    then (0xc0 + c / 64) ∷ (0x80 + c % 64) ∷ []
    else if ltb c 0x10000
    then (0xe0 + c / 4096) ∷ (0x80 + c / 64 % 64) ∷ (0x80 + c % 64) ∷ []
    else (0xf0 + c / 262144) ∷ (0x80 + c / 4096 % 64) ∷ (0x80 + c / 64 % 64) ∷ (0x80 + c % 64) ∷ []

unfoldable pub bytes_of : Runes → Runes
unfolding utf8
bytes_of [] = []
bytes_of (c ∷ cs) = utf8 c ++ bytes_of cs

abbrev pub is_vowel : ℕ → Bool
is_vowel c = (c == b'a') || (c == b'e') || (c == b'i') || (c == b'o') || (c == b'u') || (c == b'y')

-- The vowel groups, and whether the byte before was a vowel.
unfoldable pub vowel_groups : Runes → Bool → ℕ
vowel_groups [] prev = 0
vowel_groups (c ∷ cs) prev =
    (if is_vowel c && not prev then 1 else 0) + vowel_groups cs (is_vowel c)

unfoldable pub has_suffix : Runes → Runes → Bool
has_suffix [] suffix = same_bytes [] suffix
has_suffix (c ∷ cs) suffix = same_bytes (c ∷ cs) suffix || has_suffix cs suffix

unfoldable pub count_syllables : Unicode → Runes → ℕ
unfolding bytes_of vowel_groups has_suffix
count_syllables u word =
    let w = bytes_of (map u.to_lower word) in
    let groups = vowel_groups w false in
    let silent = has_suffix w (codes "e") && (not (has_suffix w (codes "le")) && ltb 1 groups) in
    let count = if silent then groups - 1 else groups in
    if leb (length w) 2 then 1 else if count == 0 then 1 else count
