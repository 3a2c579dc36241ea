-- ===== src/Article/Samples.antt =====
-- internal/handlers/articleanalysis: ASCII texts, and the theorems at them.
use calligraphy.Base.{
  All, ℕ, ◌+◌, ◌*◌, ◌/◌, ◌≡◌, ◌↔◌, refl, min, List, [], ◌∷◌, Bool, ◌&&◌, ◌||◌, ◌==◌, Option, none,
  some, if◌then◌else◌, ltb, leb, length, Result, ok, same_bytes, arith,
}
use calligraphy.Job.Errors.{Bytes, Err}
use calligraphy.Job.Record.{codes}
use calligraphy.Article.Text.{Runes, Unicode, split_sentences, split_paragraphs}
use calligraphy.Article.Words.{tokenize, count_syllables}
use calligraphy.Article.Pieces.{flatten, without}
use calligraphy.Article.Sentences.{IsTrimmed, split_sentences-ink}
use calligraphy.Article.Language.{
  Language, en, es, fr, de, detect_language, votes, stopwords_en, stopwords_es, stopwords_fr,
  stopwords_de,
}
use calligraphy.Article.Votes.{Leads, IsRange, detect_language_iff}
use calligraphy.Article.Ranking.{Floats}
use calligraphy.Article.Graph.{weight, weight_in, link_all, no_edges}
use calligraphy.Article.Keywords.{or_default}
use calligraphy.Article.Summary.{summary_text_rank}
use calligraphy.Article.Excerpt.{summary-InOrder}
use calligraphy.Article.Places.{excerpt, InOrder}
use calligraphy.Article.Handle.{Orders, Analysis, Libraries, handle}
use calligraphy.Article.Answers.{Answer, handle_bounded}

abbrev within : ℕ → ℕ → ℕ → Bool
within lo hi c = leb lo c && leb c hi

abbrev ascii : Unicode
ascii = record {
  is_letter = λ c. within b'a' b'z' c || within b'A' b'Z' c;
  is_digit = within b'0' b'9';
  is_upper = within b'A' b'Z';
  is_space = λ c. (c == b' ') || within 9 13 c;
  to_lower = λ c. if within b'A' b'Z' c then c + 32 else c;
}

abbrev story : Runes
story = codes "Mr. Fox didn't run. It hid in v2.0 of the den! Why?"

two_tokens : tokenize ascii (codes "Don't -stop-") ≡ codes "don't" ∷ codes "stop" ∷ []
unfolding tokenize
two_tokens = refl

split_sentences-ink_example :
    (without ascii.is_space (flatten (split_sentences ascii story)) ≡ without ascii.is_space story)
    × All (IsTrimmed ascii) (split_sentences ascii story)
split_sentences-ink_example = split_sentences-ink ascii story

three_sentences :
    split_sentences ascii story
    ≡ codes "Mr. Fox didn't run." ∷ codes "It hid in v2.0 of the den!" ∷ codes "Why?" ∷ []
unfolding split_sentences same_bytes
three_sentences = refl

two_paragraphs : length (split_paragraphs ascii (codes "a\n \n\nb\nc")) ≡ 2
unfolding split_paragraphs
two_paragraphs = refl

-- A silent e behind `-le` is counted, though the l follows a vowel.
whole_counts_two : count_syllables ascii (codes "whole") ≡ 2
unfolding count_syllables same_bytes
whole_counts_two = refl

cake_counts_one : count_syllables ascii (codes "cake") ≡ 1
unfolding count_syllables same_bytes
cake_counts_one = refl

-- Ten words that are stopwords of Spanish and of French.
abbrev ten_de : List Runes
ten_de = let w = codes "de" in w ∷ w ∷ w ∷ w ∷ w ∷ w ∷ w ∷ w ∷ w ∷ w ∷ []

de_is_spanish : detect_language (es ∷ fr ∷ []) ten_de ≡ es
unfolding detect_language stopwords_en stopwords_es stopwords_fr stopwords_de same_bytes
de_is_spanish = refl

de_is_french : detect_language (fr ∷ es ∷ []) ten_de ≡ fr
unfolding detect_language stopwords_en stopwords_es stopwords_fr stopwords_de same_bytes
de_is_french = refl

detect_language_iff_example :
    ((order : List Language) × IsRange (λ k. votes k ten_de) order
      × (detect_language order ten_de ≡ fr))
    ↔ Leads ten_de fr
detect_language_iff_example = detect_language_iff ten_de fr (λ e. ground arith)

abbrev places : List (Option ℕ)
places = some 0 ∷ some 1 ∷ none ∷ some 0 ∷ []

meet_twice : weight (link_all places no_edges) 0 1 ≡ 2
unfolding link_all weight_in
meet_twice = refl

-- Whole numbers in place of the floating-point ones.
abbrev whole : Floats
whole = record {
  F = ℕ;
  of_ℕ = λ n. n;
  lit = λ s. 1;
  add = λ a b. a + b;
  sub = λ a b. a;
  mul = λ a b. a * b;
  div = λ a b. a / b;
  log = λ a. a;
  eq = λ a b. a == b;
  lt = ltb;
  round1 = λ a. a;
  round4 = λ a. a;
}

abbrev orders : Orders whole
orders = record { languages = λ ws. en ∷ es ∷ fr ∷ de ∷ []; edges = λ row. row }

summary-InOrder_example :
    let ss = split_sentences ascii story in
    (is : List ℕ) × (summary_text_rank whole (λ row. row) ascii ss 2 ≡ some (excerpt ss is))
    × InOrder (length ss) is
    × (length is ≡ min (or_default 2 3) (length ss))
summary-InOrder_example =
    summary-InOrder whole (λ row. row) ascii (split_sentences ascii story) 2 (omega arith)

abbrev libraries : Libraries whole orders ascii
libraries = record {
  unmarshal =
      λ b. ok (record { article_id = []; text = story; top_keywords = 70; summary_sentences = 2 });
  marshal = λ id a elapsed. ok [];
  bad_payload = [];
  text_required = [];
  encoding = [];
}

handle_bounded_example :
    (enc : Option (Analysis whole orders ascii)) × (r : Result Err Bytes) × (handle whole orders
        ascii libraries none 5 []
      ≡ some (enc, r))
    × Answer whole orders ascii none enc r
handle_bounded_example = handle_bounded whole orders ascii libraries none 5 []
