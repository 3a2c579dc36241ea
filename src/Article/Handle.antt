-- ===== src/Article/Handle.antt =====
-- internal/handlers/articleanalysis: Analyze, and the handler of article.analysis. The codec of JSON,
-- the clock and the texts of errors are arguments; the counts of a payload are 64-bit patterns.
-- `none` is a panic.
use calligraphy.Base.{
  ℕ, ◌+◌, ◌-◌, ◌/◌, List, [], ◌∷◌, ◌&&◌, Option, none, some, if◌then◌else◌, slt, i64, ltb, length,
  Result, ok, err,
}
use calligraphy.Job.Errors.{Bytes, Err, plain, wrapped, non_retryable}
use calligraphy.Article.Text.{Runes, Unicode, is_empty, split_paragraphs, split_sentences}
use calligraphy.Article.Words.{tokenize, count_syllables}
use calligraphy.Article.Language.{Language, detect_language}
use calligraphy.Article.Ranking.{Floats, Row}
use calligraphy.Article.Keywords.{Keyword, keyword_text_rank}
use calligraphy.Article.Summary.{summary_text_rank}

pub record Payload : Type 0 where
  pub article_id : Bytes
  pub text : Runes
  pub top_keywords : ℕ
  pub summary_sentences : ℕ

unfoldable pub syllables : Unicode → List Runes → ℕ
syllables u [] = 0
syllables u (w ∷ ws) = count_syllables u w + syllables u ws

-- A knob with its default and its cap.
unfoldable pub capped : ℕ → ℕ → ℕ → ℕ
capped default cap n =
    let set = if slt 0 n then i64 n else default in if slt cap set then cap else set

-- What a range over the votes and a range over the edges of a node visit, in what order.
pub record Orders (fl : Floats) : Type 0 where
  pub languages : List Runes → List Language
  pub edges : Row fl → Row fl

module _ (fl : Floats) (o : Orders fl) (u : Unicode) where
  open fl use {F, of_ℕ, lit, sub, mul, div, add, round1}

  pub record Analysis : Type 0 where
    pub language : Language
    pub words : ℕ
    pub sentences : ℕ
    pub paragraphs : ℕ
    pub reading_time_minutes : ℕ
    pub flesch_reading_ease : F
    pub flesch_kincaid_grade : F
    pub keywords : List (Keyword fl)
    pub summary : List Runes

  abbrev pub reading_ease : F → F → F
  reading_ease wps spw =
      round1 (sub (sub (lit "206.835") (mul (lit "1.015") wps)) (mul (lit "84.6") spw))

  abbrev pub grade : F → F → F
  grade wps spw = round1 (sub (add (mul (lit "0.39") wps) (mul (lit "11.8") spw)) (lit "15.59"))

  abbrev pub analysis_of : Runes → ℕ → List Runes → Analysis
  analysis_of text top_k summary =
      let sentences = split_sentences u text in
      let words = tokenize u text in
      let wps = div (of_ℕ (length words)) (of_ℕ (length sentences)) in
      let spw = div (of_ℕ (syllables u words)) (of_ℕ (length words)) in
      let measured = ltb 0 (length words) && ltb 0 (length sentences) in
      record {
        language = detect_language (o.languages words) words;
        words = length words;
        sentences = length sentences;
        paragraphs = length (split_paragraphs u text);
        reading_time_minutes = (length words + 200 - 1) / 200;
        flesch_reading_ease = if measured then reading_ease wps spw else of_ℕ 0;
        flesch_kincaid_grade = if measured then grade wps spw else of_ℕ 0;
        keywords = keyword_text_rank fl o.edges u words top_k;
        summary = summary;
      }

  unfoldable pub analyze : Runes → ℕ → ℕ → Option Analysis
  unfolding syllables
  analyze text top_k summary_len =
      elim (summary_text_rank fl o.edges u (split_sentences u text) summary_len) [
        | none ↦ none
        | some summary ↦ some (analysis_of text top_k summary)
      ]

  pub record Libraries : Type 0 where
    pub unmarshal : Bytes → Result Err Payload
    pub marshal : Bytes → Analysis → ℕ → Result Err Bytes
    pub bad_payload : Bytes
    pub text_required : Bytes
    pub encoding : Bytes

  abbrev pub sent : Libraries → Analysis → Result Err Bytes → Option Analysis × Result Err Bytes
  sent lib a (ok out) = (some a, ok out)
  sent lib a (err e) = (some a, err (wrapped lib.encoding e))

  abbrev pub encode :
      Libraries → Bytes → ℕ → Option Analysis → Option (Option Analysis × Result Err Bytes)
  encode lib id elapsed none = none
  encode lib id elapsed (some a) = some (sent lib a (lib.marshal id a elapsed))

  abbrev pub unless_done :
      Libraries → ℕ → Payload → Option Err → Option (Option Analysis × Result Err Bytes)
  unless_done lib elapsed p (some e) = some (none, err e)
  unless_done lib elapsed p none =
      encode lib p.article_id elapsed
        (analyze p.text (capped 10 50 p.top_keywords) (capped 3 10 p.summary_sentences))

  abbrev pub after_parse :
      Libraries → Option Err → ℕ → Result Err Payload → Option (Option Analysis × Result Err Bytes)
  after_parse lib ctx_err elapsed (err e) =
      some (none, err (non_retryable (wrapped lib.bad_payload e)))
  after_parse lib ctx_err elapsed (ok p) =
      if is_empty p.text
      then some (none, err (non_retryable (plain lib.text_required)))
      else unless_done lib elapsed p ctx_err

  -- What is encoded, if anything is, and what the handler returns.
  unfoldable pub handle :
      Libraries → Option Err → ℕ → Bytes → Option (Option Analysis × Result Err Bytes)
  unfolding analyze capped
  handle lib ctx_err elapsed payload = after_parse lib ctx_err elapsed (lib.unmarshal payload)
