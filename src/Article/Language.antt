-- ===== src/Article/Language.antt =====
-- internal/handlers/articleanalysis/analyzer.go: the stopwords and the guess of the language. The
-- order in which a range visits the map of votes is an argument, since Go leaves it open.
use calligraphy.Base.{
  ℕ, ◌+◌, ◌*◌, String, concat, List, [], ◌∷◌, ◌++◌, Bool, if◌then◌else◌, ltb, ◌==◌, any, length,
  same_bytes,
}
use calligraphy.Job.Record.{codes}
use calligraphy.Article.Text.{Runes, is_empty}

-- strings.Fields, of a text whose white space is the space.
abbrev pub word_if : Runes → List Runes
word_if cur = if is_empty cur then [] else cur ∷ []

unfoldable pub fields : Runes → Runes → List Runes
fields [] cur = word_if cur
fields (c ∷ cs) cur =
    let cut = word_if cur ++ fields cs [] in
    let on = fields cs (cur ++ c ∷ []) in if c == b' ' then cut else on

unfoldable pub word_set : String → List Runes
unfolding fields
word_set s = fields (codes s) []

unfoldable pub stopwords_en : List Runes
unfolding word_set
stopwords_en = word_set (
    concat "the a an and or but if then else when while of to in on at by for with about as into " (
      concat "from up down out off over under around again is are was were be been being have has "
        (concat
          "had do does did will would can cannot could should must not no nor this that these "
          (concat "those it its i you he she we they them his her their my your our me him us what "
            (concat
              "which who whom where why how all any both each few more most other some such only "
              (concat
                "own same so than too very just there here once during rather before after above "
                ("below within without s t don now")))))))

unfoldable pub stopwords_es : List Runes
unfolding word_set
stopwords_es = word_set (
    concat "el la los las un una unos unas y o pero si de del en a al por para con sobre como " (
      concat "desde hasta es son era eran ser está están fue fueron hay que no ni este esta estos "
        (concat
          "estas ese esa eso aquellos yo tú él ella nosotros ellos ellas su sus mi mis tu tus "
          (concat
            "lo le les se me te nos os cuando donde porque qué cómo todo toda todos todas más "
            ("menos muy ya también entre sin")))))

unfoldable pub stopwords_fr : List Runes
unfolding word_set
stopwords_fr = word_set (
    concat "le la les un une des et ou mais si de du en à au aux par pour avec sur comme depuis " (
      concat "est sont était étaient être été a ont il elle nous vous ils elles son sa ses mon ma "
        (concat
          "mes ton ta tes ce cette ces cela qui que quoi où quand pourquoi comment tout toute "
          ("tous toutes plus moins très déjà aussi entre sans dans ne pas"))))

unfoldable pub stopwords_de : List Runes
unfolding word_set
stopwords_de = word_set (
    concat "der die das ein eine einer eines dem den und oder aber wenn dann von zu in auf an " (
      concat "bei für mit über unter als aus nach vor ist sind war waren sein gewesen hat haben " (
        concat "hatte werden wird nicht kein keine dieser diese dieses jener ich du er sie wir ihr "
          (concat
            "mein dein sein ihre was welche wer wo warum wie alle jeder mehr sehr auch zwischen "
            ("ohne durch noch schon")))))

abbrev pub has : List Runes → Runes → Bool
has set w = any (same_bytes w) set

pub data Language : Type 0 where
  en es fr de unknown : Language

abbrev pub stopwords : Language → List Runes
stopwords en = stopwords_en
stopwords es = stopwords_es
stopwords fr = stopwords_fr
stopwords de = stopwords_de
stopwords unknown = []

-- The votes of the words for a language.
unfoldable pub votes : Language → List Runes → ℕ
votes lang [] = 0
votes lang (w ∷ ws) = (if has (stopwords lang) w then 1 else 0) + votes lang ws

-- The range over the votes: a language with more than the best so far replaces it.
unfoldable pub pick : (Language → ℕ) → List Language → Language × ℕ → Language × ℕ
pick score [] best = best
pick score (lang ∷ order) (best, n) =
    pick score order (if ltb n (score lang) then (lang, score lang) else (best, n))

abbrev pub confident : ℕ → Language × ℕ → Language
confident words (best, n) = if ltb (n * 100) (words * 8) then unknown else best

unfoldable pub detect_language : List Language → List Runes → Language
unfolding pick votes
detect_language order words =
    if ltb (length words) 10
    then unknown
    else confident (length words) (pick (λ lang. votes lang words) order (unknown, 0))
