-- ===== src/Article/Votes.antt =====
-- internal/handlers/articleanalysis/analyzer.go: which languages the guess can name.
use calligraphy.Base.{
  ℕ, ◌*◌, ◌≤◌, ◌<◌, ◌≡◌, ◌≢◌, refl, sym, ap, ◌∙◌, ◌↔◌, ◌⊎◌, inl, inr, List, [], ◌∷◌, true, false,
  if◌then◌else◌, ltb, length, Bool-cases, arith,
}
use calligraphy.Article.Text.{Runes}
use calligraphy.Article.Language.{Language, en, es, fr, de, unknown, votes, pick, detect_language}
use calligraphy.Article.Picks.{In, Best, pick-cons, pick-Best}

votes-unknown : (ws : List Runes) → votes unknown ws ≡ 0
unfolding votes
votes-unknown [] = refl
votes-unknown (w ∷ ws) = omega (arith, votes-unknown ws)

-- A language that the guess can name: of at least ten words, at least 8 in 100 voted for it, and no
-- language has more votes.
pub record Leads (ws : List Runes) (l : Language) : Type 0 where
  pub enough : 10 ≤ length ws
  pub most : (k : Language) → votes k ws ≤ votes l ws
  pub floor : length ws * 8 ≤ votes l ws * 100

abbrev pub Distinct : List Language → Type 0
Distinct [] = Unit {0}
Distinct (l ∷ ls) = ¬ In l ls × Distinct ls

-- What a range over the map of votes visits, in some order: each language that has a vote, once.
pub record IsRange (score : Language → ℕ) (order : List Language) : Type 0 where
  pub once : Distinct order
  pub complete : (l : Language) → 0 < score l → In l order
  pub sound : (l : Language) → In l order → 0 < score l

-- A range that visits a given language first.
voted : (Language → ℕ) → List Language → List Language
voted score [] = []
voted score (k ∷ ks) = let rest = voted score ks in if ltb 0 (score k) then k ∷ rest else rest

abbrev rest_of : Language → List Language
rest_of en = es ∷ fr ∷ de ∷ []
rest_of es = en ∷ fr ∷ de ∷ []
rest_of fr = en ∷ es ∷ de ∷ []
rest_of de = en ∷ es ∷ fr ∷ []
rest_of unknown = []

module _ (score : Language → ℕ) where
  voted_sound :
      (ks : List Language) (l : Language) → In l (voted score ks) → In l ks × (0 < score l)
  unfolding voted
  voted_sound [] l h = absurd h
  voted_sound (k ∷ ks) l h = elim (Bool-cases (ltb 0 (score k))) [
    | inr e ↦ let (i, p) = voted_sound ks l (rw (e) at h) in (inr i, p)
    | inl e ↦
        let h' : (l ≡ k) ⊎ In l (voted score ks) = rw (e) at h in
        elim h' [
          | inl q ↦ (inl q, rw q (ground (arith, e)))
          | inr i ↦ let (j, p) = voted_sound ks l i in (inr j, p)
        ]
  ]

  voted_complete :
      (ks : List Language) (l : Language) → In l ks → 0 < score l → In l (voted score ks)
  unfolding voted
  voted_complete [] l h p = absurd h
  voted_complete (k ∷ ks) l (inl q) p =
      let e : ltb 0 (score k) ≡ true = ground (arith, ap score q) in rw e (inl q)
  voted_complete (k ∷ ks) l (inr i) p = elim (Bool-cases (ltb 0 (score k))) [
    | inl e ↦ rw e (inr (voted_complete ks l i p))
    | inr e ↦ rw e (voted_complete ks l i p)
  ]

  voted-Distinct : (ks : List Language) → Distinct ks → Distinct (voted score ks)
  unfolding voted
  voted-Distinct [] d = tt
  voted-Distinct (k ∷ ks) d = elim (Bool-cases (ltb 0 (score k))) [
    | inl e ↦ rw e ((λ i. d.0 (voted_sound ks k i).0), voted-Distinct ks d.1)
    | inr e ↦ rw e (voted-Distinct ks d.1)
  ]

named : List Language
named = en ∷ es ∷ fr ∷ de ∷ []

first-all : (l : Language) → l ≢ unknown → (k : Language) → k ≢ unknown → In k (l ∷ rest_of l)
first-all en h k g = ground arith
first-all es h k g = ground arith
first-all fr h k g = ground arith
first-all de h k g = ground arith
first-all unknown h k g = absurd (h refl)

first-Distinct : (l : Language) → Distinct (l ∷ rest_of l)
first-Distinct en = ground arith
first-Distinct _ = ground arith

module _ (ws : List Runes) where
  abbrev score : Language → ℕ
  score k = votes k ws

  detected :
      (order : List Language) (l : Language)
      → l ≢ unknown
      → detect_language order ws ≡ l
      → let (b, m) = pick score order (unknown, 0) in
        (10 ≤ length ws) × (length ws * 8 ≤ m * 100) × (b ≡ l)
  unfolding detect_language
  detected order l h e = (grind (arith, e, h), grind (arith, e, h), grind (arith, e, h))

  Best-Leads :
      (order : List Language) (l : Language) (r : Language × ℕ)
      → l ≢ unknown
      → IsRange score order
      → 10 ≤ length ws
      → length ws * 8 ≤ r.1 * 100
      → r.0 ≡ l
      → Best score order (unknown, 0) r
      → Leads ws l
  Best-Leads order l (b, m) h range enough floor e (up, top, inl (f, g)) = absurd (h (sym e ∙ f))
  Best-Leads order l (b, m) h range enough floor e (up, top, inr (i, f, g)) =
      let full : m ≡ score l = f ∙ ap score e in
      record {
        enough = enough;
        most = λ k. most k full (Bool-cases (ltb 0 (score k)));
        floor = omega arith;
      }
    where
      most :
          (k : Language)
          → m ≡ score l
          → (ltb 0 (score k) ≡ true) ⊎ (ltb 0 (score k) ≡ false)
          → score k ≤ score l
      most k full (inl p) =
          let low = top k (range.complete k (ground (arith, p))) in omega (arith, low)
      most k full (inr p) = ground (arith, p)

  Leads-pick :
      (order : List Language) (l : Language) (r : Language × ℕ)
      → Leads ws l
      → Best score order (l, score l) r
      → r ≡ (l, score l)
  Leads-pick order l (b, m) leads (up, top, inl (e, f)) = cc
  Leads-pick order l (b, m) leads (up, top, inr (i, f, g)) = absurd (omega (arith, leads.most b))

  leader-IsRange : (l : Language) → l ≢ unknown → IsRange score (voted score (l ∷ rest_of l))
  leader-IsRange l h = record {
    once = voted-Distinct score (l ∷ rest_of l) (first-Distinct l);
    complete = λ k p.
        voted_complete score (l ∷ rest_of l) k
          (first-all l h k (λ e. absurd (omega (arith, ap score e, votes-unknown ws)))) p;
    sound = λ k i. (voted_sound score (l ∷ rest_of l) k i).1;
  }

  voted_first :
      (l : Language) (ks : List Language) → 0 < score l → voted score (l ∷ ks) ≡ l ∷ voted score ks
  unfolding voted
  voted_first l ks p = ground (arith, p)

  leader_picked :
      (l : Language) (ks : List Language)
      → Leads ws l
      → 0 < score l
      → pick score (l ∷ ks) (unknown, 0) ≡ (l, score l)
  leader_picked l ks leads p = elim (pick-cons score l ks unknown 0) [
    | inr (le, e) ↦ absurd (omega arith)
    | inl (lt, e) ↦
        e ∙ Leads-pick ks l (pick score ks (l, score l)) leads (pick-Best score ks l (score l))
  ]

  confidently :
      (order : List Language) (l : Language)
      → Leads ws l
      → pick score order (unknown, 0) ≡ (l, score l)
      → detect_language order ws ≡ l
  unfolding detect_language
  confidently order l leads e = grind (arith, e, leads.enough, leads.floor)

  leader_answers :
      (l : Language) → Leads ws l → detect_language (voted score (l ∷ rest_of l)) ws ≡ l
  leader_answers l leads =
      let p : 0 < score l = omega (arith, leads.enough, leads.floor) in
      rw (voted_first l (rest_of l) p) (
        confidently (l ∷ voted score (rest_of l)) l leads
          (leader_picked l (voted score (rest_of l)) leads p))

-- The answers that the guess can give: besides `unknown`, a language is the answer in some order of
-- the range over the votes exactly if at least 8 in 100 of at least ten words voted for it, and no
-- language has more votes. So where two languages lead, the same text has two answers.
pub detect_language_iff :
    (ws : List Runes) (l : Language)
    → l ≢ unknown
    → ((order : List Language) × IsRange (λ k. votes k ws) order × (detect_language order ws ≡ l))
      ↔ Leads ws l
detect_language_iff ws l h = (
  (λ (order, range, e).
      let (enough, floor, same) = detected ws order l h e in
      Best-Leads ws order l (pick (score ws) order (unknown, 0)) h range enough floor same
        (pick-Best (score ws) order unknown 0)),
  (λ leads. (voted (score ws) (l ∷ rest_of l), leader-IsRange ws l h, leader_answers ws l leads)),
)
