-- ===== src/Article/Excerpt.antt =====
-- internal/handlers/articleanalysis/analyzer.go: which sentences a summary has, and in what order.
use calligraphy.Base.{
  All, All-imp, Pairwise, length-sort_by, sort_by, sort_by-All, sort_by-Pairwise, take-All,
  take-Pairwise, ℕ, suc, ◌+◌, ◌≤◌, ◌<◌, ◌≡◌, ◌≢◌, refl, ap, sym, ◌∙◌, subst, inl, inr, min, List,
  [], ◌∷◌, true, false, some, leb, length, take, length-take, Bool-cases, arith,
}
use calligraphy.Article.Text.{Runes, Unicode}
use calligraphy.Article.Ranking.{Floats, Row, pagerank, length-pagerank}
use calligraphy.Article.Keywords.{or_default}
use calligraphy.Article.Summary.{
  word_sets, link_sentences, rows_from, Scored, scored_from, higher, earlier, rank_sentences,
  pick_first, summary_text_rank,
}
use calligraphy.Article.Places.{
  excerpt, positions, InOrder, excerpt_all, length-positions, positions_within, positions-InOrder,
  places, Apart, sort_earlier, scored_within, scored-Apart, length-scored, texts_of-excerpt,
  places-All, length-places, places-Pairwise, Below,
}

module _ (fl : Floats) where
  module _ (visit : Row fl → Row fl) (u : Unicode) where
    length-rows_from :
        (g : ℕ → Row fl) (i : ℕ) (sets : List (List Runes))
        → length (rows_from fl g i sets) ≡ length sets
    unfolding rows_from
    length-rows_from g i [] = refl
    length-rows_from g i (a ∷ sets) = ap suc (length-rows_from g (suc i) sets)

    length-word_sets : (ss : List Runes) → length (word_sets u ss) ≡ length ss
    unfolding word_sets
    length-word_sets [] = refl
    length-word_sets (s ∷ ss) = ap suc (length-word_sets ss)

    -- Every sentence that competes is ranked, once.
    ranked-All :
        (ss : List Runes)
        → let order = rank_sentences fl visit u ss in
          (length order ≡ length ss) × Pairwise (Apart fl) order × All (Below fl (length ss)) order
    unfolding rank_sentences Below Apart
    ranked-All ss =
        let sets = word_sets u ss in
        let adj = rows_from fl (link_sentences fl 0 sets (λ i. [])) 0 sets in
        let rank = pagerank fl visit adj 30 in
        let size : length rank ≡ length ss =
          length-pagerank fl visit adj 30
          ∙ length-rows_from (link_sentences fl 0 sets (λ i. [])) 0 sets
          ∙ length-word_sets ss in
        let within = scored_within fl 0 rank in
        (
          length-sort_by (higher fl) (scored_from fl 0 rank) ∙ length-scored fl 0 rank ∙ size,
          sort_by-Pairwise (λ a b. a.idx ≢ b.idx) (λ a b n e. n (sym e)) (higher fl)
              (scored_from fl 0 rank) (scored-Apart fl 0 rank),
          sort_by-All (higher fl) (λ s. s.idx < length ss) (scored_from fl 0 rank)
              (All-imp (λ s. (0 ≤ s.idx) × (s.idx < 0 + length rank)) (λ s. s.idx < length ss)
                (λ s h. omega (arith, size)) (scored_from fl 0 rank) within),
        )

    -- A summary that is picked, from a ranking of the sentences that compete.
    picked :
        (sentences : List Runes) (k : ℕ) (order : List (Scored fl))
        → k ≤ length order
        → length order ≤ length sentences
        → Pairwise (Apart fl) order
        → All (Below fl (length order)) order
        → (is : List ℕ) × (pick_first fl sentences k order ≡ some (excerpt sentences is))
          × InOrder (length sentences) is
          × (length is ≡ k)
    unfolding Below
    picked sentences k order fits inside apart below =
        let chosen = sort_by (earlier fl) (take k order) in
        let kept = take-Pairwise (Apart fl) k order apart in
        (
          places fl chosen,
          rw (texts_of-excerpt fl sentences chosen) (ground arith),
          (
            places-Pairwise fl chosen (sort_earlier fl (take k order) kept),
            places-All fl (λ i. i < length sentences) chosen
                (sort_by-All (earlier fl) (λ s. s.idx < length sentences) (take k order)
                  (take-All (λ s. s.idx < length sentences) k order
                    (All-imp (λ s. s.idx < length order) (λ s. s.idx < length sentences)
                      (λ s h. omega arith) order below))),
          ),
          length-places fl chosen
              ∙ length-sort_by (earlier fl) (take k order)
              ∙ length-take k order
              ∙ omega arith,
        )

    whole :
        (sentences : List Runes) (summary_len : ℕ)
        → leb (length sentences) (or_default summary_len 3) ≡ true
        → summary_text_rank fl visit u sentences summary_len ≡ some sentences
    unfolding summary_text_rank
    whole sentences summary_len e = rw e refl

    few :
        (sentences : List Runes) (summary_len : ℕ)
        → leb (length sentences) (or_default summary_len 3) ≡ false
        → summary_text_rank fl visit u sentences summary_len
          ≡ pick_first fl sentences
              (or_default summary_len 3)
              (rank_sentences fl visit u (take 600 sentences))
    unfolding summary_text_rank
    few sentences summary_len e = rw e refl

    chosen_few :
        (sentences : List Runes) (summary_len : ℕ)
        → or_default summary_len 3 ≤ 600
        → leb (length sentences) (or_default summary_len 3) ≡ false
        → (is : List ℕ) × (summary_text_rank fl visit u sentences summary_len
            ≡ some (excerpt sentences is))
          × InOrder (length sentences) is
          × (length is ≡ min (or_default summary_len 3) (length sentences))
    chosen_few sentences summary_len h e =
        let k = or_default summary_len 3 in
        let order = rank_sentences fl visit u (take 600 sentences) in
        let (size, apart, below) = ranked-All (take 600 sentences) in
        let more : k < length sentences = ground (arith, e) in
        let count = length-take 600 sentences in
        let (is, same, ordered, number) =
          picked sentences k order (omega (arith, size, count)) (omega (arith, size, count)) apart
            (subst (λ n. All (Below fl n) order) (sym size) below) in
        (is, few sentences summary_len e ∙ same, ordered, omega arith)

    -- A summary is sentences of the text in reading order, none twice, and as many as were asked
    -- for, or all of them where there are fewer. This is so whatever the ranks are. It asks that no
    -- more than 600 sentences are asked for, which is how many compete; past that the slice can be
    -- out of range.
    pub summary-InOrder :
        (sentences : List Runes) (summary_len : ℕ)
        → or_default summary_len 3 ≤ 600
        → (is : List ℕ) × (summary_text_rank fl visit u sentences summary_len
            ≡ some (excerpt sentences is))
          × InOrder (length sentences) is
          × (length is ≡ min (or_default summary_len 3) (length sentences))
    summary-InOrder sentences summary_len h =
        elim (Bool-cases (leb (length sentences) (or_default summary_len 3))) [
          | inl e ↦ (
            positions 0 sentences,
            whole sentences summary_len e ∙ ap some (sym (excerpt_all sentences)),
            (
              positions-InOrder 0 sentences,
              All-imp (λ j. (0 ≤ j) × (j < 0 + length sentences)) (λ j. j < length sentences)
                  (λ j b. omega arith) (positions 0 sentences) (positions_within 0 sentences),
            ),
            length-positions 0 sentences ∙ ground (arith, e),
          )
          | inr e ↦ chosen_few sentences summary_len h e
        ]
