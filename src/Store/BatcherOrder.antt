-- ===== src/Store/BatcherOrder.antt =====
-- The Batcher flushes what it accepted, once and in order, in batches of bounded size.
use calligraphy.Base.{
  append_nil, append_assoc, ◌≡◌, sym, ap, ◌∙◌, List, [], ◌∷◌, ◌++◌, if◌then◌else◌, arith,
}
use calligraphy.Store.Recorder.{Op}
use calligraphy.Store.Batcher.{
  has_room, append, Batcher, Move, submits, receives, ticks, stops, sees_stop, leaves, move,
  receive, flush_pending, or_stay, serve,
}

unfoldable pub flat : List (List Op) → List Op
flat [] = []
flat (b ∷ bs) = b ++ flat bs

abbrev pub all_ops : Batcher → List Op
all_ops b = flat b.flushed ++ (b.pending ++ b.queued)

-- What a schedule accepts from the callers, in order.
abbrev pub entry : Move → Batcher → List Op
entry (submits o) b = if has_room b then o ∷ [] else []
entry _ b = []

pub accepted : List Move → Batcher → List Op
accepted [] b = []
accepted (m ∷ ms) b = entry m b ++ accepted ms (or_stay (move m b) b)

flat-append : (bs : List (List Op)) (b : List Op) → flat (bs ++ b ∷ []) ≡ flat bs ++ b
unfolding flat
flat-append [] b = append_nil b
flat-append (x ∷ xs) b = ap (λ t. x ++ t) (flat-append xs b) ∙ sym (append_assoc x (flat xs) b)

flush_pending-ops : (b : Batcher) → all_ops (flush_pending b) ≡ all_ops b
unfolding flush_pending
flush_pending-ops b =
    grind (arith, flat-append b.flushed b.pending, append_assoc (flat b.flushed) b.pending b.queued)

taken-ops :
    (b : Batcher) (o : Op) (rest : List Op)
    → b.queued ≡ o ∷ rest
    → all_ops (append o b rest) ≡ all_ops b
taken-ops b o rest e =
    ap (λ t. flat b.flushed ++ t)
      (append_assoc b.pending (o ∷ []) rest ∙ ap (λ t. b.pending ++ t) (sym e))

pub move-ops : (m : Move) (b : Batcher) → all_ops (or_stay (move m b) b) ≡ all_ops b ++ entry m b
unfolding move receive
move-ops (submits o) b = grind (
  arith,
  append_assoc (flat b.flushed) (b.pending ++ b.queued) (o ∷ []),
  append_nil (all_ops b),
  append_assoc b.pending b.queued (o ∷ []),
)
move-ops receives b = grind (arith, taken-ops b, flush_pending-ops, append_nil (all_ops b))
move-ops ticks b = grind (arith, flush_pending-ops b, append_nil (all_ops b))
move-ops stops b = sym (append_nil (all_ops b))
move-ops sees_stop b = grind (arith, append_nil (all_ops b))
move-ops leaves b = grind (arith, flush_pending-ops b, append_nil (all_ops b))

-- Nothing that the Batcher accepted is lost, doubled or reordered: in every interleaving, the flushed
-- batches, the pending batch and the channel together are what they were, and then the ops that
-- were accepted since, in their order.
pub serve-ops : (ms : List Move) (b : Batcher) → all_ops (serve ms b) ≡ all_ops b ++ accepted ms b
unfolding serve accepted
serve-ops [] b = sym (append_nil (all_ops b))
serve-ops (m ∷ ms) b =
    let b' = or_stay (move m b) b in
    serve-ops ms b'
    ∙ ap (λ t. t ++ accepted ms b') (move-ops m b)
    ∙ append_assoc (all_ops b) (entry m b) (accepted ms b')
