-- ===== src/Store/Batcher.antt =====
-- internal/store/batch.go: the loop of the Batcher and the channel that callers submit to. Callers,
-- the ticker, `Stop` and the loop interleave, so a run is a list of moves; `none` is a move that is
-- not possible. The batches that went to `flush` are kept, the latest last.
use calligraphy.Base.{
  ℕ, ◌*◌, ◌==◌, List, [], ◌∷◌, ◌++◌, Bool, true, false, not, ◌&&◌, Option, none, some,
  if◌then◌else◌, ltb, leb, length,
}
use calligraphy.Store.Recorder.{Op}

pub record Batcher : Type 0 where
  pub max_size : ℕ
  pub queued : List Op  -- the channel `in`
  pub pending : List Op
  pub flushed : List (List Op)
  pub stopped : Bool  -- the channel `stop` is closed
  pub draining : Bool
  pub ended : Bool

unfoldable pub new_batcher : ℕ → Batcher
new_batcher max_size = record {
  max_size = max_size;
  queued = [];
  pending = [];
  flushed = [];
  stopped = false;
  draining = false;
  ended = false;
}

-- The closure `flush` of the loop: an empty batch is not flushed.
unfoldable pub flush_pending : Batcher → Batcher
flush_pending b = elim b.pending [
  | [] ↦ b
  | o ∷ os ↦ record b { flushed = b.flushed ++ (o ∷ os) ∷ []; pending = [] }
]

pub data Move : Type 0 where
  submits : Op → Move  -- a caller's op enters the channel
  receives : Move  -- the loop takes an op from the channel
  ticks : Move
  stops : Move  -- `Stop` closes the channel
  sees_stop : Move  -- the loop turns to draining
  leaves : Move  -- it finds the channel empty, flushes once more and returns

abbrev pub append : Op → Batcher → List Op → Batcher
append o b rest = record b { pending = b.pending ++ o ∷ []; queued = rest }

unfoldable pub receive : Batcher → Option Batcher
unfolding flush_pending
receive b = elim b.queued [
  | [] ↦ none
  | o ∷ rest ↦
      let b' = append o b rest in
      some (if not b.draining && leb b.max_size (length b'.pending) then flush_pending b' else b')
]

abbrev pub is_empty : List Op → Bool
is_empty [] = true
is_empty (o ∷ os) = false

-- The channel has room for twice the size of a batch. For a size of 0 it has no buffer: an op is
-- handed over while the loop runs, here by a queue of one.
abbrev pub has_room : Batcher → Bool
has_room b =
    if b.max_size == 0
    then is_empty b.queued && not b.ended
    else ltb (length b.queued) (b.max_size * 2)

-- A caller's `select` can choose the channel although `stop` is closed, even when the loop has ended.
unfoldable pub move : Move → Batcher → Option Batcher
unfolding receive flush_pending
move (submits o) b = if has_room b then some (record b { queued = b.queued ++ o ∷ [] }) else none
move receives b = if b.ended then none else receive b
move ticks b = if b.ended then none else if b.draining then none else some (flush_pending b)
move stops b = some (record b { stopped = true })
move sees_stop b =
    if b.stopped && (not b.ended && not b.draining)
    then some (record b { draining = true })
    else none
move leaves b =
    if b.draining && (not b.ended && is_empty b.queued)
    then some (record (flush_pending b) { ended = true })
    else none

abbrev pub or_stay : Option Batcher → Batcher → Batcher
or_stay none b = b
or_stay (some b') b = b'

-- A schedule; a move that is not possible is passed over.
unfoldable pub serve : List Move → Batcher → Batcher
serve [] b = b
serve (m ∷ ms) b = serve ms (or_stay (move m b) b)
