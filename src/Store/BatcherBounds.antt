-- ===== src/Store/BatcherBounds.antt =====
-- The sizes of the Batcher's batches and of its channel.
use calligraphy.Base.{
  ℕ, ◌*◌, ◌≤◌, ◌<◌, ◌≡◌, List, [], ◌∷◌, ◌++◌, Bool, true, false, length, length-append, arith, leb,
  ◌&&◌, all,
}
use calligraphy.Store.Recorder.{Op}
use calligraphy.Store.Batcher.{
  Batcher, Move, submits, receives, ticks, stops, sees_stop, leaves, move, receive, flush_pending,
  or_stay, serve,
}

abbrev pub small : ℕ → List (List Op) → Bool
small n = all (λ batch. leb (length batch) n)

pub record Sized (b : Batcher) : Type 0 where
  pub room : 1 ≤ b.max_size
  pub channel : length b.queued ≤ b.max_size * 2
  pub waiting : b.draining ≡ false → length b.pending < b.max_size
  pub batches : b.draining ≡ false → small b.max_size b.flushed ≡ true
  pub done : b.ended ≡ true → b.pending ≡ []

small-append :
    (n : ℕ) (bs : List (List Op)) (batch : List Op)
    → small n (bs ++ batch ∷ []) ≡ small n bs && leb (length batch) n
small-append n [] batch = ground arith
small-append n (x ∷ xs) batch = ground (arith, small-append n xs batch)

move-Sized : (m : Move) (b : Batcher) → Sized b → Sized (or_stay (move m b) b)
unfolding move receive flush_pending
move-Sized (submits o) b s = grind (arith, length-append b.queued (o ∷ []))
move-Sized receives b s = grind (arith, length-append b.pending, small-append b.max_size b.flushed)
move-Sized ticks b s = grind (arith, small-append b.max_size b.flushed b.pending)
move-Sized stops b s = grind arith
move-Sized sees_stop b s = grind arith
move-Sized leaves b s = grind (arith, small-append b.max_size b.flushed b.pending)

-- In every interleaving, the channel holds at most twice the batch size; until the loop drains, fewer
-- than a batch of ops wait and no batch is over the size; and once the loop has ended none waits.
pub serve-Sized : (ms : List Move) (b : Batcher) → Sized b → Sized (serve ms b)
unfolding serve
serve-Sized [] b s = s
serve-Sized (m ∷ ms) b s = serve-Sized ms (or_stay (move m b) b) (move-Sized m b s)
