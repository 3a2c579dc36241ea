-- ===== src/Worker/ShutdownStuck.antt =====
-- internal/worker/worker.go: where Run can stand when the worker itself has no move.
use calligraphy.Base.{
  All, ◌⊎◌, ℕ, ◌≡◌, refl, inl, inr, String, List, [], ◌∷◌, Bool, true, false, none, some,
  Option-cases, arith,
}
use calligraphy.Config.Load.{Config}
use calligraphy.Store.Batcher.{Batcher, new_batcher}
use calligraphy.Store.Batcher
use calligraphy.Worker.Shutdown.{
  Phase, serving, draining, cancelling, settling, flushing, reporting, closing, closed, Runtime,
  System, Move, runs, times_out, batcher_moves, beats, returns, main_step, time_out, aside, move,
  run, move_batcher,
}
use calligraphy.Worker.Assembly.{assemble}
use calligraphy.Worker.Phases.{Kept}
use calligraphy.Worker.Keeping.{run_keeps}
use calligraphy.Worker.Stopping.{Halted}
use calligraphy.Worker.ShutdownEnd.{assemble-Kept}

-- The moves of the worker itself: not the jobs, the operators, the tickers or the signal.
abbrev pub own : Move → Bool
own runs = true
own times_out = true
own beats = true
own returns = true
own (batcher_moves Batcher.receives) = true
own (batcher_moves Batcher.sees_stop) = true
own (batcher_moves Batcher.leaves) = true
own _ = false

abbrev pub Stuck : System → Type 0
Stuck s = (m : Move) → own m ≡ true → move m s ≡ none

halted_moves :
    (b : Batcher)
    → b.stopped ≡ true
    → Batcher.move Batcher.receives b ≡ none
    → Batcher.move Batcher.sees_stop b ≡ none
    → Batcher.move Batcher.leaves b ≡ none
    → b.ended ≡ true
unfolding Batcher.move
halted_moves b h r s l = grind (arith, h, r, s, l)

Kept-closed : (p : Phase) (w : Runtime) → Kept p w → w.signalled ≡ true → Stuck (p, w) → p ≡ closed
unfolding move main_step time_out aside move_batcher
Kept-closed serving w k h s = absurd (grind (arith, h, s runs refl))
Kept-closed draining w k h s = absurd (grind (arith, s times_out refl))
Kept-closed cancelling w k h s = absurd (grind (arith, s times_out refl))
Kept-closed settling w (r, o, i, t, d, b) h s =
    absurd (grind (arith, b, s runs refl, s returns refl, s beats refl))
Kept-closed flushing w (r, o, f, t, e, a) h s = elim (Option-cases w.batcher) [
  | inl n ↦ absurd (grind (arith, n, s runs refl))
  | inr (b, n) ↦
      let stopped : Halted (some b) = rw n at a in
      let ended =
        halted_moves b stopped (grind (arith, n, s (batcher_moves Batcher.receives) refl))
          (grind (arith, n, s (batcher_moves Batcher.sees_stop) refl))
          (grind (arith, n, s (batcher_moves Batcher.leaves) refl)) in
      absurd (grind (arith, n, ended, s runs refl))
]
Kept-closed reporting w k h s = absurd (grind (arith, s runs refl))
Kept-closed closing w k h s = absurd (grind (arith, s runs refl))
Kept-closed closed w k h s = refl

-- The shutdown does not hang: after the signal, in every history, some move of the worker itself is
-- possible until Run is at its end, whether or not the jobs ever return.
pub Stuck-closed :
    (cfg : Config) (hostname : String) (pid : ℕ) (ms : List Move)
    → (run ms (assemble cfg hostname pid)).1.signalled ≡ true
    → Stuck (run ms (assemble cfg hostname pid))
    → (run ms (assemble cfg hostname pid)).0 ≡ closed
Stuck-closed cfg hostname pid ms h s =
    let (p, w) = run ms (assemble cfg hostname pid) in
    Kept-closed p w (run_keeps ms (assemble cfg hostname pid) (assemble-Kept cfg hostname pid)) h s

-- A move of the worker itself that is possible.
abbrev pub CanMove : System → Type 0
CanMove s = (m : Move) × (own m ≡ true) × (t : System) × (move m s ≡ some t)

-- The moves of the worker itself, one for each.
abbrev pub own_moves : List Move
own_moves =
    runs
    ∷ times_out
    ∷ beats
    ∷ returns
    ∷ batcher_moves Batcher.receives
    ∷ batcher_moves Batcher.sees_stop
    ∷ batcher_moves Batcher.leaves
    ∷ []

pub search_moves :
    (s : System) (ms : List Move)
    → All (λ m. own m ≡ true) ms
    → All (λ m. move m s ≡ none) ms ⊎ CanMove s
search_moves s [] h = inl tt
search_moves s (m ∷ ms) h = elim (Option-cases (move m s)) [
  | inr (t, e) ↦ inr (m, h.0, t, e)
  | inl e ↦ elim (search_moves s ms h.1) [ inl a ↦ inl (e, a) | inr c ↦ inr c ]
]

pub none-Stuck : (s : System) → All (λ m. move m s ≡ none) own_moves → Stuck s
none-Stuck s k runs h = k.0
none-Stuck s k times_out h = k.1.0
none-Stuck s k beats h = k.1.1.0
none-Stuck s k returns h = k.1.1.1.0
none-Stuck s k (batcher_moves Batcher.receives) h = k.1.1.1.1.0
none-Stuck s k (batcher_moves Batcher.sees_stop) h = k.1.1.1.1.1.0
none-Stuck s k (batcher_moves Batcher.leaves) h = k.1.1.1.1.1.1.0
none-Stuck s k _ h = absurd (grind arith)
