-- ===== src/Worker/Keeping.antt =====
-- internal/worker/worker.go: every move keeps to what Run has seen to at its phase.
use calligraphy.Base.{
  ◌≡◌, refl, inl, inr, List, [], ◌∷◌, Bool, true, false, Option, none, some, if◌then◌else◌,
  Option-cases, arith,
}
use calligraphy.Store.Batcher.{Batcher}
use calligraphy.Store.Batcher
use calligraphy.Worker.Pool.{Pool}
use calligraphy.Worker.Pool
use calligraphy.Worker.Shutdown.{
  Phase, serving, draining, cancelling, settling, flushing, reporting, closing, closed, Runtime,
  System, Move, runs, times_out, pool_moves, batcher_moves, beats, ticks, returns, signal,
  main_step, time_out, aside, at_phase, move, run, or_stay, info, pool_done, batcher_done,
  stop_batcher,
}
use calligraphy.Worker.Stopping.{Returned, Idle, Emptied, Halted, aside-Carries}
use calligraphy.Worker.Phases.{Kept, KeptSystem, Kept-carried, last_state-append, Flushed, Quiet}

stop_batcher-Emptied : (o : Option Batcher) → Idle o → Emptied (stop_batcher o)
unfolding Batcher.move
stop_batcher-Emptied none h = tt
stop_batcher-Emptied (some b) h = λ k. absurd (grind (arith, h, k))

stop_batcher-Halted : (o : Option Batcher) → Halted (stop_batcher o)
unfolding Batcher.move
stop_batcher-Halted none = tt
stop_batcher-Halted (some b) = refl

Quiet-Flushed :
    (w : Runtime) (o : Option Batcher) → Emptied o → Quiet w → Flushed (record w { batcher = o })
Quiet-Flushed w o e (inl d) = inl (d, e)
Quiet-Flushed w o e (inr a) = inr a

stop_pool-Returned : (p : Pool) → Returned p → Returned (Pool.or_stay (Pool.move Pool.stops p) p)
unfolding Pool.move
stop_pool-Returned p h = h

stop_pool-stopped : (p : Pool) → (Pool.or_stay (Pool.move Pool.stops p) p).stopped ≡ true
unfolding Pool.move
stop_pool-stopped p = refl

-- A step that is made only if a test holds.
step_if :
    (b : Bool) (t s : System)
    → (b ≡ true → KeptSystem t)
    → KeptSystem s
    → KeptSystem (or_stay (if b then some t else none) s)
step_if true t s h k = h refl
step_if false t s h k = k

main_step-Kept : (p : Phase) (w : Runtime) → Kept p w → KeptSystem (or_stay (main_step p w) (p, w))
unfolding main_step
main_step-Kept serving w (r, o, i) =
    step_if w.signalled _ (serving, w)
      (λ _. (stop_pool-Returned w.pool r, o, i, stop_pool-stopped w.pool)) (r, o, i)
main_step-Kept draining w (r, o, i, t) =
    step_if (pool_done w.pool) _ (draining, w) (λ d. (r, o, i, t, inl d, refl)) (r, o, i, t)
main_step-Kept cancelling w (r, o, i, t) =
    step_if (pool_done w.pool) _ (cancelling, w) (λ d. (r, o, i, t, inl d, refl)) (r, o, i, t)
main_step-Kept settling w (r, o, i, t, d, h) =
    step_if w.hb_ended _ (settling, w)
      (λ e. (
        r,
        o,
        Quiet-Flushed w (stop_batcher w.batcher) (stop_batcher-Emptied w.batcher i) d,
        t,
        e,
        stop_batcher-Halted w.batcher,
      ))
      (r, o, i, t, d, h)
main_step-Kept flushing w (r, o, f, t, h, a) =
    step_if (batcher_done w.batcher) _ (flushing, w) (λ e. (r, o, f, t, h, e)) (r, o, f, t, h, a)
main_step-Kept reporting w (r, o, f, t, h, b) =
    (r, o, f, t, h, b, last_state-append w.upserts (info "draining" w))
main_step-Kept closing w (r, o, f, t, h, b, l) = (r, (refl, refl), f, t, h, b, l)
main_step-Kept closed w k = k

time_out-Kept : (p : Phase) (w : Runtime) → Kept p w → KeptSystem (or_stay (time_out p w) (p, w))
unfolding time_out
time_out-Kept draining w k = k
time_out-Kept cancelling w (r, o, i, t) = (r, o, i, t, inr refl, refl)
time_out-Kept serving w k = k
time_out-Kept settling w k = k
time_out-Kept flushing w k = k
time_out-Kept reporting w k = k
time_out-Kept closing w k = k
time_out-Kept closed w k = k

aside-Kept :
    (m : Move) (p : Phase) (w : Runtime)
    → Kept p w
    → KeptSystem (or_stay (at_phase p (aside m w)) (p, w))
aside-Kept m p w k = elim (Option-cases (aside m w)) [
  | inl e ↦ rw e k
  | inr (v, e) ↦ rw e (Kept-carried p w v (aside-Carries m w v e) k)
]

move-Kept : (m : Move) (s : System) → KeptSystem s → KeptSystem (or_stay (move m s) s)
unfolding move
move-Kept runs (p, w) k = main_step-Kept p w k
move-Kept times_out (p, w) k = time_out-Kept p w k
move-Kept (pool_moves m) (p, w) k = aside-Kept (pool_moves m) p w k
move-Kept (batcher_moves m) (p, w) k = aside-Kept (batcher_moves m) p w k
move-Kept beats (p, w) k = aside-Kept beats p w k
move-Kept ticks (p, w) k = aside-Kept ticks p w k
move-Kept returns (p, w) k = aside-Kept returns p w k
move-Kept signal (p, w) k = aside-Kept signal p w k

pub run_keeps : (ms : List Move) (s : System) → KeptSystem s → KeptSystem (run ms s)
unfolding run
run_keeps [] s k = k
run_keeps (m ∷ ms) s k = run_keeps ms (or_stay (move m s) s) (move-Kept m s k)
