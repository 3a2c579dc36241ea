-- ===== src/Worker/ShutdownRecords.antt =====
-- internal/worker/worker.go: the records that the jobs handed to the Batcher.
use calligraphy.Base.{
  ℕ, ◌≡◌, refl, sym, ap, ◌∙◌, inl, inr, append_nil, append_assoc, String, List, [], ◌∷◌, ◌++◌, Bool,
  true, false, Option, none, some, if◌then◌else◌, Option-cases, arith,
}
use calligraphy.Config.Load.{Config}
use calligraphy.Store.Recorder.{Op}
use calligraphy.Store.Batcher.{Batcher, new_batcher}
use calligraphy.Store.Batcher
use calligraphy.Store.BatcherOrder.{flat, all_ops, entry, move-ops}
use calligraphy.Worker.Shutdown.{
  Phase, serving, draining, cancelling, settling, flushing, reporting, closing, closed, Runtime,
  System, Move, runs, times_out, pool_moves, batcher_moves, beats, ticks, returns, signal,
  main_step, time_out, aside, at_phase, move, run, or_stay, upsert, pool_done, batcher_done,
  batcher_allows, stop_batcher, move_batcher, new_runtime,
}
use calligraphy.Worker.Assembly.{assemble}
use calligraphy.Worker.Phases.{Kept}
use calligraphy.Worker.Keeping.{run_keeps}
use calligraphy.Worker.Stopping.{Emptied}
use calligraphy.Worker.ShutdownEnd.{assemble-Kept}

abbrev pub ops_of : Option Batcher → List Op
ops_of none = []
ops_of (some b) = all_ops b

abbrev pub flushed_of : Option Batcher → List Op
flushed_of none = []
flushed_of (some b) = flat b.flushed

abbrev entry_of : Batcher.Move → Option Batcher → List Op
entry_of m none = []
entry_of m (some b) = entry m b

-- What the Batcher accepts from a job in one move, and in a schedule.
abbrev taken : Move → Runtime → List Op
taken (batcher_moves m) w = if batcher_allows m w.pool then entry_of m w.batcher else []
taken _ w = []

pub submitted : List Move → System → List Op
submitted [] s = []
submitted (m ∷ ms) s = taken m s.1 ++ submitted ms (or_stay (move m s) s)

abbrev Grows : System → System → List Op → Type 0
Grows s t os = ops_of t.1.batcher ≡ ops_of s.1.batcher ++ os

stop_batcher-ops : (o : Option Batcher) → ops_of (stop_batcher o) ≡ ops_of o
unfolding Batcher.move
stop_batcher-ops none = refl
stop_batcher-ops (some b) = refl

same_ops : (w v : Runtime) → v.batcher ≡ w.batcher → ops_of v.batcher ≡ ops_of w.batcher ++ []
same_ops w v e = rw e (sym (append_nil (ops_of w.batcher)))

-- A step under a test that leaves the ops alone.
step_if-ops :
    (b : Bool) (t s : System)
    → ops_of t.1.batcher ≡ ops_of s.1.batcher
    → Grows s (or_stay (if b then some t else none) s) []
step_if-ops true t s e = e ∙ sym (append_nil (ops_of s.1.batcher))
step_if-ops false t s e = sym (append_nil (ops_of s.1.batcher))

main_step-ops : (p : Phase) (w : Runtime) → Grows (p, w) (or_stay (main_step p w) (p, w)) []
unfolding main_step upsert
main_step-ops serving w = step_if-ops w.signalled _ (serving, w) refl
main_step-ops draining w = step_if-ops (pool_done w.pool) _ (draining, w) refl
main_step-ops cancelling w = step_if-ops (pool_done w.pool) _ (cancelling, w) refl
main_step-ops settling w = step_if-ops w.hb_ended _ (settling, w) (stop_batcher-ops w.batcher)
main_step-ops flushing w = step_if-ops (batcher_done w.batcher) _ (flushing, w) refl
main_step-ops reporting w = same_ops w w refl
main_step-ops closing w = same_ops w w refl
main_step-ops closed w = same_ops w w refl

time_out-ops : (p : Phase) (w : Runtime) → Grows (p, w) (or_stay (time_out p w) (p, w)) []
unfolding time_out
time_out-ops draining w = same_ops w w refl
time_out-ops cancelling w = same_ops w w refl
time_out-ops serving w = same_ops w w refl
time_out-ops settling w = same_ops w w refl
time_out-ops flushing w = same_ops w w refl
time_out-ops reporting w = same_ops w w refl
time_out-ops closing w = same_ops w w refl
time_out-ops closed w = same_ops w w refl

aside-ops :
    (m : Move) (p : Phase) (w : Runtime)
    → Grows (p, w) (or_stay (at_phase p (aside m w)) (p, w)) (taken m w)
unfolding aside move_batcher
aside-ops (batcher_moves m) p w = elim (Option-cases w.batcher) [
  | inl n ↦ grind (arith, n)
  | inr (b, e) ↦ elim (Option-cases (Batcher.move m b)) [
    | inl n ↦ grind (arith, e, n, move-ops m b, append_nil (all_ops b))
    | inr (c, k) ↦ grind (arith, e, k, move-ops m b, append_nil (all_ops b))
  ]
]
aside-ops (pool_moves m) p w = grind (arith, append_nil (ops_of w.batcher))
aside-ops _ p w = grind (arith, append_nil (ops_of w.batcher))

step-ops : (m : Move) (s : System) → Grows s (or_stay (move m s) s) (taken m s.1)
unfolding move
step-ops runs (p, w) = main_step-ops p w
step-ops times_out (p, w) = time_out-ops p w
step-ops (pool_moves m) (p, w) = aside-ops (pool_moves m) p w
step-ops (batcher_moves m) (p, w) = aside-ops (batcher_moves m) p w
step-ops beats (p, w) = aside-ops beats p w
step-ops ticks (p, w) = aside-ops ticks p w
step-ops returns (p, w) = aside-ops returns p w
step-ops signal (p, w) = aside-ops signal p w

run-ops : (ms : List Move) (s : System) → Grows s (run ms s) (submitted ms s)
unfolding run submitted
run-ops [] s = sym (append_nil (ops_of s.1.batcher))
run-ops (m ∷ ms) s =
    run-ops ms (or_stay (move m s) s)
    ∙ ap (λ t. t ++ submitted ms (or_stay (move m s) s)) (step-ops m s)
    ∙ append_assoc (ops_of s.1.batcher) (taken m s.1) (submitted ms (or_stay (move m s) s))

assemble-ops :
    (cfg : Config) (hostname : String) (pid : ℕ) → ops_of (assemble cfg hostname pid).1.batcher ≡ []
unfolding assemble new_runtime new_batcher flat
assemble-ops cfg hostname pid = ground arith

-- A Batcher that has ended behind the last job holds nothing back.
ended-ops : (o : Option Batcher) → Emptied o → batcher_done o ≡ true → flushed_of o ≡ ops_of o
ended-ops none e d = refl
ended-ops (some b) e d =
    sym (ap (λ t. flat b.flushed ++ t) (ground (arith, e d)) ∙ append_nil (flat b.flushed))

Kept-flushed :
    (p : Phase) (w : Runtime)
    → Kept p w
    → p ≡ closed
    → w.abandoned ≡ false
    → flushed_of w.batcher ≡ ops_of w.batcher
Kept-flushed closed w (r, o, inl (d, e), t, h, b, l) n a = ended-ops w.batcher e b
Kept-flushed closed w (r, o, inr left, t, h, b, l) n a = absurd (ground arith)
Kept-flushed serving w k n a = absurd (ground arith)
Kept-flushed draining w k n a = absurd (ground arith)
Kept-flushed cancelling w k n a = absurd (ground arith)
Kept-flushed settling w k n a = absurd (ground arith)
Kept-flushed flushing w k n a = absurd (ground arith)
Kept-flushed reporting w k n a = absurd (ground arith)
Kept-flushed closing w k n a = absurd (ground arith)

-- Records are durable past the Stop of the Batcher: when Run is at its end and no job was left to
-- the reaper, every record that a job handed to the Batcher in the life of the worker was in a
-- batch that went to `flush`, once and in order, before the connections were closed.
pub run_flushes :
    (cfg : Config) (hostname : String) (pid : ℕ) (ms : List Move)
    → (run ms (assemble cfg hostname pid)).0 ≡ closed
    → (run ms (assemble cfg hostname pid)).1.abandoned ≡ false
    → flushed_of (run ms (assemble cfg hostname pid)).1.batcher
      ≡ submitted ms (assemble cfg hostname pid)
run_flushes cfg hostname pid ms n a =
    let start = assemble cfg hostname pid in
    let s = run ms start in
    let k = run_keeps ms start (assemble-Kept cfg hostname pid) in
    Kept-flushed s.0 s.1 k n a
    ∙ run-ops ms start
    ∙ ap (λ t. t ++ submitted ms start) (assemble-ops cfg hostname pid)
