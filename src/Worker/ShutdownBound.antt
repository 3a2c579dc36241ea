-- ===== src/Worker/ShutdownBound.antt =====
-- internal/worker/worker.go: how many moves the worker itself can make.
use calligraphy.Base.{
  ◌⊎◌, ℕ, ◌+◌, ◌≤◌, ◌≡◌, refl, inl, inr, String, List, [], ◌∷◌, Bool, true, false, Option, none,
  some, if◌then◌else◌, length, length-append, Option-cases, arith,
}
use calligraphy.Config.Load.{Config}
use calligraphy.Store.Batcher.{Batcher, flush_pending, receive, new_batcher}
use calligraphy.Store.Batcher
use calligraphy.Worker.Shutdown.{
  Phase, serving, draining, cancelling, settling, flushing, reporting, closing, closed, Runtime,
  System, Move, runs, times_out, pool_moves, batcher_moves, beats, ticks, returns, signal,
  main_step, time_out, aside, at_phase, move, run, or_stay, upsert, stop_batcher, move_batcher,
  new_runtime,
}
use calligraphy.Worker.Assembly.{assemble}
use calligraphy.Worker.ShutdownStuck.{
  own, Stuck-closed, CanMove, own_moves, search_moves, none-Stuck,
}

-- What is left for the worker to do: of its phases, of the heartbeat loop, and of the Batcher.
abbrev phases_left : Phase → ℕ
phases_left serving = 7
phases_left draining = 6
phases_left cancelling = 5
phases_left settling = 4
phases_left flushing = 3
phases_left reporting = 2
phases_left closing = 1
phases_left closed = 0

abbrev beats_left : Runtime → ℕ
beats_left w = if w.hb_ended then 0 else if w.hb_waits then 1 else 2

abbrev batch_left : Batcher → ℕ
batch_left b = length b.queued + (if b.draining then 0 else 1) + (if b.ended then 0 else 1)

abbrev batches_left : Option Batcher → ℕ
batches_left none = 0
batches_left (some b) = batch_left b

unfoldable work : System → ℕ
work (p, w) = phases_left p + beats_left w + batches_left w.batcher

-- The moves that give the worker more to do: a tick of the heartbeat, and a record of a job.
abbrev renews : Move → Bool
renews ticks = true
renews (batcher_moves (Batcher.submits o)) = true
renews _ = false

abbrev one_if : Bool → ℕ
one_if b = if b then 1 else 0

abbrev counts : Bool → Option System → ℕ
counts b none = 0
counts b (some t) = one_if b

-- How many moves of the worker itself take effect in a schedule, and how many of those that renew.
pub own_steps : List Move → System → ℕ
own_steps [] s = 0
own_steps (m ∷ ms) s = counts (own m) (move m s) + own_steps ms (or_stay (move m s) s)

pub renewals : List Move → System → ℕ
renewals [] s = 0
renewals (m ∷ ms) s = counts (renews m) (move m s) + renewals ms (or_stay (move m s) s)

-- A move on a system, with what it answers, keeps to the account.
abbrev Accounted : Move → System → Option System → Type 0
Accounted m s o = counts (own m) o + work (or_stay o s) ≤ work s + counts (renews m) o

flush_pending-left : (b : Batcher) → batch_left (flush_pending b) ≡ batch_left b
unfolding flush_pending
flush_pending-left b = ground arith

receive_left : (b c : Batcher) → receive b ≡ some c → batch_left c + 1 ≤ batch_left b
unfolding receive flush_pending
receive_left b c e = grind (arith, e)

batcher_move-left :
    (m : Batcher.Move) (b c : Batcher)
    → Batcher.move m b ≡ some c
    → one_if (own (batcher_moves m)) + batch_left c
      ≤ batch_left b + one_if (renews (batcher_moves m))
unfolding Batcher.move
batcher_move-left (Batcher.submits o) b c e = grind (arith, e, length-append b.queued (o ∷ []))
batcher_move-left Batcher.receives b c e = grind (arith, e, receive_left b c)
batcher_move-left Batcher.ticks b c e = grind (arith, e, flush_pending-left b)
batcher_move-left Batcher.stops b c e = grind (arith, e)
batcher_move-left Batcher.sees_stop b c e = grind (arith, e)
batcher_move-left Batcher.leaves b c e = grind (arith, e, flush_pending-left b)

-- A step under a test that leaves less to do.
step_if_less :
    (b : Bool) (t s : System)
    → (b ≡ true → 1 + work t ≤ work s)
    → counts true (if b then some t else none) + work (or_stay (if b then some t else none) s)
      ≤ work s
step_if_less true t s h = h refl
step_if_less false t s h = omega arith

stop_batcher-left : (o : Option Batcher) → batches_left (stop_batcher o) ≡ batches_left o
unfolding Batcher.move
stop_batcher-left none = refl
stop_batcher-left (some b) = refl

main_step-Accounted : (p : Phase) (w : Runtime) → Accounted runs (p, w) (main_step p w)
unfolding main_step work upsert
main_step-Accounted serving w = ground arith
main_step-Accounted draining w = ground arith
main_step-Accounted cancelling w = ground arith
main_step-Accounted settling w = ground (arith, stop_batcher-left w.batcher)
main_step-Accounted flushing w = ground arith
main_step-Accounted reporting w = omega arith
main_step-Accounted closing w = omega arith
main_step-Accounted closed w = omega arith

time_out-Accounted : (p : Phase) (w : Runtime) → Accounted times_out (p, w) (time_out p w)
unfolding time_out work
time_out-Accounted draining w = omega arith
time_out-Accounted cancelling w = omega arith
time_out-Accounted _ w = omega arith

aside-Accounted : (m : Move) (p : Phase) (w : Runtime) → Accounted m (p, w) (at_phase p (aside m w))
unfolding aside work upsert move_batcher
aside-Accounted (batcher_moves m) p w = elim (Option-cases w.batcher) [
  | inl n ↦ grind (arith, n)
  | inr (b, e) ↦ elim (Option-cases (Batcher.move m b)) [
    | inl n ↦ grind (arith, e, n)
    | inr (c, k) ↦ grind (arith, e, k, batcher_move-left m b c k)
  ]
]
aside-Accounted (pool_moves m) p w = grind arith
aside-Accounted beats p w = ground arith
aside-Accounted ticks p w = ground arith
aside-Accounted returns p w = ground arith
aside-Accounted signal p w = ground arith
aside-Accounted runs p w = ground arith
aside-Accounted times_out p w = ground arith

move-Accounted : (m : Move) (s : System) → Accounted m s (move m s)
unfolding move
move-Accounted runs (p, w) = omega (arith, main_step-Accounted p w)
move-Accounted times_out (p, w) = omega (arith, time_out-Accounted p w)
move-Accounted (pool_moves m) (p, w) = aside-Accounted (pool_moves m) p w
move-Accounted (batcher_moves m) (p, w) = aside-Accounted (batcher_moves m) p w
move-Accounted beats (p, w) = aside-Accounted beats p w
move-Accounted ticks (p, w) = aside-Accounted ticks p w
move-Accounted returns (p, w) = aside-Accounted returns p w
move-Accounted signal (p, w) = aside-Accounted signal p w

own_steps-work :
    (ms : List Move) (s : System) → own_steps ms s + work (run ms s) ≤ work s + renewals ms s
unfolding own_steps renewals run
own_steps-work [] s = omega arith
own_steps-work (m ∷ ms) s =
    omega (arith, own_steps-work ms (or_stay (move m s) s), move-Accounted m s)

work-assemble : (cfg : Config) (hostname : String) (pid : ℕ) → work (assemble cfg hostname pid) ≤ 11
unfolding work assemble new_runtime new_batcher
work-assemble cfg hostname pid = ground arith

-- The shutdown terminates, whether or not the jobs ever return. In every history of a worker that
-- got the signal, Run is at its end, or a move of the worker itself is possible: of Run, its timers,
-- the heartbeat loop or the Batcher's. Such moves are at most eleven, and one more for each tick of
-- the heartbeat and each record that a job handed in.
pub shutdown_terminates :
    (cfg : Config) (hostname : String) (pid : ℕ) (ms : List Move)
    → (run ms (assemble cfg hostname pid)).1.signalled ≡ true
    → (((run ms (assemble cfg hostname pid)).0 ≡ closed)
        ⊎ CanMove (run ms (assemble cfg hostname pid)))
      × (own_steps ms (assemble cfg hostname pid) ≤ 11 + renewals ms (assemble cfg hostname pid))
shutdown_terminates cfg hostname pid ms h =
    let start = assemble cfg hostname pid in
    let s = run ms start in
    (
      elim (search_moves s own_moves (refl, (refl, (refl, (refl, (refl, (refl, (refl, tt)))))))) [
        | inl a ↦ inl (Stuck-closed cfg hostname pid ms h (none-Stuck s a))
        | inr c ↦ inr c
      ],
      omega (arith, own_steps-work ms start, work-assemble cfg hostname pid),
    )
