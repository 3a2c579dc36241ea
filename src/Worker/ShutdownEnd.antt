-- ===== src/Worker/ShutdownEnd.antt =====
-- internal/worker/worker.go: what the end of Run leaves.
use calligraphy.Base.{ℕ, ◌≡◌, refl, inl, inr, String, List, true, Bool-cases}
use calligraphy.Config.Load.{Config}
use calligraphy.Store.Batcher.{new_batcher}
use calligraphy.Worker.Pool.{new_pool}
use calligraphy.Worker.Shutdown.{
  Phase, serving, draining, cancelling, settling, flushing, reporting, closing, closed, Runtime,
  Move, run, batcher_done, new_runtime,
}
use calligraphy.Worker.Assembly.{assemble}
use calligraphy.Worker.Phases.{Kept, KeptSystem, Quiet, Flushed, Open, last_state}
use calligraphy.Worker.Keeping.{run_keeps}

pub assemble-Kept :
    (cfg : Config) (hostname : String) (pid : ℕ) → KeptSystem (assemble cfg hostname pid)
unfolding assemble new_runtime new_pool new_batcher
assemble-Kept cfg hostname pid = elim (Bool-cases cfg.batch_writes) [
  | inl e ↦ rw e ((λ h. refl), (refl, refl), (refl, refl, refl))
  | inr e ↦ rw e ((λ h. refl), (refl, refl), tt)
]

-- What is done by the time that Run returns.
abbrev pub Finished : Runtime → Type 0
Finished w =
    (w.pool.stopped ≡ true)
    × Quiet w
    × (w.hb_ended ≡ true)
    × (batcher_done w.batcher ≡ true)
    × (last_state w.upserts ≡ "draining")

Flushed-Quiet : (w : Runtime) → Flushed w → Quiet w
Flushed-Quiet w (inl (d, e)) = inl d
Flushed-Quiet w (inr a) = inr a

-- While Run is under way the connections are open.
abbrev pub Orderly : Phase → Runtime → Type 0
Orderly closed w = Finished w
Orderly _ w = Open w

Kept-Orderly : (p : Phase) (w : Runtime) → Kept p w → Orderly p w
Kept-Orderly closed w (r, o, f, t, h, b, l) = (t, Flushed-Quiet w f, h, b, l)
Kept-Orderly serving w k = k.1
Kept-Orderly draining w k = k.1
Kept-Orderly cancelling w k = k.1
Kept-Orderly settling w k = k.1
Kept-Orderly flushing w k = k.1
Kept-Orderly reporting w k = k.1
Kept-Orderly closing w k = k.1

-- The order of the shutdown, in every history of a worker: the connections are open until Run is
-- at its end. By then the fetches are stopped; every job has ended, or the grace ran out and the
-- rest was left to the reaper; the heartbeat loop and the Batcher's have ended; and the last
-- heartbeat says `draining`.
pub run-Orderly :
    (cfg : Config) (hostname : String) (pid : ℕ) (ms : List Move)
    → let (p, w) = run ms (assemble cfg hostname pid) in Orderly p w
run-Orderly cfg hostname pid ms =
    let s = run ms (assemble cfg hostname pid) in
    Kept-Orderly s.0 s.1 (run_keeps ms (assemble cfg hostname pid) (assemble-Kept cfg hostname pid))
