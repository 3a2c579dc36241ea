-- ===== src/Worker/ShutdownSamples.antt =====
-- internal/worker/worker.go: a worker that gets the signal while one job runs.
use calligraphy.Base.{
  ℕ, ◌≤◌, ◌+◌, ◌⊎◌, ◌≡◌, refl, String, List, [], ◌∷◌, true, false, Option, none, ok, err,
}
use calligraphy.Config.Env.{Environment, getenv_int, getenv_dur}
use calligraphy.Config.Load.{Config, read_env}
use calligraphy.Job.Errors.{outcome_completed}
use calligraphy.Store.Recorder.{Op, op_complete}
use calligraphy.Store.Batcher.{submits, receives, sees_stop, leaves, new_batcher}
use calligraphy.Store.Batcher
use calligraphy.Store.BatcherOrder.{flat}
use calligraphy.Worker.Pool.{turns, fetches, starts, finishes, new_pool}
use calligraphy.Worker.Pool
use calligraphy.Worker.Shutdown.{
  Move, runs, pool_moves, batcher_moves, beats, returns, signal, closed, run, new_runtime, move,
}
use calligraphy.Worker.Assembly.{
  Answers, Answered, assemble, new, replay, first_failure, outcomes, new-Answered,
}
use calligraphy.Worker.ShutdownEnd.{Orderly, run-Orderly}
use calligraphy.Worker.ShutdownRecords.{flushed_of, submitted, run_flushes}
use calligraphy.Worker.ShutdownStuck.{CanMove}
use calligraphy.Worker.ShutdownBound.{own_steps, renewals, shutdown_terminates}

abbrev unset : Environment
unset key = none

abbrev no_durations : String → Option ℕ
no_durations s = none

batching : Config
unfolding read_env getenv_int getenv_dur
batching = record (read_env no_durations "w1" unset) {
  batch_writes = true;
  batch_max_size = 8;
  concurrency = 2;
  fetch_batch = 4;
}

abbrev completion : Op
completion = record {
  kind = op_complete;
  id = "a";
  epoch = 1;
  result = [];
  err_msg = [];
  next_at = 0;
  att = record {
    job_id = "a";
    attempt = 1;
    worker_id = "w1";
    started_at = 1;
    finished_at = 2;
    outcome = outcome_completed;
    error = [];
  };
}

-- One job is fetched and runs into the drain; it hands in its record, which the Batcher flushes in
-- its own drain.
abbrev moves : List Move
moves =
    pool_moves turns
    ∷ beats
    ∷ pool_moves (fetches 1)
    ∷ pool_moves starts
    ∷ signal
    ∷ runs
    ∷ pool_moves turns
    ∷ runs
    ∷ batcher_moves (submits completion)
    ∷ pool_moves finishes
    ∷ runs
    ∷ returns
    ∷ runs
    ∷ batcher_moves sees_stop
    ∷ batcher_moves receives
    ∷ batcher_moves leaves
    ∷ runs
    ∷ runs
    ∷ runs
    ∷ []

run-Orderly_example : let (p, w) = run moves (assemble batching "host" 7) in Orderly p w
run-Orderly_example = run-Orderly batching "host" 7 moves

reaches_end : (run moves (assemble batching "host" 7)).0 ≡ closed
unfolding batching run move assemble new_runtime new_pool new_batcher Batcher.move Pool.move
reaches_end = refl

none_left : (run moves (assemble batching "host" 7)).1.abandoned ≡ false
unfolding batching run move assemble new_runtime new_pool new_batcher Batcher.move Pool.move
none_left = refl

run_flushes_example :
    flushed_of (run moves (assemble batching "host" 7)).1.batcher
    ≡ submitted moves (assemble batching "host" 7)
run_flushes_example = run_flushes batching "host" 7 moves reaches_end none_left

-- What it flushed is the record.
one_record : flushed_of (run moves (assemble batching "host" 7)).1.batcher ≡ completion ∷ []
unfolding batching run move assemble new_runtime new_pool new_batcher Batcher.move Pool.move flat
one_record = refl

is_signalled : (run moves (assemble batching "host" 7)).1.signalled ≡ true
unfolding batching run move assemble new_runtime new_pool new_batcher Batcher.move Pool.move
is_signalled = refl

shutdown_terminates_example :
    (((run moves (assemble batching "host" 7)).0 ≡ closed)
      ⊎ CanMove (run moves (assemble batching "host" 7)))
    × (own_steps moves (assemble batching "host" 7)
        ≤ 11 + renewals moves (assemble batching "host" 7))
shutdown_terminates_example = shutdown_terminates batching "host" 7 moves is_signalled

-- Redis has no group and no answer for it.
abbrev no_group : Answers String
no_group = record {
  open_store = ok tt;
  migrate = ok tt;
  parse_url = ok tt;
  ping = ok tt;
  ensure_group = err "XGROUP";
}

new-Answered_example :
    let (calls, r) = new no_group batching "host" 7 in
    Answered batching "host" 7
      (first_failure (outcomes no_group) 0)
      r
      (replay no_group calls (false, false))
new-Answered_example = new-Answered no_group batching "host" 7
