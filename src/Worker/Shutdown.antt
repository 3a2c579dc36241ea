-- ===== src/Worker/Shutdown.antt =====
-- internal/worker/worker.go: Run with its phases, and the heartbeats of the worker. The main
-- goroutine, the pool, the Batcher, the heartbeat loop and the signal interleave, so a run is a list
-- of moves; `none` is a move that is not possible. Whether a heartbeat reached Postgres is left out:
-- the code only logs that.
use calligraphy.Base.{
  ℕ, ◌==◌, String, List, [], ◌∷◌, ◌++◌, Bool, true, false, not, ◌&&◌, Option, none, some,
  if◌then◌else◌, ltb,
}
use calligraphy.Store.Workers.{WorkerInfo}
use calligraphy.Store.Batcher.{Batcher}
use calligraphy.Store.Batcher
use calligraphy.Worker.Pool.{Pool}
use calligraphy.Worker.Pool

-- Where Run stands: before the signal; at its two waits for the pool; at the wait for the
-- heartbeat loop; in the Stop of the Batcher; before the last heartbeat; before the connections
-- are closed; and at its end.
pub data Phase : Type 0 where
  serving draining cancelling settling flushing reporting closing closed : Phase

pub record Runtime : Type 0 where
  pub id : String
  pub hostname : String
  pub pid : ℕ
  pub pool : Pool
  pub batcher : Option Batcher
  pub signalled : Bool
  pub jobs_cancelled : Bool
  pub abandoned : Bool  -- the grace is over, and jobs were left to the reaper
  -- The heartbeat loop: its context is done, it is at its select, it has returned; and the calls
  -- of UpsertWorker, the latest last.
  pub hb_stopped : Bool
  pub hb_waits : Bool
  pub hb_ended : Bool
  pub upserts : List WorkerInfo
  pub queue_open : Bool
  pub store_open : Bool

unfoldable pub info : String → Runtime → WorkerInfo
info state w = record {
  id = w.id;
  hostname = w.hostname;
  pid = w.pid;
  concurrency = w.pool.active;
  target_concurrency = w.pool.target;
  active_jobs = w.pool.active;
  processed = w.pool.processed;
  state = state;
}

unfoldable pub upsert : String → Runtime → Runtime
unfolding info
upsert state w = record w { upserts = w.upserts ++ info state w ∷ [] }

-- `poolDone` is closed: the loop has ended and its jobs too.
abbrev pub pool_done : Pool → Bool
pool_done p = p.ended && ((p.claimed == 0) && (p.active == 0))

abbrev pub stop_batcher : Option Batcher → Option Batcher
stop_batcher none = none
stop_batcher (some b) = some (Batcher.or_stay (Batcher.move Batcher.stops b) b)

abbrev pub batcher_done : Option Batcher → Bool
batcher_done none = true
batcher_done (some b) = b.ended

abbrev pub System : Type 0
System = Phase × Runtime

-- The next step of Run.
unfoldable pub main_step : Phase → Runtime → Option System
unfolding upsert
main_step serving w =
    if w.signalled
    then some (draining, record w { pool = Pool.or_stay (Pool.move Pool.stops w.pool) w.pool })
    else none
main_step draining w =
    if pool_done w.pool then some (settling, record w { hb_stopped = true }) else none
main_step cancelling w =
    if pool_done w.pool then some (settling, record w { hb_stopped = true }) else none
main_step settling w =
    if w.hb_ended then some (flushing, record w { batcher = stop_batcher w.batcher }) else none
main_step flushing w = if batcher_done w.batcher then some (reporting, w) else none
main_step reporting w = some (closing, upsert "draining" w)
main_step closing w = some (closed, record w { queue_open = false; store_open = false })
main_step closed w = none

-- A timer of Run fires: DrainTimeout, or the 10 seconds of grace.
unfoldable pub time_out : Phase → Runtime → Option System
time_out draining w = some (cancelling, record w { jobs_cancelled = true })
time_out cancelling w = some (settling, record w { hb_stopped = true; abandoned = true })
time_out _ w = none

-- Only Run stops the pool and the Batcher, and only a running job submits.
abbrev pub pool_allows : Pool.Move → Bool
pool_allows Pool.stops = false
pool_allows _ = true

abbrev pub batcher_allows : Batcher.Move → Pool → Bool
batcher_allows Batcher.stops p = false
batcher_allows (Batcher.submits o) p = ltb 0 p.active
batcher_allows _ p = true

abbrev pub with_pool : Runtime → Option Pool → Option Runtime
with_pool w none = none
with_pool w (some p) = some (record w { pool = p })

abbrev pub with_batcher : Runtime → Option Batcher → Option Runtime
with_batcher w none = none
with_batcher w (some b) = some (record w { batcher = some b })

unfoldable pub move_batcher : Batcher.Move → Option Batcher → Option Batcher
move_batcher m none = none
move_batcher m (some b) = Batcher.move m b

pub data Move : Type 0 where
  runs times_out : Move  -- the main goroutine, and its timer
  pool_moves : Pool.Move → Move
  batcher_moves : Batcher.Move → Move
  beats ticks returns : Move  -- the heartbeat loop
  signal : Move

-- The moves of the other goroutines.
unfoldable pub aside : Move → Runtime → Option Runtime
unfolding upsert move_batcher
aside (pool_moves m) w = if pool_allows m then with_pool w (Pool.move m w.pool) else none
aside (batcher_moves m) w =
    if batcher_allows m w.pool then with_batcher w (move_batcher m w.batcher) else none
aside beats w =
    if not w.hb_ended && not w.hb_waits
    then some (record (upsert "active" w) { hb_waits = true })
    else none
aside ticks w = if not w.hb_ended && w.hb_waits then some (record w { hb_waits = false }) else none
aside returns w =
    if not w.hb_ended && (w.hb_waits && w.hb_stopped)
    then some (record w { hb_ended = true })
    else none
aside signal w = some (record w { signalled = true })
aside _ w = none

abbrev pub at_phase : Phase → Option Runtime → Option System
at_phase p none = none
at_phase p (some w) = some (p, w)

unfoldable pub move : Move → System → Option System
unfolding main_step time_out aside
move runs (p, w) = main_step p w
move times_out (p, w) = time_out p w
move m (p, w) = at_phase p (aside m w)

abbrev pub or_stay : Option System → System → System
or_stay none s = s
or_stay (some t) s = t

-- A schedule; a move that is not possible is passed over.
unfoldable pub run : List Move → System → System
run [] s = s
run (m ∷ ms) s = run ms (or_stay (move m s) s)

-- What `New` leaves: the pool, the recorder, both connections.
unfoldable pub new_runtime : String → String → ℕ → Pool → Option Batcher → System
new_runtime id hostname pid pool batcher = (
  serving,
  record {
    id = id;
    hostname = hostname;
    pid = pid;
    pool = pool;
    batcher = batcher;
    signalled = false;
    jobs_cancelled = false;
    abandoned = false;
    hb_stopped = false;
    hb_waits = false;
    hb_ended = false;
    upserts = [];
    queue_open = true;
    store_open = true;
  },
)
