-- ===== src/Store/BatcherSamples.antt =====
-- Runs of the Batcher's loop.
use calligraphy.Base.{◌≡◌, refl, List, [], ◌∷◌, String, arith}
use calligraphy.Job.Errors.{outcome_completed}
use calligraphy.Store.Recorder.{Op, op_complete}
use calligraphy.Store.Batcher.{
  Batcher, new_batcher, Move, submits, receives, ticks, stops, sees_stop, leaves, move, receive,
  flush_pending, serve,
}
use calligraphy.Store.BatcherBounds.{Sized}

abbrev op_for : String → Op
op_for id = record {
  kind = op_complete;
  id = id;
  epoch = 1;
  result = [];
  err_msg = [];
  next_at = 0;
  att = record {
    job_id = id;
    attempt = 1;
    worker_id = "w1";
    started_at = 1;
    finished_at = 2;
    outcome = outcome_completed;
    error = [];
  };
}

abbrev pairs : Batcher
unfolding new_batcher
pairs = new_batcher 2

-- A full batch, one on the tick, and a drain.
abbrev moves : List Move
moves =
    submits (op_for "a")
    ∷ submits (op_for "b")
    ∷ receives
    ∷ receives
    ∷ submits (op_for "c")
    ∷ receives
    ∷ ticks
    ∷ submits (op_for "d")
    ∷ stops
    ∷ sees_stop
    ∷ receives
    ∷ leaves
    ∷ []

batches_of_run :
    (serve moves pairs).flushed
    ≡ (op_for "a" ∷ op_for "b" ∷ []) ∷ (op_for "c" ∷ []) ∷ (op_for "d" ∷ []) ∷ []
unfolding serve move receive flush_pending new_batcher
batches_of_run = refl

-- An op that enters the channel when the loop has ended stays there, with no answer to its caller.
late_op_stays :
    (serve
      (stops ∷ sees_stop ∷ leaves ∷ submits (op_for "e") ∷ receives ∷ leaves ∷ [])
      pairs).queued
    ≡ op_for "e" ∷ []
unfolding serve move receive flush_pending new_batcher
late_op_stays = refl

pairs-Sized : Sized pairs
unfolding new_batcher
pairs-Sized = record {
  room = omega arith;
  channel = omega arith;
  waiting = λ e. omega arith;
  batches = λ e. refl;
  done = λ e. refl;
}
