-- ===== src/Worker/PoolSamples.antt =====
-- internal/worker/pool.go: schedules of a pool, and its theorems at them.
use calligraphy.Base.{◌≤◌, refl, List, [], ◌∷◌, true, false, none, arith, inl}
use calligraphy.Worker.Pool.{
  Pool, new_pool, Move, turns, fetches, starts, finishes, sets_target, move, turn, schedule,
}
use calligraphy.Worker.Draining.{steps, work, Fits, Stuck, Drained, draining_terminates}
use calligraphy.Worker.PoolBounds.{Within, AllKeep, schedule-Within}

-- A pool of two slots: one turn of the loop, two jobs, an operator who lowers the target.
abbrev moves : List Move
moves = turns ∷ fetches 2 ∷ starts ∷ sets_target 1 ∷ starts ∷ finishes ∷ turns ∷ []

two_slots : Pool
unfolding new_pool
two_slots = new_pool 2 8

two_slots-Within : Within 2 two_slots
unfolding two_slots new_pool
two_slots-Within = record { target_low = omega arith; load_low = omega arith; one_place = inl refl }

moves_keep : AllKeep 2 moves two_slots
unfolding AllKeep two_slots new_pool move turn
moves_keep = (tt, (omega arith, (tt, (omega arith, (tt, (tt, (tt, tt)))))))

schedule-Within_example : Within 2 (schedule moves two_slots)
schedule-Within_example = schedule-Within 2 moves two_slots moves_keep two_slots-Within

abbrev draining : Pool
draining = record {
  batch_max = 8;
  target = 2;
  active = 2;
  paused = false;
  processed = 0;
  asked = none;
  claimed = 0;
  err_backoff = 0;
  stopped = true;
  ended = false;
}

-- The loop ends, and then the two jobs.
abbrev ending : List Move
ending = turns ∷ finishes ∷ finishes ∷ []

ending-Fits : Fits ending draining
ending-Fits = (tt, (tt, (tt, tt)))

draining_terminates_example :
    (steps ending draining ≤ work draining)
    × (Stuck (schedule ending draining) → Drained (schedule ending draining))
draining_terminates_example = draining_terminates ending draining refl ending-Fits
