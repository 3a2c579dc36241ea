-- ===== src/Worker/HeartbeatSamples.antt =====
-- A worker whose job is reaped between two beats.
use calligraphy.Base.{
  ◌≡◌, refl, List, [], ◌∷◌, false, none, some, ok, err, unavailable, served, answer_lost, under,
}
use calligraphy.Job.Status.{default, running}
use calligraphy.Store.Row.{Row, reaps, apply}
use calligraphy.Store.Db.{Db, find_row, touch, update_row, extend_lease}
use calligraphy.Store.Tables.{UniqueIds, update-UniqueIds}
use calligraphy.Worker.Heartbeat.{Tick, lease_lost, heartbeat, Safe, beat_protects}

abbrev held : Row
held = record {
  id = "j1";
  kind = "sleep";
  queue = "default";
  status = running;
  priority = default;
  payload = [];
  result = none;
  error = none;
  idempotency_key = none;
  attempt_count = 1;
  max_attempts = 5;
  lease_epoch = 1;
  lease_expires_at = some 12;
  worker_id = some "w1";
  enqueued_stream_id = none;
  created_at = 1;
  scheduled_at = 1;
  started_at = some 2;
  completed_at = none;
  updated_at = 2;
}

abbrev db : Db
db = record { jobs = held ∷ []; attempts = []; events = []; workers = [] }

abbrev reaped : Db → Db
reaped d = (touch "j1" (reaps [] 0 0 40) d).0

-- Redis does not answer the second time; the reaper comes before the third.
abbrev ticks : List Tick
ticks =
    record { meanwhile = λ d. d; at = 5; to_extend = served; flag = ok false }
    ∷ record { meanwhile = λ d. d; at = 9; to_extend = answer_lost; flag = err unavailable }
    ∷ record { meanwhile = reaped; at = 41; to_extend = served; flag = ok false }
    ∷ []

reaped-UniqueIds : (d : Db) → UniqueIds d.jobs → UniqueIds (reaped d).jobs
unfolding touch
reaped-UniqueIds d u = update-UniqueIds "j1" (reaps [] 0 0 40) d.jobs u

loses : (heartbeat "j1" 1 10 ticks db).1 ≡ some lease_lost
unfolding heartbeat extend_lease touch update_row apply
loses = refl

beat_protects_example : Safe "j1" 1 15 (under served db (extend_lease "j1" 1 10 5 db)).0
unfolding find_row extend_lease touch update_row apply
beat_protects_example = beat_protects served "j1" 1 10 5 db (refl, tt) refl
