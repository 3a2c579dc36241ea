-- ===== src/Store/Samples.antt =====
-- Histories of one job, and the store's theorems at them.
use calligraphy.Base.{
  answer_lost, served, false, map, ◌≤◌, ◌≡◌, refl, ◌≢◌, List, [], ◌∷◌, map, String, true, false,
  none, some, ok, arith,
}
use calligraphy.Job.Status.{
  pending, running, completed, default, priority_valid, status_valid, terminal,
}
use calligraphy.Job.Errors.{outcome_completed}
use calligraphy.Job.Record.{Job}
use calligraphy.Store.Row.{
  Row, RowOp, claims, completes, reaps, retries, promotes, apply, step, run,
}
use calligraphy.Store.Lifecycle.{Trail, run-Trail, WellFormed, run-WellFormed}
use calligraphy.Store.Fence.{zombie_refused, outcomes, outcomes_le_one}
use calligraphy.Store.Db.{Db, Attempt, find_row}
use calligraphy.Store.Submit.{create_job, CreateResult, find_key}
use calligraphy.Store.Idempotency.{submit_once, touches, jobs_run}
use calligraphy.Store.Workers.{WorkerInfo}
use calligraphy.Store.Recorder.{Op, op_complete, op_fail, op_of, flush_once, flush}
use calligraphy.Store.FlushRetry.{flush_lost}
use calligraphy.Store.FlushOrder.{read_tables, sync_all, flush_once-sync_all}

abbrev waiting : Row
waiting = record {
  id = "j1";
  kind = "sleep";
  queue = "default";
  status = pending;
  priority = default;
  payload = [];
  result = none;
  error = none;
  idempotency_key = some "k";
  attempt_count = 0;
  max_attempts = 5;
  lease_epoch = 0;
  lease_expires_at = none;
  worker_id = none;
  enqueued_stream_id = none;
  created_at = 1;
  scheduled_at = 1;
  started_at = none;
  completed_at = none;
  updated_at = 1;
}

-- A worker claims the job and dies; the reaper takes it; a second worker completes it.
abbrev crash_story : List RowOp
crash_story =
    claims "w1" 10 2 ∷ reaps [] 0 0 20 ∷ promotes 21 ∷ claims "w2" 10 22 ∷ completes 3 [] 23 ∷ []

crash_story_completes : (run crash_story waiting).status ≡ completed
unfolding run step apply
crash_story_completes = refl

run-Trail_example : Trail crash_story waiting
run-Trail_example = run-Trail crash_story waiting

waiting-WellFormed : WellFormed waiting
unfolding status_valid terminal
waiting-WellFormed = record { known = refl; leased = refl; finished = refl; started = λ h. cc }

run-WellFormed_example : WellFormed (run crash_story waiting)
run-WellFormed_example = run-WellFormed crash_story waiting waiting-WellFormed

abbrev done : Row
done = record waiting { status = completed; completed_at = some 9 }

abbrev held : Row
held = record waiting {
  status = running;
  worker_id = some "w1";
  lease_epoch = 1;
  lease_expires_at = some 12;
  started_at = some 2;
  attempt_count = 1;
  updated_at = 2;
}

-- The reaper took the job of the first worker, whose late write carries epoch 1.
zombie_refused_example :
    apply
      (completes 1 [] 30)
      (run (promotes 21 ∷ claims "w2" 10 22 ∷ []) (step (reaps [] 0 0 20) held))
    ≡ none
unfolding step apply
zombie_refused_example =
    zombie_refused (reaps [] 0 0 20) held (promotes 21 ∷ claims "w2" 10 22 ∷ []) (completes 1 [] 30)
      1 refl refl (omega arith) refl

outcomes_le_one_example : outcomes 3 crash_story waiting ≤ 1
outcomes_le_one_example = outcomes_le_one 3 crash_story waiting

-- One claim, and a retry while four attempts are left.
abbrev retry_story : List RowOp
retry_story = claims "w1" 10 2 ∷ retries 1 [] 9 3 ∷ []

abbrev empty_db : Db
empty_db = record { jobs = []; attempts = []; events = []; workers = [] }

abbrev submission : String → Job
submission id = record {
  id = id;
  kind = "sleep";
  queue = "default";
  status = pending;
  priority = default;
  payload = [];
  result = [];
  error = [];
  idempotency_key = "k";
  attempt_count = 0;
  max_attempts = 5;
  lease_epoch = 0;
  lease_expires_at = none;
  worker_id = "";
  created_at = 1;
  scheduled_at = 1;
  started_at = none;
  completed_at = none;
}

key_given : (submission "j1").idempotency_key ≢ ""
key_given e = cc

submit_once_example :
    let db' =
      jobs_run
        (touches "j1" (claims "w1" 10 2) ∷ [])
        (create_job true (submission "j1") 1 empty_db).0 in
    ((create_job true (submission "j2") 3 db').0 ≡ db')
    × ((d : CreateResult) × ((create_job true (submission "j2") 3 db').1 ≡ ok d)
        × (d.created ≡ false)
        × (d.job.id ≡ "j1"))
unfolding create_job find_key find_row priority_valid status_valid
submit_once_example =
    submit_once true true (submission "j1") (submission "j2") 1 3 empty_db
      (record { job = submission "j1"; created = true }) (touches "j1" (claims "w1" 10 2) ∷ []) refl
      key_given refl refl refl

abbrev attempt_at : String → Attempt
attempt_at id = record {
  job_id = id;
  attempt = 1;
  worker_id = "w1";
  started_at = 2;
  finished_at = 3;
  outcome = outcome_completed;
  error = [];
}

abbrev batch : List Op
batch =
    record {
      kind = op_complete;
      id = "j1";
      epoch = 1;
      result = [];
      err_msg = [];
      next_at = 0;
      att = attempt_at "j1";
    }
    ∷ record {
      kind = op_fail;
      id = "j2";
      epoch = 1;
      result = [];
      err_msg = [];
      next_at = 0;
      att = attempt_at "j2";
    }
    ∷ []

abbrev two_jobs : Db
two_jobs = record empty_db { jobs = held ∷ record held { id = "j2" } ∷ [] }

flush_once-sync_all_example :
    let (batched, flags) = flush_once 5 (map op_of batch) two_jobs in
    let (single, answers) = sync_all 5 batch two_jobs in
    (read_tables batched ≡ read_tables single) × (flags ≡ answers)
flush_once-sync_all_example = flush_once-sync_all 5 batch two_jobs ((refl, tt), (tt, tt))

flush_lost_example :
    flush answer_lost served 5 6 batch two_jobs
    ≡ ((flush_once 5 batch two_jobs).0, map (λ o. ok false) batch)
flush_lost_example = flush_lost 5 6 batch two_jobs

abbrev worker : String → WorkerInfo
worker id = record {
  id = id;
  hostname = "host";
  pid = 7;
  concurrency = 2;
  target_concurrency = 4;
  active_jobs = 2;
  processed = 9;
  state = "active";
}
