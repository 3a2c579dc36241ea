-- ===== src/Worker/Samples.antt =====
-- Deliveries, and the runner's theorems at them.
use calligraphy.Base.{◌≡◌, refl, List, [], ◌∷◌, any, Bool, true, false, none, some, ok, served, ap}
use calligraphy.Job.Status.{pending, running, completed, default}
use calligraphy.Job.Errors.{
  plain, MaybeErr, outcome_retryable, classify_error, attempt_error, is_cancel_requested,
  is_interrupted, is_non_retryable, is_panic, is_lease_lost, is_deadline_exceeded, matches,
  in_chain, error_text,
}
use calligraphy.Store.Row.{Row, extends, apply, run, fence}
use calligraphy.Store.Budget.{MayRetry}
use calligraphy.Store.Db.{
  Db, Attempt, Claim, find_row, update_row, touch, schedule_retry, or_null, with_event,
  record_attempt,
}
use calligraphy.Store.Recorder.{Op, op_retry, sync_record, op_of}
use calligraphy.Store.Flush.{row_op}
use calligraphy.Worker.Runner.{
  Delivery, Runner, Effect, recorded, acked, noted, note, finish, route, Execution, settle,
  settle_transient, outcome_of, attempt_of, op_with, job_completed, job_retried, retry_handed,
}
use calligraphy.Worker.Routing.{is_ack, finish_ack}
use calligraphy.Worker.EndToEnd.{finish-MayRetry, done, out, finish_completes}

abbrev held : Row
held = record {
  id = "j1";
  kind = "sleep";
  queue = "default";
  status = running;
  priority = default;
  payload = [];
  result = none;
  error = none;
  idempotency_key = none;
  attempt_count = 1;
  max_attempts = 5;
  lease_epoch = 1;
  lease_expires_at = some 12;
  worker_id = some "w1";
  enqueued_stream_id = none;
  created_at = 1;
  scheduled_at = 1;
  started_at = some 2;
  completed_at = none;
  updated_at = 2;
}

abbrev waiting : Row
waiting = record held {
  status = pending;
  attempt_count = 0;
  lease_epoch = 0;
  lease_expires_at = none;
  worker_id = none;
  started_at = none;
}

abbrev db : Db
db = record { jobs = held ∷ []; attempts = []; events = []; workers = [] }

abbrev runner : Runner
runner = record {
  worker_id = "w1";
  lease_ttl = 10;
  exec_timeout = 60;
  registry = λ kind. some (record { lease_ttl = 0; exec_timeout = 0 });
  backoff = λ n. n;
  text = λ e. [];
  no_handler_text = [];
  recorder = sync_record served served true 5;
  observed = true;
}

abbrev delivery : Delivery
delivery = record {
  env = record {
    id = "j1";
    kind = "sleep";
    queue = "default";
    priority = default;
    attempt = 1;
    payload = [];
    enqueued_at = 1;
  };
  entry_id = "1-0";
  priority = default;
}

abbrev claim : Claim
claim = record { epoch = 1; attempt = 1; max_attempts = 5; started_at = 2 }

abbrev flaky : MaybeErr
flaky = some (plain [])

-- A transient failure of the first of five attempts is recorded as a retry, and acked.
abbrev flaky_run : Db × List Effect
flaky_run = finish runner delivery claim [] flaky none 2 5 served db

abbrev flaky_attempt : Attempt
flaky_attempt = record {
  job_id = "j1";
  attempt = 1;
  worker_id = "w1";
  started_at = 2;
  finished_at = 5;
  outcome = outcome_retryable;
  error = [];
}

abbrev flaky_op : Op
flaky_op = record {
  kind = op_retry;
  id = "j1";
  epoch = 1;
  result = [];
  err_msg = [];
  next_at = 6;
  att = flaky_attempt;
}

abbrev flaky_rest : List Effect
flaky_rest =
    retry_handed
      (record {
        id = "j1";
        kind = "sleep";
        queue = "default";
        priority = default;
        attempt = 2;
        payload = [];
        enqueued_at = 1;
      })
      6
    ∷ acked default "1-0"
    ∷ noted job_retried
    ∷ []

flaky_effects : flaky_run.1 ≡ recorded flaky_op (ok true) ∷ flaky_rest
unfolding finish route outcome_of classify_error is_cancel_requested is_interrupted is_non_retryable
    is_panic is_lease_lost is_deadline_exceeded matches in_chain settle_transient settle op_with
    sync_record schedule_retry touch update_row apply with_event record_attempt attempt_of
    attempt_error error_text
flaky_effects = refl

flaky_acks : any is_ack flaky_run.1 ≡ true
flaky_acks = ap (any is_ack) flaky_effects

finish_ack_example :
    (o : Op) × (applied : Bool) × (rest : List Effect) × (flaky_run.1
      ≡ recorded o (ok applied) ∷ rest)
    × (o.id ≡ "j1")
    × (o.epoch ≡ 1)
finish_ack_example = finish_ack runner delivery claim [] flaky none 2 5 served db flaky_acks

finish-MayRetry_example : MayRetry (row_op 5 (op_of flaky_op)) (run (extends 1 10 4 ∷ []) held)
unfolding apply
finish-MayRetry_example =
    finish-MayRetry "w1" 10 2 waiting {claimed = held} (extends 1 10 4 ∷ []) runner delivery claim
      [] flaky none 2 5 served db flaky_op (ok true) flaky_rest refl refl flaky_effects

abbrev finished_db : Db
finished_db = record db { jobs = record held { status = completed } ∷ [] }

abbrev ran : Execution
ran = record { result = []; error = none; cause = none; ended = 5; meanwhile = λ t. t }

found_finished : find_row "j1" finished_db.jobs ≡ some (record held { status = completed })
unfolding find_row
found_finished = refl

unique_finished : (find_row "j1" [] ≡ none) × Unit {0}
unfolding find_row
unique_finished = (refl, tt)

found_held : find_row "j1" db.jobs ≡ some held
unfolding find_row
found_held = refl

held-fence : fence 1 held ≡ true
unfolding fence
held-fence = refl

abbrev clean_run : Db × List Effect
clean_run = out runner delivery claim [] none 2 5 served db

abbrev clean_op : Op
clean_op = done runner delivery claim [] none 2 5 served db

finish_completes_example :
    (row : Row) × (find_row "j1" clean_run.0.jobs ≡ some row)
    × (row.status ≡ completed)
    × (row.result ≡ some (or_null []))
    × (row.attempt_count ≡ 1)
    × (clean_run.1 ≡ recorded clean_op (ok true) ∷ acked default "1-0" ∷ note runner job_completed)
finish_completes_example =
    finish_completes runner delivery claim [] none 2 5 5 served db held refl unique_finished
      found_held held-fence

-- The reaper has taken the job meanwhile.
abbrev reaped : Row
reaped = record held { lease_epoch = 2; lease_expires_at = none; worker_id = none }

abbrev reaped_db : Db
reaped_db = record db { jobs = reaped ∷ [] }

found_reaped : find_row "j1" reaped_db.jobs ≡ some reaped
unfolding find_row
found_reaped = refl

reaped-fence : fence 1 reaped ≡ false
unfolding fence
reaped-fence = refl
