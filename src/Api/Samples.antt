-- ===== src/Api/Samples.antt =====
-- Requests on small tables, and the API's theorems at them.
use calligraphy.Base.{
  ◌∙◌, sym, ap, Option-cases, inl, inr, ◌≡◌, refl, ◌≢◌, ◌⊎◌, [], ◌∷◌, true, none, some, ok, err,
  unavailable, served, answer_lost,
}
use calligraphy.Job.Errors.{Bytes}
use calligraphy.Job.Status.{default, dead_letter, pending, terminal, status_valid, priority_valid}
use calligraphy.Job.Record.{Job, new, valid_name}
use calligraphy.Store.Row.{Row, RowOp, claims, apply, run}
use calligraphy.Store.Tables.{update-absent, find_row-update_self}
use calligraphy.Store.Db.{Db, find_row, cancel_job, with_event, touch, update_row}
use calligraphy.Store.Submit.{create_job, requeue_dead_letter}
use calligraphy.Api.Http.{Answers}
use calligraphy.Api.Submit.{
  Server, SubmitRequest, decoded, options_of, options_at, admit, handle_submit,
}
use calligraphy.Api.Handoff.{Others, ran}
use calligraphy.Api.Accepted.{Asked, Kept, Promised, handle_submit_lem}
use calligraphy.Api.Jobs.{handle_cancel, handle_requeue_dlq}
use calligraphy.Api.Settling.{Told, handle_cancel_lem}
use calligraphy.Api.Requeuing.{Told as Requeued, handle_requeue_dlq_lem}
use calligraphy.Api.Routes.{World, Site, delete_job, serve, handle}
use calligraphy.Api.Guard.{Authorized, Refused, serve_safe}

abbrev answers : Answers
answers = record {
  to_read = true;
  to_write = served;
  to_mark = served;
  to_event = true;
  meanwhile = λ db. db;
  enqueue = λ env at. ok "1-0";
  flag = λ id. ok tt;
}

-- Redis is down.
abbrev no_queue : Answers
no_queue = record answers { enqueue = λ env at. err unavailable; flag = λ id. err unavailable }

abbrev server : Server
server = record { known_types = "sleep" ∷ []; max_payload = 64 }

abbrev request : SubmitRequest
request = record {
  kind = "sleep";
  payload = b'1' ∷ [];
  queue = "";
  priority = default;
  max_attempts = 3;
  idempotency_key = "";
  delay_seconds = 0;
  scheduled_at = 0;
}

abbrev no_jobs : Db
no_jobs = record { jobs = []; attempts = []; events = []; workers = [] }

not_lost : served ≢ answer_lost
not_lost e = cc

-- Each time a handler waits, a worker claims the job.
abbrev claim : RowOp
claim = claims "w1" 30 101

abbrev raced : Answers
raced = record answers { meanwhile = λ db. (touch "j1" claim db).0 }

raced-Others : Others raced "j1" (claim ∷ [])
unfolding run touch
raced-Others db = elim (Option-cases (find_row "j1" db.jobs)) [
  | inl e ↦ rw (update-absent "j1" claim db.jobs e, e) refl
  | inr (r, e) ↦ find_row-update_self "j1" claim db.jobs r e ∙ sym (ap (ran (claim ∷ [])) e)
]

handle_submit_lem_example :
    let out = handle_submit server raced (λ b. true) "j1" 100 (decoded request) no_jobs in
    Kept no_jobs out
    ⊎ ((j : Job) × Asked server "j1" 100 (decoded request) j
        × Promised raced 100 (claim ∷ []) j out)
handle_submit_lem_example =
    handle_submit_lem server raced (λ b. true) "j1" 100 (claim ∷ []) (decoded request) no_jobs
      not_lost raced-Others

-- The job stands though Redis is down.
accepted_without_queue :
    (handle_submit server no_queue (λ b. true) "j1" 100 (decoded request) no_jobs).reply.code ≡ 201
unfolding handle_submit admit new valid_name priority_valid create_job status_valid find_row
accepted_without_queue = refl

abbrev row : Row
row = record {
  id = "j1";
  kind = "sleep";
  queue = "default";
  status = pending;
  priority = default;
  payload = [];
  result = none;
  error = none;
  idempotency_key = none;
  attempt_count = 0;
  max_attempts = 3;
  lease_epoch = 0;
  lease_expires_at = none;
  worker_id = none;
  enqueued_stream_id = none;
  created_at = 1;
  scheduled_at = 1;
  started_at = none;
  completed_at = none;
  updated_at = 1;
}

abbrev one_job : Db
one_job = record no_jobs { jobs = row ∷ [] }

handle_cancel_lem_example : Told answers "j1" one_job (handle_cancel answers "j1" 5 one_job)
unfolding find_row
handle_cancel_lem_example = handle_cancel_lem answers "j1" 5 one_job (refl, tt)

cancel_answers_200 : (handle_cancel answers "j1" 5 one_job).reply.code ≡ 200
unfolding handle_cancel find_row terminal cancel_job with_event touch update_row apply
cancel_answers_200 = refl

abbrev one_dead : Db
one_dead = record no_jobs { jobs = record row { status = dead_letter; completed_at = some 4 } ∷ [] }

handle_requeue_dlq_lem_example :
    Requeued raced "j1" 9 (claim ∷ []) one_dead (handle_requeue_dlq raced "j1" 9 one_dead)
unfolding find_row
handle_requeue_dlq_lem_example =
    handle_requeue_dlq_lem raced "j1" 9 (claim ∷ []) one_dead (refl, tt) raced-Others

requeue_answers_200 : (handle_requeue_dlq answers "j1" 9 one_dead).reply.code ≡ 200
unfolding handle_requeue_dlq requeue_dead_letter touch update_row apply
requeue_answers_200 = refl

-- A delay of 9223372037 seconds overflows the Duration: the job is scheduled in the past.
delay_overflows :
    options_of (record request { delay_seconds = 9223372037 }) 10000000000000000000
    ≡ ok (options_at (record request { delay_seconds = 9223372037 }) 776627963290448384)
unfolding options_of
delay_overflows = refl

-- For the tests, a token is its own digest.
abbrev token : Bytes
token = b't' ∷ b'1' ∷ []

abbrev world : World
world = record {
  server = server;
  digest = λ b. b;
  tokens = token ∷ [];
  json_valid = λ b. true;
  new_id = "j1";
  cmd_id = "c1";
  now = 100;
  answers = answers;
  listed = true;
  queue_depths = err unavailable;
  store_up = true;
  queue_up = true;
}

abbrev site : Site
site = record { db = one_job; hub = none }

-- A cancellation without a token.
serve_safe_example :
    let out = serve world [] (delete_job "j1") site in
    (Authorized world.digest (token ∷ []) [] × (out ≡ handle world (delete_job "j1") site))
    ⊎ ((¬ Authorized world.digest (token ∷ []) []) × Refused world (delete_job "j1") site out)
serve_safe_example = serve_safe world (token ∷ []) [] (delete_job "j1") site refl
