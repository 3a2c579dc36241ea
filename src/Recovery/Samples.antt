-- ===== src/Recovery/Samples.antt =====
-- Rows in the states that a crash leaves, and the duties of the leader at them.
use calligraphy.Base.{
  ◌≡◌, ◌≤◌, refl, String, [], ◌∷◌, any, length, filter, true, some, ok, ◌⊎◌, served, arith,
}
use calligraphy.Job.Status.{default, running, retrying}
use calligraphy.Job.Record.{Options, Envelope, fresh_job}
use calligraphy.Store.Row.{Row, apply}
use calligraphy.Store.Db.{Db, find_row, touch, update_row}
use calligraphy.Store.Submit.{row_of_job, get_job, scan_job, reap_job}
use calligraphy.Store.Tables.{UniqueIds}
use calligraphy.Store.Queries.{stale, stuck}
use calligraphy.Worker.Runner.{Delivery}
use calligraphy.Recovery.Duties.{
  Leader, Answers, reap_one, after_reap, ack_unreaped, sweep_stale_running,
}
use calligraphy.Recovery.Entries.{is_ack, PutAgain, Settled, reap_one_ack}
use calligraphy.Recovery.Loops.{Clear}
use calligraphy.Recovery.Sweep.{sweep_stale_running_lem}

abbrev options : Options
options = record {
  queue = "";
  priority = default;
  max_attempts = 3;
  idempotency_key = "";
  scheduled_at = 1;
}

abbrev fresh : Row
unfolding row_of_job fresh_job
fresh = row_of_job (fresh_job "j1" "sleep" [] options 1) 1

-- A worker died with this one, and another died before its retry was parked.
abbrev lost : Row
lost = record fresh {
  id = "j2";
  status = running;
  attempt_count = 1;
  lease_epoch = 1;
  lease_expires_at = some 20;
  worker_id = some "w1";
  started_at = some 10;
}

abbrev late : Row
late = record fresh { id = "j3"; status = retrying; attempt_count = 1; scheduled_at = 30 }

abbrev db : Db
db = record { jobs = fresh ∷ lost ∷ late ∷ []; attempts = []; events = []; workers = [] }

abbrev entry_of : Envelope → String
entry_of env = "7-0"

abbrev leader : Leader
leader = record {
  backoff = λ n. n;
  sweep_grace = 5;
  orphan_age = 10;
  texts = record { presumed_dead = []; no_entry = []; exhausted = [] };
  enqueue = λ env. ok (entry_of env);
}

abbrev up : Answers
up = record { to_update = served; to_read = true; to_attempt = served; to_event = true }

-- The entry of a job that no worker came to claim.
abbrev delivery : Delivery
delivery = record {
  env = record {
    id = "j1";
    kind = "sleep";
    queue = "default";
    priority = default;
    attempt = 1;
    payload = [];
    enqueued_at = 1;
  };
  entry_id = "5-0";
  priority = default;
}

delivery_acks : any is_ack (reap_one leader up 100 delivery db).1 ≡ true
unfolding reap_one after_reap ack_unreaped get_job scan_job reap_job touch update_row fresh apply
    find_row
delivery_acks = refl

ids_differ : UniqueIds db.jobs
unfolding fresh find_row
ids_differ = (refl, (refl, (refl, tt)))

reap_one_ack_example :
    PutAgain delivery 100
      (reap_one leader up 100 delivery db).0
      (reap_one leader up 100 delivery db).1
    ⊎ Settled "j1" (reap_one leader up 100 delivery db).0
reap_one_ack_example = reap_one_ack leader up 100 delivery db ids_differ delivery_acks

one_stale : length (filter (stale 5 100) db.jobs) ≤ 256
unfolding stale fresh
one_stale = omega arith

sweep_stale_running_lem_example :
    Clear (stale 5 100) (sweep_stale_running leader (λ id. up) true 100 db).0.jobs
sweep_stale_running_lem_example =
    sweep_stale_running_lem leader (λ id. up) 100 db (λ id. refl) one_stale

one_stuck : length (filter (stuck 10 100) db.jobs) ≤ 256
unfolding stuck fresh
one_stuck = omega arith
