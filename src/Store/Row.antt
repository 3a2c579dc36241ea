-- ===== src/Store/Row.antt =====
-- internal/store/store.go and migrations/0001_init.sql: a row of the table `jobs`, and the
-- conditional UPDATEs on one row. `none` means that the WHERE clause does not match. Times and
-- durations are numbers of ticks; `now` is the statement's now(). SQL's NULL is `none`.
use calligraphy.Base.{
  ℕ, ◌+◌, String, List, [], ◌∷◌, Bool, true, false, not, ◌&&◌, Option, none, some, if◌then◌else◌,
  ltb, leb, ◌==◌, is_some,
}
use calligraphy.Job.Errors.{Bytes}
use calligraphy.Job.Status.{
  Status, pending, running, completed, failed, retrying, dead_letter, cancelled, Priority,
}

pub record Row : Type 0 where
  pub id : String
  pub kind : String
  pub queue : String
  pub status : Status
  pub priority : Priority
  pub payload : Bytes
  pub result : Option Bytes
  pub error : Option Bytes
  pub idempotency_key : Option String
  pub attempt_count : ℕ
  pub max_attempts : ℕ
  pub lease_epoch : ℕ
  pub lease_expires_at : Option ℕ
  pub worker_id : Option String
  pub enqueued_stream_id : Option String
  pub created_at : ℕ
  pub scheduled_at : ℕ
  pub started_at : Option ℕ
  pub completed_at : Option ℕ
  pub updated_at : ℕ

abbrev pub when {ℓ} : {A : Type ℓ} → Bool → A → Option A
when true a = some a
when false a = none

-- COALESCE
abbrev pub coalesce {ℓ} : {A : Type ℓ} → Option A → A → A
coalesce none d = d
coalesce (some a) d = a

-- status IN ('PENDING','RETRYING')
abbrev pub is_waiting : Status → Bool
is_waiting pending = true
is_waiting retrying = true
is_waiting _ = false

abbrev pub is_running : Status → Bool
is_running running = true
is_running _ = false

abbrev pub is_dead_letter : Status → Bool
is_dead_letter dead_letter = true
is_dead_letter _ = false

-- The WHERE clause of every fenced write: lease_epoch = $2 AND status = 'RUNNING'.
unfoldable pub fence : ℕ → Row → Bool
fence epoch r = (r.lease_epoch == epoch) && is_running r.status

unfoldable pub claim_row : String → ℕ → ℕ → Row → Option Row
claim_row worker ttl now r = when (is_waiting r.status) (record r {
  status = running;
  worker_id = some worker;
  lease_epoch = r.lease_epoch + 1;
  lease_expires_at = some (now + ttl);
  started_at = some (coalesce r.started_at now);
  attempt_count = r.attempt_count + 1;
  updated_at = now;
})

unfoldable pub extend_row : ℕ → ℕ → ℕ → Row → Option Row
unfolding fence
extend_row epoch ttl now r =
    when (fence epoch r) (record r { lease_expires_at = some (now + ttl); updated_at = now })

unfoldable pub complete_row : ℕ → Bytes → ℕ → Row → Option Row
unfolding fence
complete_row epoch result now r = when (fence epoch r) (record r {
  status = completed;
  result = some result;
  error = none;
  completed_at = some now;
  lease_expires_at = none;
  updated_at = now;
})

unfoldable pub fail_row : ℕ → Bytes → ℕ → Row → Option Row
unfolding fence
fail_row epoch msg now r = when (fence epoch r) (record r {
  status = failed;
  error = some msg;
  completed_at = some now;
  lease_expires_at = none;
  updated_at = now;
})

unfoldable pub dead_letter_row : ℕ → Bytes → ℕ → Row → Option Row
unfolding fence
dead_letter_row epoch msg now r = when (fence epoch r) (record r {
  status = dead_letter;
  error = some msg;
  completed_at = some now;
  lease_expires_at = none;
  updated_at = now;
})

unfoldable pub cancel_running_row : ℕ → ℕ → Row → Option Row
unfolding fence
cancel_running_row epoch now r = when (fence epoch r) (record r {
  status = cancelled;
  completed_at = some now;
  lease_expires_at = none;
  updated_at = now;
})

unfoldable pub retry_row : ℕ → Bytes → ℕ → ℕ → Row → Option Row
unfolding fence
retry_row epoch msg next_at now r = when (fence epoch r) (record r {
  status = retrying;
  error = some msg;
  scheduled_at = next_at;
  lease_expires_at = none;
  worker_id = none;
  updated_at = now;
})

unfoldable pub cancel_row : ℕ → Row → Option Row
cancel_row now r = when (is_waiting r.status) (record r {
  status = cancelled;
  completed_at = some now;
  lease_epoch = r.lease_epoch + 1;
  updated_at = now;
})

-- lease_expires_at < now() - grace, which NULL does not meet.
abbrev pub expired : Option ℕ → ℕ → ℕ → Bool
expired none grace now = false
expired (some t) grace now = ltb (t + grace) now

-- 'lease expired: worker presumed dead' is an argument, `reap_error`.
unfoldable pub reap_row : Bytes → ℕ → ℕ → ℕ → Row → Option Row
reap_row reap_error retry_delay grace now r =
    let exhausted = leb r.max_attempts r.attempt_count in
    when (is_running r.status && expired r.lease_expires_at grace now) (record r {
      lease_epoch = r.lease_epoch + 1;
      status = if exhausted then dead_letter else retrying;
      error = some reap_error;
      scheduled_at = if exhausted then r.scheduled_at else now + retry_delay;
      completed_at = if exhausted then some now else r.completed_at;
      lease_expires_at = none;
      worker_id = none;
      updated_at = now;
    })

abbrev pub is_retrying : Status → Bool
is_retrying retrying = true
is_retrying _ = false

-- MarkPromoted, at one of its ids.
unfoldable pub promote_row : ℕ → Row → Option Row
promote_row now r = when (is_retrying r.status) (record r { status = pending; updated_at = now })

-- RequeueDeadLetter
unfoldable pub requeue_row : ℕ → Row → Option Row
requeue_row now r = when (is_dead_letter r.status) (record r {
  status = pending;
  error = none;
  result = none;
  attempt_count = 0;
  lease_epoch = r.lease_epoch + 1;
  scheduled_at = now;
  completed_at = none;
  started_at = none;
  enqueued_stream_id = none;
  updated_at = now;
})

-- SetEnqueued
unfoldable pub set_enqueued_row : String → ℕ → Row → Option Row
set_enqueued_row stream now r =
    when (not (is_some r.enqueued_stream_id))
      (record r { enqueued_stream_id = some stream; updated_at = now })

-- A statement on one row, by the method that issues it.
pub data RowOp : Type 0 where
  claims : String → ℕ → ℕ → RowOp
  extends : ℕ → ℕ → ℕ → RowOp
  completes : ℕ → Bytes → ℕ → RowOp
  fails : ℕ → Bytes → ℕ → RowOp
  dead_letters : ℕ → Bytes → ℕ → RowOp
  cancels_running : ℕ → ℕ → RowOp
  retries : ℕ → Bytes → ℕ → ℕ → RowOp
  cancels : ℕ → RowOp
  reaps : Bytes → ℕ → ℕ → ℕ → RowOp
  promotes : ℕ → RowOp
  requeues : ℕ → RowOp
  sets_enqueued : String → ℕ → RowOp

unfoldable pub apply : RowOp → Row → Option Row
unfolding claim_row extend_row complete_row fail_row dead_letter_row cancel_running_row retry_row
    cancel_row reap_row promote_row requeue_row set_enqueued_row
apply (claims w ttl now) r = claim_row w ttl now r
apply (extends e ttl now) r = extend_row e ttl now r
apply (completes e res now) r = complete_row e res now r
apply (fails e msg now) r = fail_row e msg now r
apply (dead_letters e msg now) r = dead_letter_row e msg now r
apply (cancels_running e now) r = cancel_running_row e now r
apply (retries e msg at now) r = retry_row e msg at now r
apply (cancels now) r = cancel_row now r
apply (reaps msg delay grace now) r = reap_row msg delay grace now r
apply (promotes now) r = promote_row now r
apply (requeues now) r = requeue_row now r
apply (sets_enqueued s now) r = set_enqueued_row s now r

-- Zero rows affected leaves the row as it is.
unfoldable pub step : RowOp → Row → Row
step op r = coalesce (apply op r) r

-- A history of statements on the row.
unfoldable pub run : List RowOp → Row → Row
run [] r = r
run (op ∷ ops) r = run ops (step op r)
