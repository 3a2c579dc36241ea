-- ===== src/Job/Admission.antt =====
-- What `New` admits.
use calligraphy.Base.{
  ℕ, ◌≤◌, ◌<◌, String, len, Bool, true, false, ◌≡◌, ◌≢◌, ◌⊎◌, inl, inr, refl, sym, ap, ◌∙◌, subst,
  [], none, str_eq, eq_iff, Bool-cases, ◌↔◌, length, ok, arith,
}
use calligraphy.Job.Errors.{Bytes}
use calligraphy.Job.Status.{Priority, high, default, low, other_priority, pending, priority_valid}
use calligraphy.Job.Record.{
  valid_name, Job, Options, or_default_queue, or_default_priority, or_default_attempts,
  out_of_range, or_now, fresh_job, new,
}

-- What a submission must meet, with the defaults filled in.
pub record Admissible (json_valid : Bytes → Bool) (kind : String) (payload : Bytes) (opts : Options)
    : Type 0 where
  pub kind_ok : valid_name kind ≡ true
  pub payload_short : length payload ≤ 1048576
  pub payload_json : 0 < length payload → json_valid payload ≡ true
  pub queue_ok : valid_name (or_default_queue opts.queue) ≡ true
  pub priority_ok : priority_valid (or_default_priority opts.priority) ≡ true
  pub attempts_low : 1 ≤ or_default_attempts opts.max_attempts
  pub attempts_high : or_default_attempts opts.max_attempts ≤ 25
  pub key_short : len opts.idempotency_key ≤ 256

new_admits :
    (json_valid : Bytes → Bool) (id kind : String) (payload : Bytes) (opts : Options) (now : ℕ)
    → Admissible json_valid kind payload opts
    → new json_valid id kind payload opts now ≡ ok (fresh_job id kind payload opts now)
unfolding new
new_admits json_valid id kind payload opts now h = ground arith

in_range : (n : ℕ) → n < 18446744073709551616 → out_of_range n ≡ false → (1 ≤ n) × (n ≤ 25)
in_range n w h = ground arith

admitted_is_Admissible :
    (json_valid : Bytes → Bool) (id kind : String) (payload : Bytes) (opts : Options) (now : ℕ)
    {j : Job}
    → opts.max_attempts < 18446744073709551616
    → new json_valid id kind payload opts now ≡ ok j
    → Admissible json_valid kind payload opts
unfolding new
admitted_is_Admissible json_valid id kind payload opts now w h =
    ground (arith, in_range (or_default_attempts opts.max_attempts))

-- A text of a submission, and what the job has for it.
abbrev pub OrText : String → String → String → Type 0
OrText filler given kept = ((given ≡ "") × (kept ≡ filler)) ⊎ ((given ≢ "") × (kept ≡ given))

abbrev pub OrNumber : ℕ → ℕ → ℕ → Type 0
OrNumber filler given kept = ((given ≡ 0) × (kept ≡ filler)) ⊎ ((given ≢ 0) × (kept ≡ given))

abbrev pub OrPriority : Priority → Priority → Type 0
OrPriority given kept =
    ((given ≡ other_priority "") × (kept ≡ default))
    ⊎ ((given ≢ other_priority "") × (kept ≡ given))

-- The PENDING job of a submission: every field as it was given, or by its documented default.
pub record Submitted (id kind : String) (payload : Bytes) (opts : Options) (now : ℕ) (j : Job)
    : Type 0 where
  pub id_kept : j.id ≡ id
  pub kind_kept : j.kind ≡ kind
  pub payload_kept : j.payload ≡ payload
  pub key_kept : j.idempotency_key ≡ opts.idempotency_key
  pub queue_or : OrText "default" opts.queue j.queue
  pub priority_or : OrPriority opts.priority j.priority
  pub attempts_or : OrNumber 5 opts.max_attempts j.max_attempts
  pub scheduled_or : OrNumber now opts.scheduled_at j.scheduled_at
  pub created : j.created_at ≡ now
  pub waits : j.status ≡ pending
  pub no_attempt : (j.attempt_count ≡ 0) × (j.lease_epoch ≡ 0)
  pub no_outcome : (j.result ≡ []) × (j.error ≡ [])
  pub no_worker : (j.lease_expires_at ≡ none) × (j.worker_id ≡ "")
  pub no_times : (j.started_at ≡ none) × (j.completed_at ≡ none)

or_text : (given : String) → OrText "default" given (or_default_queue given)
or_text given = elim (Bool-cases (str_eq given "")) [
  | inl e ↦ inl ((eq_iff given "").0 e, ground (arith, e))
  | inr n ↦ inr ((λ q. absurd (grind (arith, n, (eq_iff given "").1 q))), ground (arith, n))
]

or_number : (given : ℕ) → OrNumber 5 given (or_default_attempts given)
or_number given = ground arith

or_time : (given now : ℕ) → OrNumber now given (or_now given now)
or_time given now = ground arith

abbrev name_of : Priority → String
name_of (other_priority s) = s
name_of _ = "named"

or_priority : (given : Priority) → OrPriority given (or_default_priority given)
or_priority high = inr ((λ q. absurd (ground arith)), refl)
or_priority default = inr ((λ q. absurd (ground arith)), refl)
or_priority low = inr ((λ q. absurd (ground arith)), refl)
or_priority (other_priority s) = elim (Bool-cases (str_eq s "")) [
  | inl e ↦ inl (ap other_priority ((eq_iff s "").0 e), ground (arith, e))
  | inr n ↦
      inr ((λ q. absurd (grind (arith, n, (eq_iff s "").1 (ap name_of q)))), ground (arith, n))
]

fresh_job-Submitted :
    (id kind : String) (payload : Bytes) (opts : Options) (now : ℕ)
    → Submitted id kind payload opts now (fresh_job id kind payload opts now)
unfolding fresh_job
fresh_job-Submitted id kind payload opts now = record {
  id_kept = refl;
  kind_kept = refl;
  payload_kept = refl;
  key_kept = refl;
  queue_or = or_text opts.queue;
  priority_or = or_priority opts.priority;
  attempts_or = or_number opts.max_attempts;
  scheduled_or = or_time opts.scheduled_at now;
  created = refl;
  waits = refl;
  no_attempt = (refl, refl);
  no_outcome = (refl, refl);
  no_worker = (refl, refl);
  no_times = (refl, refl);
}

-- Whatever has one value in place of what was not given has no other.
one_choice :
    {A : Type 0} (unset filler given k l : A)
    → ((given ≡ unset) × (k ≡ filler)) ⊎ ((given ≢ unset) × (k ≡ given))
    → ((given ≡ unset) × (l ≡ filler)) ⊎ ((given ≢ unset) × (l ≡ given))
    → k ≡ l
one_choice unset filler given k l (inl (e, p)) (inl (f, q)) = p ∙ sym q
one_choice unset filler given k l (inl (e, p)) (inr (f, q)) = absurd (f e)
one_choice unset filler given k l (inr (e, p)) (inl (f, q)) = absurd (e f)
one_choice unset filler given k l (inr (e, p)) (inr (f, q)) = p ∙ sym q

Submitted-same :
    (id kind : String) (payload : Bytes) (opts : Options) (now : ℕ) (j k : Job)
    → Submitted id kind payload opts now j
    → Submitted id kind payload opts now k
    → j ≡ k
Submitted-same id kind payload opts now j k s t =
    let queue = one_choice "" "default" opts.queue j.queue k.queue s.queue_or t.queue_or in
    let priority =
      one_choice (other_priority "") default opts.priority j.priority k.priority s.priority_or
        t.priority_or in
    let attempts =
      one_choice 0 5 opts.max_attempts j.max_attempts k.max_attempts s.attempts_or t.attempts_or in
    let scheduled =
      one_choice 0 now opts.scheduled_at j.scheduled_at k.scheduled_at s.scheduled_or
        t.scheduled_or in
    λ i. record {
      id = (s.id_kept ∙ sym t.id_kept) i;
      kind = (s.kind_kept ∙ sym t.kind_kept) i;
      queue = queue i;
      status = (s.waits ∙ sym t.waits) i;
      priority = priority i;
      payload = (s.payload_kept ∙ sym t.payload_kept) i;
      result = (s.no_outcome.0 ∙ sym t.no_outcome.0) i;
      error = (s.no_outcome.1 ∙ sym t.no_outcome.1) i;
      idempotency_key = (s.key_kept ∙ sym t.key_kept) i;
      attempt_count = (s.no_attempt.0 ∙ sym t.no_attempt.0) i;
      max_attempts = attempts i;
      lease_epoch = (s.no_attempt.1 ∙ sym t.no_attempt.1) i;
      lease_expires_at = (s.no_worker.0 ∙ sym t.no_worker.0) i;
      worker_id = (s.no_worker.1 ∙ sym t.no_worker.1) i;
      created_at = (s.created ∙ sym t.created) i;
      scheduled_at = scheduled i;
      started_at = (s.no_times.0 ∙ sym t.no_times.0) i;
      completed_at = (s.no_times.1 ∙ sym t.no_times.1) i;
    }

pub new-Submitted :
    (json_valid : Bytes → Bool) (id kind : String) (payload : Bytes) (opts : Options) (now : ℕ)
    (j : Job)
    → new json_valid id kind payload opts now ≡ ok j
    → Submitted id kind payload opts now j
unfolding new
new-Submitted json_valid id kind payload opts now j h =
    let same : fresh_job id kind payload opts now ≡ j = grind (arith, h) in
    subst (Submitted id kind payload opts now) same (fresh_job-Submitted id kind payload opts now)

-- For a 64-bit `MaxAttempts`, `New` succeeds exactly if the submission with its defaults filled in
-- is admissible, and it then returns the one job that has the submitted fields, the documented
-- defaults for those that were not given (the queue and the priority `default`, 5 attempts, now),
-- and otherwise is PENDING with nothing done.
pub new_iff :
    (json_valid : Bytes → Bool) (id kind : String) (payload : Bytes) (opts : Options) (now : ℕ)
    (j : Job)
    → opts.max_attempts < 18446744073709551616
    → (new json_valid id kind payload opts now ≡ ok j)
      ↔ (Admissible json_valid kind payload opts × Submitted id kind payload opts now j)
new_iff json_valid id kind payload opts now j w =
    let fresh = fresh_job-Submitted id kind payload opts now in
    (
      λ h.
          let a = admitted_is_Admissible json_valid id kind payload opts now w h in
          let same : ok (fresh_job id kind payload opts now) ≡ ok j =
            sym (new_admits json_valid id kind payload opts now a) ∙ h in
          (a, subst (Submitted id kind payload opts now) (grind (arith, same)) fresh),
      λ (a, s).
          new_admits json_valid id kind payload opts now a
          ∙ ap ok (
              Submitted-same id kind payload opts now (fresh_job id kind payload opts now) j fresh
                s),
    )
