-- ===== src/Api/Accepted.antt =====
-- internal/api/server.go: what an answer to a submission promises.
use calligraphy.Base.{
  any, str_eq, slt, i64, ◌*◌, length, ◌≤◌, Bool-cases, Result-cases, ℕ, ◌≡◌, refl, sym, ap, ◌∙◌,
  ◌≢◌, ◌⊎◌, inl, inr, String, List, [], ◌∷◌, Bool, true, false, none, some, subst, Result, ok, err,
  Fate, served, unreachable, answer_lost, under, eq_refl, arith, Unavailable,
}
use calligraphy.Job.Errors.{Bytes}
use calligraphy.Job.Status.{pending}
use calligraphy.Job.Admission.{Submitted, new-Submitted}
use calligraphy.Job.Record.{Job, Envelope, Options, new, new_envelope}
use calligraphy.Store.Row.{Row, RowOp, run}
use calligraphy.Store.Db.{Db, find_row, add_event, or_null}
use calligraphy.Store.Submit.{create_job, row_of_job, CreateResult, StoreError}
use calligraphy.Api.Http.{Answers, Outcome, Reply, job_body, enqueued}
use calligraphy.Api.Handoff.{ran, Others, Handed, mark-Handed}
use calligraphy.Api.Submit.{
  SubmitRequest, add_duration, options_at, Server, Decoded, too_big, malformed, decoded, admit,
  options_of, hand_off, settle_created, after_create, after_admit, handle_submit,
}

-- When a submission is for: a delay in seconds, as a 64-bit pattern, or a time, but not both.
abbrev pub Schedule : SubmitRequest → ℕ → ℕ → Type 0
Schedule r now at =
    ((slt 0 r.delay_seconds ≡ true)
      × (r.scheduled_at ≡ 0)
      × (at ≡ add_duration now (i64 (r.delay_seconds * 1000000000))))
    ⊎ ((slt 0 r.delay_seconds ≡ false) × (at ≡ r.scheduled_at))

-- The job is the one that was asked for.
abbrev pub Asked : Server → String → ℕ → Decoded → Job → Type 0
Asked s id now too_big j = ⊥
Asked s id now malformed j = ⊥
Asked s id now (decoded r) j =
    (any (str_eq r.kind) s.known_types ≡ true)
    × (length r.payload ≤ s.max_payload)
    × ((at : ℕ) × Schedule r now at
        × (let opts : Options = record {
          queue = r.queue;
          priority = r.priority;
          max_attempts = r.max_attempts;
          idempotency_key = r.idempotency_key;
          scheduled_at = at;
        } in
            Submitted id r.kind r.payload opts now j))

options_of-Schedule :
    (r : SubmitRequest) (now : ℕ) (opts : Options)
    → options_of r now ≡ ok opts
    → (at : ℕ) × Schedule r now at × (opts ≡ options_at r at)
unfolding options_of
options_of-Schedule r now opts h = elim (Bool-cases (slt 0 r.delay_seconds)) [
  | inr none_given ↦ (r.scheduled_at, inr (none_given, refl), grind (arith, h, none_given))
  | inl delay ↦ (
    add_duration now (i64 (r.delay_seconds * 1000000000)),
    inl (delay, grind (arith, h, delay), refl),
    grind (arith, h, delay),
  )
]

admit-Asked :
    (s : Server) (json_valid : Bytes → Bool) (id : String) (now : ℕ) (d : Decoded) (j : Job)
    → admit s json_valid id now d ≡ ok j
    → Asked s id now d j
unfolding admit
admit-Asked s json_valid id now too_big j h = absurd (grind arith)
admit-Asked s json_valid id now malformed j h = absurd (grind arith)
admit-Asked s json_valid id now (decoded r) j h = elim (Result-cases (options_of r now)) [
  | inr (e, o) ↦ absurd (grind (arith, h, o))
  | inl (opts, o) ↦
      let (at, schedule, same) = options_of-Schedule r now opts o in
      let made : new json_valid id r.kind r.payload opts now ≡ ok j = grind (arith, h, o) in
      (
        grind (arith, h),
        grind (arith, h),
        (
          at,
          schedule,
          new-Submitted json_valid id r.kind r.payload (options_at r at) now j
              (subst (λ x. new json_valid id r.kind r.payload x now ≡ ok j) same made),
        ),
      )
]

Asked-pending :
    (s : Server) (id : String) (now : ℕ) (d : Decoded) (j : Job)
    → Asked s id now d j
    → (j.status ≡ pending) × (j.id ≡ id)
Asked-pending s id now (decoded r) j (known, short, (at, schedule, made)) =
    (made.waits, made.id_kept)
Asked-pending s id now too_big j h = absurd h
Asked-pending s id now malformed j h = absurd h

-- What `CreateJob` leaves when it created the job.
created_row :
    (lands : Bool) (j : Job) (now : ℕ) (db : Db) (c : CreateResult)
    → (create_job lands j now db).1 ≡ ok c
    → c.created ≡ true
    → find_row j.id (create_job lands j now db).0.jobs ≡ some (row_of_job j now)
unfolding create_job find_row add_event
created_row lands j now db c h made = grind (arith, eq_refl j.id)

-- What it leaves otherwise.
refused-db :
    (lands : Bool) (j : Job) (now : ℕ) (db : Db) (e : StoreError)
    → (create_job lands j now db).1 ≡ err e
    → (create_job lands j now db).0 ≡ db
unfolding create_job
refused-db lands j now db e h = grind arith

replayed-db :
    (lands : Bool) (j : Job) (now : ℕ) (db : Db) (c : CreateResult)
    → (create_job lands j now db).1 ≡ ok c
    → c.created ≡ false
    → (create_job lands j now db).0 ≡ db
unfolding create_job
replayed-db lands j now db c h made = grind arith

-- What a submission that was not accepted leaves, and what a 201 promises.
abbrev pub Kept : Db → Outcome → Type 0
Kept db out = (out.reply.code ≢ 201) × (out.db ≡ db) × (out.sent ≡ [])

-- The envelope of a job that was accepted: its work, for the stream of its priority, as attempt 1.
abbrev pub first_envelope : Job → ℕ → Envelope
first_envelope j now = record {
  id = j.id;
  kind = j.kind;
  queue = j.queue;
  priority = j.priority;
  attempt = 1;
  payload = j.payload;
  enqueued_at = now;
}

-- The row that the INSERT left.
pub record Inserted (j : Job) (row : Row) : Type 0 where
  pub waits : row.status ≡ pending
  pub no_attempt : (row.attempt_count ≡ 0) × (row.lease_epoch ≡ 0)
  pub unmarked : row.enqueued_stream_id ≡ none
  pub work : (row.id ≡ j.id) × (row.kind ≡ j.kind) × (row.payload ≡ or_null j.payload)
  pub stream : (row.queue ≡ j.queue) × (row.priority ≡ j.priority)
  pub budget : row.max_attempts ≡ j.max_attempts
  pub times : (row.created_at ≡ j.created_at) × (row.scheduled_at ≡ j.scheduled_at)

abbrev pub Promised : Answers → ℕ → List RowOp → Job → Outcome → Type 0
Promised a now ops j out =
    (out.reply ≡ record { code = 201; body = job_body j })
    × (let env = first_envelope j now in
        out.sent ≡ enqueued env j.scheduled_at (a.enqueue env j.scheduled_at) ∷ [])
    × ((before : Row) × (row : Row) × Inserted j before
        × (find_row j.id out.db.jobs ≡ some row)
        × Handed a (first_envelope j now) j.scheduled_at now (run ops before) row)

-- What `CreateJob` did, by its answer.
record Created (db : Db) (j : Job) (now : ℕ)
    (x : Db × Result Unavailable (Result StoreError CreateResult)) : Type 0 where
  lost : (e : Unavailable) → x.1 ≡ err e → x.0 ≡ db
  bad : (e : StoreError) → x.1 ≡ ok (err e) → x.0 ≡ db
  old : (c : CreateResult) → x.1 ≡ ok (ok c) → c.created ≡ false → x.0 ≡ db
  made :
      (c : CreateResult)
      → x.1 ≡ ok (ok c)
      → c.created ≡ true
      → find_row j.id x.0.jobs ≡ some (row_of_job j now)

create_job-Created :
    (fate : Fate) (lands : Bool) (j : Job) (now : ℕ) (db : Db)
    → fate ≢ answer_lost
    → Created db j now (under fate db (create_job lands j now db))
create_job-Created served lands j now db f = record {
  lost = λ e h. absurd (grind arith);
  bad = λ e h. refused-db lands j now db e (grind arith);
  old = λ c h made. replayed-db lands j now db c (grind arith) made;
  made = λ c h made. created_row lands j now db c (grind arith) made;
}
create_job-Created unreachable lands j now db f = record {
  lost = λ e h. refl;
  bad = λ e h. refl;
  old = λ c h made. refl;
  made = λ c h made. absurd (grind arith);
}
create_job-Created answer_lost lands j now db f = absurd (f refl)

row_of_job-Inserted : (j : Job) (now : ℕ) → j.status ≡ pending → Inserted j (row_of_job j now)
unfolding row_of_job
row_of_job-Inserted j now p = record {
  waits = p;
  no_attempt = (refl, refl);
  unmarked = refl;
  work = (refl, refl, refl);
  stream = (refl, refl);
  budget = refl;
  times = (refl, refl);
}

settle_created-cases :
    (a : Answers) (now : ℕ) (ops : List RowOp) (j : Job) (db db' : Db) (k : Job) (created : Bool)
    → Others a j.id ops
    → (created ≡ false → db' ≡ db)
    → (created ≡ true → find_row j.id db'.jobs ≡ some (row_of_job j now))
    → j.status ≡ pending
    → let out = settle_created a now j db' k created in Kept db out ⊎ Promised a now ops j out
unfolding settle_created hand_off new_envelope
settle_created-cases a now ops j db db' k false others old made p =
    inl ((λ n. omega (arith, n)), old refl, refl)
settle_created-cases a now ops j db db' k true others old made p =
    let env = first_envelope j now in
    let before = row_of_job j now in
    let left = others db' ∙ ap (ran ops) (made refl) in
    let (row, found, handed) =
      mark-Handed a env j.scheduled_at now (run ops before) (a.meanwhile db')
        (a.enqueue env j.scheduled_at) refl left in
    inr (refl, refl, (before, row, row_of_job-Inserted j now p, found, handed))

after_create-cases :
    (a : Answers) (now : ℕ) (ops : List RowOp) (j : Job) (db : Db)
    (x : Db × Result Unavailable (Result StoreError CreateResult))
    → Others a j.id ops
    → Created db j now x
    → j.status ≡ pending
    → Kept db (after_create a now j x) ⊎ Promised a now ops j (after_create a now j x)
unfolding after_create
after_create-cases a now ops j db (db', err e) others c p =
    inl ((λ n. omega (arith, n)), c.lost e refl, refl)
after_create-cases a now ops j db (db', ok (err e)) others c p =
    inl ((λ n. omega (arith, n)), c.bad e refl, refl)
after_create-cases a now ops j db (db', ok (ok r)) others c p =
    settle_created-cases a now ops j db db' r.job r.created others (c.old r refl) (c.made r refl) p

admit-code :
    (s : Server) (json_valid : Bytes → Bool) (id : String) (now : ℕ) (d : Decoded) (reply : Reply)
    → admit s json_valid id now d ≡ err reply
    → reply.code ≢ 201
unfolding admit options_of
admit-code s json_valid id now too_big reply h e = grind (arith, e)
admit-code s json_valid id now malformed reply h e = grind (arith, e)
admit-code s json_valid id now (decoded r) reply h e = grind (arith, e)

after_admit-cases :
    (a : Answers) (now : ℕ) (ops : List RowOp) (id : String) (db : Db) (r : Result Reply Job)
    → a.to_write ≢ answer_lost
    → Others a id ops
    → ((reply : Reply) → r ≡ err reply → reply.code ≢ 201)
    → ((j : Job) → r ≡ ok j → (j.status ≡ pending) × (j.id ≡ id))
    → Kept db (after_admit a now db r)
      ⊎ ((j : Job) × (r ≡ ok j) × Promised a now ops j (after_admit a now db r))
unfolding after_admit
after_admit-cases a now ops id db (err reply) f others code p = inl (code reply refl, refl, refl)
after_admit-cases a now ops id db (ok j) f others code p =
    let x = under a.to_write db (create_job a.to_event j now db) in
    let (waits, named) = p j refl in
    elim (after_create-cases a now ops j db x (subst (λ i. Others a i ops) (sym named) others)
      (create_job-Created a.to_write a.to_event j now db f) waits) [
        | inl kept ↦ inl kept
        | inr promised ↦ inr (j, refl, promised)
      ]

-- The contract of a submission, while no answer of the INSERT is lost and others run any statements
-- on the row of the job as soon as it is there. Either the reply is not 201 and the tables and the
-- queue are left alone. Or it is 201 with a job that has the submitted fields and New's defaults, of
-- a registered kind, with a payload within the bound, for the time that the delay or scheduled_at
-- asks for. Then one call of Enqueue had the envelope of its work, and the row, which was inserted
-- PENDING with no attempt, is what the others made of it but for the mark: the entry that the queue
-- gave. It has none from the handler only if the queue or Postgres did not serve it, or if there was
-- one; the sweep of orphans then finds it while it is PENDING and unmarked.
pub handle_submit_lem :
    (s : Server) (a : Answers) (json_valid : Bytes → Bool) (id : String) (now : ℕ)
    (ops : List RowOp) (d : Decoded) (db : Db)
    → a.to_write ≢ answer_lost
    → Others a id ops
    → let out = handle_submit s a json_valid id now d db in
      Kept db out ⊎ ((j : Job) × Asked s id now d j × Promised a now ops j out)
unfolding handle_submit
handle_submit_lem s a json_valid id now ops d db f others =
    let asked = admit-Asked s json_valid id now d in
    elim (after_admit-cases a now ops id db (admit s json_valid id now d) f others
      (admit-code s json_valid id now d) (λ j h. Asked-pending s id now d j (asked j h))) [
        | inl kept ↦ inl kept
        | inr (j, h, promised) ↦ inr (j, asked j h, promised)
      ]
