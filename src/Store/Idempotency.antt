-- ===== src/Store/Idempotency.antt =====
-- One job for each idempotency key, and one row for each id, in every history of the table.
use calligraphy.Base.{
  ℕ, ◌≡◌, refl, ◌≢◌, inl, inr, ◌∙◌, String, List, [], ◌∷◌, Bool, true, false, ◌&&◌, Option, none,
  some, eq_iff, eq_refl, ok, arith, Option-cases,
}
use calligraphy.Job.Status.{status_valid, priority_valid}
use calligraphy.Job.Record.{Job}
use calligraphy.Store.Row.{Row, RowOp, apply}
use calligraphy.Store.Db.{Db, update_row, touch}
use calligraphy.Store.Submit.{scan_job, find_key, CreateResult, create_job}
use calligraphy.Store.Tables.{apply-SameJob, UniqueIds, update-UniqueIds}

abbrev pub id_of : Option Row → Option String
id_of none = none
id_of (some r) = some r.id

-- A statement keeps every row's key, so a key finds the same job before and after.
find_key-update :
    (id : String) (op : RowOp) (kind key : String) (rs : List Row)
    → id_of (find_key kind key (update_row id (apply op) rs).0) ≡ id_of (find_key kind key rs)
unfolding find_key update_row
find_key-update id op kind key [] = refl
find_key-update id op kind key (x ∷ rs) =
    grind (arith, find_key-update id op kind key rs, apply-SameJob op x)

-- Everything that changes the table `jobs`.
pub data JobsOp : Type 0 where
  creates : Bool → Job → ℕ → JobsOp
  touches : String → RowOp → JobsOp

pub jobs_step : JobsOp → Db → Db
jobs_step (creates lands j now) db = (create_job lands j now db).0
jobs_step (touches id op) db = (touch id op db).0

pub jobs_run : List JobsOp → Db → Db
jobs_run [] db = db
jobs_run (o ∷ os) db = jobs_run os (jobs_step o db)

-- The job that holds a key.
abbrev pub holder : String → String → Db → Option String
holder kind key db = id_of (find_key kind key db.jobs)

holder-create :
    (lands : Bool) (j : Job) (now : ℕ) (kind key : String) (db : Db) (id : String)
    → key ≢ ""
    → holder kind key db ≡ some id
    → holder kind key (create_job lands j now db).0 ≡ some id
unfolding create_job find_key
holder-create lands j now kind key db id n h =
    grind (arith, eq_iff j.kind kind, eq_iff j.idempotency_key key, eq_iff j.idempotency_key "")

holder-step :
    (o : JobsOp) (kind key : String) (db : Db) (id : String)
    → key ≢ ""
    → holder kind key db ≡ some id
    → holder kind key (jobs_step o db) ≡ some id
unfolding jobs_step touch
holder-step (creates lands j now) kind key db id n h = holder-create lands j now kind key db id n h
holder-step (touches t op) kind key db id n h = find_key-update t op kind key db.jobs ∙ h

holder-run :
    (os : List JobsOp) (kind key : String) (db : Db) (id : String)
    → key ≢ ""
    → holder kind key db ≡ some id
    → holder kind key (jobs_run os db) ≡ some id
unfolding jobs_run
holder-run [] kind key db id n h = h
holder-run (o ∷ os) kind key db id n h =
    holder-run os kind key (jobs_step o db) id n (holder-step o kind key db id n h)

created_holds :
    (lands : Bool) (j : Job) (now : ℕ) (db : Db) (c : CreateResult)
    → j.idempotency_key ≢ ""
    → (create_job lands j now db).1 ≡ ok c
    → holder j.kind j.idempotency_key (create_job lands j now db).0 ≡ some c.job.id
unfolding create_job find_key
created_holds lands j now db c n h =
    grind (arith, eq_iff j.idempotency_key "", eq_refl j.kind, eq_refl j.idempotency_key)

taken_replays :
    (lands : Bool) (j : Job) (now : ℕ) (db : Db) (id : String)
    → status_valid j.status && priority_valid j.priority ≡ true
    → j.idempotency_key ≢ ""
    → holder j.kind j.idempotency_key db ≡ some id
    → ((create_job lands j now db).0 ≡ db)
      × ((c : CreateResult) × ((create_job lands j now db).1 ≡ ok c)
          × (c.created ≡ false)
          × (c.job.id ≡ id))
unfolding create_job
taken_replays lands j now db id v n h =
    elim (Option-cases (find_key j.kind j.idempotency_key db.jobs)) [
      | inl e ↦ absurd (grind arith)
      | inr (r, e) ↦ (
        grind (arith, eq_iff j.idempotency_key ""),
        (
          record { job = scan_job r; created = false },
          grind (arith, eq_iff j.idempotency_key ""),
          refl,
          grind arith,
        ),
      )
    ]

-- Submission with an idempotency key is idempotent: once a submission of (type, key) was answered
-- with a job, any later submission of that (type, key) that meets the CHECK constraints, after any
-- changes to the table, leaves the table as it is and answers with the job of the same id, not
-- created.
pub submit_once :
    (lands lands' : Bool) (j k : Job) (now later : ℕ) (db : Db) (c : CreateResult)
    (between : List JobsOp)
    → status_valid k.status && priority_valid k.priority ≡ true
    → j.idempotency_key ≢ ""
    → k.kind ≡ j.kind
    → k.idempotency_key ≡ j.idempotency_key
    → (create_job lands j now db).1 ≡ ok c
    → let db' = jobs_run between (create_job lands j now db).0 in
      ((create_job lands' k later db').0 ≡ db')
      × ((d : CreateResult) × ((create_job lands' k later db').1 ≡ ok d)
          × (d.created ≡ false)
          × (d.job.id ≡ c.job.id))
submit_once lands lands' j k now later db c between v n kk ke h =
    let db' = jobs_run between (create_job lands j now db).0 in
    let held =
      holder-run between j.kind j.idempotency_key (create_job lands j now db).0 c.job.id n
        (created_holds lands j now db c n h) in
    taken_replays lands' k later db' c.job.id v (rw ke n) (rw (kk, ke) held)

create-UniqueIds :
    (lands : Bool) (j : Job) (now : ℕ) (db : Db)
    → UniqueIds db.jobs
    → UniqueIds (create_job lands j now db).0.jobs
unfolding create_job
create-UniqueIds lands j now db u = ground arith

-- In every history of the table, no two rows have one id.
pub jobs_run-UniqueIds :
    (os : List JobsOp) (db : Db) → UniqueIds db.jobs → UniqueIds (jobs_run os db).jobs
unfolding jobs_run jobs_step touch
jobs_run-UniqueIds [] db u = u
jobs_run-UniqueIds (creates lands j now ∷ os) db u =
    jobs_run-UniqueIds os (create_job lands j now db).0 (create-UniqueIds lands j now db u)
jobs_run-UniqueIds (touches id op ∷ os) db u =
    jobs_run-UniqueIds os (touch id op db).0 (update-UniqueIds id op db.jobs u)
