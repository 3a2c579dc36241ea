-- ===== src/Recovery/Sweep.antt =====
-- What the sweeps and the repairs leave behind.
use calligraphy.Base.{
  ℕ, subst, ◌+◌, ◌≡◌, ◌≤◌, refl, ap, ◌∙◌, String, length, filter, Bool, true, Option, none, some,
  ok, err, served, under, Result, Unavailable, arith, max,
}
use calligraphy.Job.Errors.{Bytes}
use calligraphy.Job.Record.{Envelope}
use calligraphy.Store.Row.{Row, RowOp, apply, step, reaps, sets_enqueued, promotes}
use calligraphy.Store.Db.{Db, update_row, touch, add_event}
use calligraphy.Store.Submit.{Requeueable, requeueable_of, ReapResult, reap_job, mark_promoted}
use calligraphy.Store.Queries.{
  stale, stuck, select-names, select-Listed, list_expired_running, list_stuck_retrying,
}
use calligraphy.Recovery.Duties.{
  Leader, Answers, batch_size, after_sweep, sweep_one, repair_stuck, sweep_stale_running,
  repair_stuck_retrying, lost_attempt, requeue_envelope,
}
use calligraphy.Recovery.Entries.{unless_down-jobs, Put}
use calligraphy.Recovery.Loops.{Clear, Clears, AllPut, each-Clear, each-puts, waiting_envelope}

reap_job-jobs :
    (lands : Bool) (msg : Bytes) (id : String) (delay grace now : ℕ) (db : Db)
    → (reap_job lands msg id delay grace now db).0.jobs
      ≡ (update_row id (apply (reaps msg delay grace now)) db.jobs).0
unfolding reap_job touch add_event
reap_job-jobs lands msg id delay grace now db = ground arith

abbrev reaping : Leader → ℕ → Requeueable → RowOp
reaping l now r = reaps l.texts.presumed_dead (l.backoff (max r.attempt 1)) l.sweep_grace now

after_sweep-jobs :
    (l : Leader) (a : Answers) (now : ℕ) (r : Requeueable)
    (x : Db × Result Unavailable (Option ReapResult))
    → (after_sweep l a now r x).0.jobs ≡ x.0.jobs
unfolding after_sweep
after_sweep-jobs l a now r (db, ok (some res)) =
    unless_down-jobs a.to_attempt (lost_attempt r.id res l.texts.no_entry now) db
after_sweep-jobs l a now r (db, ok none) = refl
after_sweep-jobs l a now r (db, err e) = refl

sweep_one-jobs :
    (l : Leader) (a : Answers) (now : ℕ) (r : Requeueable) (db : Db)
    → a.to_update ≡ served
    → (sweep_one l a now r db).0.jobs ≡ (update_row r.id (apply (reaping l now r)) db.jobs).0
unfolding sweep_one
sweep_one-jobs l a now r db s =
    let delay = l.backoff (max r.attempt 1) in
    let op = reap_job a.to_event l.texts.presumed_dead r.id delay l.sweep_grace now db in
    after_sweep-jobs l a now r (under a.to_update db op)
    ∙ ap (λ fate. (under fate db op).0.jobs) s
    ∙ reap_job-jobs a.to_event l.texts.presumed_dead r.id delay l.sweep_grace now db

reaping-Clears :
    (l : Leader) (now : ℕ) (r : Requeueable) → Clears (stale l.sweep_grace now) (reaping l now r)
unfolding stale step apply
reaping-Clears l now r row = ground arith

-- One sweep while Postgres answers leaves no RUNNING row whose lease is expired for longer than the
-- grace, unless there are more than a batch of them.
pub sweep_stale_running_lem :
    (l : Leader) (a : String → Answers) (now : ℕ) (db : Db)
    → ((id : String) → (a id).to_update ≡ served)
    → length (filter (stale l.sweep_grace now) db.jobs) ≤ 256
    → Clear (stale l.sweep_grace now) (sweep_stale_running l a true now db).0.jobs
unfolding sweep_stale_running list_expired_running
sweep_stale_running_lem l a now db s few =
    each-Clear (stale l.sweep_grace now) (λ r. sweep_one l (a r.id) now r) (reaping l now)
      (list_expired_running l.sweep_grace batch_size now db) db
      (λ r db'. sweep_one-jobs l (a r.id) now r db' (s r.id)) (reaping-Clears l now)
      (select-names (stale l.sweep_grace now) batch_size db few)

-- The entry that the stream gave an envelope, for a queue that takes all.
abbrev pub TakesAll : Leader → (Envelope → String) → Type 0
TakesAll l entry_of = (env : Envelope) → l.enqueue env ≡ ok (entry_of env)

module _ (l : Leader) (entry_of : Envelope → String) (takes : TakesAll l entry_of) (now : ℕ) where
  marking : Requeueable → RowOp
  marking r = sets_enqueued (entry_of (requeue_envelope r (r.attempt + 1) now)) now

  next_envelope : Requeueable → Envelope
  next_envelope r = requeue_envelope r (r.attempt + 1) now

  next_envelope-of : (r : Row) → next_envelope (requeueable_of r) ≡ waiting_envelope r now
  unfolding next_envelope requeue_envelope requeueable_of
  next_envelope-of r = refl

  repair_stuck-puts :
      (a : Answers) (r : Requeueable) (db : Db)
      → Put (next_envelope r) (repair_stuck l a now r db).1
  unfolding repair_stuck next_envelope
  repair_stuck-puts a r db = ground (arith, takes (requeue_envelope r (r.attempt + 1) now))

  repair_stuck-jobs :
      (a : Answers) (r : Requeueable) (db : Db)
      → a.to_update ≡ served
      → (repair_stuck l a now r db).0.jobs ≡ (update_row r.id (apply (promotes now)) db.jobs).0
  unfolding repair_stuck mark_promoted touch
  repair_stuck-jobs a r db s = ground (arith, takes (requeue_envelope r (r.attempt + 1) now))

  promotes-Clears : (r : Requeueable) → Clears (stuck l.orphan_age now) (promotes now)
  unfolding stuck step apply
  promotes-Clears r row = ground arith

  -- One repair under the same conditions puts every RETRYING row that is overdue by the orphan age
  -- on its stream again and leaves no such row.
  pub repair_stuck_retrying_lem :
      (a : String → Answers) (db : Db)
      → ((id : String) → (a id).to_update ≡ served)
      → length (filter (stuck l.orphan_age now) db.jobs) ≤ 256
      → let (db', deeds) = repair_stuck_retrying l a true now db in
        Clear (stuck l.orphan_age now) db'.jobs × AllPut (stuck l.orphan_age now) now db.jobs deeds
  unfolding repair_stuck_retrying list_stuck_retrying
  repair_stuck_retrying_lem a db s few =
      let covers = select-names (stuck l.orphan_age now) batch_size db few in
      let rows = list_stuck_retrying l.orphan_age batch_size now db in
      (
        each-Clear (stuck l.orphan_age now) (λ r. repair_stuck l (a r.id) now r) (λ r. promotes now)
            rows db (λ r db'. repair_stuck-jobs (a r.id) r db' (s r.id)) promotes-Clears covers,
        λ id r found due.
            subst (λ e. Put e (repair_stuck_retrying l a true now db).1) (next_envelope-of r)
              (each-puts (λ r. repair_stuck l (a r.id) now r) next_envelope (requeueable_of r) rows
                db (λ r db'. repair_stuck-puts (a r.id) r db')
                (select-Listed (stuck l.orphan_age now) batch_size db few id r found due)),
      )
