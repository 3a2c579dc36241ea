-- ===== src/Api/Settling.antt =====
-- internal/api/server.go: what the answers of handleCancel and handleRequeueDLQ promise.
use calligraphy.Base.{
  ℕ, ◌≤◌, ◌<◌, ◌≡◌, refl, ◌≢◌, ◌⊎◌, inl, inr, String, List, [], Bool, true, false, Option, none,
  some, Bool-cases, Result-cases, Result, ok, err, Fate, served, unreachable, answer_lost, under,
  subst, arith, Unavailable, ap, ◌∙◌,
}
use calligraphy.Job.Status.{cancelled, terminal}
use calligraphy.Job.Record.{Job}
use calligraphy.Store.Row.{Row, RowOp, cancels, apply, step, run, is_running, is_waiting, coalesce}
use calligraphy.Store.Lifecycle.{run_settled}
use calligraphy.Api.Submit.{outcome}
use calligraphy.Store.Db.{
  Db, find_row, update_row, was_cancelled, touch, with_event, add_event, cancel_job,
}
use calligraphy.Store.Tables.{
  UniqueIds, find_row-id, find_row-update_self, update_row-miss, update_row-some,
}
use calligraphy.Store.Submit.{get_job, scan_job}
use calligraphy.Api.Http.{Answers, Outcome, Reply, write_err}
use calligraphy.Api.Jobs.{load_job, request_cancel, after_cancel, cancel_loaded, handle_cancel}

-- The row of a job that waited is CANCELLED under a higher epoch, and stays so in every later
-- history of statements.
abbrev Cancelled : String → Db → Db → Type 0
Cancelled id before after =
    (r : Row) × (r' : Row) × (find_row id before.jobs ≡ some r)
    × (find_row id after.jobs ≡ some r')
    × (is_waiting r.status ≡ true)
    × (r.lease_epoch < r'.lease_epoch)
    × ((ops : List RowOp) → (run ops r').status ≡ cancelled)

cancels-Cancelled :
    (now : ℕ) (r r' : Row)
    → apply (cancels now) r ≡ some r'
    → (is_waiting r.status ≡ true) × (r'.status ≡ cancelled) × (r.lease_epoch < r'.lease_epoch)
unfolding apply
cancels-Cancelled now r r' h = grind arith

stays_cancelled :
    (r : Row) → r.status ≡ cancelled → (ops : List RowOp) → (run ops r).status ≡ cancelled
stays_cancelled r h ops = ap (λ o. o.0) (run_settled ops r (rw h refl)) ∙ h

-- `cancel_job` after its UPDATE.
with_event-cases :
    (lands : Bool) (id : String) (now : ℕ) (db db' : Db) (hit : Option (Row × Row))
    → (hit ≡ none → db' ≡ db)
    → ((r r' : Row) → hit ≡ some (r, r') → Cancelled id db db')
    → let x = with_event lands id was_cancelled (db', hit) in
      ((x.1 ≡ false) × (x.0 ≡ db)) ⊎ ((x.1 ≡ true) × Cancelled id db x.0)
unfolding with_event add_event
with_event-cases lands id now db db' none miss found = inl (refl, miss refl)
with_event-cases lands id now db db' (some (r, r')) miss found =
    let (s, s', before, after, w, lt, stays) = found r r' refl in
    inr (refl, (s, s', before, grind (arith, after), w, lt, stays))

cancel_job-cases :
    (lands : Bool) (id : String) (now : ℕ) (db : Db)
    → UniqueIds db.jobs
    → let x = cancel_job lands id now db in
      ((x.1 ≡ false) × (x.0 ≡ db)) ⊎ ((x.1 ≡ true) × Cancelled id db x.0)
unfolding cancel_job touch step
cancel_job-cases lands id now db u =
    let x = update_row id (apply (cancels now)) db.jobs in
    with_event-cases lands id now db (record db { jobs = x.0 }) x.1
      (λ miss.
        ap (λ rows. record db { jobs = rows }) (update_row-miss id (cancels now) db.jobs miss))
      (λ r r' hit.
        let (found, changed) = update_row-some id (cancels now) db.jobs (r, r') u hit in
        let (w, c, lt) = cancels-Cancelled now r r' changed in
        (
          r,
          r',
          found,
          find_row-update_self id (cancels now) db.jobs r found
              ∙ ap (λ o. some (coalesce o r)) changed,
          w,
          lt,
          stays_cancelled r' c,
        ))

-- What an answer to a cancellation tells.
abbrev pub Told : Answers → String → Db → Outcome → Type 0
Told a id db out =
    (out.reply.code ≡ 200 → Cancelled id db out.db)
    × (out.reply.code ≡ 202 → (out.db ≡ db) × (a.flag id ≡ ok tt))
    × (out.reply.code ≢ 200 → a.to_write ≢ answer_lost → out.db ≡ db)

after_cancel-Told :
    (a : Answers) (id : String) (db db' : Db) (answer : Result Unavailable Bool)
    → (answer ≡ ok true → Cancelled id db db')
    → (answer ≢ ok true → a.to_write ≢ answer_lost → db' ≡ db)
    → Told a id db (after_cancel a id (db', answer))
unfolding after_cancel
after_cancel-Told a id db db' (err e) done kept =
    ((λ c. absurd (omega (arith, c))), (λ c. absurd (omega (arith, c))), (λ _. kept (λ n. cc)))
after_cancel-Told a id db db' (ok false) done kept =
    ((λ c. absurd (omega (arith, c))), (λ c. absurd (omega (arith, c))), (λ _. kept (λ n. cc)))
after_cancel-Told a id db db' (ok true) done kept =
    ((λ _. done refl), (λ c. absurd (omega (arith, c))), (λ n. absurd (n refl)))

-- The UPDATE of `CancelJob`, by its answer.
update-Cancelled :
    (fate : Fate) (id : String) (db : Db) (x : Db × Bool)
    → ((x.1 ≡ false) × (x.0 ≡ db)) ⊎ ((x.1 ≡ true) × Cancelled id db x.0)
    → ((under fate db x).1 ≡ ok true → Cancelled id db (under fate db x).0)
      × ((under fate db x).1 ≢ ok true → fate ≢ answer_lost → (under fate db x).0 ≡ db)
update-Cancelled served id db (db', b) (inl (r, same)) =
    ((λ h. absurd (grind (arith, h, r))), (λ _ _. same))
update-Cancelled served id db (db', b) (inr (r, done)) =
    ((λ _. done), (λ n _. absurd (n (ap ok r))))
update-Cancelled unreachable id db x c = ((λ h. absurd (grind (arith, h))), (λ _ _. refl))
update-Cancelled answer_lost id db x c =
    ((λ h. absurd (grind (arith, h))), (λ _ n. absurd (n refl)))

request_cancel-Told :
    (a : Answers) (id : String) (db : Db) (answer : Result Unavailable (Unit {0}))
    → a.flag id ≡ answer
    → Told a id db (request_cancel db id answer)
unfolding request_cancel
request_cancel-Told a id db (err e) q =
    ((λ c. absurd (omega (arith, c))), (λ c. absurd (omega (arith, c))), (λ _ _. refl))
request_cancel-Told a id db (ok _) q =
    ((λ c. absurd (omega (arith, c))), (λ _. (refl, q)), (λ _ _. refl))

refused-Told :
    (a : Answers) (id : String) (db : Db) (reply : Reply)
    → 203 ≤ reply.code
    → Told a id db (outcome db reply [])
refused-Told a id db reply l =
    ((λ c. absurd (omega (arith, c, l))), (λ c. absurd (omega (arith, c, l))), (λ _ _. refl))

load_job-id :
    (a : Answers) (id : String) (db : Db)
    → ((reply : Reply) → load_job a id db ≡ err reply → 203 ≤ reply.code)
      × ((j : Job) → load_job a id db ≡ ok j → j.id ≡ id)
unfolding load_job get_job scan_job
load_job-id a id db =
    ((λ reply h. grind (arith, h)), (λ j h. grind (arith, h, find_row-id id db.jobs)))

job-Told :
    (a : Answers) (now : ℕ) (db : Db) (j : Job)
    → UniqueIds db.jobs
    → Told a j.id db (cancel_loaded a now db (ok j))
unfolding cancel_loaded
job-Told a now db j u =
    let x = cancel_job a.to_event j.id now db in
    let (done, kept) =
      update-Cancelled a.to_write j.id db x (cancel_job-cases a.to_event j.id now db u) in
    elim (Bool-cases (terminal j.status)) [
      | inl t ↦ rw t (refused-Told a j.id db (write_err 409 "already_terminal") (omega arith))
      | inr t ↦ elim (Bool-cases (is_running j.status)) [
        | inl r ↦ rw (t, r) (request_cancel-Told a j.id db (a.flag j.id) refl)
        | inr r ↦
            rw (t, r)
              (after_cancel-Told a j.id db (under a.to_write db x).0 (under a.to_write db x).1 done
                kept)
      ]
    ]

-- What an answer to a cancellation tells, others being free to change the tables after the job is
-- read. 200: the row waited, and is now CANCELLED under a higher epoch, and so in every later
-- history of statements. 202: the flag is up and the tables are left alone. Any code but 200: the
-- tables are left alone, unless the answer of the UPDATE was lost.
pub handle_cancel_lem :
    (a : Answers) (id : String) (now : ℕ) (db : Db)
    → UniqueIds (a.meanwhile db).jobs
    → Told a id (a.meanwhile db) (handle_cancel a id now db)
unfolding handle_cancel
handle_cancel_lem a id now db u =
    let (code, same) = load_job-id a id db in
    elim (Result-cases (load_job a id db)) [
      | inl (j, h) ↦ rw h (
          subst (λ i. Told a i (a.meanwhile db) (cancel_loaded a now (a.meanwhile db) (ok j)))
            (same j h) (job-Told a now (a.meanwhile db) j u))
      | inr (reply, h) ↦ rw h (refused-Told a id (a.meanwhile db) reply (code reply h))
    ]
