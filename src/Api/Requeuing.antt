-- ===== src/Api/Requeuing.antt =====
-- internal/api/server.go: what the answers of handleRequeueDLQ promise.
use calligraphy.Base.{
  ℕ, ◌<◌, ◌≡◌, refl, ◌≢◌, ◌⊎◌, sym, subst, List, [], ◌∷◌, inl, inr, String, Bool, true, none, some,
  Option, Option-cases, Result, ok, err, Fate, served, unreachable, answer_lost, under, arith,
  Unavailable, ap, ◌∙◌,
}
use calligraphy.Job.Status.{pending}
use calligraphy.Store.Row.{Row, RowOp, run, requeues, apply, step, is_dead_letter, coalesce}
use calligraphy.Store.Db.{Db, find_row, update_row, touch, add_event}
use calligraphy.Store.Tables.{
  UniqueIds, find_row-update_self, find_row-id, update_row-miss, update_row-some,
}
use calligraphy.Store.Submit.{requeue_dead_letter, Requeueable, requeueable_of, from_json}
use calligraphy.Recovery.Duties.{requeue_envelope}
use calligraphy.Api.Http.{Answers, Outcome, enqueued}
use calligraphy.Job.Record.{Envelope}
use calligraphy.Api.Submit.{mark}
use calligraphy.Api.Handoff.{ran, Others, Handed, mark-Handed}
use calligraphy.Api.Jobs.{after_requeue, handle_requeue_dlq}

-- The envelope of a dead letter that is requeued: its work, for the stream of its priority, as
-- attempt 1.
abbrev pub revived_envelope : Row → ℕ → Envelope
revived_envelope r now = record {
  id = r.id;
  kind = r.kind;
  queue = r.queue;
  priority = r.priority;
  attempt = 1;
  payload = from_json r.payload;
  enqueued_at = now;
}

-- What the UPDATE makes of a dead letter.
pub record Requeued (r r' : Row) : Type 0 where
  pub was_dead : is_dead_letter r.status ≡ true
  pub bumped : r.lease_epoch < r'.lease_epoch
  pub waits : r'.status ≡ pending
  pub no_attempt : r'.attempt_count ≡ 0
  pub unmarked : r'.enqueued_stream_id ≡ none
  pub work : (r'.id ≡ r.id) × (r'.kind ≡ r.kind) × (r'.payload ≡ r.payload)
  pub stream : (r'.queue ≡ r.queue) × (r'.priority ≡ r.priority)
  pub budget : r'.max_attempts ≡ r.max_attempts

requeues-Requeued : (now : ℕ) (r r' : Row) → apply (requeues now) r ≡ some r' → Requeued r r'
unfolding apply
requeues-Requeued now r r' h = record {
  was_dead = grind arith;
  bumped = grind arith;
  waits = grind arith;
  no_attempt = grind arith;
  unmarked = grind arith;
  work = grind arith;
  stream = grind arith;
  budget = grind arith;
}

requeues-envelope :
    (now : ℕ) (r r' : Row)
    → apply (requeues now) r ≡ some r'
    → requeue_envelope (requeueable_of r') 1 now ≡ revived_envelope r now
unfolding apply requeue_envelope requeueable_of
requeues-envelope now r r' h = ground arith

-- The dead letter that was, and the PENDING row with no attempt that it became.
abbrev Revived : String → ℕ → Db → Db → Requeueable → Type 0
Revived id now before after q =
    (r : Row) × (r' : Row) × (find_row id before.jobs ≡ some r)
    × (find_row id after.jobs ≡ some r')
    × (r.id ≡ id)
    × (requeue_envelope q 1 now ≡ revived_envelope r now)
    × Requeued r r'

-- `requeue_dead_letter` after its UPDATE.
requeue-Revived :
    (lands : Bool) (id : String) (now : ℕ) (db : Db) (q : Requeueable)
    → UniqueIds db.jobs
    → (requeue_dead_letter lands id now db).1 ≡ some q
    → Revived id now db (requeue_dead_letter lands id now db).0 q
unfolding requeue_dead_letter requeueable_of touch add_event step
requeue-Revived lands id now db q u h =
    elim (Option-cases (update_row id (apply (requeues now)) db.jobs).1) [
      | inl n ↦ absurd (grind (arith, h, n))
      | inr ((r, r'), hit) ↦
          let (found, changed) = update_row-some id (requeues now) db.jobs (r, r') u hit in
          let after =
            find_row-update_self id (requeues now) db.jobs r found
            ∙ ap (λ o. some (coalesce o r)) changed in
          (
            r,
            r',
            found,
            grind (arith, after, hit),
            find_row-id id db.jobs r found,
            ap (λ x. requeue_envelope x 1 now) (grind (arith, h, hit))
                ∙ requeues-envelope now r r' changed,
            requeues-Requeued now r r' changed,
          )
    ]

requeue-same :
    (lands : Bool) (id : String) (now : ℕ) (db : Db)
    → (requeue_dead_letter lands id now db).1 ≡ none
    → (requeue_dead_letter lands id now db).0 ≡ db
unfolding requeue_dead_letter touch
requeue-same lands id now db h =
    let x = update_row id (apply (requeues now)) db.jobs in
    elim (Option-cases x.1) [
      | inl n ↦ grind (arith, n, update_row-miss id (requeues now) db.jobs n)
      | inr (p, hit) ↦ absurd (grind (arith, h, hit))
    ]

-- The promise of a 200.
abbrev pub Promise : Answers → String → ℕ → List RowOp → Db → Outcome → Type 0
Promise a id now ops db out =
    (r : Row) × (r' : Row) × (row : Row) × (find_row id db.jobs ≡ some r)
    × Requeued r r'
    × (out.sent ≡ enqueued (revived_envelope r now) 0 (a.enqueue (revived_envelope r now) 0) ∷ [])
    × (find_row id out.db.jobs ≡ some row)
    × Handed a (revived_envelope r now) 0 now (run ops r') row

-- What an answer to a requeue tells.
abbrev pub Told : Answers → String → ℕ → List RowOp → Db → Outcome → Type 0
Told a id now ops db out =
    ((out.reply.code ≡ 200) × Promise a id now ops db out)
    ⊎ ((out.reply.code ≢ 200) × (out.sent ≡ []) × ((out.db ≡ db) ⊎ (a.to_write ≡ answer_lost)))

after_requeue-Told :
    (a : Answers) (id : String) (now : ℕ) (ops : List RowOp) (db db' : Db)
    (answer : Result Unavailable (Option Requeueable))
    → Others a id ops
    → ((q : Requeueable) → answer ≡ ok (some q) → Revived id now db db' q)
    → (((q : Requeueable) → answer ≢ ok (some q)) → (db' ≡ db) ⊎ (a.to_write ≡ answer_lost))
    → Told a id now ops db (after_requeue a id now (db', answer))
unfolding after_requeue
after_requeue-Told a id now ops db db' (err e) others revived kept =
    inr ((λ c. absurd (omega (arith, c))), refl, kept (λ q n. cc))
after_requeue-Told a id now ops db db' (ok none) others revived kept =
    inr ((λ c. absurd (omega (arith, c))), refl, kept (λ q n. cc))
after_requeue-Told a id now ops db db' (ok (some q)) others revived kept =
    let env = requeue_envelope q 1 now in
    let (r, r', before, after, named, same, requeued) = revived q refl in
    let at_id : env.id ≡ id = ap (λ e. e.id) same ∙ named in
    let left = others db' ∙ ap (ran ops) after in
    let (row, found, handed) =
      mark-Handed a env 0 now (run ops r') (a.meanwhile db') (a.enqueue env 0) refl
        (ap (λ i. find_row i (a.meanwhile db').jobs) at_id ∙ left) in
    inl (
      refl,
      (
        r,
        r',
        row,
        before,
        requeued,
        ap (λ e. enqueued e 0 (a.enqueue e 0) ∷ []) same,
        ap (λ i. find_row i (mark a env now (a.meanwhile db') (a.enqueue env 0)).jobs) (sym at_id)
            ∙ found,
        subst (λ e. Handed a e 0 now (run ops r') row) same handed,
      ),
    )

update-Revived :
    (fate : Fate) (id : String) (now : ℕ) (db : Db) (x : Db × Option Requeueable)
    → ((q : Requeueable) → x.1 ≡ some q → Revived id now db x.0 q)
    → (x.1 ≡ none → x.0 ≡ db)
    → ((q : Requeueable)
        → (under fate db x).1 ≡ ok (some q)
        → Revived id now db (under fate db x).0 q)
      × (((q : Requeueable) → (under fate db x).1 ≢ ok (some q))
          → ((under fate db x).0 ≡ db) ⊎ (fate ≡ answer_lost))
update-Revived served id now db (db', none) revived same =
    ((λ q h. absurd (grind (arith, h))), (λ _. inl (same refl)))
update-Revived served id now db (db', some p) revived same =
    ((λ q h. revived q (grind (arith, h))), (λ n. absurd (n p refl)))
update-Revived unreachable id now db x revived same =
    ((λ q h. absurd (grind (arith, h))), (λ _. inl refl))
update-Revived answer_lost id now db x revived same =
    ((λ q h. absurd (grind (arith, h))), (λ _. inr refl))

-- What an answer to a requeue tells, while others run any statements on the row of the job. 200: the
-- job was a dead letter, whose row became PENDING with no attempt under a new epoch; one call of
-- Enqueue had the envelope of its work as attempt 1; and the row is what the others made of it but
-- for the mark, as after a submission. Any other code: nothing was put on the queue, and the tables
-- are left alone, unless the answer of the UPDATE was lost.
pub handle_requeue_dlq_lem :
    (a : Answers) (id : String) (now : ℕ) (ops : List RowOp) (db : Db)
    → UniqueIds db.jobs
    → Others a id ops
    → Told a id now ops db (handle_requeue_dlq a id now db)
unfolding handle_requeue_dlq
handle_requeue_dlq_lem a id now ops db u others =
    let x = requeue_dead_letter a.to_event id now db in
    let (revived, kept) =
      update-Revived a.to_write id now db x (λ q. requeue-Revived a.to_event id now db q u)
        (requeue-same a.to_event id now db) in
    after_requeue-Told a id now ops db (under a.to_write db x).0 (under a.to_write db x).1 others
      revived kept
