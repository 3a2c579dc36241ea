-- ===== src/Recovery/Entries.antt =====
-- The reaper and the entries of the queue: what it may delete.
use calligraphy.Base.{
  ℕ, ◌+◌, List, [], ◌∷◌, ◌++◌, ◌≡◌, refl, ap, ◌⊎◌, inl, inr, any, Bool, true, false, Option, none,
  some, Option-cases, Bool-cases, ok, err, arith, under, under-ok, max, ◌∙◌, Fate, served,
  unreachable, answer_lost, Result, Result-cases, Unavailable, String,
}
use calligraphy.Job.Errors.{Bytes}
use calligraphy.Job.Record.{Envelope}
use calligraphy.Store.Tables.{UniqueIds, update-absent, update_row-hit, find_row-update_self}
use calligraphy.Store.Row.{Row, apply, step, reaps}
use calligraphy.Store.Db.{Db, Attempt, record_attempt, find_row, add_event, touch}
use calligraphy.Store.Submit.{reap_job, get_job, scan_job, ReapResult}
use calligraphy.Store.Queries.{is_pending}
use calligraphy.Store.Recorder.{unless_down}
use calligraphy.Worker.Runner.{Delivery}
use calligraphy.Recovery.Duties.{
  Leader, Answers, Deed, puts, parks, logs_dead, acks, ack_unreaped, reap_one, after_reap,
  lost_attempt,
}

abbrev pub is_ack : Deed → Bool
is_ack (acks p id) = true
is_ack _ = false

-- An envelope is among those that the queue took for their streams.
abbrev pub Put : Envelope → List Deed → Type 0
Put env [] = ⊥
Put env (puts e (ok entry) ∷ ds) = (e ≡ env) ⊎ Put env ds
Put env (_ ∷ ds) = Put env ds

pub Put-append : (env : Envelope) (ds es : List Deed) → Put env ds → Put env (ds ++ es)
Put-append env [] es h = absurd h
Put-append env (puts e (ok entry) ∷ ds) es (inl h) = inl h
Put-append env (puts e (ok entry) ∷ ds) es (inr h) = inr (Put-append env ds es h)
Put-append env (puts e (err x) ∷ ds) es h = Put-append env ds es h
Put-append env (parks e t ∷ ds) es h = Put-append env ds es h
Put-append env (logs_dead e x ∷ ds) es h = Put-append env ds es h
Put-append env (acks p id ∷ ds) es h = Put-append env ds es h

pub append-Put : (env : Envelope) (ds es : List Deed) → Put env es → Put env (ds ++ es)
append-Put env [] es h = h
append-Put env (puts e (ok entry) ∷ ds) es h = inr (append-Put env ds es h)
append-Put env (puts e (err x) ∷ ds) es h = append-Put env ds es h
append-Put env (parks e t ∷ ds) es h = append-Put env ds es h
append-Put env (logs_dead e x ∷ ds) es h = append-Put env ds es h
append-Put env (acks p id ∷ ds) es h = append-Put env ds es h

-- The fresh envelope of a delivery whose job has a row: the same job and work, for the same stream,
-- with the number of the next attempt.
abbrev pub fresh_envelope : Delivery → Row → ℕ → Envelope
fresh_envelope d row now = record {
  id = d.env.id;
  kind = d.env.kind;
  queue = d.env.queue;
  priority = d.env.priority;
  attempt = row.attempt_count + 1;
  payload = d.env.payload;
  enqueued_at = now;
}

-- It was put there.
abbrev pub PutAgain : Delivery → ℕ → Db → List Deed → Type 0
PutAgain d now db deeds =
    (row : Row) × (find_row d.env.id db.jobs ≡ some row) × Put (fresh_envelope d row now) deeds

-- By then the job is not PENDING.
abbrev pub Settled : String → Db → Type 0
Settled id db = (row : Row) × (find_row id db.jobs ≡ some row) × (is_pending row.status ≡ false)

-- A job that the reaper took from its worker waits no more in PENDING.
reaped_row :
    (lands : Bool) (msg : Bytes) (id : String) (delay grace now : ℕ) (db : Db) (res : ReapResult)
    → UniqueIds db.jobs
    → (reap_job lands msg id delay grace now db).1 ≡ some res
    → Settled id (reap_job lands msg id delay grace now db).0
unfolding reap_job touch add_event step apply
reaped_row lands msg id delay grace now db res u h =
    let op = reaps msg delay grace now in
    elim (Option-cases (find_row id db.jobs)) [
      | inl e ↦ absurd (grind (arith, update-absent id op db.jobs e))
      | inr (row, e) ↦ (
        step op row,
        grind (arith, find_row-update_self id op db.jobs row e),
        grind (arith, update_row-hit id op db.jobs row u e),
      )
    ]

module _ (l : Leader) (a : Answers) (now : ℕ) (d : Delivery) (db : Db) where
  ack_unreaped_ack :
      any is_ack (ack_unreaped l a now d db).1 ≡ true
      → PutAgain d now (ack_unreaped l a now d db).0 (ack_unreaped l a now d db).1
        ⊎ Settled d.env.id (ack_unreaped l a now d db).0
  unfolding ack_unreaped get_job scan_job add_event
  ack_unreaped_ack h = elim (Option-cases (find_row d.env.id db.jobs)) [
    | inl e ↦ absurd (ground arith)
    | inr (row, e) ↦ elim (Bool-cases (is_pending row.status)) [
      | inr n ↦ inr (row, grind arith, n)
      | inl p ↦ elim (Result-cases (l.enqueue (fresh_envelope d row now))) [
        | inl (entry, q) ↦ inl (row, ground arith, ground arith)
        | inr (x, q) ↦ absurd (grind arith)
      ]
    ]
  ]

pub unless_down-jobs :
    (fate : Fate) (att : Attempt) (db : Db) → (unless_down fate att db).jobs ≡ db.jobs
unfolding record_attempt
unless_down-jobs served att db = refl
unless_down-jobs unreachable att db = refl
unless_down-jobs answer_lost att db = refl

after_reap_ack :
    (l : Leader) (a : Answers) (now : ℕ) (d : Delivery)
    (x : Db × Result Unavailable (Option ReapResult))
    → ((res : ReapResult) → x.1 ≡ ok (some res) → Settled d.env.id x.0)
    → any is_ack (after_reap l a now d x).1 ≡ true
    → PutAgain d now (after_reap l a now d x).0 (after_reap l a now d x).1
      ⊎ Settled d.env.id (after_reap l a now d x).0
unfolding after_reap
after_reap_ack l a now d (db, err e) s h = absurd (ground arith)
after_reap_ack l a now d (db, ok none) s h = ack_unreaped_ack l a now d db h
after_reap_ack l a now d (db, ok (some res)) s h =
    let (row, found, moved) = s res refl in
    inr (
      row,
      ap (find_row d.env.id)
            (unless_down-jobs a.to_attempt (lost_attempt d.env.id res l.texts.presumed_dead now) db)
          ∙ found,
      moved,
    )

-- The reaper deletes the last delivery of no PENDING job: if it acks an entry, then the queue took
-- a fresh envelope for the stream of its priority, with the work of the delivery and the number of
-- the next attempt; or by then the row of the job is there and is not PENDING.
pub reap_one_ack :
    (l : Leader) (a : Answers) (now : ℕ) (d : Delivery) (db : Db)
    → UniqueIds db.jobs
    → any is_ack (reap_one l a now d db).1 ≡ true
    → PutAgain d now (reap_one l a now d db).0 (reap_one l a now d db).1
      ⊎ Settled d.env.id (reap_one l a now d db).0
unfolding reap_one
reap_one_ack l a now d db u h =
    let delay = l.backoff (max d.env.attempt 1) in
    let op = reap_job a.to_event l.texts.presumed_dead d.env.id delay 0 now db in
    after_reap_ack l a now d (under a.to_update db op)
      (λ res hit.
        let (same, db_same) = under-ok a.to_update db op hit in
        let (row, found, moved) =
          reaped_row a.to_event l.texts.presumed_dead d.env.id delay 0 now db res u same in
        (row, ap (λ x. find_row d.env.id x.jobs) db_same ∙ found, moved))
      h
