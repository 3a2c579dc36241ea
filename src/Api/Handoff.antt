-- ===== src/Api/Handoff.antt =====
-- internal/api/server.go: the handoff of a job to the queue, while others may already have the job.
use calligraphy.Base.{
  ℕ, ◌+◌, ◌≤◌, ◌<◌, ◌≡◌, refl, ◌⊎◌, inl, inr, String, List, true, not, ◌&&◌, Option, none, some,
  is_some, Result, ok, err, under, Unavailable, Fate, served, unreachable, answer_lost, Bool-cases,
  ◌≢◌, arith,
}
use calligraphy.Job.Record.{Envelope}
use calligraphy.Store.Row.{Row, RowOp, run, sets_enqueued, step, apply}
use calligraphy.Store.Db.{Db, find_row, set_enqueued, touch}
use calligraphy.Store.Tables.{find_row-update_self}
use calligraphy.Store.Queries.{orphaned, is_pending}
use calligraphy.Api.Http.{Answers}
use calligraphy.Api.Submit.{mark}

-- What others do to the row of a job between the first statement of a handler and its last.
abbrev pub ran : List RowOp → Option Row → Option Row
ran ops none = none
ran ops (some row) = some (run ops row)

abbrev pub Others : Answers → String → List RowOp → Type 0
Others a id ops = (db : Db) → find_row id (a.meanwhile db).jobs ≡ ran ops (find_row id db.jobs)

-- Once it is due and old enough, the sweep of orphans finds a row exactly while it is PENDING and
-- has no mark.
abbrev pub Swept : Row → Type 0
Swept row =
    (older t : ℕ)
    → row.scheduled_at ≤ t
    → row.created_at + older < t
    → orphaned older t row ≡ (is_pending row.status && not (is_some row.enqueued_stream_id))

-- Why a handler leaves no mark: the queue refused the envelope, Postgres did not serve the UPDATE, or
-- the row has a mark already.
abbrev pub Unmarked : Answers → Envelope → ℕ → Row → Type 0
Unmarked a env at left =
    ((e : Unavailable) × (a.enqueue env at ≡ err e))
    ⊎ ((a.to_mark ≢ served) ⊎ (is_some left.enqueued_stream_id ≡ true))

-- The handler's mark, on the row that the others left: it is the entry that the queue gave, and the
-- row is the same but for it; or there is none, for one of these reasons, and the row is as they left
-- it.
abbrev pub Handed : Answers → Envelope → ℕ → ℕ → Row → Row → Type 0
Handed a env at now left row =
    ((entry : String) × (a.enqueue env at ≡ ok entry)
      × (row ≡ record left { enqueued_stream_id = some entry; updated_at = now }))
    ⊎ ((row ≡ left) × Unmarked a env at left × Swept row)

any-Swept : (row : Row) → Swept row
unfolding orphaned
any-Swept row older t due old = grind (arith, due, old)

abbrev Marked : Answers → Envelope → ℕ → ℕ → Row → Db → Type 0
Marked a env at now left db =
    (row : Row) × (find_row env.id db.jobs ≡ some row) × Handed a env at now left row

unmarked :
    (a : Answers) (env : Envelope) (at now : ℕ) (left : Row) (db : Db)
    → find_row env.id db.jobs ≡ some left
    → Unmarked a env at left
    → Marked a env at now left db
unmarked a env at now left db f why = (left, f, inr (refl, why, any-Swept left))

-- SetEnqueued on a row.
set_enqueued-Marked :
    (a : Answers) (env : Envelope) (at now : ℕ) (left : Row) (db : Db) (entry : String)
    → find_row env.id db.jobs ≡ some left
    → a.enqueue env at ≡ ok entry
    → Marked a env at now left (set_enqueued env.id entry now db)
unfolding set_enqueued touch step apply
set_enqueued-Marked a env at now left db entry f e =
    let op = sets_enqueued entry now in
    let found = find_row-update_self env.id op db.jobs left f in
    elim (Bool-cases (is_some left.enqueued_stream_id)) [
      | inl has ↦
          (step op left, found, inr (ground (arith, has), inr (inr has), any-Swept (step op left)))
      | inr free ↦ (step op left, found, inl (entry, e, ground (arith, free)))
    ]

marked :
    (a : Answers) (env : Envelope) (at now : ℕ) (left : Row) (db : Db) (entry : String)
    → find_row env.id db.jobs ≡ some left
    → a.enqueue env at ≡ ok entry
    → Marked a env at now left (under a.to_mark db (set_enqueued env.id entry now db, true)).0
marked a env at now left db entry f e = by_fate a.to_mark refl
  where
    by_fate :
        (fate : Fate)
        → a.to_mark ≡ fate
        → Marked a env at now left (under fate db (set_enqueued env.id entry now db, true)).0
    by_fate served h = set_enqueued-Marked a env at now left db entry f e
    by_fate answer_lost h = set_enqueued-Marked a env at now left db entry f e
    by_fate unreachable h =
        unmarked a env at now left db f (inr (inl (λ s. absurd (ground (arith, h, s)))))

pub mark-Handed :
    (a : Answers) (env : Envelope) (at now : ℕ) (left : Row) (db : Db)
    (answer : Result Unavailable String)
    → a.enqueue env at ≡ answer
    → find_row env.id db.jobs ≡ some left
    → (row : Row) × (find_row env.id (mark a env now db answer).jobs ≡ some row)
      × Handed a env at now left row
unfolding mark
mark-Handed a env at now left db (err e) q f = unmarked a env at now left db f (inl (e, q))
mark-Handed a env at now left db (ok entry) q f = marked a env at now left db entry f q
