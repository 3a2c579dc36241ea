-- ===== src/Store/Queries.antt =====
-- internal/store/store.go: the lists that the recovery duties work from. A LIMIT with no ORDER BY
-- may choose any rows; here they are the first ones of the table.
use calligraphy.Base.{
  ◌⊎◌, inl, inr, ap, ◌∙◌, Bool-cases, if◌then◌else◌, ℕ, ◌+◌, String, List, [], ◌∷◌, Bool, true,
  false, not, ◌&&◌, ◌≡◌, ◌≤◌, some, ltb, leb, is_some, map, take, take_all, filter, length, any,
  str_eq, arith,
}
use calligraphy.Job.Status.{Status, pending}
use calligraphy.Store.Row.{Row, is_running, is_retrying, expired}
use calligraphy.Store.Db.{Db, Attempt, find_row}
use calligraphy.Store.Submit.{Requeueable, requeueable_of}

abbrev pub is_pending : Status → Bool
is_pending pending = true
is_pending _ = false

-- The WHERE clauses.
unfoldable pub stale : ℕ → ℕ → Row → Bool
stale grace now r = is_running r.status && expired r.lease_expires_at grace now

unfoldable pub orphaned : ℕ → ℕ → Row → Bool
orphaned older now r =
    is_pending r.status
    && (not (is_some r.enqueued_stream_id)
        && (leb r.scheduled_at now && ltb (r.created_at + older) now))

unfoldable pub stuck : ℕ → ℕ → Row → Bool
stuck older now r = is_retrying r.status && ltb (r.scheduled_at + older) now

unfoldable pub select : (Row → Bool) → ℕ → Db → List Requeueable
select p limit db = map requeueable_of (take limit (filter p db.jobs))

unfoldable pub list_expired_running : ℕ → ℕ → ℕ → Db → List Requeueable
unfolding select stale
list_expired_running grace limit now db = select (stale grace now) limit db

unfoldable pub list_unenqueued : ℕ → ℕ → ℕ → Db → List Requeueable
unfolding select orphaned
list_unenqueued older limit now db = select (orphaned older now) limit db

unfoldable pub list_stuck_retrying : ℕ → ℕ → ℕ → Db → List Requeueable
unfolding select stuck
list_stuck_retrying older limit now db = select (stuck older now) limit db

abbrev pub names : String → List Requeueable → Bool
names id = any (λ q. str_eq q.id id)

filtered-names :
    (p : Row → Bool) (rs : List Row) (id : String) (r : Row)
    → find_row id rs ≡ some r
    → p r ≡ true
    → names id (map requeueable_of (filter p rs)) ≡ true
unfolding find_row requeueable_of
filtered-names p [] id r f h = ground arith
filtered-names p (x ∷ xs) id r f h = grind (arith, filtered-names p xs id r)

-- A list that its limit does not cut names every row that meets the clause.
pub select-names :
    (p : Row → Bool) (limit : ℕ) (db : Db)
    → length (filter p db.jobs) ≤ limit
    → (id : String) (r : Row) → find_row id db.jobs ≡ some r
    → p r ≡ true
    → names id (select p limit db) ≡ true
unfolding select
select-names p limit db l id r f h =
    rw (take_all limit (filter p db.jobs) l) (filtered-names p db.jobs id r f h)

abbrev pub Listed : Requeueable → List Requeueable → Type 0
Listed q [] = ⊥
Listed q (x ∷ xs) = (x ≡ q) ⊎ Listed q xs

filtered-Listed :
    (p : Row → Bool) (rs : List Row) (id : String) (r : Row)
    → find_row id rs ≡ some r
    → p r ≡ true
    → Listed (requeueable_of r) (map requeueable_of (filter p rs))
unfolding find_row
filtered-Listed p [] id r f h = absurd (ground arith)
filtered-Listed p (x ∷ xs) id r f h = elim (Bool-cases (str_eq x.id id)) [
  | inl e ↦
      let same : x ≡ r = grind (arith, e, f) in
      let meets : p x ≡ true = ap p same ∙ h in rw meets (inl (ap requeueable_of same))
  | inr n ↦
      let later = filtered-Listed p xs id r (grind (arith, n, f)) h in
      elim (Bool-cases (p x)) [ inl y ↦ rw y (inr later) | inr y ↦ rw y later ]
]

-- And it has what the table has of each.
pub select-Listed :
    (p : Row → Bool) (limit : ℕ) (db : Db)
    → length (filter p db.jobs) ≤ limit
    → (id : String) (r : Row) → find_row id db.jobs ≡ some r
    → p r ≡ true
    → Listed (requeueable_of r) (select p limit db)
unfolding select
select-Listed p limit db l id r f h =
    rw (take_all limit (filter p db.jobs) l) (filtered-Listed p db.jobs id r f h)

-- `ListAttempts`, ORDER BY attempt.
unfoldable pub insert_by_attempt : Attempt → List Attempt → List Attempt
insert_by_attempt a [] = a ∷ []
insert_by_attempt a (b ∷ bs) =
    let rest = insert_by_attempt a bs in if leb a.attempt b.attempt then a ∷ b ∷ bs else b ∷ rest

unfoldable pub list_attempts : String → List Attempt → List Attempt
unfolding insert_by_attempt
list_attempts id [] = []
list_attempts id (a ∷ more) =
    let rest = list_attempts id more in
    if str_eq a.job_id id then insert_by_attempt a rest else rest
