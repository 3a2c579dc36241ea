-- ===== src/Store/Reports.antt =====
-- internal/store/store.go: the list of dead letters, and the summary's counts. The percentiles are
-- left out: they are floating-point numbers.
use calligraphy.Base.{
  ℕ, ◌+◌, ◌*◌, ◌≤◌, ◌≡◌, refl, List, [], ◌∷◌, map, Bool, true, false, Option, none, some,
  if◌then◌else◌, ltb, leb, length, take, filter, arith, drop,
}
use calligraphy.Job.Status.{Status, same_status}
use calligraphy.Job.Record.{Job}
use calligraphy.Store.Row.{Row, is_dead_letter}
use calligraphy.Store.Db.{Db}
use calligraphy.Store.Submit.{scan_job}

-- ORDER BY completed_at DESC NULLS LAST.
abbrev pub not_before : Option ℕ → Option ℕ → Bool
not_before a none = true
not_before none (some t) = false
not_before (some s) (some t) = leb t s

unfoldable pub insert_newest : Row → List Row → List Row
insert_newest r [] = r ∷ []
insert_newest r (x ∷ xs) =
    let rest = insert_newest r xs in
    if not_before r.completed_at x.completed_at then r ∷ x ∷ xs else x ∷ rest

unfoldable pub newest_first : List Row → List Row
unfolding insert_newest
newest_first [] = []
newest_first (r ∷ rs) = insert_newest r (newest_first rs)

unfoldable pub list_dead_letters : ℕ → ℕ → Db → List Job
unfolding newest_first
list_dead_letters limit offset db =
    map scan_job
      (take limit (drop offset (newest_first (filter (λ r. is_dead_letter r.status) db.jobs))))

-- GROUP BY status, as the map that the rows of the answer fill.
unfoldable pub count_in : Status → List (Status × ℕ) → List (Status × ℕ)
count_in s [] = (s, 1) ∷ []
count_in s ((t, n) ∷ g) =
    let rest = count_in s g in if same_status t s then (t, n + 1) ∷ g else (t, n) ∷ rest

unfoldable pub counts : List Row → List (Status × ℕ)
unfolding count_in
counts [] = []
counts (r ∷ rs) = count_in r.status (counts rs)

unfoldable pub total : List (Status × ℕ) → ℕ
total [] = 0
total ((s, n) ∷ g) = n + total g

unfoldable pub sum_attempts : List Row → ℕ
sum_attempts [] = 0
sum_attempts (r ∷ rs) = r.attempt_count + sum_attempts rs

pub record Summary : Type 0 where
  pub since : ℕ
  pub counts : List (Status × ℕ)
  pub total : ℕ
  pub retried_jobs : ℕ
  pub total_attempts : ℕ

unfoldable pub summary : ℕ → Db → Summary
summary since db =
    let rows = filter (λ r. leb since r.created_at) db.jobs in
    let groups = counts rows in
    record {
      since = since;
      counts = groups;
      total = total groups;
      retried_jobs = length (filter (λ r. ltb 1 r.attempt_count) rows);
      total_attempts = sum_attempts rows;
    }

total-count_in : (s : Status) (g : List (Status × ℕ)) → total (count_in s g) ≡ total g + 1
unfolding total count_in
total-count_in s [] = refl
total-count_in s ((t, n) ∷ g) = grind (arith, total-count_in s g)

total-counts : (rs : List Row) → total (counts rs) ≡ length rs
unfolding total counts
total-counts [] = refl
total-counts (r ∷ rs) = grind (arith, total-count_in r.status (counts rs), total-counts rs)

retried-attempts :
    (rs : List Row) → length (filter (λ r. ltb 1 r.attempt_count) rs) * 2 ≤ sum_attempts rs
unfolding sum_attempts
retried-attempts [] = omega arith
retried-attempts (r ∷ rs) = grind (arith, retried-attempts rs)

-- The summary's figures agree: the counts of the statuses add up to the number of jobs created
-- since then, and a retried job is two attempts at least.
pub summary_agrees :
    (since : ℕ) (db : Db)
    → ((summary since db).total ≡ length (filter (λ r. leb since r.created_at) db.jobs))
      × ((summary since db).retried_jobs * 2 ≤ (summary since db).total_attempts)
unfolding summary
summary_agrees since db =
    let rows = filter (λ r. leb since r.created_at) db.jobs in
    (total-counts rows, retried-attempts rows)
