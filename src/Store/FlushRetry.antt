-- ===== src/Store/FlushRetry.antt =====
-- internal/store/batch.go: the second run of `flushOnce` after a commit whose answer was lost.
use calligraphy.Base.{
  ℕ, ◌≡◌, refl, ap, List, [], ◌∷◌, Bool, true, false, eq_refl, all, any, map, arith, ok, served,
  answer_lost,
}
use calligraphy.Store.Db.{Db, Attempt, Event, insert_attempt, same_attempt}
use calligraphy.Store.Recorder.{
  Op, complete_rows, rare_ops, insert_attempts, insert_events, flush_once, flush, answers,
}
use calligraphy.Store.Quiet.{complete_rows-quiet, rare_ops-quiet}
use calligraphy.Store.Quieting.{rare_ops-quiets, complete_rows-done}

-- The table of attempts has the coordinates of an attempt.
abbrev has : List Attempt → Attempt → Bool
has kept a = any (same_attempt a) kept

insert_attempt-has : (a : Attempt) (kept : List Attempt) → has (insert_attempt a kept) a ≡ true
unfolding insert_attempt
insert_attempt-has a kept = grind (arith, eq_refl a.job_id)

insert_attempt-keeps :
    (a b : Attempt) (kept : List Attempt) → has kept b ≡ true → has (insert_attempt a kept) b ≡ true
unfolding insert_attempt
insert_attempt-keeps a b kept h = grind arith

insert_attempts-keeps :
    (os : List Op) (b : Attempt) (kept : List Attempt)
    → has kept b ≡ true
    → has (insert_attempts os kept) b ≡ true
unfolding insert_attempts
insert_attempts-keeps [] b kept h = h
insert_attempts-keeps (o ∷ os) b kept h =
    insert_attempts-keeps os b (insert_attempt o.att kept) (insert_attempt-keeps o.att b kept h)

insert_attempts-has :
    (os : List Op) (kept : List Attempt) → all (λ o. has (insert_attempts os kept) o.att) os ≡ true
unfolding insert_attempts
insert_attempts-has [] kept = refl
insert_attempts-has (o ∷ os) kept =
    let kept' = insert_attempt o.att kept in
    grind (
      arith,
      insert_attempts-keeps os o.att kept' (insert_attempt-has o.att kept),
      insert_attempts-has os kept',
    )

insert_attempts-again :
    (os : List Op) (kept : List Attempt)
    → all (λ o. has kept o.att) os ≡ true
    → insert_attempts os kept ≡ kept
unfolding insert_attempts insert_attempt
insert_attempts-again [] kept h = refl
insert_attempts-again (o ∷ os) kept h = grind (arith, insert_attempts-again os kept)

insert_events-none :
    (os : List Op) (kept : List Event) → insert_events os (map (λ o. false) os) kept ≡ kept
unfolding insert_events
insert_events-none [] kept = refl
insert_events-none (o ∷ os) kept = ground (arith, insert_events-none os kept)

-- After a commit, a second run of the same batch leaves every table
-- as it is and reports that no op applied.
pub flush_once-again :
    (now later : ℕ) (os : List Op) (db : Db)
    → let db' = (flush_once now os db).0 in flush_once later os db' ≡ (db', map (λ o. false) os)
unfolding flush_once
flush_once-again now later os db =
    let (rows, ids) = complete_rows now os db.jobs in
    let rows' = (rare_ops now ids os rows).0 in
    let still = rare_ops-quiets now ids os rows (complete_rows-done now os db.jobs) in
    let first = complete_rows-quiet later os rows' still in
    let second = rare_ops-quiet later os rows' still in
    let third =
      insert_attempts-again os (insert_attempts os db.attempts)
        (insert_attempts-has os db.attempts) in
    rw (flush_once, first, second, third, insert_events-none) refl

answers-none : (os : List Op) → answers (map (λ o. false) os) ≡ map (λ o. ok false) os
answers-none [] = refl
answers-none (o ∷ os) = ap (λ t. ok false ∷ t) (answers-none os)

-- If a commit landed but its answer was lost, the second try finds every table as it should be, and
-- every caller is told, without an error, that its write was not applied.
pub flush_lost :
    (now later : ℕ) (os : List Op) (db : Db)
    → flush answer_lost served now later os db ≡ ((flush_once now os db).0, map (λ o. ok false) os)
unfolding flush
flush_lost now later os db = rw (flush_once-again now later os db, answers-none os) refl
