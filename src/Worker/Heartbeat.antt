-- ===== src/Worker/Heartbeat.antt =====
-- internal/worker/runner.go: heartbeat, on the tables. A tick says what the calls of one round come
-- to; the list of ticks ends where the context does.
use calligraphy.Base.{
  ℕ, ◌+◌, ◌≤◌, ◌≡◌, refl, sym, ap, ◌∙◌, inl, inr, String, List, [], ◌∷◌, Bool, true, false, Option,
  none, some, if◌then◌else◌, subst, any, Bool-cases, Option-cases, Result, ok, err, Unavailable,
  Fate, under, under-ok, under-effect, arith,
}
use calligraphy.Job.Errors.{Bytes}
use calligraphy.Store.Row.{Row, extends, reaps, apply, step, fence}
use calligraphy.Store.Db.{Db, find_row, update_row, touch, extend_lease}
use calligraphy.Store.Tables.{
  UniqueIds, find_row-update_self, update_row-hit, update_row-some, update_row-miss,
  update-UniqueIds, change,
}

pub record Tick : Type 0 where
  pub meanwhile : Db → Db  -- what others did since the last tick
  pub at : ℕ
  pub to_extend : Fate
  pub flag : Result Unavailable Bool  -- IsCancelRequested

-- The cause that the heartbeat cancels the handler with.
pub data Cause : Type 0 where
  lease_lost cancel_requested : Cause

abbrev pub is_yes : Result Unavailable Bool → Bool
is_yes (ok b) = b
is_yes (err e) = false

unfoldable pub after_extend :
    Result Unavailable Bool
    → (Db → Db × Option Cause)
    → Db × Result Unavailable Bool
    → Db × Option Cause
after_extend flag rest (db, ok false) = (db, some lease_lost)
after_extend flag rest (db, _) = if is_yes flag then (db, some cancel_requested) else rest db

unfoldable pub heartbeat : String → ℕ → ℕ → List Tick → Db → Db × Option Cause
unfolding after_extend
heartbeat id epoch ttl [] db = (db, none)
heartbeat id epoch ttl (t ∷ ts) db =
    let db' = t.meanwhile db in
    after_extend t.flag (heartbeat id epoch ttl ts)
      (under t.to_extend db' (extend_lease id epoch ttl t.at db'))

extends-row :
    (epoch ttl now : ℕ) (r r' : Row)
    → apply (extends epoch ttl now) r ≡ some r'
    → (fence epoch r' ≡ true) × (r'.lease_expires_at ≡ some (now + ttl))
unfolding apply fence
extends-row epoch ttl now r r' h = grind (arith, h)

early-reap :
    (epoch ttl now : ℕ) (r : Row) (msg : Bytes) (delay grace later : ℕ)
    → r.lease_expires_at ≡ some (now + ttl)
    → later ≤ now + ttl + grace
    → apply (reaps msg delay grace later) r ≡ none
unfolding apply
early-reap epoch ttl now r msg delay grace later e l = grind (arith, e, l)

-- The row under a lease that no reap takes up to a time.
abbrev pub Safe : String → ℕ → ℕ → Db → Type 0
Safe id epoch until db =
    (r : Row) × (find_row id db.jobs ≡ some r)
    × (fence epoch r ≡ true)
    × ((msg : Bytes) (delay grace later : ℕ)
        → later ≤ until + grace
        → apply (reaps msg delay grace later) r ≡ none)

extend_lease-Safe :
    (id : String) (epoch ttl now : ℕ) (db : Db)
    → UniqueIds db.jobs
    → (extend_lease id epoch ttl now db).1 ≡ true
    → Safe id epoch (now + ttl) (extend_lease id epoch ttl now db).0
unfolding extend_lease touch step
extend_lease-Safe id epoch ttl now db u h =
    let op = extends epoch ttl now in
    elim (Option-cases (update_row id (apply op) db.jobs).1) [
      | inl n ↦ absurd (grind (arith, h, n))
      | inr ((r, r'), hit) ↦
          let (found, changed) = update_row-some id op db.jobs (r, r') u hit in
          let (ours, until) = extends-row epoch ttl now r r' changed in
          (
            r',
            find_row-update_self id op db.jobs r found ∙ grind (arith, changed),
            ours,
            (λ msg delay grace later l. early-reap epoch ttl now r' msg delay grace later until l),
          )
    ]

refused-fence :
    (epoch ttl now : ℕ) (r : Row) → apply (extends epoch ttl now) r ≡ none → fence epoch r ≡ false
unfolding apply fence
refused-fence epoch ttl now r h = grind (arith, h)

change-none : (r : Row) (o : Option Row) → change r o ≡ none → o ≡ none
change-none r none h = refl
change-none r (some r') h = absurd (grind (arith, h))

extend_lease-refused :
    (id : String) (epoch ttl now : ℕ) (db : Db) (r : Row)
    → UniqueIds db.jobs
    → (extend_lease id epoch ttl now db).1 ≡ false
    → find_row id (extend_lease id epoch ttl now db).0.jobs ≡ some r
    → fence epoch r ≡ false
unfolding extend_lease touch
extend_lease-refused id epoch ttl now db r u h f =
    let op = extends epoch ttl now in
    elim (Option-cases (update_row id (apply op) db.jobs).1) [
      | inr (p, hit) ↦ absurd (grind (arith, h, hit))
      | inl n ↦
          let same = update_row-miss id op db.jobs n in
          let found = ap (find_row id) (sym same) ∙ f in
          refused-fence epoch ttl now r
            (change-none r (apply op r) (sym (update_row-hit id op db.jobs r u found) ∙ n))
    ]

-- A beat that is answered with yes protects the job: it is still the holder's, and no reap, in the
-- queue or by the sweep, takes it before the lease and the grace of the reap are over.
pub beat_protects :
    (fate : Fate) (id : String) (epoch ttl now : ℕ) (db : Db)
    → UniqueIds db.jobs
    → (under fate db (extend_lease id epoch ttl now db)).1 ≡ ok true
    → Safe id epoch (now + ttl) (under fate db (extend_lease id epoch ttl now db)).0
beat_protects fate id epoch ttl now db u h =
    let x = extend_lease id epoch ttl now db in
    let (answer, landed) = under-ok fate db x h in
    subst (Safe id epoch (now + ttl)) (sym landed) (extend_lease-Safe id epoch ttl now db u answer)

-- The others keep ids unique.
abbrev pub KeepIds : List Tick → Type 0
KeepIds [] = Unit {0}
KeepIds (t ∷ ts) = ((db : Db) → UniqueIds db.jobs → UniqueIds (t.meanwhile db).jobs) × KeepIds ts

abbrev flagged : Tick → Bool
flagged t = is_yes t.flag

-- What a cause that the heartbeat gives says of the tables and of the flags.
abbrev pub Justified : String → ℕ → List Tick → Db × Option Cause → Type 0
Justified id epoch ts x =
    (x.1 ≡ some lease_lost → (r : Row) → find_row id x.0.jobs ≡ some r → fence epoch r ≡ false)
    × (x.1 ≡ some cancel_requested → any flagged ts ≡ true)

go-on :
    (id : String) (epoch : ℕ) (t : Tick) (ts : List Tick) (rest : Db → Db × Option Cause) (db : Db)
    (flag : Result Unavailable Bool)
    → t.flag ≡ flag
    → Justified id epoch ts (rest db)
    → Justified id epoch (t ∷ ts) (if is_yes flag then (db, some cancel_requested) else rest db)
go-on id epoch t ts rest db flag q j = elim (Bool-cases (is_yes flag)) [
  | inl h ↦ rw h ((λ c. absurd (grind (arith, c))), (λ c. grind (arith, q, h)))
  | inr h ↦ rw h (j.0, (λ c. grind (arith, j.1 c)))
]

after_extend-Justified :
    (id : String) (epoch : ℕ) (t : Tick) (ts : List Tick) (rest : Db → Db × Option Cause)
    (x : Db × Result Unavailable Bool)
    → (x.1 ≡ ok false → (r : Row) → find_row id x.0.jobs ≡ some r → fence epoch r ≡ false)
    → (flag : Result Unavailable Bool) → t.flag ≡ flag
    → Justified id epoch ts (rest x.0)
    → Justified id epoch (t ∷ ts) (after_extend flag rest x)
unfolding after_extend
after_extend-Justified id epoch t ts rest (db, ok false) lost flag q j =
    ((λ c. lost refl), (λ c. absurd (grind (arith, c))))
after_extend-Justified id epoch t ts rest (db, ok true) lost flag q j =
    go-on id epoch t ts rest db flag q j
after_extend-Justified id epoch t ts rest (db, err e) lost flag q j =
    go-on id epoch t ts rest db flag q j

extend_lease-UniqueIds :
    (id : String) (epoch ttl now : ℕ) (db : Db)
    → UniqueIds db.jobs
    → UniqueIds (extend_lease id epoch ttl now db).0.jobs
unfolding extend_lease touch
extend_lease-UniqueIds id epoch ttl now db u = update-UniqueIds id (extends epoch ttl now) db.jobs u

beat-lost :
    (fate : Fate) (id : String) (epoch ttl now : ℕ) (db : Db)
    → UniqueIds db.jobs
    → let x = under fate db (extend_lease id epoch ttl now db) in
      x.1 ≡ ok false → (r : Row) → find_row id x.0.jobs ≡ some r → fence epoch r ≡ false
beat-lost fate id epoch ttl now db u h r f =
    let (answer, landed) = under-ok fate db (extend_lease id epoch ttl now db) h in
    extend_lease-refused id epoch ttl now db r u answer
      (ap (λ d. find_row id d.jobs) (sym landed) ∙ f)

-- The heartbeat cancels a handler for a reason: because the lease is lost only when the job is no
-- longer RUNNING under the handler's epoch, and because of a request only when some tick saw the
-- cancel flag.
pub heartbeat-Justified :
    (id : String) (epoch ttl : ℕ) (ts : List Tick) (db : Db)
    → UniqueIds db.jobs
    → KeepIds ts
    → Justified id epoch ts (heartbeat id epoch ttl ts db)
unfolding heartbeat
heartbeat-Justified id epoch ttl [] db u k =
    ((λ c. absurd (grind (arith, c))), (λ c. absurd (grind (arith, c))))
heartbeat-Justified id epoch ttl (t ∷ ts) db u k =
    let db' = t.meanwhile db in
    let u' = k.0 db u in
    let call = extend_lease id epoch ttl t.at db' in
    let x = under t.to_extend db' call in
    after_extend-Justified id epoch t ts (heartbeat id epoch ttl ts) x
      (beat-lost t.to_extend id epoch ttl t.at db' u') t.flag refl
      (heartbeat-Justified id epoch ttl ts x.0
        (elim (under-effect t.to_extend db' call) [
          | inl done ↦
              subst (λ d. UniqueIds d.jobs) (sym done)
                (extend_lease-UniqueIds id epoch ttl t.at db' u')
          | inr same ↦ subst (λ d. UniqueIds d.jobs) (sym same) u'
        ])
        k.1)
