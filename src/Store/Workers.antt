-- ===== src/Store/Workers.antt =====
-- internal/store/store.go: the table `workers`: heartbeats, the list, and the mark of dead ones.
use calligraphy.Base.{
  ℕ, ◌+◌, ◌≤◌, ◌≡◌, refl, ◌≢◌, String, List, [], ◌∷◌, Bool, not, ◌&&◌, Option, none, some,
  if◌then◌else◌, ltb, leb, Bool-cases, inl, inr, str_eq, eq_iff, eq_refl, arith,
}
use calligraphy.Store.Db.{WorkerRow}

-- What a heartbeat reports (`WorkerInfo` as `UpsertWorker` reads it).
pub record WorkerInfo : Type 0 where
  pub id : String
  pub hostname : String
  pub pid : ℕ
  pub concurrency : ℕ
  pub target_concurrency : ℕ
  pub active_jobs : ℕ
  pub processed : ℕ
  pub state : String

abbrev pub row_of_worker : WorkerInfo → ℕ → WorkerRow
row_of_worker w now = record {
  id = w.id;
  hostname = w.hostname;
  pid = w.pid;
  concurrency = w.concurrency;
  target_concurrency = w.target_concurrency;
  active_jobs = w.active_jobs;
  processed = w.processed;
  state = w.state;
  started_at = now;
  last_heartbeat_at = now;
}

-- ON CONFLICT (id) DO UPDATE: host, pid and start stay.
abbrev pub beat : WorkerInfo → ℕ → WorkerRow → WorkerRow
beat w now r = record r {
  concurrency = w.concurrency;
  target_concurrency = w.target_concurrency;
  active_jobs = w.active_jobs;
  processed = w.processed;
  state = w.state;
  last_heartbeat_at = now;
}

unfoldable pub upsert_worker : WorkerInfo → ℕ → List WorkerRow → List WorkerRow
upsert_worker w now [] = row_of_worker w now ∷ []
upsert_worker w now (r ∷ rs) =
    let rest = upsert_worker w now rs in if str_eq r.id w.id then beat w now r ∷ rs else r ∷ rest

-- ORDER BY started_at.
unfoldable pub insert_by_start : WorkerRow → List WorkerRow → List WorkerRow
insert_by_start w [] = w ∷ []
insert_by_start w (v ∷ vs) =
    let rest = insert_by_start w vs in
    if leb w.started_at v.started_at then w ∷ v ∷ vs else v ∷ rest

unfoldable pub list_workers : List WorkerRow → List WorkerRow
unfolding insert_by_start
list_workers [] = []
list_workers (w ∷ ws) = insert_by_start w (list_workers ws)

abbrev pub is_dead : ℕ → ℕ → WorkerRow → Bool
is_dead cutoff now w = ltb (w.last_heartbeat_at + cutoff) now && not (str_eq w.state "gone")

-- The table, and the number of rows affected.
unfoldable pub mark_dead_workers : ℕ → ℕ → List WorkerRow → List WorkerRow × ℕ
mark_dead_workers cutoff now [] = ([], 0)
mark_dead_workers cutoff now (w ∷ ws) =
    let (rest, n) = mark_dead_workers cutoff now ws in
    if is_dead cutoff now w then (record w { state = "gone" } ∷ rest, n + 1) else (w ∷ rest, n)

unfoldable pub find_worker : String → List WorkerRow → Option WorkerRow
find_worker id [] = none
find_worker id (w ∷ ws) = if str_eq w.id id then some w else find_worker id ws

-- Statements of others, and their times.
pub data WorkerOp : Type 0 where
  beats : WorkerInfo → ℕ → WorkerOp
  marks : ℕ → ℕ → WorkerOp

unfoldable pub workers_step : WorkerOp → List WorkerRow → List WorkerRow
unfolding upsert_worker mark_dead_workers
workers_step (beats w now) ws = upsert_worker w now ws
workers_step (marks cutoff now) ws = (mark_dead_workers cutoff now ws).0

unfoldable pub workers_run : List WorkerOp → List WorkerRow → List WorkerRow
workers_run [] ws = ws
workers_run (op ∷ ops) ws = workers_run ops (workers_step op ws)

-- A statement that is another worker's heartbeat, or a mark before the cutoff has passed since.
abbrev pub Spares : String → ℕ → WorkerOp → Type 0
Spares id beat_at (beats w now) = w.id ≢ id
Spares id beat_at (marks cutoff now) = now ≤ beat_at + cutoff

abbrev pub SparesAll : String → ℕ → List WorkerOp → Type 0
SparesAll id beat_at [] = Unit {0}
SparesAll id beat_at (op ∷ ops) = Spares id beat_at op × SparesAll id beat_at ops

find-upsert_ne :
    (id : String) (w : WorkerInfo) (now : ℕ) (ws : List WorkerRow)
    → w.id ≢ id
    → find_worker id (upsert_worker w now ws) ≡ find_worker id ws
unfolding find_worker upsert_worker
find-upsert_ne id w now [] n = grind (arith, n, eq_iff w.id id)
find-upsert_ne id w now (r ∷ rs) n =
    grind (arith, find-upsert_ne id w now rs n, n, eq_iff r.id w.id, eq_iff r.id id)

find-mark :
    (id : String) (cutoff now : ℕ) (ws : List WorkerRow) (r : WorkerRow)
    → find_worker id ws ≡ some r
    → now ≤ r.last_heartbeat_at + cutoff
    → find_worker id (mark_dead_workers cutoff now ws).0 ≡ some r
unfolding find_worker mark_dead_workers
find-mark id cutoff now [] r h l = absurd (grind (arith, h))
find-mark id cutoff now (w ∷ ws) r h l = grind (arith, find-mark id cutoff now ws r, h, l)

run-spared :
    (id : String) (ops : List WorkerOp) (ws : List WorkerRow) (r : WorkerRow)
    → find_worker id ws ≡ some r
    → SparesAll id r.last_heartbeat_at ops
    → find_worker id (workers_run ops ws) ≡ some r
unfolding workers_run workers_step
run-spared id [] ws r h s = h
run-spared id (beats w now ∷ ops) ws r h s =
    run-spared id ops (upsert_worker w now ws) r (grind (arith, h, find-upsert_ne id w now ws s.0))
      s.1
run-spared id (marks cutoff now ∷ ops) ws r h s =
    run-spared id ops (mark_dead_workers cutoff now ws).0 r (find-mark id cutoff now ws r h s.0) s.1

find-upsert_self :
    (w : WorkerInfo) (now : ℕ) (ws : List WorkerRow)
    → (r : WorkerRow) × (find_worker w.id (upsert_worker w now ws) ≡ some r)
      × (r.state ≡ w.state)
      × (r.last_heartbeat_at ≡ now)
unfolding find_worker upsert_worker
find-upsert_self w now [] = (row_of_worker w now, grind (arith, eq_refl w.id), refl, refl)
find-upsert_self w now (r ∷ rs) = elim (Bool-cases (str_eq r.id w.id)) [
  | inl e ↦ (beat w now r, grind (arith, e), refl, refl)
  | inr e ↦
      let (x, found, state, at) = find-upsert_self w now rs in
      (x, grind (arith, e, found), state, at)
]

-- A worker that has reported is listed with what it reported, until its next heartbeat or until a
-- mark whose cutoff has passed since: others' heartbeats and earlier marks leave its row alone.
pub heartbeat_holds :
    (w : WorkerInfo) (now : ℕ) (ws : List WorkerRow) (ops : List WorkerOp)
    → SparesAll w.id now ops
    → (r : WorkerRow) × (find_worker w.id (workers_run ops (upsert_worker w now ws)) ≡ some r)
      × (r.state ≡ w.state)
      × (r.last_heartbeat_at ≡ now)
heartbeat_holds w now ws ops s =
    let (r, found, state, at) = find-upsert_self w now ws in
    (r, run-spared w.id ops (upsert_worker w now ws) r found (rw at s), state, at)
