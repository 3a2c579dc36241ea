-- ===== src/Worker/Assembly.antt =====
-- internal/worker/worker.go: New. What each call answers is an argument; the calls are listed in
-- order.
use calligraphy.Base.{
  ℕ, suc, ◌==◌, refl, ◌⊎◌, inl, inr, ◌++◌, Bool-cases, ◌≡◌, String, List, [], ◌∷◌, Bool, true,
  false, Option, none, some, if◌then◌else◌, Result, ok, err, arith,
}
use calligraphy.Config.Load.{Config}
use calligraphy.Store.Batcher.{Batcher, new_batcher}
use calligraphy.Worker.Pool.{new_pool}
use calligraphy.Worker.Shutdown.{System, serving, new_runtime}

pub data Call : Type 0 where
  opens_store migrates opens_queue ensures_group closes_store closes_queue : Call

-- An error of a call; `E` is what the calls say.
pub record Answers (E : Type 0) : Type 0 where
  pub open_store : Result E (Unit {0})
  pub migrate : Result E (Unit {0})
  pub parse_url : Result E (Unit {0})  -- queue.New, before it has a client
  pub ping : Result E (Unit {0})  -- and with it
  pub ensure_group : Result E (Unit {0})

-- queue.New makes its client between the two, and does not close it when the ping fails.
abbrev pub queue_new : {E : Type 0} → Answers E → Result E (Unit {0})
queue_new a = elim a.parse_url [ err e ↦ err e | ok u ↦ a.ping ]

-- The recorder of New: the Batcher if writes are batched.
abbrev pub recorder_of : Config → Option Batcher
recorder_of cfg = if cfg.batch_writes then some (new_batcher cfg.batch_max_size) else none

unfoldable pub assemble : Config → String → ℕ → System
assemble cfg hostname pid =
    new_runtime cfg.worker_id hostname pid (new_pool cfg.concurrency cfg.fetch_batch)
      (recorder_of cfg)

-- The worker that the configuration asks for, as `New` leaves it before `Run`.
pub record Configured (cfg : Config) (hostname : String) (pid : ℕ) (s : System) : Type 0 where
  pub serves : s.0 ≡ serving
  pub named : (s.1.id ≡ cfg.worker_id) × (s.1.hostname ≡ hostname) × (s.1.pid ≡ pid)
  pub slots : (s.1.pool.target ≡ cfg.concurrency) × (s.1.pool.batch_max ≡ cfg.fetch_batch)
  pub idle :
      (s.1.pool.active ≡ 0)
      × (s.1.pool.claimed ≡ 0)
      × (s.1.pool.stopped ≡ false)
      × (s.1.pool.paused ≡ false)
  pub batches :
      ((cfg.batch_writes ≡ false) × (s.1.batcher ≡ none))
      ⊎ ((b : Batcher) × (cfg.batch_writes ≡ true)
          × (s.1.batcher ≡ some b)
          × (b.max_size ≡ cfg.batch_max_size)
          × (b.queued ++ b.pending ≡ []))
  pub connected : (s.1.queue_open ≡ true) × (s.1.store_open ≡ true)

assemble-Configured :
    (cfg : Config) (hostname : String) (pid : ℕ)
    → Configured cfg hostname pid (assemble cfg hostname pid)
unfolding assemble new_runtime new_pool new_batcher
assemble-Configured cfg hostname pid = record {
  serves = refl;
  named = (refl, refl, refl);
  slots = (refl, refl);
  idle = (refl, refl, refl, refl);
  batches = elim (Bool-cases cfg.batch_writes) [
    | inl e ↦ inr (new_batcher cfg.batch_max_size, e, ground (arith, e), refl, refl)
    | inr e ↦ inl (e, ground (arith, e))
  ];
  connected = (refl, refl);
}

module _ {E : Type 0} where
  abbrev pub after_group : Result E (Unit {0}) → Config → String → ℕ → List Call × Result E System
  after_group (err e) cfg hostname pid = (closes_store ∷ closes_queue ∷ [], err e)
  after_group (ok u) cfg hostname pid = ([], ok (assemble cfg hostname pid))

  abbrev pub after_queue : Answers E → Config → String → ℕ → List Call × Result E System
  after_queue a cfg hostname pid = elim (queue_new a) [
    | err e ↦ (closes_store ∷ [], err e)
    | ok u ↦
        let (calls, r) = after_group a.ensure_group cfg hostname pid in (ensures_group ∷ calls, r)
  ]

  abbrev pub after_open : Answers E → Config → String → ℕ → List Call × Result E System
  after_open a cfg hostname pid = elim a.migrate [
    | err e ↦ (closes_store ∷ [], err e)
    | ok u ↦ let (calls, r) = after_queue a cfg hostname pid in (opens_queue ∷ calls, r)
  ]

  unfoldable pub new : Answers E → Config → String → ℕ → List Call × Result E System
  new a cfg hostname pid = elim a.open_store [
    | err e ↦ (opens_store ∷ [], err e)
    | ok u ↦ let (calls, r) = after_open a cfg hostname pid in (opens_store ∷ migrates ∷ calls, r)
  ]

  -- Which connections are open after some calls: the store's, the queue's. `none` is a close of
  -- what is not open.
  abbrev opened : Bool → Result E (Unit {0}) → Bool
  opened b (ok u) = true
  opened b (err e) = b

  abbrev pub replay : Answers E → List Call → Bool × Bool → Option (Bool × Bool)
  replay a [] held = some held
  replay a (opens_store ∷ cs) (s, q) = replay a cs (opened s a.open_store, q)
  replay a (opens_queue ∷ cs) (s, q) = replay a cs (s, opened q a.parse_url)
  replay a (closes_store ∷ cs) (true, q) = replay a cs (false, q)
  replay a (closes_store ∷ cs) (false, q) = none
  replay a (closes_queue ∷ cs) (s, true) = replay a cs (s, false)
  replay a (closes_queue ∷ cs) (s, false) = none
  replay a (migrates ∷ cs) held = replay a cs held
  replay a (ensures_group ∷ cs) held = replay a cs held

  -- The calls that can fail, in order.
  abbrev pub outcomes : Answers E → List (Result E (Unit {0}))
  outcomes a = a.open_store ∷ a.migrate ∷ a.parse_url ∷ a.ping ∷ a.ensure_group ∷ []

  -- How many succeed before the first that fails, and its error.
  abbrev pub first_failure : List (Result E (Unit {0})) → ℕ → Option (ℕ × E)
  first_failure [] n = none
  first_failure (err e ∷ rs) n = some (n, e)
  first_failure (ok u ∷ rs) n = first_failure rs (suc n)

  -- What New answers, and which connections are open by then, by the first failure of its calls.
  -- The fourth call is the ping of queue.New.
  abbrev pub Answered :
      Config → String → ℕ → Option (ℕ × E) → Result E System → Option (Bool × Bool) → Type 0
  Answered cfg hostname pid none (ok s) held =
      Configured cfg hostname pid s × (held ≡ some (true, true))
  Answered cfg hostname pid none (err e) held = ⊥
  Answered cfg hostname pid (some (n, e)) (ok s) held = ⊥
  Answered cfg hostname pid (some (n, e)) (err d) held = (d ≡ e) × (held ≡ some (false, n == 3))

  -- New fails with the error of the first of its calls that failed, and otherwise returns the worker
  -- that the configuration asks for: its slots, its fetch batch, its recorder and its name, with both
  -- connections open. When it fails it has closed the store, once, if it was open, and the client of
  -- the queue too, but for one case: a ping that fails in queue.New leaves that client open.
  pub new-Answered :
      (a : Answers E) (cfg : Config) (hostname : String) (pid : ℕ)
      → let (calls, r) = new a cfg hostname pid in
        Answered cfg hostname pid (first_failure (outcomes a) 0) r (replay a calls (false, false))
  unfolding new
  new-Answered a cfg hostname pid =
      by_cases a.open_store a.migrate a.parse_url a.ping a.ensure_group
    where
      by_cases :
          (open_store migrate parse_url ping ensure_group : Result E (Unit {0}))
          → let b : Answers E = record {
            open_store = open_store;
            migrate = migrate;
            parse_url = parse_url;
            ping = ping;
            ensure_group = ensure_group;
          } in
            let (calls, r) = new b cfg hostname pid in
            Answered cfg hostname pid
              (first_failure (outcomes b) 0)
              r
              (replay b calls (false, false))
      by_cases (err e) m p i g = (refl, refl)
      by_cases (ok u) (err e) p i g = (refl, refl)
      by_cases (ok u) (ok v) (err e) i g = (refl, refl)
      by_cases (ok u) (ok v) (ok x) (err e) g = (refl, refl)
      by_cases (ok u) (ok v) (ok x) (ok y) (err e) = (refl, refl)
      by_cases (ok u) (ok v) (ok x) (ok y) (ok z) = (assemble-Configured cfg hostname pid, refl)
