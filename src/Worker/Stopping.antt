-- ===== src/Worker/Stopping.antt =====
-- internal/worker/worker.go: what Run has done at each phase of the shutdown.
use calligraphy.Base.{
  ◌≡◌, refl, ◌∙◌, inl, inr, [], true, false, Option, none, some, Option-cases, arith,
}
use calligraphy.Store.Batcher.{Batcher}
use calligraphy.Store.Batcher
use calligraphy.Worker.Pool.{Pool}
use calligraphy.Worker.Pool
use calligraphy.Worker.Shutdown.{
  Runtime, Move, runs, times_out, pool_moves, batcher_moves, beats, ticks, returns, signal, aside,
  pool_done, batcher_allows, batcher_done,
}

-- A loop that has ended does not wait for a fetch.
abbrev pub Returned : Pool → Type 0
Returned p = p.ended ≡ true → p.asked ≡ none

pool_move-Returned : (m : Pool.Move) (p q : Pool) → Pool.move m p ≡ some q → Returned p → Returned q
unfolding Pool.move
pool_move-Returned Pool.turns p q e h d = ground (arith, h)
pool_move-Returned (Pool.fetches k) p q e h d = ground (arith, h)
pool_move-Returned _ p q e h d = grind (arith, h)

pool_move-stopped :
    (m : Pool.Move) (p q : Pool) → Pool.move m p ≡ some q → p.stopped ≡ true → q.stopped ≡ true
unfolding Pool.move
pool_move-stopped Pool.turns p q e h = ground arith
pool_move-stopped _ p q e h = ground arith

pool_move-done :
    (m : Pool.Move) (p q : Pool)
    → Pool.move m p ≡ some q
    → Returned p
    → pool_done p ≡ true
    → pool_done q ≡ true
unfolding Pool.move
pool_move-done Pool.turns p q e r h = grind (arith, r)
pool_move-done _ p q e r h = grind (arith, r)

-- Before Stop.
abbrev pub Idle : Option Batcher → Type 0
Idle none = Unit {0}
Idle (some b) = (b.stopped ≡ false) × (b.draining ≡ false) × (b.ended ≡ false)

abbrev pub Emptied : Option Batcher → Type 0
Emptied none = Unit {0}
Emptied (some b) = b.ended ≡ true → (b.pending ≡ []) × (b.queued ≡ [])

abbrev pub Halted : Option Batcher → Type 0
Halted none = Unit {0}
Halted (some b) = b.stopped ≡ true

batcher_move-Halted :
    (m : Batcher.Move) (b c : Batcher)
    → Batcher.move m b ≡ some c
    → b.stopped ≡ true
    → c.stopped ≡ true
unfolding Batcher.move
batcher_move-Halted Batcher.stops b c e h = ground arith
batcher_move-Halted _ b c e h = grind arith

batcher_move-Idle :
    (m : Batcher.Move) (p : Pool) (b c : Batcher)
    → batcher_allows m p ≡ true
    → Batcher.move m b ≡ some c
    → Idle (some b)
    → Idle (some c)
unfolding Batcher.move
batcher_move-Idle Batcher.stops p b c a e h = absurd (ground arith)
batcher_move-Idle _ p b c a e h = grind (arith, h)

batcher_move-ended :
    (m : Batcher.Move) (b c : Batcher) → Batcher.move m b ≡ some c → b.ended ≡ true → c.ended ≡ true
unfolding Batcher.move
batcher_move-ended Batcher.stops b c e h = ground arith
batcher_move-ended _ b c e h = grind arith

batcher_move-Emptied :
    (m : Batcher.Move) (p : Pool) (b c : Batcher)
    → batcher_allows m p ≡ true
    → Batcher.move m b ≡ some c
    → pool_done p ≡ true
    → Emptied (some b)
    → Emptied (some c)
unfolding Batcher.move
batcher_move-Emptied (Batcher.submits o) p b c a e d h k = absurd (grind arith)
batcher_move-Emptied Batcher.stops p b c a e d h k = absurd (ground arith)
batcher_move-Emptied Batcher.leaves p b c a e d h k = grind (arith, h)
batcher_move-Emptied _ p b c a e d h k = grind (arith, h)

-- What every goroutine but the main one leaves as it is.
pub record Carries (w v : Runtime) : Type 0 where
  pub returned : Returned w.pool → Returned v.pool
  pub stopped : w.pool.stopped ≡ true → v.pool.stopped ≡ true
  pub done : Returned w.pool → pool_done w.pool ≡ true → pool_done v.pool ≡ true
  pub idle : Idle w.batcher → Idle v.batcher
  pub emptied : pool_done w.pool ≡ true → Emptied w.batcher → Emptied v.batcher
  pub halted : Halted w.batcher → Halted v.batcher
  pub batched : batcher_done w.batcher ≡ true → batcher_done v.batcher ≡ true
  pub reported : w.hb_ended ≡ true → (v.hb_ended ≡ true) × (v.upserts ≡ w.upserts)
  pub beats_stopped : w.hb_stopped ≡ true → v.hb_stopped ≡ true
  pub left : w.abandoned ≡ true → v.abandoned ≡ true
  pub queue_same : v.queue_open ≡ w.queue_open
  pub store_same : v.store_open ≡ w.store_open

Carries-self :
    (w v : Runtime)
    → v.pool ≡ w.pool
    → v.batcher ≡ w.batcher
    → (w.hb_ended ≡ true → (v.hb_ended ≡ true) × (v.upserts ≡ w.upserts))
    → v.hb_stopped ≡ w.hb_stopped
    → v.abandoned ≡ w.abandoned
    → v.queue_open ≡ w.queue_open
    → v.store_open ≡ w.store_open
    → Carries w v
Carries-self w v p b r s l q o = record {
  returned = λ h. rw p h;
  stopped = λ h. rw p h;
  done = λ _ h. rw p h;
  idle = λ h. rw b h;
  emptied = λ _ h. rw b h;
  halted = λ h. rw b h;
  batched = λ h. rw b h;
  reported = r;
  beats_stopped = λ h. s ∙ h;
  left = λ h. l ∙ h;
  queue_same = q;
  store_same = o;
}

pool_step-Carries :
    (m : Pool.Move) (w : Runtime) (q : Pool)
    → Pool.move m w.pool ≡ some q
    → Carries w (record w { pool = q })
pool_step-Carries m w q e = record {
  returned = pool_move-Returned m w.pool q e;
  stopped = pool_move-stopped m w.pool q e;
  done = pool_move-done m w.pool q e;
  idle = λ h. h;
  emptied = λ _ h. h;
  halted = λ h. h;
  batched = λ h. h;
  reported = λ h. (h, refl);
  beats_stopped = λ h. h;
  left = λ h. h;
  queue_same = refl;
  store_same = refl;
}

batcher_step-Carries :
    (m : Batcher.Move) (w : Runtime) (b c : Batcher)
    → w.batcher ≡ some b
    → batcher_allows m w.pool ≡ true
    → Batcher.move m b ≡ some c
    → Carries w (record w { batcher = some c })
batcher_step-Carries m w b c e a s = record {
  returned = λ h. h;
  stopped = λ h. h;
  done = λ _ h. h;
  idle = λ h. batcher_move-Idle m w.pool b c a s (rw e at h);
  emptied = λ d h. batcher_move-Emptied m w.pool b c a s d (rw e at h);
  halted = λ h. batcher_move-Halted m b c s (rw e at h);
  batched = λ h. batcher_move-ended m b c s (rw e at h);
  reported = λ h. (h, refl);
  beats_stopped = λ h. h;
  left = λ h. h;
  queue_same = refl;
  store_same = refl;
}

pub aside-Carries : (m : Move) (w v : Runtime) → aside m w ≡ some v → Carries w v
unfolding aside
aside-Carries (pool_moves m) w v e = elim (Option-cases (Pool.move m w.pool)) [
  | inl n ↦ absurd (ground (arith, n))
  | inr (q, s) ↦
      let here : v ≡ record w { pool = q } = ground (arith, s) in
      rw here (pool_step-Carries m w q s)
]
aside-Carries (batcher_moves m) w v e = elim (Option-cases w.batcher) [
  | inl n ↦ absurd (grind (arith, n))
  | inr (b, s) ↦ elim (Option-cases (Batcher.move m b)) [
    | inl n ↦ absurd (grind (arith, s, n))
    | inr (c, k) ↦
        let here : v ≡ record w { batcher = some c } = grind (arith, s, k) in
        let allowed : batcher_allows m w.pool ≡ true = grind (arith, s, k) in
        rw here (batcher_step-Carries m w b c s allowed k)
  ]
]
aside-Carries beats w v e =
    Carries-self w v (ground arith) (ground arith) (λ h. absurd (ground arith)) (ground arith)
      (ground arith) (ground arith) (ground arith)
aside-Carries ticks w v e =
    Carries-self w v (ground arith) (ground arith) (λ h. absurd (ground arith)) (ground arith)
      (ground arith) (ground arith) (ground arith)
aside-Carries returns w v e =
    Carries-self w v (ground arith) (ground arith) (λ h. absurd (ground arith)) (ground arith)
      (ground arith) (ground arith) (ground arith)
aside-Carries signal w v e =
    Carries-self w v (ground arith) (ground arith) (λ h. (ground arith, ground arith))
      (ground arith) (ground arith) (ground arith) (ground arith)
aside-Carries runs w v e = absurd (ground arith)
aside-Carries times_out w v e = absurd (ground arith)
