-- ===== src/Worker/Phases.antt =====
-- internal/worker/worker.go: what Run has seen to at each phase of the shutdown.
use calligraphy.Base.{◌≡◌, refl, ap, ◌∙◌, ◌⊎◌, inl, inr, String, List, [], ◌∷◌, ◌++◌, true, false}
use calligraphy.Store.Workers.{WorkerInfo}
use calligraphy.Worker.Shutdown.{
  Phase, serving, draining, cancelling, settling, flushing, reporting, closing, closed, Runtime,
  System, pool_done, batcher_done,
}
use calligraphy.Worker.Stopping.{Returned, Idle, Emptied, Halted, Carries}

abbrev pub last_state : List WorkerInfo → String
last_state [] = ""
last_state (i ∷ []) = i.state
last_state (i ∷ j ∷ is) = last_state (j ∷ is)

pub last_state-append :
    (is : List WorkerInfo) (i : WorkerInfo) → last_state (is ++ i ∷ []) ≡ i.state
last_state-append [] i = refl
last_state-append (j ∷ []) i = refl
last_state-append (j ∷ k ∷ is) i = last_state-append (k ∷ is) i

abbrev pub Open : Runtime → Type 0
Open w = (w.queue_open ≡ true) × (w.store_open ≡ true)

abbrev pub Flushed : Runtime → Type 0
Flushed w = ((pool_done w.pool ≡ true) × Emptied w.batcher) ⊎ (w.abandoned ≡ true)

abbrev pub Quiet : Runtime → Type 0
Quiet w = (pool_done w.pool ≡ true) ⊎ (w.abandoned ≡ true)

-- What Run has seen to at each of its phases.
abbrev pub Kept : Phase → Runtime → Type 0
Kept serving w = Returned w.pool × Open w × Idle w.batcher
Kept draining w = Returned w.pool × Open w × Idle w.batcher × (w.pool.stopped ≡ true)
Kept cancelling w = Returned w.pool × Open w × Idle w.batcher × (w.pool.stopped ≡ true)
Kept settling w =
    Returned w.pool
    × Open w
    × Idle w.batcher
    × (w.pool.stopped ≡ true)
    × Quiet w
    × (w.hb_stopped ≡ true)
Kept flushing w =
    Returned w.pool
    × Open w
    × Flushed w
    × (w.pool.stopped ≡ true)
    × (w.hb_ended ≡ true)
    × Halted w.batcher
Kept reporting w =
    Returned w.pool
    × Open w
    × Flushed w
    × (w.pool.stopped ≡ true)
    × (w.hb_ended ≡ true)
    × (batcher_done w.batcher ≡ true)
Kept closing w =
    Returned w.pool
    × Open w
    × Flushed w
    × (w.pool.stopped ≡ true)
    × (w.hb_ended ≡ true)
    × (batcher_done w.batcher ≡ true)
    × (last_state w.upserts ≡ "draining")
Kept closed w =
    Returned w.pool
    × ((w.queue_open ≡ false) × (w.store_open ≡ false))
    × Flushed w
    × (w.pool.stopped ≡ true)
    × (w.hb_ended ≡ true)
    × (batcher_done w.batcher ≡ true)
    × (last_state w.upserts ≡ "draining")

Open-carried : (w v : Runtime) → Carries w v → Open w → Open v
Open-carried w v c o = (c.queue_same ∙ o.0, c.store_same ∙ o.1)

Flushed-carried : (w v : Runtime) → Carries w v → Returned w.pool → Flushed w → Flushed v
Flushed-carried w v c r (inl (d, e)) = inl (c.done r d, c.emptied d e)
Flushed-carried w v c r (inr a) = inr (c.left a)

Quiet-carried : (w v : Runtime) → Carries w v → Returned w.pool → Quiet w → Quiet v
Quiet-carried w v c r (inl d) = inl (c.done r d)
Quiet-carried w v c r (inr a) = inr (c.left a)

pub Kept-carried : (p : Phase) (w v : Runtime) → Carries w v → Kept p w → Kept p v
Kept-carried serving w v c (r, o, i) = (c.returned r, Open-carried w v c o, c.idle i)
Kept-carried draining w v c (r, o, i, t) =
    (c.returned r, Open-carried w v c o, c.idle i, c.stopped t)
Kept-carried cancelling w v c (r, o, i, t) =
    (c.returned r, Open-carried w v c o, c.idle i, c.stopped t)
Kept-carried settling w v c (r, o, i, t, d, h) = (
  c.returned r,
  Open-carried w v c o,
  c.idle i,
  c.stopped t,
  Quiet-carried w v c r d,
  c.beats_stopped h,
)
Kept-carried flushing w v c (r, o, f, t, h, a) = (
  c.returned r,
  Open-carried w v c o,
  Flushed-carried w v c r f,
  c.stopped t,
  (c.reported h).0,
  c.halted a,
)
Kept-carried reporting w v c (r, o, f, t, h, b) = (
  c.returned r,
  Open-carried w v c o,
  Flushed-carried w v c r f,
  c.stopped t,
  (c.reported h).0,
  c.batched b,
)
Kept-carried closing w v c (r, o, f, t, h, b, l) = (
  c.returned r,
  Open-carried w v c o,
  Flushed-carried w v c r f,
  c.stopped t,
  (c.reported h).0,
  c.batched b,
  ap last_state (c.reported h).1 ∙ l,
)
Kept-carried closed w v c (r, o, f, t, h, b, l) = (
  c.returned r,
  (c.queue_same ∙ o.0, c.store_same ∙ o.1),
  Flushed-carried w v c r f,
  c.stopped t,
  (c.reported h).0,
  c.batched b,
  ap last_state (c.reported h).1 ∙ l,
)

abbrev pub KeptSystem : System → Type 0
KeptSystem s = Kept s.0 s.1
