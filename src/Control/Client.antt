-- ===== src/Control/Client.antt =====
-- internal/control/client.go: the worker's end: the commands on its pool, and the pause before it
-- connects again. Durations are nanoseconds.
use calligraphy.Base.{
  ℕ, ◌%◌, ◌*◌, ◌≤◌, ◌<◌, ◌≡◌, refl, inl, inr, String, List, [], ◌∷◌, ◌++◌, Bool, true, false, some,
  if◌then◌else◌, ltb, length, Bool-cases, arith, slt, ok,
}
use calligraphy.Worker.Pool.{Pool, move, or_stay, sets_target, sets_paused}
use calligraphy.Control.Hub.{
  Hub, Command, drain, pause, resume, set_concurrency, lookup, send, push, send_concurrency,
}

pub record Worker : Type 0 where
  pub pool : Pool
  pub draining : Bool

-- An int32 as an int, for `SetTarget`, which raises what is below 1 to 1: a negative one is 0 here.
abbrev pub target_of : ℕ → ℕ
target_of t = if ltb t 2147483648 then t else 0

-- `dispatch`, with the detail of its ack; `OnDrain` may be nil.
unfoldable pub dispatch : Bool → Command → Worker → Worker × String
unfolding move
dispatch on_drain drain w = (if on_drain then record w { draining = true } else w, "draining")
dispatch on_drain pause w =
    (record w { pool = or_stay (move (sets_paused true) w.pool) w.pool }, "paused")
dispatch on_drain resume w =
    (record w { pool = or_stay (move (sets_paused false) w.pool) w.pool }, "resumed")
dispatch on_drain (set_concurrency t) w = (
  record w { pool = or_stay (move (sets_target (target_of t)) w.pool) w.pool },
  "concurrency updated",
)

-- The receiving loop over the commands of the stream.
unfoldable pub dispatches : Bool → List (String × Command) → Worker → Worker
dispatches on_drain [] w = w
dispatches on_drain ((id, c) ∷ cs) w = dispatches on_drain cs (dispatch on_drain c w).0

-- `Run`: the next backoff, by whether `connectOnce` returned an error.
unfoldable pub next_backoff : Bool → ℕ → ℕ
next_backoff false backoff = 1000000000
next_backoff true backoff = if ltb backoff 30000000000 then backoff * 2 else backoff

unfoldable pub backoffs : List Bool → ℕ
unfolding next_backoff
backoffs [] = 1000000000
backoffs (failed ∷ earlier) = next_backoff failed (backoffs earlier)

-- However its connections ended, the client waits a second at least and a minute at most before
-- it connects again.
pub backoffs_bounds :
    (ends : List Bool) → (1000000000 ≤ backoffs ends) × (backoffs ends < 60000000000)
unfolding backoffs next_backoff
backoffs_bounds [] = omega arith
backoffs_bounds (failed ∷ earlier) = let (l, u) = backoffs_bounds earlier in grind (arith, l, u)

dispatches-append :
    (on_drain : Bool) (cs ds : List (String × Command)) (w : Worker)
    → dispatches on_drain (cs ++ ds) w ≡ dispatches on_drain ds (dispatches on_drain cs w)
unfolding dispatches
dispatches-append on_drain [] ds w = refl
dispatches-append on_drain ((id, c) ∷ cs) ds w =
    dispatches-append on_drain cs ds (dispatch on_drain c w).0

queued :
    (cmd_id id : String) (target k : ℕ) (h : Hub)
    → target < 2147483648
    → lookup id h.sessions ≡ some k
    → (send_concurrency cmd_id id target h).1 ≡ ok tt
    → ((send_concurrency cmd_id id target h).0.heap k).cmds
      ≡ (h.heap k).cmds ++ ((cmd_id, set_concurrency target) ∷ [])
unfolding send_concurrency send push
queued cmd_id id target k h u e sent =
    let small : target % 4294967296 ≡ target = omega (arith, u) in
    elim (Bool-cases (slt target 1)) [
      | inl bad ↦ absurd (grind (arith, bad, sent))
      | inr good ↦ elim (Bool-cases (ltb (length (h.heap k).cmds) 16)) [
        | inl room ↦ rw (good, e, room, small) (grind arith)
        | inr full ↦ absurd (grind (arith, good, e, full, sent))
      ]
    ]

-- A concurrency of 1 up to 2 ^ 31 - 1 that the hub accepts for a worker is its pool's target, once
-- the client has handled the commands that are in its session's queue then.
pub concurrency_arrives :
    (cmd_id id : String) (target k : ℕ) (on_drain : Bool) (h : Hub) (w : Worker)
    → 1 ≤ target
    → target < 2147483648
    → lookup id h.sessions ≡ some k
    → (send_concurrency cmd_id id target h).1 ≡ ok tt
    → (dispatches on_drain ((send_concurrency cmd_id id target h).0.heap k).cmds w).pool.target
      ≡ target
unfolding dispatches dispatch move
concurrency_arrives cmd_id id target k on_drain h w l u e sent =
    let cs = (h.heap k).cmds in
    rw
      (
        queued cmd_id id target k h u e sent,
        dispatches-append on_drain cs ((cmd_id, set_concurrency target) ∷ []) w,
      )
      (grind (arith, l, u))
