-- ===== src/Worker/Pool.antt =====
-- internal/worker/pool.go: the bounded pool. The fetch loop and the other goroutines interleave, so
-- a run is a list of moves; `none` is a move that is not possible. Durations are milliseconds. The
-- int64 counters are natural numbers: `active` falls only when a job ends.
use calligraphy.Base.{
  ℕ, ◌+◌, ◌-◌, max, min, List, [], ◌∷◌, Bool, true, false, not, ◌&&◌, Option, none, some,
  if◌then◌else◌, ltb, ◌==◌, is_some,
}

pub record Pool : Type 0 where
  pub batch_max : ℕ
  pub target : ℕ
  pub active : ℕ
  pub paused : Bool
  pub processed : ℕ
  -- Where the loop is: the size that it asked of a fetch that has not returned, the deliveries
  -- that it has fetched and not yet started, and its error backoff.
  pub asked : Option ℕ
  pub claimed : ℕ
  pub err_backoff : ℕ
  -- fetchCtx is done, and the loop has ended.
  pub stopped : Bool
  pub ended : Bool

unfoldable pub new_pool : ℕ → ℕ → Pool
new_pool initial batch_max = record {
  batch_max = batch_max;
  target = initial;
  active = 0;
  paused = false;
  processed = 0;
  asked = none;
  claimed = 0;
  err_backoff = 0;
  stopped = false;
  ended = false;
}

pub data Move : Type 0 where
  turns : Move  -- the loop at its head
  fetches : ℕ → Move  -- fetch returned so many deliveries
  fetch_fails : Move
  starts : Move  -- one delivery of the last fetch gets its goroutine
  finishes : Move  -- a goroutine ends
  sets_target : ℕ → Move
  sets_paused : Bool → Move
  stops : Move  -- fetchCtx is cancelled

abbrev pub at_head : Pool → Bool
at_head p = not p.ended && (not (is_some p.asked) && (p.claimed == 0))

-- The head of the loop: out when stopped, a pause, a full pool, or the size of the next fetch.
unfoldable pub turn : Pool → Pool
turn p =
    if p.stopped
    then record p { ended = true }
    else if p.paused
    then p
    else let free = p.target - p.active in
      if free == 0 then p else record p { asked = some (min free p.batch_max) }

unfoldable pub fail_fetch : Pool → Pool
fail_fetch p = if p.stopped then record p { asked = none; ended = true } else record p {
  asked = none;
  err_backoff = if ltb p.err_backoff 5000 then p.err_backoff + 500 else p.err_backoff;
}

unfoldable pub move : Move → Pool → Option Pool
unfolding turn fail_fetch
move turns p = if at_head p then some (turn p) else none
move (fetches k) p =
    if is_some p.asked then some (record p { asked = none; claimed = k; err_backoff = 0 }) else none
move fetch_fails p = if is_some p.asked then some (fail_fetch p) else none
move starts p =
    if ltb 0 p.claimed
    then some (record p { claimed = p.claimed - 1; active = p.active + 1 })
    else none
move finishes p =
    if ltb 0 p.active
    then some (record p { active = p.active - 1; processed = p.processed + 1 })
    else none
move (sets_target n) p = some (record p { target = max 1 n })
move (sets_paused b) p = some (record p { paused = b })
move stops p = some (record p { stopped = true })

-- A schedule; a move that is not possible is passed over.
abbrev pub or_stay : Option Pool → Pool → Pool
or_stay none p = p
or_stay (some q) p = q

unfoldable pub schedule : List Move → Pool → Pool
schedule [] p = p
schedule (m ∷ ms) p = schedule ms (or_stay (move m p) p)
