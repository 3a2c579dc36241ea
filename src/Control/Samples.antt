-- ===== src/Control/Samples.antt =====
-- A worker that reconnects before its old stream ends, and the hub's theorems at it.
use calligraphy.Base.{◌≡◌, refl, List, [], ◌∷◌, true, false, some, arith}
use calligraphy.Worker.Pool.{new_pool}
use calligraphy.Control.Hub.{
  Hub, Hello, drain, pause, lookup, new_session, send_concurrency, send, push, assign,
}
use calligraphy.Control.Events.{Event, connects, ends, sends, takes, react, reacts, Live}
use calligraphy.Control.Sessions.{reacts-Live}
use calligraphy.Control.Client.{Worker, dispatches, dispatch, backoffs}

abbrev hello : Hello
hello = record { worker_id = "w1"; hostname = "host"; pid = 7; types = [] }

abbrev start : Hub
start = record { sessions = []; heap = λ k. new_session hello 0; next = 0 }

start-Live : Live start
unfolding lookup
start-Live = record {
  known = λ id k l. absurd (grind (arith, l));
  named = λ id k l. absurd (grind (arith, l));
  open_if_listed = λ id k l. absurd (grind (arith, l));
  listed_if_open = λ k lt d. absurd (omega (arith, lt));
  bounded = λ k lt. absurd (omega (arith, lt));
}

-- The late end of the old stream leaves the new session in place.
abbrev story : List Event
story = connects hello 1 ∷ connects hello 2 ∷ ends 0 ∷ sends "w1" ("c1", pause) ∷ []

late_end_harmless : lookup "w1" (reacts story start).sessions ≡ some 1
unfolding reacts react lookup assign
late_end_harmless = refl

reacts-Live_example : Live (reacts story start)
reacts-Live_example = reacts-Live story start start-Live

abbrev connected : Hub
connected = record { sessions = ("w1", 0) ∷ []; heap = λ k. new_session hello 0; next = 1 }

abbrev orders : List Event
orders = sends "w1" ("c1", pause) ∷ takes 0 ∷ sends "w1" ("c2", drain) ∷ []

abbrev idle : Worker
idle = record { pool = new_pool 4 16; draining = false }

-- A target of 2 ^ 32 is accepted, and arrives as 1.
target_cut_off :
    (dispatches true
      ((send_concurrency "c1" "w1" 4294967296 connected).0.heap 0).cmds
      idle).pool.target
    ≡ 1
unfolding send_concurrency send push lookup dispatches dispatch
target_cut_off = refl

-- Six connections that end, whether they lasted or not, leave the longest pause.
backoff_grows : backoffs (true ∷ true ∷ true ∷ true ∷ true ∷ true ∷ []) ≡ 32000000000
unfolding backoffs
backoff_grows = refl
