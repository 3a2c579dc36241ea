-- ===== src/Control/Hub.antt =====
-- internal/control/server.go: the hub. A session is a reference into a heap, as the map holds
-- pointers and a stream keeps its own; its channel `cmds` is a queue of at most 16 commands, and
-- `done` says that its channel of that name is closed. The mutex makes each method one step, but
-- for `send`, which gives it up before its push: the push alone is a step of the hub too.
use calligraphy.Base.{
  ℕ, ◌+◌, ◌%◌, String, List, [], ◌∷◌, ◌++◌, map, Bool, true, false, Option, none, some,
  if◌then◌else◌, ◌==◌, ltb, slt, length, str_eq, Result, ok, err,
}

-- `pb.Command`; the target is an int32, by its bit pattern.
pub data Command : Type 0 where
  drain pause resume : Command
  set_concurrency : ℕ → Command

pub record Hello : Type 0 where
  pub worker_id : String
  pub hostname : String
  pub pid : ℕ
  pub types : List String

-- `pb.WorkerStats`, without the utilization.
pub record Stats : Type 0 where
  pub active : ℕ
  pub target : ℕ
  pub processed : ℕ
  pub paused : Bool

pub record Session : Type 0 where
  pub hello : Hello
  pub stats : Option Stats
  pub connected_at : ℕ
  pub last_stats_at : ℕ
  pub cmds : List (String × Command)
  pub done : Bool

-- The map by worker, the sessions by reference, and the next reference.
pub record Hub : Type 0 where
  pub sessions : List (String × ℕ)
  pub heap : ℕ → Session
  pub next : ℕ

unfoldable pub lookup : String → List (String × ℕ) → Option ℕ
lookup id [] = none
lookup id ((j, k) ∷ m) = if str_eq j id then some k else lookup id m

unfoldable pub assign : String → ℕ → List (String × ℕ) → List (String × ℕ)
assign id k [] = (id, k) ∷ []
assign id k ((j, v) ∷ m) =
    let rest = assign id k m in if str_eq j id then (id, k) ∷ m else (j, v) ∷ rest

unfoldable pub delete : String → List (String × ℕ) → List (String × ℕ)
delete id [] = []
delete id ((j, v) ∷ m) = let rest = delete id m in if str_eq j id then rest else (j, v) ∷ rest

abbrev pub put : ℕ → Session → (ℕ → Session) → ℕ → Session
put k s heap n = if n == k then s else heap n

-- `terminate`: closing once.
unfoldable pub terminate : ℕ → Hub → Hub
terminate k h = record h { heap = put k (record (h.heap k) { done = true }) h.heap }

abbrev pub new_session : Hello → ℕ → Session
new_session hello now = record {
  hello = hello;
  stats = none;
  connected_at = now;
  last_stats_at = 0;
  cmds = [];
  done = false;
}

abbrev pub evict : Option ℕ → Hub → Hub
evict none h = h
evict (some old) h = terminate old h

-- WorkerStream after its hello: a new session, registered over the one that was there.
unfoldable pub register : Hello → ℕ → Hub → Hub
unfolding terminate
register hello now h =
    let h' = evict (lookup hello.worker_id h.sessions) h in
    record {
      sessions = assign hello.worker_id h.next h.sessions;
      heap = put h.next (new_session hello now) h'.heap;
      next = h.next + 1;
    }

abbrev pub is_current : Option ℕ → ℕ → Bool
is_current none k = false
is_current (some j) k = j == k

-- The deferred call at the end of the stream of session k.
unfoldable pub unregister : ℕ → Hub → Hub
unfolding terminate
unregister k h =
    let id = (h.heap k).hello.worker_id in
    let h' = terminate k h in
    if is_current (lookup id h.sessions) k
    then record h' { sessions = delete id h.sessions }
    else h'

unfoldable pub update_stats : ℕ → Stats → ℕ → Hub → Hub
update_stats k stats now h = record h {
  heap = put k (record (h.heap k) { stats = some stats; last_stats_at = now }) h.heap;
}

pub record WorkerView : Type 0 where
  pub id : String
  pub hello : Hello
  pub stats : Option Stats
  pub connected_at : ℕ
  pub last_stats_at : ℕ

abbrev pub view : (ℕ → Session) → String × ℕ → WorkerView
view heap (id, k) =
    let s = heap k in
    record {
      id = id;
      hello = s.hello;
      stats = s.stats;
      connected_at = s.connected_at;
      last_stats_at = s.last_stats_at;
    }

unfoldable pub workers : Hub → List WorkerView
workers h = map (view h.heap) h.sessions

pub data SendError : Type 0 where
  not_connected queue_full bad_target : SendError

unfoldable pub push : ℕ → String × Command → Hub → Hub × Result SendError (Unit {0})
push k cmd h =
    let s = h.heap k in
    if ltb (length s.cmds) 16
    then (record h { heap = put k (record s { cmds = s.cmds ++ (cmd ∷ []) }) h.heap }, ok tt)
    else (h, err queue_full)

abbrev pub send_to : Option ℕ → String × Command → Hub → Hub × Result SendError (Unit {0})
send_to none cmd h = (h, err not_connected)
send_to (some k) cmd h = push k cmd h

-- A command with its id.
unfoldable pub send : String → String × Command → Hub → Hub × Result SendError (Unit {0})
unfolding push lookup
send id cmd h = send_to (lookup id h.sessions) cmd h

unfoldable pub send_drain : String → String → Hub → Hub × Result SendError (Unit {0})
unfolding send
send_drain cmd_id id h = send id (cmd_id, drain) h

unfoldable pub send_pause : String → String → Hub → Hub × Result SendError (Unit {0})
unfolding send
send_pause cmd_id id h = send id (cmd_id, pause) h

unfoldable pub send_resume : String → String → Hub → Hub × Result SendError (Unit {0})
unfolding send
send_resume cmd_id id h = send id (cmd_id, resume) h

-- The target is an int, converted to an int32 on its way.
unfoldable pub send_concurrency : String → String → ℕ → Hub → Hub × Result SendError (Unit {0})
unfolding send
send_concurrency cmd_id id target h =
    if slt target 1
    then (h, err bad_target)
    else send id (cmd_id, set_concurrency (target % 4294967296)) h

-- The sender goroutine of session k takes a command. It may do so after `done` is closed too, as
-- select is free between channels that are ready.
abbrev pub head_of : List (String × Command) → Option (String × Command)
head_of [] = none
head_of (c ∷ cs) = some c

abbrev pub tail_of : List (String × Command) → List (String × Command)
tail_of [] = []
tail_of (c ∷ cs) = cs

unfoldable pub take_command : ℕ → Hub → Hub × Option (String × Command)
take_command k h =
    let s = h.heap k in
    (record h { heap = put k (record s { cmds = tail_of s.cmds }) h.heap }, head_of s.cmds)
