-- ===== src/Control/Events.antt =====
-- internal/control/server.go: what happens at the hub, and the invariant of its sessions.
use calligraphy.Base.{
  ℕ, ◌≤◌, ◌<◌, ◌≡◌, String, List, [], ◌∷◌, false, some, if◌then◌else◌, ltb, length,
}
use calligraphy.Control.Hub.{
  Hub, Hello, Stats, Command, lookup, register, unregister, update_stats, send, push, take_command,
}

-- What happens at the hub: a stream gets its hello, or ends, or brings stats; an operator sends a
-- command; a sender goroutine takes one. `send` gives up the mutex between its lookup and its push,
-- so a push may also come later, into a session that was in the map before: `pushes`. Streams are
-- those that were opened.
pub data Event : Type 0 where
  connects : Hello → ℕ → Event
  ends : ℕ → Event
  reports : ℕ → Stats → ℕ → Event
  sends : String → String × Command → Event
  pushes : ℕ → String × Command → Event
  takes : ℕ → Event

abbrev pub opened : ℕ → Hub → Hub → Hub
opened k h h' = if ltb k h.next then h' else h

unfoldable pub react : Event → Hub → Hub
unfolding register unregister update_stats send push take_command
react (connects hello now) h = register hello now h
react (ends k) h = opened k h (unregister k h)
react (reports k stats now) h = opened k h (update_stats k stats now h)
react (sends id cmd) h = (send id cmd h).0
react (pushes k cmd) h = opened k h (push k cmd h).0
react (takes k) h = opened k h (take_command k h).0

unfoldable pub reacts : List Event → Hub → Hub
reacts [] h = h
reacts (e ∷ es) h = reacts es (react e h)

-- The map lists exactly the sessions that are open, each under its worker, and no queue is longer
-- than the channel's buffer.
pub record Live (h : Hub) : Type 0 where
  pub known : (id : String) (k : ℕ) → lookup id h.sessions ≡ some k → k < h.next
  pub named :
      (id : String) (k : ℕ) → lookup id h.sessions ≡ some k → (h.heap k).hello.worker_id ≡ id
  pub open_if_listed :
      (id : String) (k : ℕ) → lookup id h.sessions ≡ some k → (h.heap k).done ≡ false
  pub listed_if_open :
      (k : ℕ)
      → k < h.next
      → (h.heap k).done ≡ false
      → lookup (h.heap k).hello.worker_id h.sessions ≡ some k
  pub bounded : (k : ℕ) → k < h.next → length (h.heap k).cmds ≤ 16
