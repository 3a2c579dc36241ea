-- ===== src/Control/Sessions.antt =====
-- internal/control/server.go: the hub's sessions in every history of its methods.
use calligraphy.Base.{ℕ, ◌<◌, ◌≡◌, inl, inr, List, [], ◌∷◌, false, ltb, Bool-cases, arith}
use calligraphy.Control.Hub.{Hub, unregister, update_stats, push, take_command}
use calligraphy.Control.Events.{
  Event, connects, ends, reports, sends, pushes, takes, opened, react, reacts, Live,
}
use calligraphy.Control.Steps.{
  send-Live, push-Live, take_command-Live, update_stats-Live, unregister-Live, register-Live,
}

opened-Live : (k : ℕ) (h h' : Hub) → Live h → Live h' → Live (opened k h h')
opened-Live k h h' w w' = elim (Bool-cases (ltb k h.next)) [ inl q ↦ rw q w' | inr q ↦ rw q w ]

react-Live : (e : Event) (h : Hub) → Live h → Live (react e h)
unfolding react
react-Live (connects hello now) h w = register-Live hello now h w
react-Live (ends k) h w = opened-Live k h (unregister k h) w (unregister-Live k h w)
react-Live (reports k s now) h w =
    opened-Live k h (update_stats k s now h) w (update_stats-Live k s now h w)
react-Live (sends id c) h w = send-Live id c h w
react-Live (pushes k c) h w = opened-Live k h (push k c h).0 w (push-Live k c h w)
react-Live (takes k) h w = opened-Live k h (take_command k h).0 w (take_command-Live k h w)

-- In every history of streams and commands, the hub's map lists exactly the open sessions, each
-- under its own worker, so that a worker has one open stream at most; and no queue of commands is
-- longer than 16.
pub reacts-Live : (es : List Event) (h : Hub) → Live h → Live (reacts es h)
unfolding reacts
reacts-Live [] h w = w
reacts-Live (e ∷ es) h w = reacts-Live es (react e h) (react-Live e h w)

-- Two open sessions of one worker are one session.
pub open_sessions_agree :
    (h : Hub) (i j : ℕ)
    → Live h
    → i < h.next
    → j < h.next
    → (h.heap i).done ≡ false
    → (h.heap j).done ≡ false
    → (h.heap i).hello.worker_id ≡ (h.heap j).hello.worker_id
    → i ≡ j
open_sessions_agree h i j w a b c d e =
    grind (arith, w.listed_if_open i a c, w.listed_if_open j b d, e)
