-- ===== src/Control/Steps.antt =====
-- internal/control/server.go: each method of the hub keeps the invariant of its sessions.
use calligraphy.Base.{
  length-append, ℕ, ◌+◌, ◌≤◌, ◌<◌, ◌≡◌, refl, ◌≢◌, inl, inr, String, List, [], ◌∷◌, ◌++◌, true,
  false, Option, none, some, ltb, ◌==◌, length, Bool-cases, Option-cases, arith,
}
use calligraphy.Control.Maps.{
  lookup-assign_self, lookup-assign_ne, lookup-delete_self, lookup-delete_ne, str_cases,
}
use calligraphy.Control.Hub.{
  Hub, Hello, Session, Stats, Command, lookup, assign, delete, put, terminate, register, unregister,
  is_current, update_stats, send, push, take_command, tail_of, new_session,
}
use calligraphy.Control.Events.{Live}

-- What a change of one session keeps: who it is for, whether it is open, and the bound.
abbrev Kept : Session → Session → Type 0
Kept s s' = (s'.hello ≡ s.hello) × (s'.done ≡ s.done) × (length s.cmds ≤ 16 → length s'.cmds ≤ 16)

put-Live :
    (k : ℕ) (s : Session) (h : Hub)
    → Kept (h.heap k) s
    → Live h
    → Live (record h { heap = put k s h.heap })
put-Live k s h kept w = record {
  known = w.known;
  named = λ id j l. grind (arith, kept, w.named id j l);
  open_if_listed = λ id j l. grind (arith, kept, w.open_if_listed id j l);
  listed_if_open = λ j lt d. grind (arith, kept, d, w.listed_if_open j lt);
  bounded = λ j lt. grind (arith, kept, w.bounded j lt);
}

tail-length : (cs : List (String × Command)) → length (tail_of cs) ≤ length cs
tail-length [] = omega arith
tail-length (x ∷ xs) = omega arith

pub push-Live : (k : ℕ) (c : String × Command) (h : Hub) → Live h → Live (push k c h).0
unfolding push
push-Live k c h w = elim (Bool-cases (ltb (length (h.heap k).cmds) 16)) [
  | inr full ↦ rw full w
  | inl room ↦ rw room (
      put-Live k (record (h.heap k) { cmds = (h.heap k).cmds ++ (c ∷ []) }) h
        (refl, refl, (λ l. grind (arith, room, length-append (h.heap k).cmds (c ∷ [])))) w)
]

pub send-Live : (id : String) (c : String × Command) (h : Hub) → Live h → Live (send id c h).0
unfolding send
send-Live id c h w = elim (Option-cases (lookup id h.sessions)) [
  | inl e ↦ rw e w
  | inr (k, e) ↦ rw e (push-Live k c h w)
]

pub take_command-Live : (k : ℕ) (h : Hub) → Live h → Live (take_command k h).0
unfolding take_command
take_command-Live k h w =
    put-Live k (record (h.heap k) { cmds = tail_of (h.heap k).cmds }) h
      (refl, refl, (λ l. grind (arith, l, tail-length (h.heap k).cmds))) w

pub update_stats-Live :
    (k : ℕ) (s : Stats) (now : ℕ) (h : Hub) → Live h → Live (update_stats k s now h)
unfolding update_stats
update_stats-Live k s now h w =
    put-Live k (record (h.heap k) { stats = some s; last_stats_at = now }) h (refl, refl, λ l. l) w

current-some : (o : Option ℕ) (k : ℕ) → is_current o k ≡ true → o ≡ some k
current-some none k h = absurd (grind (arith, h))
current-some (some j) k h = grind (arith, h)

-- A session that the map does not list is closed.
close-Live :
    (k : ℕ) (h : Hub)
    → lookup (h.heap k).hello.worker_id h.sessions ≢ some k
    → Live h
    → Live (terminate k h)
unfolding terminate
close-Live k h n w = record {
  known = w.known;
  named = λ id j l. grind (arith, w.named id j l);
  open_if_listed = λ id j l. elim (Bool-cases (j == k)) [
    | inl q ↦ absurd (n (grind (arith, q, l, w.named id j l)))
    | inr q ↦ grind (arith, q, w.open_if_listed id j l)
  ];
  listed_if_open = λ j lt d. grind (arith, d, w.listed_if_open j lt);
  bounded = λ j lt. grind (arith, w.bounded j lt);
}

-- The listed session of a worker is closed and taken out of the map.
remove-Live :
    (k : ℕ) (h : Hub)
    → lookup (h.heap k).hello.worker_id h.sessions ≡ some k
    → Live h
    → Live (record (terminate k h) { sessions = delete (h.heap k).hello.worker_id h.sessions })
unfolding terminate
remove-Live k h e w =
    let id = (h.heap k).hello.worker_id in
    let still : (i : String) (j : ℕ)
        → lookup i (delete id h.sessions) ≡ some j
        → (i ≢ id) × (lookup i h.sessions ≡ some j) =
      λ i j l. elim (str_cases i id) [
        | inl q ↦ absurd (grind (arith, l, q, lookup-delete_self id h.sessions))
        | inr n ↦ (n, grind (arith, l, lookup-delete_ne id i h.sessions n))
      ] in
    record {
      known = λ i j l. w.known i j (still i j l).1;
      named = λ i j l. grind (arith, w.named i j (still i j l).1);
      open_if_listed = λ i j l. elim (Bool-cases (j == k)) [
        | inl q ↦ absurd ((still i j l).0 (grind (arith, q, w.named i j (still i j l).1)))
        | inr q ↦ grind (arith, q, w.open_if_listed i j (still i j l).1)
      ];
      listed_if_open = λ j lt d. elim (Bool-cases (j == k)) [
        | inl q ↦ absurd (grind (arith, q, d))
        | inr q ↦ elim (str_cases (h.heap j).hello.worker_id id) [
          | inl same ↦ absurd (grind (arith, q, d, same, e, w.listed_if_open j lt))
          | inr n ↦ grind (
            arith,
            q,
            d,
            w.listed_if_open j lt,
            lookup-delete_ne id (h.heap j).hello.worker_id h.sessions n,
          )
        ]
      ];
      bounded = λ j lt. grind (arith, w.bounded j lt);
    }

pub unregister-Live : (k : ℕ) (h : Hub) → Live h → Live (unregister k h)
unfolding unregister
unregister-Live k h w =
    let id = (h.heap k).hello.worker_id in
    elim (Bool-cases (is_current (lookup id h.sessions) k)) [
      | inl q ↦ rw q (remove-Live k h (current-some (lookup id h.sessions) k q) w)
      | inr q ↦ rw q (close-Live k h (λ e. absurd (grind (arith, q, e))) w)
    ]

-- The new session of a worker whose last one, if any, is closed.
add-Live :
    (hello : Hello) (now : ℕ) (h : Hub)
    → ((k : ℕ) → k < h.next → (h.heap k).hello.worker_id ≡ hello.worker_id → (h.heap k).done ≡ true)
    → ((i : String)
        → i ≢ hello.worker_id
        → (k : ℕ) → lookup i h.sessions ≡ some k
        → (k < h.next) × ((h.heap k).hello.worker_id ≡ i) × ((h.heap k).done ≡ false))
    → ((k : ℕ)
        → k < h.next
        → (h.heap k).done ≡ false
        → lookup (h.heap k).hello.worker_id h.sessions ≡ some k)
    → ((k : ℕ) → k < h.next → length (h.heap k).cmds ≤ 16)
    → Live (record {
      sessions = assign hello.worker_id h.next h.sessions;
      heap = put h.next (new_session hello now) h.heap;
      next = h.next + 1;
    })
add-Live hello now h shut others listed bound =
    let id = hello.worker_id in
    let new = lookup-assign_self id h.next h.sessions in
    let old : (i : String) → i ≢ id → lookup i (assign id h.next h.sessions) ≡ lookup i h.sessions =
      λ i n. lookup-assign_ne id i h.next h.sessions n in
    record {
      known = λ i j l. elim (str_cases i id) [
        | inl q ↦ grind (arith, q, l, new)
        | inr n ↦ grind (arith, n, l, old i n, others i n j)
      ];
      named = λ i j l. elim (str_cases i id) [
        | inl q ↦ grind (arith, q, l, new)
        | inr n ↦ grind (arith, n, l, old i n, others i n j)
      ];
      open_if_listed = λ i j l. elim (str_cases i id) [
        | inl q ↦ grind (arith, q, l, new)
        | inr n ↦ grind (arith, n, l, old i n, others i n j)
      ];
      listed_if_open = λ j lt d. elim (Bool-cases (j == h.next)) [
        | inl q ↦ grind (arith, q, new)
        | inr q ↦ elim (str_cases (h.heap j).hello.worker_id id) [
          | inl same ↦ absurd (grind (arith, q, d, same, shut j))
          | inr n ↦ grind (arith, q, d, listed j, old (h.heap j).hello.worker_id n)
        ]
      ];
      bounded = λ j lt. grind (arith, bound j);
    }

pub register-Live : (hello : Hello) (now : ℕ) (h : Hub) → Live h → Live (register hello now h)
unfolding register terminate
register-Live hello now h w = elim (Option-cases (lookup hello.worker_id h.sessions)) [
  | inl e ↦ rw e (
      add-Live hello now h
        (λ k lt same. elim (Bool-cases (h.heap k).done) [
          | inl d ↦ d
          | inr d ↦ absurd (grind (arith, d, same, e, w.listed_if_open k lt))
        ])
        (λ i n k l. (w.known i k l, w.named i k l, w.open_if_listed i k l)) w.listed_if_open
        w.bounded)
  | inr (old, e) ↦ rw e (
      add-Live hello now (terminate old h)
        (λ k lt same. elim (Bool-cases (k == old)) [
          | inl q ↦ grind (arith, q)
          | inr q ↦ elim (Bool-cases (h.heap k).done) [
            | inl d ↦ grind (arith, q, d)
            | inr d ↦ absurd (grind (arith, q, d, same, e, w.listed_if_open k lt))
          ]
        ])
        (λ i n k l. elim (Bool-cases (k == old)) [
          | inl q ↦
              absurd (n (grind (arith, q, l, e, w.named i k l, w.named hello.worker_id old e)))
          | inr q ↦ (
            w.known i k l,
            grind (arith, q, w.named i k l),
            grind (arith, q, w.open_if_listed i k l),
          )
        ])
        (λ k lt d. grind (arith, d, w.listed_if_open k lt)) (λ k lt. grind (arith, w.bounded k lt)))
]
