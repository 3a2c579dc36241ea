-- ===== src/Queue/Leader.antt =====
-- internal/queue/queue.go and internal/recovery/recovery.go: the leader lock, and the election that
-- Run makes of it.
use calligraphy.Base.{
  ℕ, ◌≡◌, refl, ap, ◌⊎◌, inl, inr, String, List, [], ◌∷◌, Bool, true, false, not, Option, none,
  some, if◌then◌else◌, is_some, str_eq, eq_iff, Bool-cases, Option-cases, Result, ok, err,
  Unavailable, Fate, served, unreachable, answer_lost, arith,
}
use calligraphy.Queue.Fetch.{Queue}
use calligraphy.Queue.Keyspace.{Keyspace}
use calligraphy.Queue.Delayed.{leader_key, holds, acquire_leader, renew_leader, release_leader}

-- Keys with a time to live, as Redis documents them, while it has not run out.
pub record LockLaws {S : Type 0} (redis : Keyspace S) : Type 0 where
  pub set_nx-get :
      (key id : String) (ttl : ℕ) (s : S)
      → redis.get key (redis.set_nx key id ttl s).0
        ≡ elim (redis.get key s) [ none ↦ some id | some owner ↦ some owner ]
  pub set_nx-won :
      (key id : String) (ttl : ℕ) (s : S)
      → (redis.set_nx key id ttl s).1 ≡ not (is_some (redis.get key s))
  pub pexpire-get :
      (key : String) (ttl : ℕ) (s : S) → redis.get key (redis.pexpire key ttl s) ≡ redis.get key s

-- The processes that run the recovery duties: Redis, and which of them have `isLeader` set.
pub record Election (S : Type 0) : Type 0 where
  pub redis : S
  pub leads : String → Bool

-- What one process does: its renewal, its tick, its end.
pub data Turn : Type 0 where
  renews ticks stops : String → Fate → Turn

abbrev pub won : Result Unavailable Bool → Bool
won (ok b) = b
won (err e) = false

abbrev pub with_lead : String → Bool → (String → Bool) → String → Bool
with_lead id b leads j = if str_eq j id then b else leads j

module _ {S : Type 0} (redis : Keyspace S) (q : Queue) (role : String) (ttl : ℕ) where
  abbrev pub after_call : String → (String → Bool) → S × Result Unavailable Bool → Election S
  after_call id leads (s, r) = record { redis = s; leads = with_lead id (won r) leads }

  unfoldable pub turn : Turn → Election S → Election S
  unfolding acquire_leader renew_leader release_leader
  turn (renews id fate) e =
      if e.leads id
      then after_call id e.leads (renew_leader redis q fate role id ttl e.redis)
      else e
  turn (ticks id fate) e =
      if e.leads id
      then e
      else after_call id e.leads (acquire_leader redis q fate role id ttl e.redis)
  turn (stops id fate) e =
      if e.leads id
      then record {
        redis = (release_leader redis q fate role id e.redis).0;
        leads = with_lead id false e.leads;
      }
      else e

  unfoldable pub turns : List Turn → Election S → Election S
  turns [] e = e
  turns (t ∷ ts) e = turns ts (turn t e)

  -- Who leads owns the lock.
  abbrev pub Owned : Election S → Type 0
  Owned e = (id : String) → e.leads id ≡ true → redis.get (leader_key q role) e.redis ≡ some id

  module _ (laws : LockLaws redis) where
    holds-some : (o : Option String) (id : String) → holds id o ≡ true → o ≡ some id
    holds-some none id h = absurd (grind (arith, h))
    holds-some (some owner) id h = ap (λ x. some x) ((eq_iff owner id).0 h)

    renew-get :
        (fate : Fate) (id : String) (s : S)
        → let x = renew_leader redis q fate role id ttl s in
          (redis.get (leader_key q role) x.0 ≡ redis.get (leader_key q role) s)
          × (won x.1 ≡ true → redis.get (leader_key q role) s ≡ some id)
    unfolding renew_leader
    renew-get served id s = elim (Bool-cases (holds id (redis.get (leader_key q role) s))) [
      | inl h ↦ rw h (
        laws.pexpire-get (leader_key q role) ttl s,
        (λ _. holds-some (redis.get (leader_key q role) s) id h),
      )
      | inr h ↦ rw h (refl, (λ w. absurd (grind (arith, w))))
    ]
    renew-get unreachable id s = (refl, (λ w. absurd (grind (arith, w))))
    renew-get answer_lost id s = elim (Bool-cases (holds id (redis.get (leader_key q role) s))) [
      | inl h ↦ rw h (laws.pexpire-get (leader_key q role) ttl s, (λ w. absurd (grind (arith, w))))
      | inr h ↦ rw h (refl, (λ w. absurd (grind (arith, w))))
    ]

    acquire-get :
        (fate : Fate) (id : String) (s : S)
        → let x = acquire_leader redis q fate role id ttl s in
          let key = leader_key q role in
          ((redis.get key x.0 ≡ redis.get key s) ⊎ (redis.get key s ≡ none))
          × (won x.1 ≡ true → redis.get key x.0 ≡ some id)
    unfolding acquire_leader
    acquire-get served id s = elim (Option-cases (redis.get (leader_key q role) s)) [
      | inl n ↦ (inr n, (λ w. grind (arith, n, laws.set_nx-get (leader_key q role) id ttl s)))
      | inr (owner, h) ↦ (
        inl (grind (arith, h, laws.set_nx-get (leader_key q role) id ttl s)),
        (λ w. absurd (grind (arith, h, w, laws.set_nx-won (leader_key q role) id ttl s))),
      )
    ]
    acquire-get unreachable id s = (inl refl, (λ w. absurd (grind (arith, w))))
    acquire-get answer_lost id s = elim (Option-cases (redis.get (leader_key q role) s)) [
      | inl n ↦ (inr n, (λ w. absurd (grind (arith, w))))
      | inr (owner, h) ↦ (
        inl (grind (arith, h, laws.set_nx-get (leader_key q role) id ttl s)),
        (λ w. absurd (grind (arith, w))),
      )
    ]

    turn-Owned : (t : Turn) (e : Election S) → Owned e → Owned (turn t e)
    unfolding turn
    turn-Owned (renews id fate) e o = elim (Bool-cases (e.leads id)) [
      | inr idle ↦ rw idle o
      | inl leads ↦ rw leads (
          let (same, owner) = renew-get fate id e.redis in
          λ j l. elim (Bool-cases (str_eq j id)) [
            | inl q ↦ grind (arith, q, same, o id leads, eq_iff j id)
            | inr q ↦ grind (arith, q, l, same, o j)
          ])
    ]
    turn-Owned (ticks id fate) e o = elim (Bool-cases (e.leads id)) [
      | inl leads ↦ rw leads o
      | inr idle ↦ rw idle (
          let (same, owner) = acquire-get fate id e.redis in
          λ j l. elim (Bool-cases (str_eq j id)) [
            | inl q ↦ grind (arith, q, l, owner, eq_iff j id)
            | inr q ↦ elim same [
              | inl kept ↦ grind (arith, q, l, kept, o j)
              | inr free ↦ absurd (grind (arith, q, l, free, o j))
            ]
          ])
    ]
    turn-Owned (stops id fate) e o = elim (Bool-cases (e.leads id)) [
      | inr idle ↦ rw idle o
      | inl leads ↦ rw leads (λ j l. elim (Bool-cases (str_eq j id)) [
        | inl q ↦ absurd (grind (arith, q, l))
        | inr q ↦ absurd (grind (arith, q, l, o id leads, o j, eq_iff j id))
      ])
    ]

    pub turns-Owned : (ts : List Turn) (e : Election S) → Owned e → Owned (turns ts e)
    unfolding turns
    turns-Owned [] e o = o
    turns-Owned (t ∷ ts) e o = turns-Owned ts (turn t e) (turn-Owned t e o)

    -- While the lock does not run out, at most one process leads, in every history of renewals,
    -- ticks and ends from a state where who leads owns the lock, whatever becomes of their calls.
    pub one_leader :
        (ts : List Turn) (e : Election S) (i j : String)
        → Owned e
        → (turns ts e).leads i ≡ true
        → (turns ts e).leads j ≡ true
        → i ≡ j
    one_leader ts e i j o a b =
        let owned = turns-Owned ts e o in grind (arith, owned i a, owned j b)

    -- A process that still leads after its renewal owns the lock, though the lock may have run out
    -- before, and another have taken it.
    pub renewed_owner :
        (fate : Fate) (id : String) (e : Election S)
        → (turn (renews id fate) e).leads id ≡ true
        → redis.get (leader_key q role) (turn (renews id fate) e).redis ≡ some id
    unfolding turn
    renewed_owner fate id e l = elim (Bool-cases (e.leads id)) [
      | inr idle ↦ absurd (grind (arith, idle, l))
      | inl leads ↦ rw leads (
          let (same, owner) = renew-get fate id e.redis in
          grind (arith, leads, l, same, owner, eq_iff id id))
    ]
