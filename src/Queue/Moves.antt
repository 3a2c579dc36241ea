-- ===== src/Queue/Moves.antt =====
-- internal/queue/queue.go: the loop of promoteScript on sets and streams.
use text.Mathlib.TextLemmas.{append_cancel_left}
use calligraphy.Base.{
  ◌≡◌, ap, subst, inl, inr, String, concat, List, [], ◌∷◌, ◌++◌, Bool, true, ◌&&◌, none,
  if◌then◌else◌, any, all, str_eq, same_bytes, same_bytes-eq, append_nil, append_assoc, Bool-cases,
  arith,
}
use calligraphy.Job.Errors.{Bytes}
use calligraphy.Job.Status.{Priority}
use calligraphy.Queue.Fetch.{Queue, stream_key}
use calligraphy.Queue.Keyspace.{Keyspace, QueueLaws}
use calligraphy.Queue.Delayed.{delayed_key, move_all}

abbrev pub has : Bytes → List Bytes → Bool
has m = any (λ x. same_bytes x m)

-- The keys of a priority's sorted set and of its stream differ in one word.
pub delayed_key-stream_key :
    (q : Queue) (p r : Priority)
    → delayed_key q p ≡ delayed_key q r
    → stream_key q p ≡ stream_key q r
unfolding delayed_key stream_key
delayed_key-stream_key q p r e =
    ap (λ t. concat q.prefix (concat ":stream:" t))
      (append_cancel_left ":delayed:" _ _ (append_cancel_left q.prefix _ _ e))

pub has-all :
    (p : Bytes → Bool) (m : Bytes) (ms : List Bytes)
    → all p ms ≡ true
    → has m ms ≡ true
    → p m ≡ true
has-all p m [] a h = absurd (grind (arith, h))
has-all p m (x ∷ xs) a h = elim (Bool-cases (same_bytes x m)) [
  | inl e ↦ subst (λ y. p y ≡ true) (same_bytes-eq x m e) (grind (arith, a))
  | inr e ↦ has-all p m xs (grind (arith, a)) (grind (arith, h, e))
]

module _ {S : Type 0} (redis : Keyspace S) (laws : QueueLaws redis) where
  pub move_all-entries :
      (delayed stream k : String) (ms : List Bytes) (s : S)
      → redis.entries k (move_all redis delayed stream ms s)
        ≡ (if str_eq stream k then redis.entries k s ++ ms else redis.entries k s)
  unfolding move_all
  move_all-entries delayed stream k [] s = grind (arith, append_nil (redis.entries k s))
  move_all-entries delayed stream k (m ∷ ms) s = grind (
    arith,
    move_all-entries delayed stream k ms,
    laws.zrem-entries delayed k m,
    laws.xadd-entries stream k m s,
    append_assoc (redis.entries k s) (m ∷ []) ms,
  )

  pub move_all-score :
      (delayed stream k : String) (m : Bytes) (ms : List Bytes) (s : S)
      → redis.score k m (move_all redis delayed stream ms s)
        ≡ (if str_eq delayed k && has m ms then none else redis.score k m s)
  unfolding move_all
  move_all-score delayed stream k m [] s = grind arith
  move_all-score delayed stream k m (x ∷ xs) s = grind (
    arith,
    move_all-score delayed stream k m xs,
    laws.zrem-score delayed k x m,
    laws.xadd-score stream k x m s,
  )
