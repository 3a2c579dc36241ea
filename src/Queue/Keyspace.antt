-- ===== src/Queue/Keyspace.antt =====
-- The commands of Redis that internal/queue/queue.go sends to put entries and flags, on a state
-- that is not read otherwise. They are the server's own steps: a connection fails around them.
use calligraphy.Base.{
  ℕ, ◌≡◌, String, List, [], ◌∷◌, ◌++◌, Bool, true, ◌&&◌, Option, none, some, if◌then◌else◌, leb,
  all, str_eq, same_bytes, false,
}
use calligraphy.Job.Errors.{Bytes}

pub record Keyspace (S : Type 0) : Type 0 where
  pub xadd : String → Bytes → S → S × String
  pub xadd_capped : String → ℕ → Bytes → S → S × String
  pub zadd : String → ℕ → Bytes → S → S
  -- ZRANGEBYSCORE key -inf most LIMIT 0 count, and ZREM.
  pub due : String → ℕ → ℕ → S → List Bytes
  pub zrem : String → Bytes → S → S
  -- SET with and without NX, GET, DEL, PEXPIRE, on keys with a time to live.
  pub set : String → String → ℕ → S → S
  pub set_nx : String → String → ℕ → S → S × Bool
  pub get : String → S → Option String
  pub del : String → S → S
  pub pexpire : String → ℕ → S → S
  -- What the laws read: the bodies of a stream's entries, and a member's score in a sorted set.
  pub entries : String → S → List Bytes
  pub score : String → Bytes → S → Option ℕ

-- Sorted sets and streams, as Redis documents them.
pub record QueueLaws {S : Type 0} (redis : Keyspace S) : Type 0 where
  pub xadd-entries :
      (key k : String) (body : Bytes) (s : S)
      → redis.entries k (redis.xadd key body s).0
        ≡ (if str_eq key k then redis.entries k s ++ (body ∷ []) else redis.entries k s)
  pub xadd-score :
      (key k : String) (body m : Bytes) (s : S)
      → redis.score k m (redis.xadd key body s).0 ≡ redis.score k m s
  pub zadd-score :
      (key k : String) (n : ℕ) (body m : Bytes) (s : S)
      → redis.score k m (redis.zadd key n body s)
        ≡ (if str_eq key k && same_bytes body m then some n else redis.score k m s)
  pub zadd-entries :
      (key k : String) (n : ℕ) (body : Bytes) (s : S)
      → redis.entries k (redis.zadd key n body s) ≡ redis.entries k s
  pub zrem-score :
      (key k : String) (body m : Bytes) (s : S)
      → redis.score k m (redis.zrem key body s)
        ≡ (if str_eq key k && same_bytes body m then none else redis.score k m s)
  pub zrem-entries :
      (key k : String) (body : Bytes) (s : S)
      → redis.entries k (redis.zrem key body s) ≡ redis.entries k s
  -- What is due is in the set, with a score that is not above `most`.
  pub due-scores :
      (key : String) (most count : ℕ) (s : S)
      → all
          (λ m. elim (redis.score key m s) [ none ↦ false | some n ↦ leb n most ])
          (redis.due key most count s)
        ≡ true
