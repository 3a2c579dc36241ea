-- ===== src/Queue/Redis.antt =====
-- The commands of Redis that internal/queue/queue.go sends, on a state that is not read otherwise.
-- An answer of redis.Nil is an answer with nothing in it.
use calligraphy.Base.{ℕ, ◌≡◌, ◌≤◌, String, List, true, leb, Result, ok, Unavailable, length, all}
use calligraphy.Job.Errors.{Bytes}

pub record Message : Type 0 where
  pub id : String
  pub body : Bytes  -- the value of the field "j", empty where there is none

pub record Stream : Type 0 where
  pub key : String
  pub messages : List Message

pub record Redis (S : Type 0) : Type 0 where
  -- XREADGROUP of the group: a consumer, the streams, COUNT, and BLOCK where it is not 0.
  pub read_group : String → List String → ℕ → ℕ → S → S × Result Unavailable (List Stream)
  -- XACK and XDEL of one entry, in one pipeline.
  pub ack_delete : String → String → S → S × Result Unavailable (Unit {0})

-- COUNT bounds what each stream gives, and there is at most one answer for each stream.
pub record CountLaw {S : Type 0} (redis : Redis S) : Type 0 where
  pub one_each :
      (consumer : String) (keys : List String) (count block : ℕ) (s : S) {streams : List Stream}
      → (redis.read_group consumer keys count block s).1 ≡ ok streams
      → length streams ≤ length keys
  pub count_each :
      (consumer : String) (keys : List String) (count block : ℕ) (s : S) {streams : List Stream}
      → (redis.read_group consumer keys count block s).1 ≡ ok streams
      → all (λ x. leb (length x.messages) count) streams ≡ true
