-- ===== src/Queue/KeyspaceSamples.antt =====
-- A Redis in memory, which meets the laws, and the queue's theorems at it.
use calligraphy.Base.{
  eq_iff, ℕ, ◌≡◌, refl, inl, inr, String, List, [], ◌∷◌, ◌++◌, Bool, true, false, ◌&&◌, Option,
  none, some, if◌then◌else◌, leb, take, filter, all, str_eq, same_bytes, Option-cases, zero, suc,
  ok, Fate, served, answer_lost, arith,
}
use calligraphy.Job.Errors.{Bytes}
use calligraphy.Job.Status.{Priority, high}
use calligraphy.Job.Record.{Envelope, decode_envelope}
use calligraphy.Queue.Fetch.{Queue}
use calligraphy.Queue.Keyspace.{Keyspace, QueueLaws}
use calligraphy.Queue.Delayed.{enqueue, leader_key}
use calligraphy.Queue.Promotion.{Held, promotions, enqueue-kept}
use calligraphy.Queue.Leader.{
  LockLaws, Election, Turn, renews, ticks, turn, turns, Owned, one_leader,
}

-- `seen` are the members that were ever added to a set.
record Memory : Type 0 where
  streams : String → List Bytes
  scores : String → Bytes → Option ℕ
  seen : List Bytes
  strings : String → Option String

abbrev empty : Memory
empty = record { streams = λ k. []; scores = λ k m. none; seen = []; strings = λ k. none }

abbrev is_due : ℕ → Option ℕ → Bool
is_due most none = false
is_due most (some n) = leb n most

abbrev store : String → Option String → Memory → Memory
store key v s = record s { strings = λ k. if str_eq key k then v else s.strings k }

abbrev append : String → Bytes → Memory → Memory × String
append key body s = (
  record s { streams = λ k. if str_eq key k then s.streams k ++ (body ∷ []) else s.streams k },
  "1-0",
)

abbrev memory : Keyspace Memory
memory = record {
  xadd = append;
  xadd_capped = λ key most. append key;
  zadd = λ key n body s. record s {
    scores = λ k m. if str_eq key k && same_bytes body m then some n else s.scores k m;
    seen = body ∷ s.seen;
  };
  due = λ key most count s. take count (filter (λ m. is_due most (s.scores key m)) s.seen);
  zrem = λ key body s. record s {
    scores = λ k m. if str_eq key k && same_bytes body m then none else s.scores k m;
  };
  set = λ key v ttl s. store key (some v) s;
  set_nx = λ key v ttl s. elim (s.strings key) [
    | none ↦ (store key (some v) s, true)
    | some owner ↦ (s, false)
  ];
  get = λ key s. s.strings key;
  del = λ key s. store key none s;
  pexpire = λ key ttl s. s;
  entries = λ k s. s.streams k;
  score = λ k m s. s.scores k m;
}

all-take : (p : Bytes → Bool) (n : ℕ) (xs : List Bytes) → all p xs ≡ true → all p (take n xs) ≡ true
all-take p zero xs h = refl
all-take p (suc n) [] h = refl
all-take p (suc n) (x ∷ xs) h = grind (arith, h, all-take p n xs)

all-filter : (p : Bytes → Bool) (xs : List Bytes) → all p (filter p xs) ≡ true
all-filter p [] = refl
all-filter p (x ∷ xs) = grind (arith, all-filter p xs)

memory-QueueLaws : QueueLaws memory
memory-QueueLaws = record {
  xadd-entries = λ key k body s. refl;
  xadd-score = λ key k body m s. refl;
  zadd-score = λ key k n body m s. refl;
  zadd-entries = λ key k n body s. refl;
  zrem-score = λ key k body m s. refl;
  zrem-entries = λ key k body s. refl;
  due-scores = λ key most count s.
      all-take (λ m. is_due most (s.scores key m)) count
        (filter (λ m. is_due most (s.scores key m)) s.seen)
        (all-filter (λ m. is_due most (s.scores key m)) s.seen);
}

memory-LockLaws : LockLaws memory
memory-LockLaws = record {
  set_nx-get = λ key id ttl s. elim (Option-cases (s.strings key)) [
    | inl n ↦ rw n (grind (arith, (eq_iff key key).1 refl))
    | inr (owner, h) ↦ rw h h
  ];
  set_nx-won = λ key id ttl s. elim (Option-cases (s.strings key)) [
    | inl n ↦ rw n refl
    | inr (owner, h) ↦ rw h refl
  ];
  pexpire-get = λ key ttl s. refl;
}

abbrev env : Envelope
env = record {
  id = "j1";
  kind = "sleep";
  queue = "default";
  priority = high;
  attempt = 1;
  payload = [];
  enqueued_at = 1;
}

abbrev q : Queue
q = record { prefix = "c"; queue = "default"; unmarshal = λ b. some env }

abbrev marshal : Envelope → Option Bytes
marshal e = some (b'e' ∷ [])

-- Parked for later, then promoted by a pass whose answer is lost.
abbrev passes : List ((Priority → Fate) × ℕ × ℕ)
passes = ((λ p. answer_lost), 9000000, 10) ∷ []

enqueue-kept_example :
    Held memory memory-QueueLaws q high (b'e' ∷ []) (
      promotions memory memory-QueueLaws q passes
        (enqueue memory q marshal served env 5000000 1 empty).0)
    × (some env ≡ some env
        → str_eq "j1" "" ≡ false
        → str_eq "sleep" "" ≡ false
        → decode_envelope q.unmarshal (b'e' ∷ []) ≡ ok env)
unfolding enqueue
enqueue-kept_example =
    enqueue-kept memory memory-QueueLaws q marshal served env 5000000 1 (b'e' ∷ []) empty "delayed"
      passes refl refl

-- "a" leads; "b" tries, and "a" renews, but its answer does not arrive.
abbrev led : Election Memory
led = record { redis = store (leader_key q "recovery") (some "a") empty; leads = λ j. str_eq j "a" }

led-Owned : Owned memory q "recovery" 15 led
led-Owned id l =
    grind
      (arith, l, eq_iff id "a", (eq_iff (leader_key q "recovery") (leader_key q "recovery")).1 refl)

abbrev struggle : List Turn
struggle = ticks "b" served ∷ renews "a" served ∷ []

a_leads : (turns memory q "recovery" 15 struggle led).leads "a" ≡ true
unfolding turns turn
a_leads = refl

a_renewed : (turn memory q "recovery" 15 (renews "a" served) led).leads "a" ≡ true
unfolding turn
a_renewed = refl

one_leader_example : ◌≡◌ {A = String} "a" "a"
one_leader_example =
    one_leader memory q "recovery" 15 memory-LockLaws struggle led "a" "a" led-Owned a_leads a_leads
