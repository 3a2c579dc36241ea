-- ===== src/Config/Checked.antt =====
-- internal/config/config.go: what a configuration that Load returns without an error satisfies.
use calligraphy.Base.{
  ℕ, ◌≤◌, ◌<◌, ◌≡◌, refl, sym, ap, Result-cases, subst, String, true, false, Option, some, slt,
  Bool-cases, Result, ok, err, arith, inl, inr,
}
use calligraphy.Job.Record.{max_payload_bytes as payload_limit}
use calligraphy.Config.Env.{Environment}
use calligraphy.Config.Load.{
  Config, ConfigError, read_env, with_idle, check, raised, lowered, settle, load,
}
use calligraphy.Config.Passed.{
  Patterns, read_env-Patterns, with_idle-Patterns, Passed, check-Passed,
}

pub record Checked (c : Config) : Type 0 where
  pub connections : (1 ≤ c.db_max_conns) × (1 ≤ c.redis_pool_size)
  pub bounds :
      (1 ≤ c.min_concurrency)
      × (c.min_concurrency ≤ c.concurrency)
      × (c.concurrency ≤ c.max_concurrency)
  pub fetches : 1 ≤ c.fetch_batch
  pub leases : (5000000000 ≤ c.lease_ttl) × (c.lease_ttl ≤ c.reap_min_idle)
  pub payloads : (1 ≤ c.max_payload_bytes) × (c.max_payload_bytes ≤ payload_limit)

-- A pattern that is not below a positive number is a positive number itself.
positive :
    (a b : ℕ)
    → a < 18446744073709551616
    → b < 9223372036854775808
    → slt a b ≡ false
    → (b ≤ a) × (a < 9223372036854775808)
positive a b l m h = grind (arith, l, m, h)

-- A pattern that is below another, both not negative.
below : (a b : ℕ) → a < 9223372036854775808 → b < 9223372036854775808 → slt a b ≡ true → a < b
below a b l m h = grind (arith, l, m, h)

not_below : (a b : ℕ) → a < 9223372036854775808 → b < 9223372036854775808 → slt a b ≡ false → b ≤ a
not_below a b l m h = grind (arith, l, m, h)

-- The three numbers after the concurrency is brought between its bounds.
clamped :
    (c : Config)
    → c.min_concurrency ≤ c.max_concurrency
    → c.max_concurrency < 9223372036854775808
    → c.concurrency < 9223372036854775808
    → let d = lowered (raised c) in
      (d.min_concurrency ≤ d.concurrency) × (d.concurrency ≤ d.max_concurrency)
clamped c l m n = elim (Bool-cases (slt c.concurrency c.min_concurrency)) [
  | inl low ↦ elim (Bool-cases (slt c.max_concurrency c.min_concurrency)) [
    | inl high ↦
        absurd
          (omega (arith, l, below c.max_concurrency c.min_concurrency m (omega (arith, l, m)) high))
    | inr fits ↦ rw (low, fits) (omega arith, l)
  ]
  | inr fits ↦ elim (Bool-cases (slt c.max_concurrency c.concurrency)) [
    | inl high ↦ rw (fits, high) (l, omega arith)
    | inr low ↦
        rw (fits, low)
          (
            not_below c.concurrency c.min_concurrency n (omega (arith, l, m)) fits,
            not_below c.max_concurrency c.concurrency m n low,
          )
  ]
]

ok_inj : (a b : Config) → ◌≡◌ {A = Result ConfigError Config} (ok a) (ok b) → a ≡ b
ok_inj a b h = cc

only_concurrency :
    (c : Config) → lowered (raised c) ≡ record c { concurrency = (lowered (raised c)).concurrency }
only_concurrency c = elim (Bool-cases (slt c.concurrency c.min_concurrency)) [
  | inl low ↦ elim (Bool-cases (slt c.max_concurrency c.min_concurrency)) [
    | inl high ↦ rw (low, high) refl
    | inr fits ↦ rw (low, fits) refl
  ]
  | inr fits ↦ elim (Bool-cases (slt c.max_concurrency c.concurrency)) [
    | inl high ↦ rw (fits, high) refl
    | inr low ↦ rw (fits, low) refl
  ]
]

ends_kept :
    (c : Config)
    → ((lowered (raised c)).min_concurrency ≡ c.min_concurrency)
      × ((lowered (raised c)).max_concurrency ≡ c.max_concurrency)
ends_kept c = (
  ap (λ d. d.min_concurrency) (only_concurrency c),
  ap (λ d. d.max_concurrency) (only_concurrency c),
)

settle-err :
    (first c : Config) (r : Result ConfigError (Unit {0})) (e : ConfigError)
    → r ≡ err e
    → settle first r ≡ ok c
    → ⊥
settle-err first c (err d) e q h = absurd (grind (arith, h))
settle-err first c (ok u) e q h = absurd (grind (arith, q))

settle-ok :
    (first c : Config) (r : Result ConfigError (Unit {0})) (u : Unit {0})
    → r ≡ ok u
    → settle first r ≡ ok c
    → lowered (raised first) ≡ c
settle-ok first c (err d) u q h = absurd (grind (arith, q))
settle-ok first c (ok v) u q h = ok_inj _ _ h

settled-Checked : (c : Config) → Patterns c → Passed c → Checked (lowered (raised c))
settled-Checked c p t =
    let (low, low') = positive c.min_concurrency 1 p.bounds.0 (omega arith) t.bounds.0 in
    let (high, high') = positive c.max_concurrency c.min_concurrency p.bounds.2 low' t.bounds.1 in
    let (some_jobs, some_jobs') = positive c.concurrency 1 p.bounds.1 (omega arith) t.concurrency in
    let (lease, lease') = positive c.lease_ttl 5000000000 p.leases.0 (omega arith) t.leases.0 in
    let (idle, idle') = positive c.reap_min_idle c.lease_ttl p.leases.1 lease' t.leases.1 in
    let (size, size') = positive c.max_payload_bytes 1 p.payloads (omega arith) t.payloads.0 in
    let middle = clamped c high high' some_jobs' in
    let at = (lowered (raised c)).concurrency in
    let ends = ends_kept c in
    subst Checked (sym (only_concurrency c)) (record {
      connections = (
        (positive c.db_max_conns 1 p.connections.0 (omega arith) t.connections.0).0,
        (positive c.redis_pool_size 1 p.connections.1 (omega arith) t.connections.1).0,
      );
      bounds = (low, subst (λ n. n ≤ at) ends.0 middle.0, subst (λ n. at ≤ n) ends.1 middle.1);
      fetches = (positive c.fetch_batch 1 p.fetches (omega arith) t.fetches).0;
      leases = (lease, idle);
      payloads = (size, not_below 1048576 c.max_payload_bytes (omega arith) size' t.payloads.1);
    })

-- Every configuration that Load returns without an error is fit to run: at least one connection to
-- each store, a concurrency between its bounds, of which the lower one is at least 1, a lease of at
-- least 5 seconds that the reaper's threshold does not undercut, and payloads of at most what
-- job.New takes. It asks that time.ParseDuration gives a 64-bit pattern.
pub load-Checked :
    (parse_duration : String → Option ℕ) (worker_id : String) (env : Environment) (c : Config)
    → ((s : String) (d : ℕ) → parse_duration s ≡ some d → d < 18446744073709551616)
    → load parse_duration worker_id env ≡ ok c
    → Checked c
unfolding load
load-Checked parse_duration worker_id env c law h =
    let first = with_idle (read_env parse_duration worker_id env) in
    let patterns =
      with_idle-Patterns (read_env parse_duration worker_id env)
        (read_env-Patterns parse_duration worker_id env law) in
    elim (Result-cases (check first)) [
      | inr (e, q) ↦ absurd (settle-err first c (check first) e q h)
      | inl (u, q) ↦
          subst Checked (settle-ok first c (check first) u q h)
            (settled-Checked first patterns (check-Passed first u q))
    ]
