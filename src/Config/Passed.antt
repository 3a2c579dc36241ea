-- ===== src/Config/Passed.antt =====
-- internal/config/config.go: what the readers of the variables give, and what the tests of Load leave.
use calligraphy.Base.{
  ℕ, ◌<◌, ◌≡◌, refl, String, Bool, true, false, ◌||◌, refuse_if, ◌>>◌, Option, some, ◌==◌, slt,
  Bool-cases, Option-cases, Result, ok, arith, inl, inr,
}
use calligraphy.Job.Record.{codes}
use calligraphy.Config.Env.{Environment, getenv_int, getenv_dur, atoi, atoi-lt, given}
use calligraphy.Config.Load.{Config, read_env, with_idle, check}

abbrev pub Small : ℕ → Type 0
Small n = n < 18446744073709551616

getenv_int-Small :
    (env : Environment) (key : String) (def : ℕ) → Small def → Small (getenv_int env key def)
unfolding getenv_int
getenv_int-Small env key def l = elim (Option-cases (given (env key))) [
  | inl e ↦ rw e l
  | inr (v, e) ↦ rw e (elim (Option-cases (atoi (codes v))) [
    | inl n ↦ rw n l
    | inr (n, q) ↦ rw q (atoi-lt (codes v) n q)
  ])
]

getenv_dur-Small :
    (parse : String → Option ℕ) (env : Environment) (key : String) (def : ℕ)
    → ((s : String) (d : ℕ) → parse s ≡ some d → Small d)
    → Small def
    → Small (getenv_dur parse env key def)
unfolding getenv_dur
getenv_dur-Small parse env key def law l = elim (Option-cases (given (env key))) [
  | inl e ↦ rw e l
  | inr (v, e) ↦
      rw e (elim (Option-cases (parse v)) [ inl n ↦ rw n l | inr (d, q) ↦ rw q (law v d q) ])
]

-- The numbers of the configuration that Load checks are 64-bit patterns.
pub record Patterns (c : Config) : Type 0 where
  pub connections : Small c.db_max_conns × Small c.redis_pool_size
  pub bounds : Small c.min_concurrency × Small c.concurrency × Small c.max_concurrency
  pub fetches : Small c.fetch_batch
  pub leases : Small c.lease_ttl × Small c.reap_min_idle
  pub payloads : Small c.max_payload_bytes

pub read_env-Patterns :
    (parse : String → Option ℕ) (worker_id : String) (env : Environment)
    → ((s : String) (d : ℕ) → parse s ≡ some d → Small d)
    → Patterns (read_env parse worker_id env)
unfolding read_env
read_env-Patterns parse worker_id env law = record {
  connections = (getenv_int-Small env _ 8 (omega arith), getenv_int-Small env _ 8 (omega arith));
  bounds = (
    getenv_int-Small env _ 1 (omega arith),
    getenv_int-Small env _ 4 (omega arith),
    getenv_int-Small env _ 16 (omega arith),
  );
  fetches = getenv_int-Small env _ 8 (omega arith);
  leases = (
    getenv_dur-Small parse env _ 30000000000 law (omega arith),
    getenv_dur-Small parse env _ 0 law (omega arith),
  );
  payloads = getenv_int-Small env _ 262144 (omega arith);
}

pub with_idle-Patterns : (c : Config) → Patterns c → Patterns (with_idle c)
with_idle-Patterns c p = elim (Bool-cases (c.reap_min_idle == 0)) [
  | inl e ↦ rw e (record {
    connections = p.connections;
    bounds = p.bounds;
    fetches = p.fetches;
    leases = (p.leases.0, p.leases.0);
    payloads = p.payloads;
  })
  | inr e ↦ rw e p
]

-- The tests of the `switch`, none of which held.
pub record Passed (c : Config) : Type 0 where
  pub connections : (slt c.db_max_conns 1 ≡ false) × (slt c.redis_pool_size 1 ≡ false)
  pub concurrency : slt c.concurrency 1 ≡ false
  pub bounds : (slt c.min_concurrency 1 ≡ false) × (slt c.max_concurrency c.min_concurrency ≡ false)
  pub fetches : slt c.fetch_batch 1 ≡ false
  pub leases : (slt c.lease_ttl 5000000000 ≡ false) × (slt c.reap_min_idle c.lease_ttl ≡ false)
  pub payloads : (slt c.max_payload_bytes 1 ≡ false) × (slt 1048576 c.max_payload_bytes ≡ false)

-- A guard that lets go on did not hold.
gone_on :
    {E : Type 0} {A : Type 0} (b : Bool) (e : E) (rest : Result E A) (a : A)
    → (refuse_if b e >> rest) ≡ ok a
    → (b ≡ false) × (rest ≡ ok a)
gone_on true e rest a h = absurd (grind (arith, h))
gone_on false e rest a h = (refl, h)

last_guard : {E : Type 0} (b : Bool) (e : E) (u : Unit {0}) → refuse_if b e ≡ ok u → b ≡ false
last_guard true e u h = absurd (grind (arith, h))
last_guard false e u h = refl

neither : (a b : Bool) → (a || b) ≡ false → (a ≡ false) × (b ≡ false)
neither true b h = absurd (grind (arith, h))
neither false b h = (refl, h)

pub check-Passed : (c : Config) (u : Unit {0}) → check c ≡ ok u → Passed c
unfolding check
check-Passed c u h =
    let (one, h₁) = gone_on _ _ _ u h in
    let (two, h₂) = gone_on _ _ _ u h₁ in
    let (three, h₃) = gone_on _ _ _ u h₂ in
    let (four, h₄) = gone_on _ _ _ u h₃ in
    let (five, h₅) = gone_on _ _ _ u h₄ in
    let (six, h₆) = gone_on _ _ _ u h₅ in
    let (seven, h₇) = gone_on _ _ _ u h₆ in
    let eight = last_guard _ _ u h₇ in
    record {
      connections = (one, two);
      concurrency = three;
      bounds = neither _ _ four;
      fetches = five;
      leases = (six, seven);
      payloads = neither _ _ eight;
    }
