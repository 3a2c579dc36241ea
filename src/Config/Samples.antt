-- ===== src/Config/Samples.antt =====
-- An environment with a concurrency above its bound.
use calligraphy.Base.{
  ℕ, String, [], ◌∷◌, Option, none, some, ok, ◌≡◌, refl, if◌then◌else◌, str_eq, arith,
}
use calligraphy.Config.Env.{Environment, getenv_int, getenv_dur, atoi, split_non_empty}
use calligraphy.Config.Load.{Config, load, read_env, with_idle, lowered, raised}
use calligraphy.Config.Checked.{Checked, load-Checked}

abbrev env : Environment
env key = if str_eq key "CALLIGRAPHY_CONCURRENCY" then some "99" else none

abbrev no_durations : String → Option ℕ
no_durations s = none

abbrev loaded : Config
loaded = lowered (raised (with_idle (read_env no_durations "host-1" env)))

loads : load no_durations "host-1" env ≡ ok loaded
unfolding load getenv_dur getenv_int
loads = refl

brought_down : loaded.concurrency ≡ 16
unfolding read_env getenv_dur getenv_int
brought_down = refl

load-Checked_example : Checked loaded
load-Checked_example =
    load-Checked no_durations "host-1" env loaded (λ s d h. absurd (grind (arith, h))) loads

-- A number with a sign, a flag, and a list with empty pieces.
negative_one : atoi (b'-' ∷ b'1' ∷ []) ≡ some 18446744073709551615
unfolding atoi
negative_one = refl

two_tokens : split_non_empty " a,, b ," ≡ (b'a' ∷ []) ∷ (b'b' ∷ []) ∷ []
unfolding split_non_empty
two_tokens = refl
