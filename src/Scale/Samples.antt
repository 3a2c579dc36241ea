-- ===== src/Scale/Samples.antt =====
-- Runs of the scaler at the default configuration for 2 to 8 slots.
use calligraphy.Base.{◌<◌, ◌≡◌, refl, List, [], ◌∷◌, Option, some, arith}
use calligraphy.Scale.{Config, Scaler, Seen, default_config, next, tick, ticks}

abbrev config : Config
config = record { least = 2; most = 8; grow_num = 2; grow_den = 1; idle_after = 5 }

config_is_default : config ≡ default_config 2 8
unfolding default_config
config_is_default = refl

abbrev four : Scaler
four = record { idle_ticks = 0; target = 4 }

abbrev idle : Seen
idle = record { ready = 0; active = 1 }

abbrev lulls : List (Option Seen)
lulls = some idle ∷ some idle ∷ some idle ∷ some idle ∷ []

shrinks_at_five : (ticks config (some idle ∷ lulls) four).target ≡ 3
unfolding ticks tick
shrinks_at_five = refl

abbrev tired : Scaler
tired = record { idle_ticks = 4; target = 4 }

next-tired : (next config idle tired).target < 4
unfolding next
next-tired = omega arith
