-- ===== src/Bench/Samples.antt =====
-- internal/handlers/bench/bench.go: draws of FNV-1a, and a sleep that is cut off.
use calligraphy.Base.{◌≡◌, refl, [], Option, none, some, Result, ok, err}
use calligraphy.Job.Errors.{Bytes, Err, plain}
use calligraphy.Job.Record.{codes}
use calligraphy.Bench.{Text, SleepPayload, Ending, slept_for, fnv, handle_sleep}

-- The published value for "a".
fnv_a : fnv (codes "a") 14695981039346656037 ≡ 12638187200555641996
unfolding fnv
fnv_a = refl

abbrev no_text : Text → Bytes
no_text t = []

abbrev sleep_2s : Result Err SleepPayload
sleep_2s = ok (record { ms = 2000; jitter_ms = 0 })

abbrev after_1s : Option Ending
after_1s = some (record { at = 1000000000; error = plain [] })

cut_off : handle_sleep no_text (λ n. 0) after_1s sleep_2s ≡ err (plain [])
unfolding handle_sleep
cut_off = refl

sleeps : handle_sleep no_text (λ n. 0) none sleep_2s ≡ ok (slept_for 2000000000)
unfolding handle_sleep
sleeps = refl
