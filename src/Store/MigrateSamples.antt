-- ===== src/Store/MigrateSamples.antt =====
-- internal/store/migrate.go: two replicas boot, one after the other, on an empty database.
use calligraphy.Base.{
  ℕ, ◌+◌, ◌≡◌, refl, [], ◌∷◌, true, none, some, served, unreachable, sort_by, text_lt,
}
use calligraphy.Store.Migrate.{Schema, Calls, migrate}

-- The schema is the number of scripts that ran.
abbrev first_boot : Calls ℕ
first_boot = record {
  entries = some ("0002_b.sql" ∷ "0001_init.sql" ∷ []);
  begins = true;
  locks = true;
  ensures = true;
  reads = true;
  file = λ name. some (λ s. some (s + 1));
  commit = served;
}

abbrev second_boot : Calls ℕ
second_boot = record first_boot { commit = unreachable }

abbrev empty : Schema ℕ
empty = record { tables = 0; versions = none }

both_run :
    (migrate first_boot empty).0
    ≡ record { tables = 2; versions = some ("0001_init.sql" ∷ "0002_b.sql" ∷ []) }
unfolding migrate sort_by text_lt
both_run = refl
