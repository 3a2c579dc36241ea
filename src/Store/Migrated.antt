-- ===== src/Store/Migrated.antt =====
-- internal/store/migrate.go: a migration takes effect once, and a run that fails leaves no trace.
use calligraphy.Base.{◌≡◌, String, List, true, some, All, Result, ok, err}
use calligraphy.Store.Migrate.{Schema, MigrateError, contains}

abbrev Covers : List String → List String → Type 0
Covers vs ws = (v : String) → contains v vs ≡ true → contains v ws ≡ true

abbrev Has : List String → String → Type 0
Has vs n = contains n vs ≡ true

module _ {S : Type 0} where
  abbrev recorded_as : S → List String → Schema S
  recorded_as s vs = record { tables = s; versions = some vs }

  -- Every migration of a list is recorded.
  abbrev Recorded : List String → Schema S → Type 0
  Recorded names site = (vs : List String) × (site.versions ≡ some vs) × All (Has vs) names

  -- What a run leaves, and what a later one leaves then, by the answer of the first.
  abbrev pub AsAnswered : Result MigrateError (Unit {0}) → Schema S → Schema S → Schema S → Type 0
  AsAnswered (ok u) before after later = later ≡ after
  AsAnswered (err e) before after later = after ≡ before
