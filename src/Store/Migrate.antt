-- ===== src/Store/Migrate.antt =====
-- internal/store/migrate.go: Migrate, as one transaction on the schema and the table of versions.
-- What the SQL of a migration does to the schema `S` is an argument. The lock makes concurrent boots
-- one after the other.
use calligraphy.Base.{
  String, List, [], ◌∷◌, ◌++◌, Bool, true, false, Option, none, some, if◌then◌else◌, any, sort_by,
  text_lt, str_eq, Result, ok, err, Fate, served, unreachable, answer_lost,
}
use calligraphy.Job.Record.{codes}

pub record Schema (S : Type 0) : Type 0 where
  pub tables : S
  pub versions : Option (List String)  -- schema_migrations, if it is there

pub data MigrateError : Type 0 where
  reading_migrations begin lock ensuring reading_applied committing : MigrateError
  reading applying recording : String → MigrateError

-- What the calls of one run meet. The table of versions is made and read in the transaction.
pub record Calls (S : Type 0) : Type 0 where
  pub entries : Option (List String)
  pub begins : Bool
  pub locks : Bool
  pub ensures : Bool
  pub reads : Bool
  pub file : String → Option (S → Option S)
  pub commit : Fate

abbrev pub contains : String → List String → Bool
contains v vs = any (str_eq v) vs

abbrev pub versions_of : Option (List String) → List String
versions_of none = []
versions_of (some vs) = vs

-- sort.Strings; Go compares texts by their bytes, and UTF-8 keeps the order of code points.
unfoldable pub sorted : List String → List String
sorted names = sort_by (λ a b. text_lt (codes a) (codes b)) names

module _ {S : Type 0} where
  -- INSERT INTO schema_migrations: the version is the primary key.
  unfoldable pub record_version : String → S → List String → Result MigrateError (S × List String)
  record_version name s vs =
      if contains name vs then err (recording name) else ok (s, vs ++ name ∷ [])

  abbrev pub run_sql :
      String → Option (S → Option S) → S → List String → Result MigrateError (S × List String)
  run_sql name none s vs = err (reading name)
  run_sql name (some sql) s vs = elim (sql s) [
    | none ↦ err (applying name)
    | some s' ↦ record_version name s' vs
  ]

  -- The loop over the names. `applied` is what was read before it.
  unfoldable pub apply_all :
      Calls S → List String → List String → S → List String → Result MigrateError (S × List String)
  unfolding record_version
  apply_all c applied [] s vs = ok (s, vs)
  apply_all c applied (name ∷ names) s vs =
      let on = apply_all c applied names s vs in
      let step : Result MigrateError (S × List String) = elim (run_sql name (c.file name) s vs) [
        | err e ↦ err e
        | ok (s', vs') ↦ apply_all c applied names s' vs'
      ] in
      if contains name applied then on else step

  abbrev pub commit_as : Fate → Schema S → Schema S → Schema S × Result MigrateError (Unit {0})
  commit_as served site site' = (site', ok tt)
  commit_as unreachable site site' = (site, err committing)
  commit_as answer_lost site site' = (site', err committing)

  -- An error rolls the transaction back.
  abbrev pub commits :
      Calls S
      → Schema S
      → Result MigrateError (S × List String)
      → Schema S × Result MigrateError (Unit {0})
  commits c site (err e) = (site, err e)
  commits c site (ok (s, vs)) = commit_as c.commit site (record { tables = s; versions = some vs })

  -- An error of a call before the loop.
  abbrev pub unless :
      Bool
      → MigrateError
      → Schema S
      → Schema S × Result MigrateError (Unit {0})
      → Schema S × Result MigrateError (Unit {0})
  unless true e site next = next
  unless false e site next = (site, err e)

  abbrev pub in_transaction :
      Calls S → List String → Schema S → Schema S × Result MigrateError (Unit {0})
  in_transaction c names site =
      let vs = versions_of site.versions in
      unless c.begins begin site (
        unless c.locks lock site (
          unless c.ensures ensuring site (
            unless c.reads reading_applied site
              (commits c site (apply_all c vs names site.tables vs)))))

  abbrev pub after_read :
      Calls S → Schema S → Option (List String) → Schema S × Result MigrateError (Unit {0})
  after_read c site none = (site, err reading_migrations)
  after_read c site (some names) = in_transaction c (sorted names) site

  unfoldable pub migrate : Calls S → Schema S → Schema S × Result MigrateError (Unit {0})
  unfolding apply_all sorted
  migrate c site = after_read c site c.entries
