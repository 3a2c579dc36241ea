-- ===== src/Store/Tables.antt =====
-- The table `jobs` under the statements of the store: one row for each id, rows that a statement
-- does not name left alone, and one job for each idempotency key.
use calligraphy.Base.{◌≡◌, refl, ◌≢◌, String, List, [], ◌∷◌, Option, none, some, eq_iff, arith}
use calligraphy.Store.Row.{Row, RowOp, apply, step}
use calligraphy.Store.Db.{find_row, update_row}

-- What no statement changes in a row.
pub record SameJob (r r' : Row) : Type 0 where
  pub id_kept : r'.id ≡ r.id
  pub kind_kept : r'.kind ≡ r.kind
  pub key_kept : r'.idempotency_key ≡ r.idempotency_key
  pub payload_kept : r'.payload ≡ r.payload
  pub allowed_kept : r'.max_attempts ≡ r.max_attempts

pub apply-SameJob : (op : RowOp) (r : Row) {r' : Row} → apply op r ≡ some r' → SameJob r r'
unfolding apply
apply-SameJob op r h = ground arith

module _ (id : String) (op : RowOp) where
  -- The row that the statement names is changed as `step` says.
  pub find_row-update_self :
      (rs : List Row) (r : Row)
      → find_row id rs ≡ some r
      → find_row id (update_row id (apply op) rs).0 ≡ some (step op r)
  unfolding find_row update_row step
  find_row-update_self [] r h = cc
  find_row-update_self (x ∷ rs) r h =
      grind (arith, find_row-update_self rs r, apply-SameJob op x, eq_iff x.id id)

  -- Any other row stays as it is.
  pub find_row-update_ne :
      (j : String) (rs : List Row)
      → j ≢ id
      → find_row j (update_row id (apply op) rs).0 ≡ find_row j rs
  unfolding find_row update_row
  find_row-update_ne j [] n = refl
  find_row-update_ne j (x ∷ rs) n =
      grind (arith, find_row-update_ne j rs n, apply-SameJob op x, eq_iff x.id id, eq_iff x.id j)

-- The id is a primary key.
abbrev pub UniqueIds : List Row → Type 0
UniqueIds [] = Unit {0}
UniqueIds (r ∷ rs) = (find_row r.id rs ≡ none) × UniqueIds rs

pub absent-update :
    (id j : String) (op : RowOp) (rs : List Row)
    → find_row j rs ≡ none
    → find_row j (update_row id (apply op) rs).0 ≡ none
unfolding find_row update_row
absent-update id j op [] h = refl
absent-update id j op (x ∷ rs) h = grind (arith, absent-update id j op rs, apply-SameJob op x)

pub update-absent :
    (id : String) (op : RowOp) (rs : List Row)
    → find_row id rs ≡ none
    → update_row id (apply op) rs ≡ (rs, none)
unfolding find_row update_row
update-absent id op [] h = refl
update-absent id op (x ∷ rs) h = ground (arith, update-absent id op rs)

-- The row before and after, if a statement matches it.
abbrev pub change : Row → Option Row → Option (Row × Row)
change r none = none
change r (some r') = some (r, r')

-- The statement reports what it does to the row that it names.
pub update_row-hit :
    (id : String) (op : RowOp) (rs : List Row) (r : Row)
    → UniqueIds rs
    → find_row id rs ≡ some r
    → (update_row id (apply op) rs).1 ≡ change r (apply op r)
unfolding find_row update_row
update_row-hit id op [] r u h = cc
update_row-hit id op (x ∷ rs) r u h =
    grind (arith, update_row-hit id op rs r u.1, update-absent id op rs, eq_iff x.id id)

pub update-UniqueIds :
    (id : String) (op : RowOp) (rs : List Row)
    → UniqueIds rs
    → UniqueIds (update_row id (apply op) rs).0
unfolding update_row
update-UniqueIds id op [] u = tt
update-UniqueIds id op (x ∷ rs) u =
    grind (arith, update-UniqueIds id op rs u.1, absent-update id x.id op rs, apply-SameJob op x)

pub find_row-id : (id : String) (rs : List Row) (r : Row) → find_row id rs ≡ some r → r.id ≡ id
unfolding find_row
find_row-id id [] r h = cc
find_row-id id (x ∷ rs) r h = grind (arith, find_row-id id rs r, eq_iff x.id id)

-- A statement that matches no row changes none.
pub update_row-miss :
    (id : String) (op : RowOp) (rs : List Row)
    → (update_row id (apply op) rs).1 ≡ none
    → (update_row id (apply op) rs).0 ≡ rs
unfolding update_row
update_row-miss id op [] h = refl
update_row-miss id op (x ∷ rs) h = grind (arith, update_row-miss id op rs)

-- A statement that matches did so at the row of its id.
pub update_row-some :
    (id : String) (op : RowOp) (rs : List Row) (p : Row × Row)
    → UniqueIds rs
    → (update_row id (apply op) rs).1 ≡ some p
    → (find_row id rs ≡ some p.0) × (apply op p.0 ≡ some p.1)
unfolding update_row find_row
update_row-some id op [] p u h = cc
update_row-some id op (x ∷ rs) p u h =
    grind (arith, update_row-some id op rs p u.1, update-absent id op rs, eq_iff x.id id)
