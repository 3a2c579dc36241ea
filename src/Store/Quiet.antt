-- ===== src/Store/Quiet.antt =====
-- internal/store/batch.go: a batch whose ops match no row changes no row.
use calligraphy.Base.{
  ℕ, ◌≡◌, refl, List, [], ◌∷◌, Bool, true, false, not, ◌&&◌, none, some, Option-cases, inl, inr,
  str_eq, all, map, arith,
}
use calligraphy.Store.Row.{Row, RowOp, fence, apply}
use calligraphy.Store.Db.{update_row}
use calligraphy.Store.Recorder.{Op, completion_for, complete_rows, rare_op, rare_ops}

-- The op's statement would match the row.
abbrev pub hits : Op → Row → Bool
hits o r = str_eq r.id o.id && fence o.epoch r

abbrev pub quiet : List Row → Op → Bool
quiet rs o = all (λ r. not (hits o r)) rs

quiet_tail :
    (r : Row) (rs : List Row) (os : List Op)
    → all (quiet (r ∷ rs)) os ≡ true
    → all (quiet rs) os ≡ true
unfolding fence
quiet_tail r rs [] h = refl
quiet_tail r rs (o ∷ os) h = ground (arith, quiet_tail r rs os)

completion_for-quiet :
    (r : Row) (rs : List Row) (os : List Op)
    → all (quiet (r ∷ rs)) os ≡ true
    → completion_for os r ≡ none
unfolding completion_for
completion_for-quiet r rs [] h = refl
completion_for-quiet r rs (o ∷ os) h = ground (arith, completion_for-quiet r rs os)

pub complete_rows-quiet :
    (now : ℕ) (os : List Op) (rs : List Row)
    → all (quiet rs) os ≡ true
    → complete_rows now os rs ≡ (rs, [])
unfolding complete_rows
complete_rows-quiet now os [] h = refl
complete_rows-quiet now os (r ∷ rs) h =
    ground
      (arith, completion_for-quiet r rs os h, complete_rows-quiet now os rs (quiet_tail r rs os h))

-- The statement of an op needs its fence.
rare_op-fence :
    (now : ℕ) (o : Op) (op : RowOp) (r : Row)
    → rare_op now o ≡ some op
    → fence o.epoch r ≡ false
    → apply op r ≡ none
unfolding apply
rare_op-fence now o op r h f = grind arith

update-quiet :
    (now : ℕ) (o : Op) (op : RowOp) (rs : List Row)
    → rare_op now o ≡ some op
    → quiet rs o ≡ true
    → update_row o.id (apply op) rs ≡ (rs, none)
unfolding update_row
update-quiet now o op [] h q = refl
update-quiet now o op (r ∷ rs) h q =
    ground (arith, rare_op-fence now o op r h, update-quiet now o op rs h)

pub rare_ops-quiet :
    (now : ℕ) (os : List Op) (rs : List Row)
    → all (quiet rs) os ≡ true
    → rare_ops now [] os rs ≡ (rs, map (λ o. false) os)
unfolding rare_ops
rare_ops-quiet now [] rs h = refl
rare_ops-quiet now (o ∷ os) rs h = elim (Option-cases (rare_op now o)) [
  | inl e ↦ grind (arith, rare_ops-quiet now os rs)
  | inr (op, e) ↦ grind (arith, update-quiet now o op rs e, rare_ops-quiet now os rs)
]
