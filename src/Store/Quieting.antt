-- ===== src/Store/Quieting.antt =====
-- internal/store/batch.go: after a flush, no op of its batch matches a row.
use calligraphy.Base.{
  ℕ, ◌≡◌, refl, String, List, [], ◌∷◌, Bool, true, false, not, ◌||◌, none, some, Option-cases, inl,
  inr, all, arith,
}
use calligraphy.Store.Row.{Row, RowOp, fence, apply, completes, coalesce}
use calligraphy.Store.Db.{update_row}
use calligraphy.Store.Recorder.{Op, is_complete, completion_for, complete_rows, rare_op, rare_ops}
use calligraphy.Store.Quiet.{hits, quiet}

-- The statements of ops leave no row RUNNING that they change, so what is quiet stays so.
closed-hits :
    (now : ℕ) (o x : Op) (op : RowOp) (r : Row)
    → rare_op now o ≡ some op
    → hits x r ≡ false
    → hits x (coalesce (apply op r) r) ≡ false
unfolding apply fence
closed-hits now o x op r h q = grind arith

update-stays_quiet :
    (now : ℕ) (o x : Op) (op : RowOp) (id : String) (rs : List Row)
    → rare_op now o ≡ some op
    → quiet rs x ≡ true
    → quiet (update_row id (apply op) rs).0 x ≡ true
unfolding update_row
update-stays_quiet now o x op id [] h q = refl
update-stays_quiet now o x op id (r ∷ rs) h q =
    grind (arith, closed-hits now o x op r h, update-stays_quiet now o x op id rs h)

-- An op's own statement makes it quiet.
own-hits :
    (now : ℕ) (o : Op) (op : RowOp) (r : Row)
    → rare_op now o ≡ some op
    → fence o.epoch (coalesce (apply op r) r) ≡ false
unfolding apply fence
own-hits now o op r h = grind arith

update-quiets :
    (now : ℕ) (o : Op) (op : RowOp) (rs : List Row)
    → rare_op now o ≡ some op
    → quiet (update_row o.id (apply op) rs).0 o ≡ true
unfolding update_row
update-quiets now o op [] h = refl
update-quiets now o op (r ∷ rs) h =
    grind (arith, own-hits now o op r h, update-quiets now o op rs h)

rare_ops-stays_quiet :
    (now : ℕ) (x : Op) (ids : List String) (os : List Op) (rs : List Row)
    → quiet rs x ≡ true
    → quiet (rare_ops now ids os rs).0 x ≡ true
unfolding rare_ops
rare_ops-stays_quiet now x ids [] rs q = q
rare_ops-stays_quiet now x ids (o ∷ os) rs q = elim (Option-cases (rare_op now o)) [
  | inl e ↦ grind (arith, rare_ops-stays_quiet now x ids os rs q)
  | inr (op, e) ↦
      let rs' = (update_row o.id (apply op) rs).0 in
      grind (
        arith,
        e,
        rare_ops-stays_quiet now x ids os rs' (update-stays_quiet now o x op o.id rs e q),
      )
]

-- The completions of the list are quiet, on these rows.
abbrev pub done : List Row → Op → Bool
done rs o = not (is_complete o.kind) || quiet rs o

done-update :
    (now : ℕ) (o : Op) (op : RowOp) (os : List Op) (rs : List Row)
    → rare_op now o ≡ some op
    → all (done rs) os ≡ true
    → all (done (update_row o.id (apply op) rs).0) os ≡ true
done-update now o op [] rs e d = refl
done-update now o op (x ∷ os) rs e d =
    grind (arith, done-update now o op os rs e, update-stays_quiet now o x op o.id rs e)

pub rare_ops-quiets :
    (now : ℕ) (ids : List String) (os : List Op) (rs : List Row)
    → all (done rs) os ≡ true
    → all (quiet (rare_ops now ids os rs).0) os ≡ true
unfolding rare_ops
rare_ops-quiets now ids [] rs d = refl
rare_ops-quiets now ids (o ∷ os) rs d = elim (Option-cases (rare_op now o)) [
  | inl e ↦ grind (arith, rare_ops-stays_quiet now o ids os rs, rare_ops-quiets now ids os rs)
  | inr (op, e) ↦
      let rs' = (update_row o.id (apply op) rs).0 in
      let own = rare_ops-stays_quiet now o ids os rs' (update-quiets now o op rs e) in
      grind (arith, e, own, rare_ops-quiets now ids os rs', done-update now o op os rs e)
]

-- The completions that the multi-row UPDATE did not apply to a row did not match it.
completion_for-misses :
    (os : List Op) (r : Row)
    → completion_for os r ≡ none
    → all (λ o. not (is_complete o.kind) || not (hits o r)) os ≡ true
unfolding completion_for
completion_for-misses [] r h = refl
completion_for-misses (o ∷ os) r h = grind (arith, completion_for-misses os r)

completion_for-fence :
    (os : List Op) (r : Row) (o : Op) → completion_for os r ≡ some o → fence o.epoch r ≡ true
unfolding completion_for
completion_for-fence [] r o h = absurd (grind arith)
completion_for-fence (x ∷ os) r o h = grind (arith, completion_for-fence os r o)

completed-hits :
    (now : ℕ) (o x : Op) (r : Row)
    → fence o.epoch r ≡ true
    → hits x (coalesce (apply (completes o.epoch o.result now) r) r) ≡ false
unfolding apply fence
completed-hits now o x r h = grind arith

abbrev misses : Row → Op → Bool
misses r o = not (is_complete o.kind) || not (hits o r)

completed-misses :
    (now : ℕ) (o : Op) (r : Row) (os : List Op)
    → fence o.epoch r ≡ true
    → all (misses (coalesce (apply (completes o.epoch o.result now) r) r)) os ≡ true
completed-misses now o r [] h = refl
completed-misses now o r (x ∷ os) h =
    ground (arith, completed-hits now o x r h, completed-misses now o r os h)

done_cons :
    (r : Row) (rs : List Row) (os : List Op)
    → all (misses r) os ≡ true
    → all (done rs) os ≡ true
    → all (done (r ∷ rs)) os ≡ true
done_cons r rs [] m d = refl
done_cons r rs (o ∷ os) m d = ground (arith, done_cons r rs os)

done_nil : (os : List Op) → all (done []) os ≡ true
done_nil [] = refl
done_nil (o ∷ os) = ground (arith, done_nil os)

pub complete_rows-done :
    (now : ℕ) (os : List Op) (rs : List Row) → all (done (complete_rows now os rs).0) os ≡ true
unfolding complete_rows
complete_rows-done now os [] = done_nil os
complete_rows-done now os (r ∷ rs) =
    let rest = (complete_rows now os rs).0 in
    let ih = complete_rows-done now os rs in
    elim (Option-cases (completion_for os r)) [
      | inl e ↦ grind (arith, e, done_cons r rest os (completion_for-misses os r e) ih)
      | inr (o, e) ↦
          let r' = coalesce (apply (completes o.epoch o.result now) r) r in
          grind (
            arith,
            e,
            done_cons r' rest os (completed-misses now o r os (completion_for-fence os r o e)) ih,
          )
    ]
