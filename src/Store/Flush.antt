-- ===== src/Store/Flush.antt =====
-- internal/store/batch.go: the completions of a batch, made in one multi-row UPDATE before its other
-- statements, against the same statements made in order, for one op at the head of the batch.
use calligraphy.Base.{
  ℕ, ◌≡◌, refl, sym, ◌∙◌, ◌⊎◌, inl, inr, String, List, [], ◌∷◌, true, false, none, some, str_eq,
  eq_iff, eq_refl, is_some, any, arith, Bool-cases, subst,
}
use calligraphy.Store.Row.{
  Row, RowOp, completes, fails, dead_letters, cancels_running, retries, apply, fence, coalesce,
}
use calligraphy.Store.Db.{update_row}
use calligraphy.Store.Tables.{apply-SameJob}
use calligraphy.Store.Recorder.{
  op_complete, op_fail, op_retry, op_dead, op_cancel, Op, is_complete, completion_for,
  complete_rows,
}

-- The statement of an op alone.
abbrev pub row_op : ℕ → Op → RowOp
row_op now o = elim o.kind [
  | op_complete ↦ completes o.epoch o.result now
  | op_fail ↦ fails o.epoch o.err_msg now
  | op_retry ↦ retries o.epoch o.err_msg o.next_at now
  | op_dead ↦ dead_letters o.epoch o.err_msg now
  | op_cancel ↦ cancels_running o.epoch now
]

-- No two ops of the batch are about one job.
abbrev pub Avoids : String → List Op → Type 0
Avoids id [] = Unit {0}
Avoids id (o ∷ os) = (str_eq id o.id ≡ false) × Avoids id os

abbrev pub DistinctIds : List Op → Type 0
DistinctIds [] = Unit {0}
DistinctIds (o ∷ os) = Avoids o.id os × DistinctIds os

pub apply_or_same-id : (op : RowOp) (r : Row) → (coalesce (apply op r) r).id ≡ r.id
apply_or_same-id op r = grind (arith, apply-SameJob op r)

module _ (now : ℕ) where
  completed_refuses :
      (o : Op) (os : List Op) (r : Row)
      → (fence o.epoch r ≡ true)
      → completion_for os (coalesce (apply (completes o.epoch o.result now) r) r) ≡ none
  unfolding completion_for apply
  completed_refuses o [] r h = refl
  completed_refuses o (p ∷ os) r h = ground (arith, completed_refuses o os r h)

  avoided : (os : List Op) (r : Row) → Avoids r.id os → completion_for os r ≡ none
  unfolding completion_for
  avoided [] r a = refl
  avoided (o ∷ os) r a = ground (arith, avoided os r a.1)

  row_op_complete :
      (o : Op) → is_complete o.kind ≡ true → row_op now o ≡ completes o.epoch o.result now
  row_op_complete o k = ground arith

  -- What a completion at the head means for one row.
  head_cases :
      (o : Op) (os : List Op) (r : Row)
      → is_complete o.kind ≡ true
      → Avoids o.id os
      → ((str_eq r.id o.id ≡ true)
          × (completion_for (o ∷ os) r ≡ some o)
          × ((r' : Row) × (apply (completes o.epoch o.result now) r ≡ some r')
              × (apply (row_op now o) r ≡ some r')
              × (r'.id ≡ r.id)
              × (completion_for os r' ≡ none)))
        ⊎ ((str_eq r.id o.id ≡ true)
            × (completion_for (o ∷ os) r ≡ none)
            × (completion_for os r ≡ none)
            × (apply (row_op now o) r ≡ none))
        ⊎ ((str_eq r.id o.id ≡ false) × (completion_for (o ∷ os) r ≡ completion_for os r))
  unfolding completion_for apply
  head_cases o os r k a = elim (Bool-cases (str_eq r.id o.id)) [
    | inl t ↦ elim (Bool-cases (fence o.epoch r)) [
      | inl f ↦ inl (
        t,
        ground arith,
        (
          coalesce (apply (completes o.epoch o.result now) r) r,
          ground arith,
          ground (arith, row_op_complete o k),
          ground arith,
          completed_refuses o os r f,
        ),
      )
      | inr f ↦
          let none_left =
            avoided os r (subst (λ i. Avoids i os) (sym ((eq_iff r.id o.id).0 t)) a) in
          inr (inl (t, ground arith, none_left, ground (arith, row_op_complete o k)))
    ]
    | inr t ↦ inr (inr (t, ground arith))
  ]

  -- A completion at the head of the batch can be made first, on its own.
  pub complete_first :
      (o : Op) (os : List Op) (rs : List Row)
      → is_complete o.kind ≡ true
      → Avoids o.id os
      → ((complete_rows now (o ∷ os) rs).0
          ≡ (complete_rows now os (update_row o.id (apply (row_op now o)) rs).0).0)
        × (any (str_eq o.id) (complete_rows now (o ∷ os) rs).1
            ≡ is_some (update_row o.id (apply (row_op now o)) rs).1)
        × ((id : String)
            → str_eq o.id id ≡ false
            → any (str_eq id) (complete_rows now (o ∷ os) rs).1
              ≡ any
                  (str_eq id)
                  (complete_rows now os (update_row o.id (apply (row_op now o)) rs).0).1)
  unfolding complete_rows update_row
  complete_first o os [] k a = (refl, refl, λ id n. refl)
  complete_first o os (r ∷ rs) k a =
      let (same, hit, others) = complete_first o os rs k a in
      (
        grind (arith, head_cases o os r k a),
        grind (arith, head_cases o os r k a, eq_iff r.id o.id, eq_iff o.id r.id, eq_refl o.id),
        λ id n. grind (
          arith,
          head_cases o os r k a,
          others id n,
          eq_iff r.id o.id,
          eq_iff id r.id,
          eq_iff id o.id,
          eq_iff o.id id,
          eq_refl o.id,
        ),
      )

  -- What an op at the head means for the completions behind it, at one row.
  rare_cases :
      (o : Op) (os : List Op) (r : Row)
      → Avoids o.id os
      → ((str_eq r.id o.id ≡ true)
          × (completion_for os r ≡ none)
          × (completion_for os (coalesce (apply (row_op now o) r) r) ≡ none))
        ⊎ ((str_eq r.id o.id ≡ false)
            × ((q : Op) → (coalesce (apply (completes q.epoch q.result now) r) r).id ≡ r.id))
  rare_cases o os r a = elim (Bool-cases (str_eq r.id o.id)) [
    | inl t ↦
        let same = sym ((eq_iff r.id o.id).0 t) in
        inl (
          t,
          avoided os r (subst (λ i. Avoids i os) same a),
          avoided os _
              (subst (λ i. Avoids i os) (same ∙ sym (apply_or_same-id (row_op now o) r)) a),
        )
    | inr f ↦ inr (f, λ q. apply_or_same-id (completes q.epoch q.result now) r)
  ]

  -- A rarer op at the head of the batch can be made before the completions.
  pub rare_first :
      (o : Op) (os : List Op) (rs : List Row)
      → is_complete o.kind ≡ false
      → Avoids o.id os
      → ((update_row o.id (apply (row_op now o)) (complete_rows now os rs).0).0
          ≡ (complete_rows now os (update_row o.id (apply (row_op now o)) rs).0).0)
        × (is_some (update_row o.id (apply (row_op now o)) (complete_rows now os rs).0).1
            ≡ is_some (update_row o.id (apply (row_op now o)) rs).1)
  unfolding complete_rows update_row
  rare_first o os [] k a = (refl, refl)
  rare_first o os (r ∷ rs) k a =
      let (same, hit) = rare_first o os rs k a in
      (
        grind (arith, rare_cases o os r a, apply-SameJob (row_op now o) r),
        grind (arith, rare_cases o os r a, apply-SameJob (row_op now o) r),
      )
