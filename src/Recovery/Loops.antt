-- ===== src/Recovery/Loops.antt =====
-- The loop of a duty over the rows that it listed: which rows it clears, and which it hands on.
use calligraphy.Base.{
  ℕ, ◌+◌, subst, ◌≡◌, sym, ap, ◌∙◌, ◌⊎◌, inl, inr, String, List, [], ◌∷◌, Bool, true, false, some,
  Bool-cases, Option-cases, str_eq, eq_iff, arith,
}
use calligraphy.Store.Row.{Row, RowOp, apply, step}
use calligraphy.Store.Db.{Db, find_row, update_row}
use calligraphy.Store.Tables.{absent-update, find_row-update_self, find_row-update_ne}
use calligraphy.Job.Record.{Envelope}
use calligraphy.Store.Submit.{Requeueable, from_json}
use calligraphy.Store.Queries.{names, Listed}
use calligraphy.Recovery.Duties.{Deed, each}
use calligraphy.Recovery.Entries.{Put, Put-append, append-Put}

-- No row of the table meets the clause.
abbrev pub Clear : (Row → Bool) → List Row → Type 0
Clear p rs = (id : String) (r : Row) → find_row id rs ≡ some r → p r ≡ false

abbrev pub Clears : (Row → Bool) → RowOp → Type 0
Clears p op = (r : Row) → p (step op r) ≡ false

cleared-touch :
    (p : Row → Bool) (h : String) (op : RowOp) (rs : List Row) (id : String) (r : Row)
    → Clears p op
    → find_row id (update_row h (apply op) rs).0 ≡ some r
    → (p r ≡ false) ⊎ ((str_eq h id ≡ false) × (find_row id rs ≡ some r))
cleared-touch p h op rs id r c f = elim (Bool-cases (str_eq h id)) [
  | inr n ↦ inr (n, sym (find_row-update_ne h op id rs (λ e. grind (arith, eq_iff h id))) ∙ f)
  | inl y ↦
      let same = eq_iff h id in
      elim (Option-cases (find_row h rs)) [
        | inl e ↦ absurd (grind (arith, same, absent-update h h op rs e))
        | inr (q, e) ↦ inl (grind (arith, same, find_row-update_self h op rs q e, c q))
      ]
]

-- Every row that meets the clause is in the list.
abbrev pub Covers : (Row → Bool) → List Requeueable → List Row → Type 0
Covers p xs rs = (id : String) (r : Row) → find_row id rs ≡ some r → p r ≡ true → names id xs ≡ true

module _ (p : Row → Bool) (f : Requeueable → Db → Db × List Deed) (op : Requeueable → RowOp) where
  -- A duty that runs a statement on each row of its list, where that statement takes a row out of the
  -- clause and every row of the clause is listed, leaves no row in the clause.
  pub each-Clear :
      (xs : List Requeueable) (db : Db)
      → ((x : Requeueable) (db : Db) → (f x db).0.jobs ≡ (update_row x.id (apply (op x)) db.jobs).0)
      → ((x : Requeueable) → Clears p (op x))
      → Covers p xs db.jobs
      → Clear p (each f xs db).0.jobs
  unfolding each
  each-Clear [] db e c k =
      λ id r h. elim (Bool-cases (p r)) [ inl y ↦ absurd (grind (arith, k id r h y)) | inr n ↦ n ]
  each-Clear (x ∷ xs) db e c k = each-Clear xs (f x db).0 e c (λ id r h y.
      elim (cleared-touch p x.id (op x) db.jobs id r (c x) (sym (ap (find_row id) (e x db)) ∙ h)) [
        | inl n ↦ absurd (grind arith)
        | inr (n, h') ↦ grind (arith, k id r h' y)
      ])

-- The envelope of a job that waits in the table: its work, for the stream of its priority, with the
-- number of its next attempt.
abbrev pub waiting_envelope : Row → ℕ → Envelope
waiting_envelope row now = record {
  id = row.id;
  kind = row.kind;
  queue = row.queue;
  priority = row.priority;
  attempt = row.attempt_count + 1;
  payload = from_json row.payload;
  enqueued_at = now;
}

-- For every row of the clause the queue took that envelope.
abbrev pub AllPut : (Row → Bool) → ℕ → List Row → List Deed → Type 0
AllPut p now rs deeds =
    (id : String) (r : Row)
    → find_row id rs ≡ some r
    → p r ≡ true
    → Put (waiting_envelope r now) deeds

pub each-puts :
    (f : Requeueable → Db → Db × List Deed) (env_of : Requeueable → Envelope) (q : Requeueable)
    (xs : List Requeueable) (db : Db)
    → ((x : Requeueable) (db : Db) → Put (env_of x) (f x db).1)
    → Listed q xs
    → Put (env_of q) (each f xs db).1
unfolding each
each-puts f env_of q [] db put h = absurd h
each-puts f env_of q (x ∷ xs) db put (inl e) =
    Put-append (env_of q) (f x db).1 (each f xs (f x db).0).1
      (subst (λ y. Put (env_of y) (f x db).1) e (put x db))
each-puts f env_of q (x ∷ xs) db put (inr h) =
    append-Put (env_of q) (f x db).1 (each f xs (f x db).0).1
      (each-puts f env_of q xs (f x db).0 put h)
