-- ===== src/Handler.antt =====
-- internal/handler/handler.go: the registry of handlers. `H` is a handler; `none` is a nil one.
use calligraphy.Base.{
  ◌≡◌, refl, String, List, [], ◌∷◌, map, true, not, Option, none, some, if◌then◌else◌, is_some, any,
  str_eq, eq_iff, Bool-cases, Option-cases, Result-cases, subst, Result, ok, err, arith, inl, inr,
}
use calligraphy.Job.Record.{valid_name}
use calligraphy.Worker.Runner.{HandlerOptions}

pub record Registration (H : Type 0) : Type 0 where
  pub kind : String
  pub handler : Option H
  pub options : HandlerOptions

pub data RegisterError : Type 0 where
  invalid_name nil_handler duplicate : RegisterError

module _ {H : Type 0} where
  unfoldable pub get : String → List (Registration H) → Option (Registration H)
  get kind [] = none
  get kind (r ∷ rs) = if str_eq r.kind kind then some r else get kind rs

  unfoldable pub register :
      Registration H → List (Registration H) → Result RegisterError (List (Registration H))
  unfolding get
  register reg m =
      if not (valid_name reg.kind)
      then err invalid_name
      else if not (is_some reg.handler)
      then err nil_handler
      else if is_some (get reg.kind m)
      then err duplicate
      else ok (reg ∷ m)

  unfoldable pub types : List (Registration H) → List String
  types m = map (λ r. r.kind) m

  -- `MustRegister` for each of a list: the program ends at the first error.
  unfoldable pub register_all :
      List (Registration H) → List (Registration H) → Result RegisterError (List (Registration H))
  unfolding register
  register_all [] m = ok m
  register_all (r ∷ rs) m = elim (register r m) [ err e ↦ err e | ok m' ↦ register_all rs m' ]

  -- `Types` are the names that `Get` finds.
  pub types-get :
      (kind : String) (m : List (Registration H))
      → any (str_eq kind) (types m) ≡ is_some (get kind m)
  unfolding types get
  types-get kind [] = refl
  types-get kind (r ∷ rs) = grind (arith, types-get kind rs, eq_iff kind r.kind, eq_iff r.kind kind)

  -- Every handler is there, under the name that it is found by.
  abbrev pub Filled : List (Registration H) → Type 0
  Filled m =
      (kind : String) (reg : Registration H)
      → get kind m ≡ some reg
      → (reg.kind ≡ kind) × (is_some reg.handler ≡ true)

  nothing : Filled []
  unfolding get
  nothing kind reg g = absurd (grind (arith, g))

  register-Filled :
      (reg : Registration H) (m m' : List (Registration H))
      → Filled m
      → register reg m ≡ ok m'
      → Filled m'
  unfolding register get
  register-Filled reg m m' f h kind r g = elim (Bool-cases (str_eq reg.kind kind)) [
    | inl e ↦ grind (arith, h, g, e, eq_iff reg.kind kind)
    | inr e ↦ f kind r (grind (arith, h, g, e))
  ]

  register_all-Filled :
      (rs : List (Registration H)) (m m' : List (Registration H))
      → Filled m
      → register_all rs m ≡ ok m'
      → Filled m'
  unfolding register_all
  register_all-Filled [] m m' f h = subst Filled (grind (arith, h)) f
  register_all-Filled (r ∷ rs) m m' f h = elim (Result-cases (register r m)) [
    | inr (e, q) ↦ absurd (grind (arith, h, q))
    | inl (m'', q) ↦
        register_all-Filled rs m'' m' (register-Filled r m m'' f q) (grind (arith, h, q))
  ]

  -- A registry that is built from nothing gives every name that it lists a handler.
  pub listed_runs :
      (rs m : List (Registration H)) (kind : String)
      → register_all rs [] ≡ ok m
      → any (str_eq kind) (types m) ≡ true
      → (reg : Registration H) × (get kind m ≡ some reg)
        × (reg.kind ≡ kind)
        × (is_some reg.handler ≡ true)
  listed_runs rs m kind h k = elim (Option-cases (get kind m)) [
    | inl n ↦ absurd (grind (arith, k, n, types-get kind m))
    | inr (reg, g) ↦
        let (name, there) = register_all-Filled rs [] m nothing h kind reg g in
        (reg, g, name, there)
  ]
