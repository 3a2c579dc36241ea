-- ===== src/Api/Runnable.antt =====
-- internal/api/server.go and internal/handler/handler.go: a job that is accepted has a handler.
use calligraphy.Base.{
  ℕ, ◌≡◌, inl, inr, String, List, [], Bool, true, some, is_some, any, str_eq, Result-cases, ok,
  subst, arith,
}
use calligraphy.Job.Errors.{Bytes}
use calligraphy.Job.Record.{Job, Options, new, fresh_job}
use calligraphy.Handler.{Registration, get, types, register_all, listed_runs}
use calligraphy.Api.Submit.{Server, Decoded, too_big, malformed, decoded, admit, options_of}

new-kind :
    (json_valid : Bytes → Bool) (id kind : String) (payload : Bytes) (opts : Options) (now : ℕ)
    (j : Job)
    → new json_valid id kind payload opts now ≡ ok j
    → j.kind ≡ kind
unfolding new fresh_job
new-kind json_valid id kind payload opts now j h = grind arith

admit-known :
    (s : Server) (json_valid : Bytes → Bool) (id : String) (now : ℕ) (d : Decoded) (j : Job)
    → admit s json_valid id now d ≡ ok j
    → any (str_eq j.kind) s.known_types ≡ true
unfolding admit
admit-known s json_valid id now too_big j h = absurd (grind arith)
admit-known s json_valid id now malformed j h = absurd (grind arith)
admit-known s json_valid id now (decoded r) j h = elim (Result-cases (options_of r now)) [
  | inr (e, o) ↦ absurd (grind arith)
  | inl (opts, o) ↦ grind (arith, o, h, new-kind json_valid id r.kind r.payload opts now j)
]

-- With the names of a registry as its known types, the API accepts only jobs whose type has a
-- handler in the registry, registered under that type.
pub accepted_runs :
    {H : Type 0} (rs m : List (Registration H)) (s : Server) (json_valid : Bytes → Bool)
    (id : String) (now : ℕ) (d : Decoded) (j : Job)
    → register_all rs [] ≡ ok m
    → s.known_types ≡ types m
    → admit s json_valid id now d ≡ ok j
    → (reg : Registration H) × (get j.kind m ≡ some reg)
      × (reg.kind ≡ j.kind)
      × (is_some reg.handler ≡ true)
accepted_runs rs m s json_valid id now d j built same h =
    listed_runs rs m j.kind built
      (subst (λ ts. any (str_eq j.kind) ts ≡ true) same (admit-known s json_valid id now d j h))
