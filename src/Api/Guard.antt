-- ===== src/Api/Guard.antt =====
-- internal/api/server.go: who reaches a handler, from the tokens and the header to the reply.
use calligraphy.Base.{
  ◌≡◌, refl, ap, sym, ◌∙◌, ◌⊎◌, inl, inr, List, [], ◌++◌, true, false, ◌≤◌, length, Bool-cases,
  arith,
}
use calligraphy.Job.Errors.{Bytes}
use calligraphy.Api.Http.{write_err}
use calligraphy.Api.Auth.{bearer, admits, digests_of, One, admits_iff}
use calligraphy.Api.Routes.{
  Request, World, Site, Served, handle, is_open, serve, Untouched, get-Untouched, open_is_get,
}

-- What the header must be: the prefix and a token that has the digest of one of the tokens that the
-- server was given; or it was given none.
abbrev pub Authorized : (Bytes → Bytes) → List Bytes → Bytes → Type 0
Authorized digest tokens header =
    (tokens ≡ [])
    ⊎ ((token : Bytes) × (header ≡ bearer ++ token) × (1 ≤ length token) × One digest token tokens)

-- What becomes of a request that is not authorized.
abbrev pub Refused : World → Request → Site → Served → Type 0
Refused w r s out =
    Untouched s out
    × (((is_open r ≡ true) × (out.reply ≡ (handle w r s).reply))
        ⊎ ((is_open r ≡ false) × (out.reply ≡ write_err 401 "unauthorized")))

-- A server was given tokens and keeps their digests. If the header of a request is `Bearer ` and a
-- token, not empty, with the digest of one of them, or if there are no tokens, the handler of its
-- route serves it. Otherwise the tables, the hub and the queue are left alone, and the reply is 401,
-- unless the route is one of the two probes, which answer as ever.
pub serve_safe :
    (w : World) (tokens : List Bytes) (header : Bytes) (r : Request) (s : Site)
    → w.tokens ≡ digests_of w.digest tokens
    → (Authorized w.digest tokens header × (serve w header r s ≡ handle w r s))
      ⊎ ((¬ Authorized w.digest tokens header) × Refused w r s (serve w header r s))
unfolding serve
serve_safe w tokens header r s kept =
    let (there, back) = admits_iff w.digest tokens header in
    let same : admits w.digest w.tokens header
        ≡ admits w.digest (digests_of w.digest tokens) header =
      ap (λ ds. admits w.digest ds header) kept in
    elim (Bool-cases (admits w.digest w.tokens header)) [
      | inl let_in ↦ inl (there (sym same ∙ let_in), ground (arith, let_in))
      | inr kept_out ↦ inr (
        (λ a. absurd (grind (arith, kept_out, same, back a))),
        elim (Bool-cases (is_open r)) [
          | inl o ↦ rw o (get-Untouched w r s (open_is_get r o), inl (refl, refl))
          | inr shut ↦ rw (shut, kept_out) ((refl, refl), inr (refl, refl))
        ],
      )
    ]
