-- ===== src/Middleware/RateLimiter/Endpoints.antt =====
-- rate_limiter.go, `PerEndpointRateLimiter.Middleware`: a sequence of requests to several paths.
use chat_gateway.Prelude.{
  ◌∙◌, inr, ap, inl, Option-cases, Bool-cases, ℕ, ◌≡◌, refl, some, List, [], ◌∷◌, if◌then◌else◌,
  arith,
}
use chat_gateway.Prelude.Text.{Text, text_eq, text_eq_iff}
use chat_gateway.Prelude.Dict.{lookup-insert_self, lookup, lookup-insert}
use chat_gateway.Middleware.RateLimiter.{
  false, insert, RateLimiter, PerEndpointRateLimiter, Verdict, verdict, allow_request, middleware,
  cleanup_path, cleanup_visitors,
}

-- A request: the time, the path and the client's address.
abbrev pub PathRequest : Type 0
PathRequest = ℕ × Text × Text

-- The answers to the requests for `path`, among those for other paths.
unfoldable pub answers : Text → PerEndpointRateLimiter → List PathRequest → List Verdict
answers path p [] = []
answers path p ((now, q, ip) ∷ rs) =
    let rest = answers path (middleware now q ip p).0 rs in
    if text_eq q path then (middleware now q ip p).1 ∷ rest else rest

-- The answers of one limiter that sees the requests for `path` only.
unfoldable pub answers_of : Text → RateLimiter → List PathRequest → List Verdict
answers_of path rl [] = []
answers_of path rl ((now, q, ip) ∷ rs) =
    if text_eq q path
    then verdict (allow_request now ip rl).1 ∷ answers_of path (allow_request now ip rl).0 rs
    else answers_of path rl rs

pub limited :
    (now : ℕ) (path ip : Text) (rl : RateLimiter) (p : PerEndpointRateLimiter)
    → lookup path p.limiters ≡ some rl
    → middleware now path ip p ≡ (
      record p { limiters = insert path (allow_request now ip rl).0 p.limiters },
      verdict (allow_request now ip rl).1,
    )
unfolding middleware
limited now path ip rl p h = rw (h, middleware) refl

pub unaffected :
    (now : ℕ) (q path ip : Text) (p : PerEndpointRateLimiter)
    → text_eq q path ≡ false
    → lookup path (middleware now q ip p).0.limiters ≡ lookup path p.limiters
unfolding middleware
unaffected now q path ip p h = elim (Option-cases (lookup q p.limiters)) [
  | inl e ↦ rw (e, middleware) refl
  | inr (rl, e) ↦
      rw (e, middleware)
        (lookup-insert q path (allow_request now ip rl).0 p.limiters ∙ ground (arith, h))
]

pub swept_path :
    (now : ℕ) (path : Text) (rl : RateLimiter) (p : PerEndpointRateLimiter)
    → lookup path p.limiters ≡ some rl
    → lookup path (cleanup_path now path p).limiters ≡ some (cleanup_visitors now rl)
unfolding cleanup_path
swept_path now path rl p h =
    rw (h, cleanup_path) (lookup-insert_self path (cleanup_visitors now rl) p.limiters)

pub swept_other :
    (now : ℕ) (q path : Text) (p : PerEndpointRateLimiter)
    → text_eq q path ≡ false
    → lookup path (cleanup_path now q p).limiters ≡ lookup path p.limiters
unfolding cleanup_path
swept_other now q path p h = elim (Option-cases (lookup q p.limiters)) [
  | inl e ↦ rw (e, cleanup_path) refl
  | inr (rl, e) ↦
      rw (e, cleanup_path)
        (lookup-insert q path (cleanup_visitors now rl) p.limiters ∙ ground (arith, h))
]

-- A path with a limit of its own is answered by its limiter as if the requests for the other paths,
-- those under the default limit among them, were not there.
pub answers-eq-answers_of :
    (path : Text) (rl : RateLimiter) (p : PerEndpointRateLimiter) (rs : List PathRequest)
    → lookup path p.limiters ≡ some rl
    → answers path p rs ≡ answers_of path rl rs
unfolding answers answers_of
answers-eq-answers_of path rl p [] h = refl
answers-eq-answers_of path rl p ((now, q, ip) ∷ rs) h = elim (Bool-cases (text_eq q path)) [
  | inl e ↦
      let same : q ≡ path = (text_eq_iff q path).0 e in
      rw (e, same, limited now path ip rl p h)
        (ap (◌∷◌ (verdict (allow_request now ip rl).1)) (
          answers-eq-answers_of path (allow_request now ip rl).0 _ rs
            (lookup-insert_self path _ p.limiters)))
  | inr e ↦ rw e (
      answers-eq-answers_of path rl (middleware now q ip p).0 rs (unaffected now q path ip p e ∙ h))
]
