-- ===== src/Middleware/RateLimiter/Isolation.antt =====
-- rate_limiter.go: a sequence of calls of `allowRequest`, seen from one client.
use chat_gateway.Prelude.{ℕ, ◌≡◌, refl, Option, some, Bool, List, [], ◌∷◌, arith, if◌then◌else◌}
use chat_gateway.Prelude.Text.{Text, text_eq, text_eq_iff}
use chat_gateway.Prelude.Dict.{lookup, lookup-insert}
use chat_gateway.Middleware.RateLimiter.{RateLimiter, Visitor, visit, allow_request}

-- A request: the time of the call and the client's address.
abbrev pub Request : Type 0
Request = ℕ × Text

unfoldable pub serve : RateLimiter → List Request → RateLimiter
serve rl [] = rl
serve rl ((now, ip) ∷ rs) = serve (allow_request now ip rl).0 rs

-- The answers that the requests of `ip` get, among those of everybody else, between two rounds of the
-- cleanup; runs with rounds are in Running.
unfoldable pub decisions : Text → RateLimiter → List Request → List Bool
decisions ip rl [] = []
decisions ip rl ((now, j) ∷ rs) =
    let rest = decisions ip (allow_request now j rl).0 rs in
    if text_eq j ip then (allow_request now j rl).1 ∷ rest else rest

abbrev pub times_of : Text → List Request → List ℕ
times_of ip [] = []
times_of ip ((now, j) ∷ rs) = if text_eq j ip then now ∷ times_of ip rs else times_of ip rs

-- One client alone, with its entry of the map.
unfoldable pub visits : ℕ → ℕ → Option Visitor → List ℕ → List Bool
visits rate window entry [] = []
visits rate window entry (now ∷ ts) =
    (visit rate window now entry).1 ∷ visits rate window (some (visit rate window now entry).0) ts

-- The answers that a client gets are those it would get alone: they depend on the limits, on its own
-- entry and on the times of its own requests, whatever the other clients ask in between. The requests
-- are those between two rounds of the cleanup.
pub decisions-eq-visits :
    (ip : Text) (rl : RateLimiter) (rs : List Request)
    → decisions ip rl rs ≡ visits rl.rate rl.window (lookup ip rl.visitors) (times_of ip rs)
unfolding decisions visits allow_request
decisions-eq-visits ip rl [] = refl
decisions-eq-visits ip rl ((now, j) ∷ rs) = ground (
  arith,
  text_eq_iff j ip,
  lookup-insert j ip (visit rl.rate rl.window now (lookup j rl.visitors)).0 rl.visitors,
  decisions-eq-visits ip (allow_request now j rl).0 rs,
)
