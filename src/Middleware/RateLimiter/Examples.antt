-- ===== src/Middleware/RateLimiter/Examples.antt =====
-- The theorems on the rate limiter at concrete requests.
use chat_gateway.Prelude.{ℕ, ◌≤◌, ◌+◌, ◌*◌, ◌≡◌, refl, max, true, false, List, [], ◌∷◌, arith}
use chat_gateway.Prelude.Text.{Text, text_eq, bytes}
use chat_gateway.Prelude.Dict.{lookup, insert, retain}
use chat_gateway.Middleware.RateLimiter.{
  insert, RateLimiter, PerEndpointRateLimiter, new_rate_limiter, new_per_endpoint, set_limit,
  cleanup_visitors, allow_request, visit,
}
use chat_gateway.Middleware.RateLimiter.Isolation.{
  Request, decisions, times_of, visits, decisions-eq-visits,
}
use chat_gateway.Middleware.RateLimiter.Window.{passed_in, span_bound}
use chat_gateway.Middleware.RateLimiter.Running.{answers, times_in}
use chat_gateway.Middleware.RateLimiter.Cleanup.{
  Op, request, sweep, new-IsTimely, cleanup-decisions,
}
use chat_gateway.Middleware.RateLimiter.Endpoints.{PathRequest}

abbrev alice : Text
alice = bytes "10.0.0.1"

abbrev bob : Text
bob = bytes "10.0.0.2"

abbrev limiter : RateLimiter
limiter = new_rate_limiter 2 10

abbrev requests : List Request
requests = (1, alice) ∷ (2, alice) ∷ (3, bob) ∷ (4, alice) ∷ (5, alice) ∷ []

alice-decisions : decisions alice limiter requests ≡ true ∷ true ∷ false ∷ false ∷ []
unfolding decisions new_rate_limiter text_eq allow_request visit lookup insert
alice-decisions = refl

decisions-eq-visits_example :
    decisions alice limiter requests
    ≡ visits limiter.rate limiter.window (lookup alice limiter.visitors) (times_of alice requests)
decisions-eq-visits_example = decisions-eq-visits alice limiter requests

-- Three requests in the first window, a round of the cleanup, and three in the second.
abbrev history : List (ℕ × Op)
history =
    (1, request alice)
    ∷ (2, request alice)
    ∷ (3, request bob)
    ∷ (4, request alice)
    ∷ (9, sweep)
    ∷ (12, request alice)
    ∷ (13, request alice)
    ∷ (14, request alice)
    ∷ []

alice-answers : answers alice limiter history ≡ true ∷ true ∷ false ∷ true ∷ true ∷ false ∷ []
unfolding answers new_rate_limiter text_eq allow_request visit lookup insert cleanup_visitors retain
alice-answers = refl

span_bound_example :
    passed_in 4 (4 + 10) (times_in alice history) (answers alice (new_rate_limiter 2 10) history)
    ≤ 2 * max 1 2
span_bound_example = span_bound alice 2 10 14 history 4 (omega arith) (ground arith)

cleanup-decisions_example :
    decisions alice (cleanup_visitors 0 limiter) requests ≡ decisions alice limiter requests
unfolding new_rate_limiter
cleanup-decisions_example =
    cleanup-decisions alice limiter 0 requests (new-IsTimely 2 10) (omega arith) (ground arith)

abbrev endpoints : PerEndpointRateLimiter
endpoints = set_limit (bytes "/rooms") 2 10 (new_per_endpoint 100 10)

abbrev path_requests : List PathRequest
path_requests =
    (1, bytes "/rooms", alice)
    ∷ (2, bytes "/messages", alice)
    ∷ (3, bytes "/rooms", alice)
    ∷ (4, bytes "/rooms", alice)
    ∷ []
