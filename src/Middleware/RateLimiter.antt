-- ===== src/Middleware/RateLimiter.antt =====
-- internal/platform/middleware/rate_limiter.go: the fixed-window limiter, its cleanup loop, and the
-- limiter for each endpoint. Times are nanoseconds, each call's `time.Now()` is an argument, and a
-- call holds the mutex from start to end. A rate of 0 or less acts as 0: the counter is at least 1.
pub mod Isolation
pub mod Window
pub mod Cleanup
pub mod Running
pub mod Endpoints
mod Examples
use chat_gateway.Prelude.{
  ℕ, ◌+◌, ◌*◌, Option, none, some, Bool, true, false, not, [], ltb, leb, if◌then◌else◌,
}
use chat_gateway.Prelude.Text.{Text}
use chat_gateway.Prelude.Dict.{Dict, lookup, insert, retain}

pub record Visitor : Type 0 where
  pub last_seen : ℕ
  pub requests : ℕ
  pub reset_time : ℕ

pub record RateLimiter : Type 0 where
  pub visitors : Dict Visitor
  pub rate : ℕ
  pub window : ℕ

unfoldable pub new_rate_limiter : ℕ → ℕ → RateLimiter
new_rate_limiter rate window = record { visitors = []; rate = rate; window = window }

-- The branches of `allowRequest`, on the entry that the map holds.
unfoldable pub visit : ℕ → ℕ → ℕ → Option Visitor → Visitor × Bool
visit rate window now none =
    (record { last_seen = now; requests = 1; reset_time = now + window }, true)
visit rate window now (some v) =
    if ltb v.reset_time now
    then (record { last_seen = now; requests = 1; reset_time = now + window }, true)
    else if leb rate v.requests
    then (record v { last_seen = now }, false)
    else (record v { requests = v.requests + 1; last_seen = now }, true)

unfoldable pub allow_request : ℕ → Text → RateLimiter → RateLimiter × Bool
allow_request now ip rl =
    let (v, allowed) = visit rl.rate rl.window now (lookup ip rl.visitors) in
    (record rl { visitors = insert ip v rl.visitors }, allowed)

abbrev pub minute : ℕ
minute = 60 * 1000000000

-- One round of `cleanupVisitors`.
unfoldable pub cleanup_visitors : ℕ → RateLimiter → RateLimiter
cleanup_visitors now rl = record rl {
  visitors = retain (λ ip v. not (ltb (v.last_seen + 10 * minute) now)) rl.visitors;
}

pub record PerEndpointRateLimiter : Type 0 where
  pub limiters : Dict RateLimiter
  pub default : RateLimiter

unfoldable pub new_per_endpoint : ℕ → ℕ → PerEndpointRateLimiter
new_per_endpoint rate window = record { limiters = []; default = new_rate_limiter rate window }

unfoldable pub set_limit : Text → ℕ → ℕ → PerEndpointRateLimiter → PerEndpointRateLimiter
set_limit path rate window p = record p {
  limiters = insert path (new_rate_limiter rate window) p.limiters;
}

-- What the middleware does with a request: pass it on, or answer 429 and abort.
pub data Verdict : Type 0 where
  next too_many_requests : Verdict

abbrev pub verdict : Bool → Verdict
verdict true = next
verdict false = too_many_requests

unfoldable pub middleware :
    ℕ → Text → Text → PerEndpointRateLimiter → PerEndpointRateLimiter × Verdict
middleware now path ip p = elim (lookup path p.limiters) [
  | none ↦
      let (rl, allowed) = allow_request now ip p.default in
      (record p { default = rl }, verdict allowed)
  | some limiter ↦
      let (rl, allowed) = allow_request now ip limiter in
      (record p { limiters = insert path rl p.limiters }, verdict allowed)
]

-- A round of `cleanupVisitors` of the limiter of a path, or of the default one.
unfoldable pub cleanup_path : ℕ → Text → PerEndpointRateLimiter → PerEndpointRateLimiter
cleanup_path now path p = elim (lookup path p.limiters) [
  | none ↦ p
  | some limiter ↦ record p { limiters = insert path (cleanup_visitors now limiter) p.limiters }
]

unfoldable pub cleanup_default : ℕ → PerEndpointRateLimiter → PerEndpointRateLimiter
cleanup_default now p = record p { default = cleanup_visitors now p.default }
