-- ===== src/Middleware/SseLimiter/Examples.antt =====
-- The theorems on the limits of event streams at a concrete server.
use chat_gateway.Prelude.{◌+◌, ◌-◌, ◌≤◌, refl, max, [], ◌∷◌, length, arith}
use chat_gateway.Prelude.Text.{Text, bytes}
use chat_gateway.Prelude.Dict.{lookup}
use chat_gateway.Middleware.SseLimiter.{
  lookup, SseLimiter, new_sse_limiter, allow_connection, register_connection,
}
use chat_gateway.Middleware.SseLimiter.Handlers.{
  Server, check, register, Reach, here, next, start, count,
}
use chat_gateway.Middleware.SseLimiter.Accuracy.{IsAccurate, counters_exact}
use chat_gateway.Middleware.SseLimiter.Bounds.{limits_hold}

abbrev alice : Text
alice = bytes "10.0.0.1"

abbrev limiter : SseLimiter
limiter = new_sse_limiter 3 5 1

-- One handler has passed the check and registered at time 7.
abbrev one_stream : Server
one_stream = record {
  limiter = register_connection 7 alice limiter;
  passed = [];
  streams = alice ∷ [];
}

one_stream-Reach : Reach 2 (start limiter) one_stream
unfolding new_sse_limiter allow_connection lookup
one_stream-Reach = next (next here (check 6 alice (omega arith) refl)) (register 7 alice [] [] refl)

counters_exact_example : IsAccurate one_stream
counters_exact_example = counters_exact 2 3 5 1 one_stream one_stream-Reach

limits_hold_example :
    (length one_stream.streams ≤ 1 + (2 - 1))
    × ((ip : Text) → count ip one_stream.streams ≤ max 1 3 + (2 - 1))
limits_hold_example = limits_hold 2 3 5 1 one_stream one_stream-Reach
