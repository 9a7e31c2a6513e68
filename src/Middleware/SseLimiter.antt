-- ===== src/Middleware/SseLimiter.antt =====
-- internal/platform/middleware/sse_limiter.go: the limits on open event streams. Each operation holds
-- the mutex from start to end; `now` is its `time.Now()`. Limits of 0 or less act as 0.
pub mod Handlers
pub mod Accuracy
pub mod Bounds
pub mod Interval
mod Examples
use chat_gateway.Prelude.{
  ℕ, ◌+◌, ◌-◌, ◌*◌, Option, none, some, Bool, true, false, List, [], ◌∷◌, ltb, leb, ◌==◌,
  if◌then◌else◌,
}
use chat_gateway.Prelude.Text.{Text}
use chat_gateway.Prelude.Dict.{Dict, lookup, insert, delete}
use chat_gateway.Middleware.RateLimiter.{minute}

pub record SseLimiter : Type 0 where
  pub connections : Dict ℕ
  pub last_connect : Dict ℕ
  pub max_per_ip : ℕ
  pub min_interval : ℕ
  pub max_total : ℕ
  pub current_total : ℕ

unfoldable pub new_sse_limiter : ℕ → ℕ → ℕ → SseLimiter
new_sse_limiter max_per_ip min_interval max_total = record {
  connections = [];
  last_connect = [];
  max_per_ip = max_per_ip;
  min_interval = min_interval;
  max_total = max_total;
  current_total = 0;
}

-- `count, exists := l.connections[ip]; exists && count >= l.maxPerIP`
abbrev pub at_limit : ℕ → Option ℕ → Bool
at_limit max_per_ip none = false
at_limit max_per_ip (some count) = leb max_per_ip count

-- `time.Since(lastTime) < l.minInterval`
abbrev pub too_soon : ℕ → ℕ → Option ℕ → Bool
too_soon now min_interval none = false
too_soon now min_interval (some last) = ltb now (last + min_interval)

unfoldable pub allow_connection : ℕ → Text → SseLimiter → Bool
allow_connection now ip l =
    if leb l.max_total l.current_total
    then false
    else if at_limit l.max_per_ip (lookup ip l.connections)
    then false
    else if too_soon now l.min_interval (lookup ip l.last_connect)
    then false
    else true

-- The value of a counter that may be missing from the map.
abbrev pub counter : Option ℕ → ℕ
counter none = 0
counter (some n) = n

unfoldable pub register_connection : ℕ → Text → SseLimiter → SseLimiter
register_connection now ip l = record l {
  connections = insert ip (counter (lookup ip l.connections) + 1) l.connections;
  current_total = l.current_total + 1;
  last_connect = insert ip now l.last_connect;
}

-- The total is an `int` in the code; where it is decremented it is positive (Accuracy).
unfoldable pub remove_connection : Text → SseLimiter → SseLimiter
remove_connection ip l = elim (lookup ip l.connections) [
  | none ↦ l
  | some count ↦ record l {
    connections =
        if leb count 1 then delete ip l.connections else insert ip (count - 1) l.connections;
    current_total = l.current_total - 1;
  }
]

-- `count, exists := l.connections[ip]; !exists || count == 0`
abbrev pub idle : Option ℕ → Bool
idle none = true
idle (some count) = count == 0

-- The body of the loop of `cleanup`, and the loop over the entries of `lastConnect`.
unfoldable pub sweep_entry : ℕ → Text → ℕ → SseLimiter → SseLimiter
sweep_entry now ip last l =
    if ltb (last + 10 * minute) now
    then record l {
      last_connect = delete ip l.last_connect;
      connections =
          if idle (lookup ip l.connections) then delete ip l.connections else l.connections;
    }
    else l

unfoldable pub sweep : ℕ → Dict ℕ → SseLimiter → SseLimiter
sweep now [] l = l
sweep now ((ip, last) ∷ rest) l = sweep now rest (sweep_entry now ip last l)

unfoldable pub cleanup : ℕ → SseLimiter → SseLimiter
unfolding sweep sweep_entry
cleanup now l = sweep now l.last_connect l
