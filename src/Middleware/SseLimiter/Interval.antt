-- ===== src/Middleware/SseLimiter/Interval.antt =====
-- sse_limiter.go: the interval between two connections of a client, and the cleanup loop.
use chat_gateway.Prelude.{
  ℕ, ◌+◌, ◌*◌, ◌≤◌, ◌≡◌, refl, ◌∙◌, sym, Bool, true, false, [], ◌∷◌, ◌&&◌, ◌||◌, none, ltb,
  if◌then◌else◌, arith, Bool-cases, inl, inr,
}
use chat_gateway.Prelude.Text.{Text, text_eq, text_eq_iff}
use chat_gateway.Prelude.Dict.{Dict, lookup, lookup-delete, fresh, distinct}
use chat_gateway.Middleware.RateLimiter.{minute}
use chat_gateway.Middleware.SseLimiter.{
  SseLimiter, allow_connection, sweep, sweep_entry, cleanup, too_soon,
}
use chat_gateway.Middleware.SseLimiter.Handlers.{Server, count}
use chat_gateway.Middleware.SseLimiter.Accuracy.{IsAccurate, sweep-each, sweep-total}
use chat_gateway.Middleware.SseLimiter.Bounds.{sweep-limits}

-- Some entry of the client is older than ten minutes.
abbrev stale : ℕ → Text → Dict ℕ → Bool
stale now ip [] = false
stale now ip ((j, last) ∷ rest) = text_eq j ip && ltb (last + 10 * minute) now || stale now ip rest

lookup-sweep :
    (now : ℕ) (ip : Text) (entries : Dict ℕ) (l : SseLimiter)
    → lookup ip (sweep now entries l).last_connect
      ≡ (if stale now ip entries then none else lookup ip l.last_connect)
unfolding sweep sweep_entry
lookup-sweep now ip [] l = refl
lookup-sweep now ip ((j, last) ∷ rest) l = ground (
  arith,
  lookup-sweep now ip rest (sweep_entry now j last l),
  text_eq_iff j ip,
  lookup-delete j ip l.last_connect,
)

stale-none : (now : ℕ) (ip : Text) (d : Dict ℕ) → fresh ip d ≡ true → stale now ip d ≡ false
unfolding fresh
stale-none now ip [] h = refl
stale-none now ip ((j, last) ∷ rest) h = ground (arith, stale-none now ip rest)

stale-too_soon :
    (c now min_interval : ℕ) (ip : Text) (d : Dict ℕ)
    → distinct d ≡ true
    → min_interval ≤ 10 * minute
    → c ≤ now
    → stale c ip d ≡ true
    → too_soon now min_interval (lookup ip d) ≡ false
unfolding distinct lookup
stale-too_soon c now min_interval ip [] h short later st = ground arith
stale-too_soon c now min_interval ip ((j, last) ∷ rest) h short later st =
    elim (Bool-cases (text_eq j ip)) [
      | inl e ↦
          let same : j ≡ ip = (text_eq_iff j ip).0 e in ground (arith, same, e, stale-none c j rest)
      | inr e ↦ ground (arith, e, stale-too_soon c now min_interval ip rest)
    ]

-- With an interval of at most ten minutes, a round of the cleanup loop changes no later check, of
-- any client.
pub cleanup-allow_connection :
    (c now : ℕ) (ip : Text) (s : Server)
    → IsAccurate s
    → s.limiter.min_interval ≤ 10 * minute
    → c ≤ now
    → allow_connection now ip (cleanup c s.limiter) ≡ allow_connection now ip s.limiter
unfolding allow_connection cleanup
cleanup-allow_connection c now ip s v short later =
    let (total, per_ip, interval) = sweep-limits c s.limiter.last_connect s.limiter in
    let each : lookup ip (sweep c s.limiter.last_connect s.limiter).connections
        ≡ lookup ip s.limiter.connections =
      sweep-each c (λ j. count j s.streams) s.limiter.last_connect s.limiter v.each ip
      ∙ sym (v.each ip) in
    let sum : (sweep c s.limiter.last_connect s.limiter).current_total ≡ s.limiter.current_total =
      sweep-total c s.limiter.last_connect s.limiter in
    rw (total, per_ip, interval, each, sum, lookup-sweep c ip s.limiter.last_connect s.limiter)
      (ground (
        arith,
        stale-too_soon c now s.limiter.min_interval ip s.limiter.last_connect v.once short later,
      ))
