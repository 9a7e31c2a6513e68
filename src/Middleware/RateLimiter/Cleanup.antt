-- ===== src/Middleware/RateLimiter/Cleanup.antt =====
-- rate_limiter.go, `cleanupVisitors`: dropping idle clients changes no later answer.
use chat_gateway.Prelude.{
  ℕ, ◌+◌, ◌*◌, ◌≤◌, ◌<◌, ◌≡◌, refl, Option, none, some, true, List, [], ◌∷◌, not, All, arith, ltb,
}
use chat_gateway.Prelude.Text.{Text}
use chat_gateway.Prelude.Dict.{
  lookup, distinct, distinct-insert, distinct-retain, lookup-insert, lookup-retain, passed,
}
use chat_gateway.Middleware.RateLimiter.{
  RateLimiter, Visitor, visit, allow_request, cleanup_visitors, new_rate_limiter, minute,
}
use chat_gateway.Middleware.RateLimiter.Isolation.{
  Request, decisions, times_of, visits, decisions-eq-visits,
}

-- What holds of the map while the clock has not passed `now`.
pub record IsTimely (now : ℕ) (rl : RateLimiter) : Type 0 where
  pub once : distinct rl.visitors ≡ true
  pub ends :
      (ip : Text) (v : Visitor)
      → lookup ip rl.visitors ≡ some v
      → (v.reset_time ≤ v.last_seen + rl.window) × (v.last_seen ≤ now)

-- A call of `allowRequest`, or a round of the cleanup loop.
pub data Op : Type 0 where
  request : Text → Op
  sweep : Op

unfoldable pub step : ℕ → Op → RateLimiter → RateLimiter
step now (request ip) rl = (allow_request now ip rl).0
step now sweep rl = cleanup_visitors now rl

unfoldable pub run : RateLimiter → List (ℕ × Op) → RateLimiter
run rl [] = rl
run rl ((now, op) ∷ ops) = run (step now op rl) ops

-- The clock never goes back: the history begins at `now` or later, and its last time is `until`.
abbrev pub Monotone : ℕ → List (ℕ × Op) → ℕ → Type 0
Monotone now [] until = now ≤ until
Monotone now ((t, op) ∷ ops) until = (now ≤ t) × Monotone t ops until

visit-timely :
    (rate window before now : ℕ) (entry : Option Visitor)
    → before ≤ now
    → ((v : Visitor)
        → entry ≡ some v
        → (v.reset_time ≤ v.last_seen + window) × (v.last_seen ≤ before))
    → let v = (visit rate window now entry).0 in
      (v.reset_time ≤ v.last_seen + window) × (v.last_seen ≤ now)
unfolding visit
visit-timely rate window before now none h old = ground arith
visit-timely rate window before now (some v) h old = ground (arith, old v refl)

pub step-IsTimely :
    (before now : ℕ) (op : Op) (rl : RateLimiter)
    → before ≤ now
    → IsTimely before rl
    → IsTimely now (step now op rl)
unfolding step allow_request cleanup_visitors
step-IsTimely before now (request ip) rl h v =
    let entry : Option Visitor = lookup ip rl.visitors in
    let new : Visitor = (visit rl.rate rl.window now entry).0 in
    let timely : (new.reset_time ≤ new.last_seen + rl.window) × (new.last_seen ≤ now) =
      visit-timely rl.rate rl.window before now entry h (v.ends ip) in
    record {
      once = distinct-insert ip new rl.visitors v.once;
      ends = λ j w e. ground (arith, lookup-insert ip j new rl.visitors, v.ends j w, timely);
    }
step-IsTimely before now sweep rl h v = record {
  once = distinct-retain _ rl.visitors v.once;
  ends = λ j w e. ground (
    arith,
    v.ends j w,
    lookup-retain (λ ip u. not (ltb (u.last_seen + 10 * minute) now)) j rl.visitors v.once,
  );
}

-- From a new limiter, after any calls and cleanup rounds under a clock that never goes back, every
-- client has one entry, whose window ends at most one window length after its last request.
pub run-IsTimely :
    (now until : ℕ) (rl : RateLimiter) (ops : List (ℕ × Op))
    → IsTimely now rl
    → Monotone now ops until
    → IsTimely until (run rl ops)
unfolding run
run-IsTimely now until rl [] v h = record {
  once = v.once;
  ends = λ ip w e. omega (arith, v.ends ip w e);
}
run-IsTimely now until rl ((t, op) ∷ ops) v h =
    run-IsTimely t until (step t op rl) ops (step-IsTimely now t op rl h.0 v) h.1

pub new-IsTimely : (rate window : ℕ) → IsTimely 0 (new_rate_limiter rate window)
unfolding new_rate_limiter lookup distinct
new-IsTimely rate window = record { once = refl; ends = λ ip v e. cc }

-- An entry whose window is over is as good as none.
pub visits_expired :
    (rate window c : ℕ) (v : Visitor) (ts : List ℕ)
    → v.reset_time < c
    → All (λ t. c ≤ t) ts
    → visits rate window none ts ≡ visits rate window (some v) ts
unfolding visits visit
visits_expired rate window c v [] h hs = refl
visits_expired rate window c v (t ∷ ts) h hs = ground (arith, h, hs.0)

-- With a window of at most ten minutes, a round of the cleanup loop at time `c` changes no answer
-- that a client gets from then on.
pub cleanup-decisions :
    (ip : Text) (rl : RateLimiter) (c : ℕ) (rs : List Request)
    → IsTimely c rl
    → rl.window ≤ 10 * minute
    → All (λ t. c ≤ t) (times_of ip rs)
    → decisions ip (cleanup_visitors c rl) rs ≡ decisions ip rl rs
unfolding cleanup_visitors
cleanup-decisions ip rl c rs v h later =
    rw (decisions-eq-visits ip (cleanup_visitors c rl) rs, decisions-eq-visits ip rl rs)
      (rw (lookup-retain (λ j u. not (ltb (u.last_seen + 10 * minute) c)) ip rl.visitors v.once)
        (same_visits (lookup ip rl.visitors) refl))
  where
    same_visits :
        (entry : Option Visitor)
        → lookup ip rl.visitors ≡ entry
        → visits rl.rate rl.window
            (passed (λ j u. not (ltb (u.last_seen + 10 * minute) c)) ip entry)
            (times_of ip rs)
          ≡ visits rl.rate rl.window entry (times_of ip rs)
    same_visits none e = refl
    same_visits (some u) e =
        ground (arith, v.ends ip u e, visits_expired rl.rate rl.window c u (times_of ip rs))
