-- ===== src/Middleware/RateLimiter/Window.antt =====
-- rate_limiter.go: how many requests of one client pass, within one window and within any span of
-- that length.
use chat_gateway.Prelude.{
  ℕ, suc, ◌+◌, ◌*◌, ◌-◌, ◌≤◌, ◌≡◌, min, max, Option, none, some, Bool, true, false, List, [], ◌∷◌,
  length, All, arith, if◌then◌else◌, ◌&&◌, leb, ◌<◌, refl, inl, inr, Bool-cases,
}
use chat_gateway.Prelude.Text.{Text}
use chat_gateway.Prelude.Dict.{lookup}
use chat_gateway.Middleware.RateLimiter.{RateLimiter, Visitor, visit, minute, new_rate_limiter}
use chat_gateway.Middleware.RateLimiter.Running.{
  From, From-times_in, answers, times_in, answers-eq-visits,
}
use chat_gateway.Middleware.RateLimiter.Cleanup.{Op, Monotone, new-IsTimely}
use chat_gateway.Middleware.RateLimiter.Isolation.{
  Request, decisions, times_of, visits, decisions-eq-visits,
}

-- How many answers let the request pass.
abbrev pub passes : List Bool → ℕ
passes [] = 0
passes (true ∷ bs) = suc (passes bs)
passes (false ∷ bs) = passes bs

-- Until the window ends, what is left of the rate passes.
visits_within :
    (rate window : ℕ) (v : Visitor) (ts : List ℕ)
    → All (λ t. t ≤ v.reset_time) ts
    → passes (visits rate window (some v) ts) ≡ min (length ts) (rate - v.requests)
unfolding visits visit
visits_within rate window v [] h = omega arith
visits_within rate window v (t ∷ ts) h = ground (
  arith,
  visits_within rate window (record v { last_seen = t }) ts,
  visits_within rate window (record v { requests = v.requests + 1; last_seen = t }) ts,
)

-- A client that the map does not hold gets, within the window that its first request opens, exactly
-- the smaller of its number of requests and the rate (at least one).
pub window_admits :
    (ip : Text) (rl : RateLimiter) (rs : List Request) (t : ℕ) (ts : List ℕ)
    → lookup ip rl.visitors ≡ none
    → times_of ip rs ≡ t ∷ ts
    → All (λ u. u ≤ t + rl.window) ts
    → passes (decisions ip rl rs) ≡ min (length (times_of ip rs)) (max 1 rl.rate)
unfolding visits visit
window_admits ip rl rs t ts unknown e h =
    rw (decisions-eq-visits ip rl rs, unknown, e)
      (omega (
        arith,
        visits_within rl.rate rl.window
            (record { last_seen = t; requests = 1; reset_time = t + rl.window }) ts h,
      ))

-- How many of the requests at these times pass from `lo` to `hi`, both included.
abbrev pub passed_in : ℕ → ℕ → List ℕ → List Bool → ℕ
passed_in lo hi [] bs = 0
passed_in lo hi (t ∷ ts) [] = 0
passed_in lo hi (t ∷ ts) (b ∷ bs) =
    (if b && leb lo t && leb t hi then 1 else 0) + passed_in lo hi ts bs

passed_later :
    (lo hi c : ℕ) (ts : List ℕ) (bs : List Bool) → From c ts → hi < c → passed_in lo hi ts bs ≡ 0
passed_later lo hi c [] bs f h = refl
passed_later lo hi c (t ∷ ts) [] f h = refl
passed_later lo hi c (t ∷ ts) (b ∷ bs) f h = ground (arith, passed_later lo hi t ts bs f.1, f.0)

module _ (rate window lo hi : ℕ) (near : hi ≤ lo + window) where
  -- In a window that ends no sooner than the span, what is left of the rate passes at most.
  passed_left :
      (c : ℕ) (v : Visitor) (ts : List ℕ)
      → From c ts
      → hi ≤ v.reset_time
      → passed_in lo hi ts (visits rate window (some v) ts) ≤ rate - v.requests
  unfolding visits visit
  passed_left c v [] f h = omega arith
  passed_left c v (t ∷ ts) f h = ground (
    arith,
    f.1,
    passed_later lo hi t ts
        (visits rate window (some (record { last_seen = t; requests = 1; reset_time = t + window }))
          ts)
        f.1,
    passed_left t (record v { last_seen = t }) ts f.1,
    passed_left t (record v { requests = v.requests + 1; last_seen = t }) ts f.1,
  )

  -- From a time in the span on: what is left, and one window more.
  passed_inside :
      (c : ℕ) (v : Visitor) (ts : List ℕ)
      → From c ts
      → lo ≤ c
      → passed_in lo hi ts (visits rate window (some v) ts) ≤ (rate - v.requests) + max 1 rate
  unfolding visits visit
  passed_inside c v [] f h = omega arith
  passed_inside c v (t ∷ ts) f h = ground (
    arith,
    f.0,
    passed_left t (record { last_seen = t; requests = 1; reset_time = t + window }) ts f.1,
    passed_inside t (record v { last_seen = t }) ts f.1,
    passed_inside t (record v { requests = v.requests + 1; last_seen = t }) ts f.1,
  )

  passed_first :
      (t : ℕ) (ts : List ℕ)
      → From t ts
      → lo ≤ t
      → 1
          + passed_in lo hi ts (
              visits rate window
                (some (record { last_seen = t; requests = 1; reset_time = t + window }))
                ts)
        ≤ 2 * max 1 rate
  passed_first t ts f h =
      let new : Visitor = record { last_seen = t; requests = 1; reset_time = t + window } in
      omega (arith, passed_left t new ts f (omega (arith, near, h)))

  passed_known :
      (c : ℕ) (v : Visitor) (ts : List ℕ)
      → From c ts
      → passed_in lo hi ts (visits rate window (some v) ts) ≤ 2 * max 1 rate
  unfolding visits visit
  passed_known c v [] f = omega arith
  passed_known c v (t ∷ ts) f = elim (Bool-cases (leb lo t)) [
    | inl inside ↦
        let from : lo ≤ t = ground (arith, inside) in
        omega (arith, passed_inside t v (t ∷ ts) (omega arith, f.1) from)
    | inr outside ↦ ground (
      arith,
      outside,
      passed_known t (record { last_seen = t; requests = 1; reset_time = t + window }) ts f.1,
      passed_known t (record v { last_seen = t }) ts f.1,
      passed_known t (record v { requests = v.requests + 1; last_seen = t }) ts f.1,
    )
  ]

  pub passed_span :
      (c : ℕ) (entry : Option Visitor) (ts : List ℕ)
      → From c ts
      → passed_in lo hi ts (visits rate window entry ts) ≤ 2 * max 1 rate
  unfolding visits visit
  passed_span c none [] f = omega arith
  passed_span c (some v) ts f = passed_known c v ts f
  passed_span c none (t ∷ ts) f = elim (Bool-cases (leb lo t)) [
    | inl inside ↦ ground (arith, inside, passed_first t ts f.1)
    | inr outside ↦ ground (
      arith,
      outside,
      passed_known t (record { last_seen = t; requests = 1; reset_time = t + window }) ts f.1,
    )
  ]

-- With a window of at most ten minutes, from a new limiter on, in a run of any length, with requests of
-- any clients and rounds of the cleanup loop at any times that do not go back: in any span of time no
-- longer than the window a client gets at most twice the rate (at least one) through.
pub span_bound :
    (ip : Text) (rate window until : ℕ) (ops : List (ℕ × Op)) (a : ℕ)
    → window ≤ 10 * minute
    → Monotone 0 ops until
    → passed_in a (a + window) (times_in ip ops) (answers ip (new_rate_limiter rate window) ops)
      ≤ 2 * max 1 rate
unfolding new_rate_limiter
span_bound ip rate window until ops a short clock =
    rw
      (answers-eq-visits 0 until ip (new_rate_limiter rate window) ops (new-IsTimely rate window)
        short clock)
      (passed_span rate window a (a + window) (omega arith) 0
        (lookup ip (new_rate_limiter rate window).visitors) (times_in ip ops)
        (From-times_in 0 until ip ops clock))
