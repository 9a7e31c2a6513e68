-- ===== src/Middleware/RateLimiter/Running.antt =====
-- rate_limiter.go: a limiter in use, with the rounds of the cleanup loop that its constructor starts,
-- seen from one client.
use chat_gateway.Prelude.{
  ℕ, ◌+◌, ◌*◌, ◌≤◌, ◌≡◌, ◌∙◌, refl, inl, inr, Option, none, some, Bool, not, List, [], ◌∷◌, arith,
  ltb, All, if◌then◌else◌, Bool-cases,
}
use chat_gateway.Prelude.Text.{Text, text_eq, text_eq_iff}
use chat_gateway.Prelude.Dict.{lookup, lookup-insert, lookup-retain, passed}
use chat_gateway.Middleware.RateLimiter.{
  RateLimiter, Visitor, visit, allow_request, cleanup_visitors, minute,
}
use chat_gateway.Middleware.RateLimiter.Isolation.{visits}
use chat_gateway.Middleware.RateLimiter.Cleanup.{
  IsTimely, Op, request, sweep, step, step-IsTimely, Monotone, visits_expired,
}

-- The answers that the requests of `ip` get in a run.
unfoldable pub answers : Text → RateLimiter → List (ℕ × Op) → List Bool
answers ip rl [] = []
answers ip rl ((now, sweep) ∷ ops) = answers ip (cleanup_visitors now rl) ops
answers ip rl ((now, request j) ∷ ops) =
    let rest = answers ip (allow_request now j rl).0 ops in
    if text_eq j ip then (allow_request now j rl).1 ∷ rest else rest

-- The times of those requests.
abbrev pub times_in : Text → List (ℕ × Op) → List ℕ
times_in ip [] = []
times_in ip ((now, sweep) ∷ ops) = times_in ip ops
times_in ip ((now, request j) ∷ ops) =
    let rest = times_in ip ops in if text_eq j ip then now ∷ rest else rest

-- No time before the first, and none before the one before it.
abbrev pub From : ℕ → List ℕ → Type 0
From now [] = Unit
From now (t ∷ ts) = (now ≤ t) × From t ts

From-le : (a b : ℕ) (ts : List ℕ) → a ≤ b → From b ts → From a ts
From-le a b [] h f = tt
From-le a b (t ∷ ts) h f = (omega arith, f.1)

pub From-times_in :
    (now until : ℕ) (ip : Text) (ops : List (ℕ × Op))
    → Monotone now ops until
    → From now (times_in ip ops)
From-times_in now until ip [] m = tt
From-times_in now until ip ((t, sweep) ∷ ops) m =
    From-le now t _ m.0 (From-times_in t until ip ops m.1)
From-times_in now until ip ((t, request j) ∷ ops) m = elim (Bool-cases (text_eq j ip)) [
  | inl e ↦ rw e (m.0, From-times_in t until ip ops m.1)
  | inr e ↦ rw e (From-le now t _ m.0 (From-times_in t until ip ops m.1))
]

From-All : (now : ℕ) (ts : List ℕ) → From now ts → All (λ t. now ≤ t) ts
From-All now [] f = tt
From-All now (t ∷ ts) f = (f.0, From-All now ts (From-le now t ts f.0 f.1))

swept :
    (now : ℕ) (ip : Text) (rl : RateLimiter) (ts : List ℕ)
    → IsTimely now rl
    → rl.window ≤ 10 * minute
    → From now ts
    → visits rl.rate rl.window (lookup ip (cleanup_visitors now rl).visitors) ts
      ≡ visits rl.rate rl.window (lookup ip rl.visitors) ts
unfolding cleanup_visitors
swept now ip rl ts v h f =
    rw (lookup-retain (λ j u. not (ltb (u.last_seen + 10 * minute) now)) ip rl.visitors v.once)
      (same_visits (lookup ip rl.visitors) refl)
  where
    same_visits :
        (entry : Option Visitor)
        → lookup ip rl.visitors ≡ entry
        → visits rl.rate rl.window
            (passed (λ j u. not (ltb (u.last_seen + 10 * minute) now)) ip entry)
            ts
          ≡ visits rl.rate rl.window entry ts
    same_visits none e = refl
    same_visits (some u) e =
        ground (arith, v.ends ip u e, From-All now ts f, visits_expired rl.rate rl.window now u ts)

-- With a window of at most ten minutes, the answers are those of the client alone, without cleanup.
pub answers-eq-visits :
    (now until : ℕ) (ip : Text) (rl : RateLimiter) (ops : List (ℕ × Op))
    → IsTimely now rl
    → rl.window ≤ 10 * minute
    → Monotone now ops until
    → answers ip rl ops ≡ visits rl.rate rl.window (lookup ip rl.visitors) (times_in ip ops)
unfolding answers visits allow_request step cleanup_visitors
answers-eq-visits now until ip rl [] v h m = refl
answers-eq-visits now until ip rl ((t, sweep) ∷ ops) v h m =
    let v' : IsTimely t rl = record {
      once = v.once;
      ends = λ j w e. (let (a, b) = v.ends j w e in (a, omega (arith, m.0, b)));
    } in
    answers-eq-visits t until ip (cleanup_visitors t rl) ops (step-IsTimely now t sweep rl m.0 v) h
      m.1
    ∙ swept t ip rl (times_in ip ops) v' h (From-times_in t until ip ops m.1)
answers-eq-visits now until ip rl ((t, request j) ∷ ops) v h m = ground (
  arith,
  text_eq_iff j ip,
  lookup-insert j ip (visit rl.rate rl.window t (lookup j rl.visitors)).0 rl.visitors,
  answers-eq-visits t until ip (allow_request t j rl).0 ops
      (step-IsTimely now t (request j) rl m.0 v) h m.1,
)
