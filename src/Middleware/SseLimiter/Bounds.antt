-- ===== src/Middleware/SseLimiter/Bounds.antt =====
-- sse_limiter.go: how far the limits hold when handlers run at the same time, and where they fail.
use chat_gateway.Prelude.{
  ℕ, zero, suc, ◌+◌, ◌-◌, ◌≤◌, ◌<◌, ◌≡◌, refl, ap, ◌∙◌, max, true, List, [], ◌∷◌, length, arith,
}
use chat_gateway.Prelude.Text.{Text, text_eq_iff}
use chat_gateway.Prelude.Dict.{Dict, lookup}
use chat_gateway.Middleware.SseLimiter.{
  SseLimiter, new_sse_limiter, allow_connection, register_connection, remove_connection, sweep,
  sweep_entry, cleanup,
}
use chat_gateway.Middleware.SseLimiter.Handlers.{
  Server, Step, check, register, close, tick, Reach, here, next, start, count, count-remove,
  length-remove,
}
use chat_gateway.Middleware.SseLimiter.Accuracy.{IsAccurate, tally, Step-IsAccurate, new-IsAccurate}

pub sweep-limits :
    (now : ℕ) (entries : Dict ℕ) (l : SseLimiter)
    → ((sweep now entries l).max_total ≡ l.max_total)
      × ((sweep now entries l).max_per_ip ≡ l.max_per_ip)
      × ((sweep now entries l).min_interval ≡ l.min_interval)
unfolding sweep sweep_entry
sweep-limits now [] l = (refl, refl, refl)
sweep-limits now ((j, last) ∷ rest) l =
    let (a, b, c) = sweep-limits now rest (sweep_entry now j last l) in
    (a ∙ ground arith, b ∙ ground arith, c ∙ ground arith)

remove-limits :
    (ip : Text) (l : SseLimiter)
    → ((remove_connection ip l).max_total ≡ l.max_total)
      × ((remove_connection ip l).max_per_ip ≡ l.max_per_ip)
unfolding remove_connection
remove-limits ip l = (ground arith, ground arith)

allowed-total :
    (now : ℕ) (ip : Text) (l : SseLimiter)
    → allow_connection now ip l ≡ true
    → l.current_total < l.max_total
unfolding allow_connection
allowed-total now ip l h = ground arith

allowed-each :
    (now n : ℕ) (ip : Text) (l : SseLimiter)
    → allow_connection now ip l ≡ true
    → lookup ip l.connections ≡ tally n
    → n < max 1 l.max_per_ip
unfolding allow_connection
allowed-each now zero ip l h e = omega arith
allowed-each now (suc n) ip l h e = ground arith

count-le-length : (ip : Text) (js : List Text) → count ip js ≤ length js
count-le-length ip [] = omega arith
count-le-length ip (j ∷ js) = ground (arith, count-le-length ip js)

-- At most `k - 1` connections over the limits, counting the handlers that have passed the check.
pub record IsWithin (k per_ip total : ℕ) (s : Server) : Type 0 where
  pub accurate : IsAccurate s
  pub total_limit : s.limiter.max_total ≡ total
  pub per_ip_limit : s.limiter.max_per_ip ≡ per_ip
  pub all : length s.streams + length s.passed ≤ total + (k - 1)
  pub each : (ip : Text) → count ip s.streams + count ip s.passed ≤ max 1 per_ip + (k - 1)

check-each :
    (k per_ip now : ℕ) (ip j : Text) (s : Server)
    → length s.passed < k
    → allow_connection now ip s.limiter ≡ true
    → lookup ip s.limiter.connections ≡ tally (count ip s.streams)
    → s.limiter.max_per_ip ≡ per_ip
    → count j s.streams + count j s.passed ≤ max 1 per_ip + (k - 1)
    → count j s.streams + count j (ip ∷ s.passed) ≤ max 1 per_ip + (k - 1)
check-each k per_ip now ip j s room h e limit old = ground (
  arith,
  text_eq_iff ip j,
  count-le-length ip s.passed,
  allowed-each now (count ip s.streams) ip s.limiter h e,
)

Step-IsWithin :
    {k per_ip total : ℕ} {s t : Server}
    → Step k s t
    → IsWithin k per_ip total s
    → IsWithin k per_ip total t
Step-IsWithin {k} {per_ip} {s = s} (check now ip room h) v = record {
  accurate = Step-IsAccurate {k = k} (check now ip room h) v.accurate;
  total_limit = v.total_limit;
  per_ip_limit = v.per_ip_limit;
  all = omega (arith, v.accurate.total, v.total_limit, allowed-total now ip s.limiter h);
  each = λ j. check-each k per_ip now ip j s room h (v.accurate.each ip) v.per_ip_limit (v.each j);
}
Step-IsWithin {k} {s = s} (register now ip before after e) v = record {
  accurate = Step-IsAccurate {k = k} (register now ip before after e) v.accurate;
  total_limit = unfold register_connection in v.total_limit;
  per_ip_limit = unfold register_connection in v.per_ip_limit;
  all = omega (arith, v.all, ap length e, length-remove ip before after);
  each = λ j.
      ground (arith, v.each j, ap (count j) e, count-remove j ip before after, text_eq_iff ip j);
}
Step-IsWithin {k} {s = s} (close ip before after e) v = record {
  accurate = Step-IsAccurate {k = k} (close ip before after e) v.accurate;
  total_limit = (remove-limits ip s.limiter).0 ∙ v.total_limit;
  per_ip_limit = (remove-limits ip s.limiter).1 ∙ v.per_ip_limit;
  all = omega (arith, v.all, ap length e, length-remove ip before after);
  each = λ j.
      ground (arith, v.each j, ap (count j) e, count-remove j ip before after, text_eq_iff ip j);
}
Step-IsWithin {k} {s = s} (tick now) v =
    let limits : ((cleanup now s.limiter).max_total ≡ s.limiter.max_total)
        × ((cleanup now s.limiter).max_per_ip ≡ s.limiter.max_per_ip)
        × ((cleanup now s.limiter).min_interval ≡ s.limiter.min_interval) =
      unfold cleanup in sweep-limits now s.limiter.last_connect s.limiter in
    record {
      accurate = Step-IsAccurate {k = k} (tick now) v.accurate;
      total_limit = limits.0 ∙ v.total_limit;
      per_ip_limit = limits.1 ∙ v.per_ip_limit;
      all = v.all;
      each = v.each;
    }

Reach-IsWithin :
    {k per_ip total : ℕ} {s t : Server}
    → Reach k s t
    → IsWithin k per_ip total s
    → IsWithin k per_ip total t
Reach-IsWithin here v = v
Reach-IsWithin (next r st) v = Step-IsWithin st (Reach-IsWithin r v)

-- On a server that lets at most `k` handlers stand between the check and the registration, the open
-- connections exceed the limit in total by at most `k - 1`, and those of each client exceed its
-- limit (at least one) by at most `k - 1`. With one handler at a time the limits hold.
pub limits_hold :
    (k max_per_ip min_interval max_total : ℕ) (t : Server)
    → Reach k (start (new_sse_limiter max_per_ip min_interval max_total)) t
    → (length t.streams ≤ max_total + (k - 1))
      × ((ip : Text) → count ip t.streams ≤ max 1 max_per_ip + (k - 1))
unfolding new_sse_limiter
limits_hold k max_per_ip min_interval max_total t r =
    let v : IsWithin k max_per_ip max_total t = Reach-IsWithin r (record {
      accurate = new-IsAccurate max_per_ip min_interval max_total;
      total_limit = refl;
      per_ip_limit = refl;
      all = omega arith;
      each = λ ip. omega arith;
    }) in
    (omega (arith, v.all), λ ip. omega (arith, v.each ip))

-- Check and registration are no single step: if one place is left and two handlers may run at the
-- same time, two connections of an allowed client are opened and the total exceeds its limit.
pub race_exceeds_total :
    (k now : ℕ) (ip : Text) (s : Server)
    → suc (length s.passed) < k
    → allow_connection now ip s.limiter ≡ true
    → s.limiter.current_total + 1 ≡ s.limiter.max_total
    → (t : Server) × Reach k s t × (t.limiter.max_total < t.limiter.current_total)
unfolding register_connection
race_exceeds_total k now ip s room h one_left = (
  record {
    limiter = register_connection now ip (register_connection now ip s.limiter);
    passed = s.passed;
    streams = ip ∷ ip ∷ s.streams;
  },
  next
      (next (next (next here (check now ip (omega arith) h)) (check now ip room h))
        (register now ip [] (ip ∷ s.passed) refl))
      (register now ip [] s.passed refl),
  omega arith,
)
