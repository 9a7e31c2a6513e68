-- ===== src/Middleware/SseLimiter/Accuracy.antt =====
-- sse_limiter.go: the counters agree with the connections that are really open.
use chat_gateway.Prelude.{
  ℕ, zero, suc, ◌+◌, ◌-◌, ◌≡◌, refl, ap, ◌∙◌, Option, true, none, some, List, [], ◌∷◌, ◌++◌, length,
  arith,
}
use chat_gateway.Prelude.Text.{Text, text_eq_iff, text_eq_refl}
use chat_gateway.Prelude.Dict.{
  Dict, lookup, lookup-insert, lookup-delete, distinct, distinct-insert, distinct-delete,
}
use chat_gateway.Middleware.SseLimiter.{
  SseLimiter, new_sse_limiter, register_connection, remove_connection, sweep, sweep_entry, cleanup,
  counter,
}
use chat_gateway.Middleware.SseLimiter.Handlers.{
  Server, Step, check, register, close, tick, Reach, here, next, start, count, count-remove,
  length-remove,
}

-- The entry of a client with `n` open connections: none at all for 0.
abbrev pub tally : ℕ → Option ℕ
tally zero = none
tally (suc n) = some (suc n)

pub record IsAccurate (s : Server) : Type 0 where
  pub total : s.limiter.current_total ≡ length s.streams
  pub each : (ip : Text) → lookup ip s.limiter.connections ≡ tally (count ip s.streams)
  pub once : distinct s.limiter.last_connect ≡ true

register-each :
    (now : ℕ) (ip j : Text) (l : SseLimiter) (streams : List Text)
    → lookup ip l.connections ≡ tally (count ip streams)
    → lookup j l.connections ≡ tally (count j streams)
    → lookup j (register_connection now ip l).connections ≡ tally (count j (ip ∷ streams))
unfolding register_connection
register-each now ip j l streams h hj = ground (
  arith,
  lookup-insert ip j (counter (lookup ip l.connections) + 1) l.connections,
  text_eq_iff ip j,
)

remove-each :
    (ip j : Text) (l : SseLimiter) (rest : List Text)
    → lookup ip l.connections ≡ tally (count ip (ip ∷ rest))
    → lookup j l.connections ≡ tally (count j (ip ∷ rest))
    → lookup j (remove_connection ip l).connections ≡ tally (count j rest)
unfolding remove_connection
remove-each ip j l rest h hj =
    let n : ℕ = count ip rest in
    let held : lookup ip l.connections ≡ some (suc n) = ground (arith, text_eq_refl ip) in
    ground (
      arith,
      held,
      text_eq_iff ip j,
      lookup-delete ip j l.connections,
      lookup-insert ip j (suc n - 1) l.connections,
    )

sweep_entry-each :
    (now last : ℕ) (n : Text → ℕ) (j ip : Text) (l : SseLimiter)
    → lookup j l.connections ≡ tally (n j)
    → lookup ip l.connections ≡ tally (n ip)
    → lookup ip (sweep_entry now j last l).connections ≡ tally (n ip)
unfolding sweep_entry
sweep_entry-each now last n j ip l hj h =
    ground (arith, lookup-delete j ip l.connections, text_eq_iff j ip)

-- The cleanup loop leaves the connection counters alone, since none of them is 0.
pub sweep-each :
    (now : ℕ) (n : Text → ℕ) (entries : Dict ℕ) (l : SseLimiter)
    → ((ip : Text) → lookup ip l.connections ≡ tally (n ip))
    → (ip : Text) → lookup ip (sweep now entries l).connections ≡ tally (n ip)
unfolding sweep
sweep-each now n [] l h ip = h ip
sweep-each now n ((j, last) ∷ rest) l h ip =
    sweep-each now n rest (sweep_entry now j last l)
      (λ i. sweep_entry-each now last n j i l (h j) (h i)) ip

pub sweep-total :
    (now : ℕ) (entries : Dict ℕ) (l : SseLimiter)
    → (sweep now entries l).current_total ≡ l.current_total
unfolding sweep sweep_entry
sweep-total now [] l = refl
sweep-total now ((j, last) ∷ rest) l =
    sweep-total now rest (sweep_entry now j last l) ∙ ground arith

remove-total :
    (ip : Text) (n : ℕ) (l : SseLimiter)
    → lookup ip l.connections ≡ some n
    → (remove_connection ip l).current_total ≡ l.current_total - 1
unfolding remove_connection
remove-total ip n l h = rw (h, remove_connection)

remove-last_connect :
    (ip : Text) (l : SseLimiter) → (remove_connection ip l).last_connect ≡ l.last_connect
unfolding remove_connection
remove-last_connect ip l = ground arith

sweep-distinct :
    (now : ℕ) (entries : Dict ℕ) (l : SseLimiter)
    → distinct l.last_connect ≡ true
    → distinct (sweep now entries l).last_connect ≡ true
unfolding sweep sweep_entry
sweep-distinct now [] l h = h
sweep-distinct now ((j, last) ∷ rest) l h =
    sweep-distinct now rest (sweep_entry now j last l)
      (ground (arith, distinct-delete j l.last_connect))

-- Closing a connection that stands anywhere among the open ones.
close-IsAccurate :
    (s : Server) (ip : Text) (before after : List Text)
    → s.streams ≡ before ++ ip ∷ after
    → IsAccurate s
    → IsAccurate (record {
      limiter = remove_connection ip s.limiter;
      passed = s.passed;
      streams = before ++ after;
    })
close-IsAccurate s ip before after e v =
    let at_front : (j : Text)
        → lookup j s.limiter.connections ≡ tally (count j (ip ∷ before ++ after)) =
      λ j.
        v.each j
        ∙ ap (λ (js : List Text). tally (count j js)) e
        ∙ ap tally (count-remove j ip before after) in
    let held : lookup ip s.limiter.connections ≡ some (suc (count ip (before ++ after))) =
      ground (arith, at_front ip, text_eq_refl ip) in
    record {
      total = omega (
        arith,
        v.total,
        remove-total ip _ s.limiter held,
        ap length e,
        length-remove ip before after,
      );
      each = λ j. remove-each ip j s.limiter (before ++ after) (at_front ip) (at_front j);
      once = rw (remove-last_connect ip s.limiter) v.once;
    }

pub Step-IsAccurate : {k : ℕ} {s t : Server} → Step k s t → IsAccurate s → IsAccurate t
unfolding cleanup
Step-IsAccurate (check now ip room h) v = record { total = v.total; each = v.each; once = v.once }
Step-IsAccurate {s = s} (register now ip before after e) v = record {
  total = unfold register_connection in omega (arith, v.total);
  each = λ j. register-each now ip j s.limiter s.streams (v.each ip) (v.each j);
  once = unfold register_connection in distinct-insert ip now s.limiter.last_connect v.once;
}
Step-IsAccurate {s = s} (close ip before after e) v = close-IsAccurate s ip before after e v
Step-IsAccurate {s = s} (tick now) v = record {
  total = sweep-total now s.limiter.last_connect s.limiter ∙ v.total;
  each = sweep-each now (λ ip. count ip s.streams) s.limiter.last_connect s.limiter v.each;
  once = sweep-distinct now s.limiter.last_connect s.limiter v.once;
}

pub new-IsAccurate :
    (max_per_ip min_interval max_total : ℕ)
    → IsAccurate (start (new_sse_limiter max_per_ip min_interval max_total))
unfolding new_sse_limiter lookup distinct
new-IsAccurate max_per_ip min_interval max_total = record {
  total = refl;
  each = λ ip. refl;
  once = refl;
}

Reach-IsAccurate : {k : ℕ} {s t : Server} → Reach k s t → IsAccurate s → IsAccurate t
Reach-IsAccurate here v = v
Reach-IsAccurate (next r st) v = Step-IsAccurate st (Reach-IsAccurate r v)

-- However the handlers, the goroutines that close connections and the cleanup loop interleave, the
-- total is the number of open connections and every client's counter is the number of its own, with
-- no entry for a client that has none.
pub counters_exact :
    (k max_per_ip min_interval max_total : ℕ) (t : Server)
    → Reach k (start (new_sse_limiter max_per_ip min_interval max_total)) t
    → IsAccurate t
counters_exact k max_per_ip min_interval max_total t r =
    Reach-IsAccurate r (new-IsAccurate max_per_ip min_interval max_total)
