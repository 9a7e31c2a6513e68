-- ===== src/Middleware/SseLimiter/Handlers.antt =====
-- sse_limiter.go, `Middleware`: the handlers of one server as interleaved steps. A handler checks the
-- limits under one lock and registers its connection under another, so other handlers may run in
-- between; a goroutine removes the connection when the request's context ends.
use chat_gateway.Prelude.{ℕ, suc, ◌<◌, ◌≡◌, true, List, [], ◌∷◌, ◌++◌, length, if◌then◌else◌, arith}
use chat_gateway.Prelude.Text.{Text, text_eq}
use chat_gateway.Middleware.SseLimiter.{
  SseLimiter, allow_connection, register_connection, remove_connection, cleanup,
}

pub record Server : Type 0 where
  pub limiter : SseLimiter
  -- Clients whose handler has passed the check and has not registered yet.
  pub passed : List Text
  -- Clients of the open connections.
  pub streams : List Text

-- One step of a server that runs at most `k` handlers between check and registration at a time.
pub data Step (k : ℕ) (s : Server) : Server → Type 0 where
  check :
      (now : ℕ) (ip : Text)
      → length s.passed < k
      → allow_connection now ip s.limiter ≡ true
      → Step k s (record s { passed = ip ∷ s.passed })
  register :
      (now : ℕ) (ip : Text) (before after : List Text)
      → s.passed ≡ before ++ ip ∷ after
      → Step k s (record {
        limiter = register_connection now ip s.limiter;
        passed = before ++ after;
        streams = ip ∷ s.streams;
      })
  close :
      (ip : Text) (before after : List Text)
      → s.streams ≡ before ++ ip ∷ after
      → Step k s (record {
        limiter = remove_connection ip s.limiter;
        passed = s.passed;
        streams = before ++ after;
      })
  tick : (now : ℕ) → Step k s (record s { limiter = cleanup now s.limiter })

pub data Reach (k : ℕ) (s : Server) : Server → Type 0 where
  here : Reach k s s
  next : {t u : Server} → Reach k s t → Step k t u → Reach k s u

abbrev pub start : SseLimiter → Server
start l = record { limiter = l; passed = []; streams = [] }

-- How often a client stands in a list.
abbrev pub count : Text → List Text → ℕ
count ip [] = 0
count ip (j ∷ js) = if text_eq j ip then suc (count ip js) else count ip js

pub count-remove :
    (ip j : Text) (before after : List Text)
    → count ip (before ++ j ∷ after) ≡ count ip (j ∷ before ++ after)
count-remove ip j [] after = ground arith
count-remove ip j (i ∷ before) after = ground (arith, count-remove ip j before after)

pub length-remove :
    (j : Text) (before after : List Text)
    → length (before ++ j ∷ after) ≡ suc (length (before ++ after))
length-remove j [] after = omega arith
length-remove j (i ∷ before) after = omega (arith, length-remove j before after)
