-- ===== src/Http/Calling.antt =====
-- platform/server/http.go: what the handlers share, the checks of a request and the call of the
-- service.
use chat_gateway.Prelude.{
  ℕ, ◌+◌, ◌-◌, ◌*◌, ◌^◌, Option, none, some, Bool, true, false, ◌&&◌, [], ◌∷◌, all, leb, ◌==◌,
  if◌then◌else◌, Result, ok, err,
}
use chat_gateway.Prelude.Text.{Text, bytes}
use chat_gateway.Prelude.Int.{ℤ, pos, negsuc}
use chat_gateway.Middleware.Validation.{ValidationError}
use chat_gateway.Rooms.World.{Platform, World}
use chat_gateway.Http.Errors.{
  says, fails, complaint, Outcome, answer, bad_request, internal_server_error,
}
use chat_gateway.Http.Setup.{Config, Gateway, Turn, get_connection, call}

abbrev is_digit : ℕ → Bool
is_digit c = leb 48 c && leb c 57

abbrev digits_value : ℕ → Text → ℕ
digits_value n [] = n
digits_value n (c ∷ cs) = digits_value (n * 10 + (c - 48)) cs

-- `strconv.ParseUint(s, 10, 32)` below its range errors.
abbrev digits : Text → Option ℕ
digits [] = none
digits (c ∷ cs) = if all is_digit (c ∷ cs) then some (digits_value 0 (c ∷ cs)) else none

abbrev at_most : ℕ → Option ℕ → Option ℕ
at_most bound none = none
at_most bound (some n) = if leb n bound then some n else none

abbrev negated : Option ℕ → Option ℤ
negated none = none
negated (some n) = if n == 0 then some (pos 0) else some (negsuc (n - 1))

abbrev positive : Option ℕ → Option ℤ
positive none = none
positive (some n) = some (pos n)

-- `strconv.ParseInt(s, 10, 32)`
unfoldable pub parse_int32 : Text → Option ℤ
parse_int32 [] = none
parse_int32 (c ∷ cs) =
    if c == 45
    then negated (at_most (2 ^ 31) (digits cs))
    else if c == 43
    then positive (at_most (2 ^ 31 - 1) (digits cs))
    else positive (at_most (2 ^ 31 - 1) (digits (c ∷ cs)))

-- A failed check of the middleware is a bad request.
abbrev pub checked_by : Text → Result ValidationError (Unit {0}) → Result Outcome (Unit {0})
checked_by id (ok done) = ok done
checked_by id (err e) = err (bad_request id (fails e))

-- `c.JSON(400, gin.H{"error": …})` where a test fails.
abbrev pub unless : Bool → Text → Result Outcome (Unit {0})
unless false text = ok tt
unless true text = err (answer 400 (complaint (says text)))

-- A body that cannot be decoded, with the text that the handler answers.
abbrev pub bound : {A : Type 0} → (Text → Text) → Result Text A → Result Outcome A
bound text (ok form) = ok form
bound text (err error) = err (answer 400 (complaint (says (text error))))

abbrev pub bad_format : Text → Text
bad_format error = bytes "無效的請求格式"

module _ (p : Platform) (wide : ℕ → ℕ) (cfg : Option Config) (id : Text) where
  abbrev pub replied : {A : Type 0} → (A → Outcome) → Result Text A → Outcome
  replied respond (ok reply) = respond reply
  replied respond (err error) = internal_server_error wide id error

  -- The service is called where there is a connection.
  abbrev pub over :
      {A : Type 0}
      → Turn
      → (World p → A × World p)
      → (A → Outcome)
      → Gateway p
      → Bool × Result Text (Unit {0})
      → Outcome × Gateway p
  over t serve respond g (connected, err error) =
      (internal_server_error wide id error, record g { connected = connected })
  over t serve respond g (connected, ok done) =
      let (reply, w) = call p t.fate g.world (serve g.world) in
      (replied respond reply, record g { connected = connected; world = w })

  -- `GetConnection`, the call, and the answer to its reply or error.
  unfoldable pub invoke :
      {A : Type 0}
      → Turn
      → (World p → A × World p)
      → (A → Outcome)
      → Gateway p
      → Outcome × Gateway p
  unfolding get_connection
  invoke t serve respond g = over t serve respond g (get_connection cfg t.dialled g.connected)

  -- A request that fails a check does not reach the service.
  abbrev pub after_checks :
      {A : Type 0}
      → Result Outcome A
      → (A → Gateway p → Outcome × Gateway p)
      → Gateway p
      → Outcome × Gateway p
  after_checks (err outcome) go g = (outcome, g)
  after_checks (ok form) go g = go form g
