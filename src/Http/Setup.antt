-- ===== src/Http/Setup.antt =====
-- platform/server/http.go and grpcclient/client.go: what the handlers are given. The configuration's
-- numbers lie below 2 ^ 31, and those of 0 or less act as 0. gin's decoding of the path, the query and
-- the JSON body of a request is a parameter: a request comes decoded, or with the error. The
-- connection and the calls over it are gRPC's: what each does is an argument, too.
use chat_gateway.Prelude.{ℕ, Option, none, some, Bool, true, false, [], ◌++◌, Result, ok, err}
use chat_gateway.Prelude.Text.{Text, bytes}
use chat_gateway.Prelude.Dict.{Dict, lookup}
use chat_gateway.Storage.Messages.{setting}
use chat_gateway.Middleware.RateLimiter.{PerEndpointRateLimiter}
use chat_gateway.Middleware.SseLimiter.{SseLimiter}
use chat_gateway.Rooms.World.{Platform, World, Moment}

-- The parts of `config.Get()` that the gateway reads; the page size is in `Platform.limits`.
pub record Config : Type 0 where
  pub max_multipart_memory : ℕ
  pub rate_limiting : Bool
  pub default_per_minute : ℕ
  pub messages_per_minute : ℕ
  pub rooms_per_minute : ℕ
  pub sse_per_minute : ℕ
  pub sse_per_ip : ℕ
  pub sse_interval : ℕ
  pub sse_total : ℕ
  pub max_members : ℕ
  pub max_name_length : ℕ
  pub max_message_length : ℕ
  pub channel_buffer : ℕ
  pub app_name : Text
  pub debug : Bool
  pub database_name : Text
  -- `cfg.GRPC.Host` and `cfg.GRPC.Port`, joined by a colon
  pub address : Text

-- `cfg != nil && x > 0`: the configured value, or the default.
abbrev pub configured : Option Config → (Config → ℕ) → ℕ → ℕ
configured none field default = default
configured (some cfg) field default = setting (field cfg) default

-- Where `cfg` is nil, the checks of the middleware take their own defaults.
abbrev pub field_of : Option Config → (Config → ℕ) → Option ℕ
field_of none field = none
field_of (some cfg) field = some (field cfg)

-- What a call does: it gets through, or fails with an error that the client sees. A call that fails
-- has been served all the same, or has not.
pub data Fate : Type 0 where
  through : Fate
  lost : (served : Bool) (error : Text) → Fate

-- The state of the process: the service and its stores, the limiters, and whether `conn` is set.
pub record Gateway (p : Platform) : Type 0 where
  pub world : World p
  pub rates : PerEndpointRateLimiter
  pub streams : SseLimiter
  pub connected : Bool

-- What one request meets: the times, the random id, and what the connection does.
pub record Turn : Type 0 where
  pub now : ℕ
  pub moment : Moment
  pub uuid : Text
  pub dialled : Result Text (Unit {0})
  pub fate : Fate
  -- The calls after the first one.
  pub later : ℕ → Fate

-- A query parameter or a header that is missing is empty.
abbrev pub text_of : Option Text → Text
text_of none = []
text_of (some text) = text

unfoldable pub query : Text → Dict Text → Text
query key d = text_of (lookup key d)

-- The branches of `GetConnection` where there is none yet.
abbrev pub dial : Option Config → Result Text (Unit {0}) → Bool × Result Text (Unit {0})
dial none dialled = (false, err (bytes "config not loaded"))
dial (some cfg) (err error) = (
  false,
  err (bytes "failed to connect to gRPC server at " ++ cfg.address ++ bytes ": " ++ error),
)
dial (some cfg) (ok done) = (true, ok done)

-- Whether there is a connection afterwards, and the error.
unfoldable pub get_connection :
    Option Config → Result Text (Unit {0}) → Bool → Bool × Result Text (Unit {0})
get_connection cfg dialled true = (true, ok tt)
get_connection cfg dialled false = dial cfg dialled

-- A call of the service: what the client gets, and the state of the service afterwards.
abbrev pub call :
    {A : Type 0} (p : Platform) → Fate → World p → A × World p → Result Text A × World p
call p through w (reply, w') = (ok reply, w')
call p (lost true error) w (reply, w') = (err error, w')
call p (lost false error) w (reply, w') = (err error, w)

-- `CloseConnection`, with the error of `conn.Close`: the connection is given up all the same.
unfoldable pub close_connection : Option Text → Bool → Bool × Option Text
close_connection error true = (false, error)
close_connection error false = (false, none)
