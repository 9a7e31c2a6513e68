-- ===== src/Http/Router.antt =====
-- platform/server/http.go: the chain of middleware before the handlers, and the routes. gin finds the
-- route of a request; a request is served from start to end before the next (for two at once on the
-- stream's limiter see Middleware.SseLimiter.Handlers). gin answers 500 for a handler that panics; its
-- redirects of a path with or without a slash at the end, before all middleware, are not modelled.
pub mod Outcomes
pub mod Panics
pub mod Refusal
pub mod Headers
pub mod Limits
mod Examples
use chat_gateway.Prelude.{
  ℕ, ◌*◌, ◌^◌, Option, none, some, Bool, false, not, ◌||◌, List, [], ◌∷◌, any, ltb, if◌then◌else◌,
  Result,
}
use chat_gateway.Prelude.Text.{Text, bytes, text_eq}
use chat_gateway.Prelude.Dict.{Dict, insert}
use chat_gateway.Storage.Paging.{second}
use chat_gateway.Middleware.RateLimiter.{
  PerEndpointRateLimiter, new_per_endpoint, set_limit, middleware, Verdict, next, too_many_requests,
  minute,
}
use chat_gateway.Middleware.SseLimiter.{
  SseLimiter, new_sse_limiter, allow_connection, register_connection, remove_connection,
}
use chat_gateway.Middleware.RequestContext.{Origin, RequestMetadata, request_id, request_metadata}
use chat_gateway.Rooms.World.{Platform, World}
use chat_gateway.Http.Errors.{says, blank, complaint, refused, Outcome, answer, streamed}
use chat_gateway.Http.Setup.{Config, Gateway, Turn, query, configured}
use chat_gateway.Http.Health.{Probe, health_check}
use chat_gateway.Http.RoomHandlers.{RoomForm, post_room, get_rooms, post_member, delete_member}
use chat_gateway.Http.MessageHandlers.{MessageForm, ReadForm, post_message, get_page, post_read}

unfoldable pub set_security_headers : Dict Text → Dict Text
set_security_headers h =
    insert (bytes "Permissions-Policy") (bytes "geolocation=(), microphone=(), camera=()") (
      insert (bytes "Referrer-Policy") (bytes "strict-origin-when-cross-origin") (
        insert (bytes "Content-Security-Policy")
          (bytes
            "default-src 'self'; script-src 'self'; style-src 'self' 'unsafe-inline'; img-src 'self' data: https:; font-src 'self'; connect-src 'self'; frame-ancestors 'none';")
          (insert (bytes "X-XSS-Protection") (bytes "1; mode=block") (
            insert (bytes "X-Content-Type-Options") (bytes "nosniff")
              (insert (bytes "X-Frame-Options") (bytes "DENY") h)))))

abbrev pub allowed_origins : List Text
allowed_origins =
    bytes "http://localhost:3000"
    ∷ bytes "http://localhost:8080"
    ∷ bytes "http://127.0.0.1:5500"
    ∷ bytes "http://127.0.0.1:8080"
    ∷ bytes "http://localhost:5500"
    ∷ bytes "https://thunderous-eclair-edba87.netlify.app"
    ∷ bytes "https://chat-web-do6.pages.dev"
    ∷ bytes "https://yourdomain.com"
    ∷ []

unfoldable pub is_allowed_origin : Text → Bool
is_allowed_origin origin = any (λ o. text_eq o origin) allowed_origins

-- The headers of `corsMiddleware`.
unfoldable pub set_cors_headers : Text → Dict Text → Dict Text
unfolding is_allowed_origin
set_cors_headers origin h =
    let h' =
      if is_allowed_origin origin
      then insert (bytes "Access-Control-Allow-Credentials") (bytes "true")
          (insert (bytes "Access-Control-Allow-Origin") origin h)
      else h in
    insert (bytes "Access-Control-Max-Age") (bytes "86400") (
      insert (bytes "Access-Control-Allow-Headers")
        (bytes "Content-Type, Authorization, X-Request-ID")
        (insert (bytes "Access-Control-Allow-Methods") (bytes "GET, POST, PUT, DELETE, OPTIONS")
          h'))

-- `r.MaxMultipartMemory`
unfoldable pub max_multipart_memory : Option Config → ℕ
max_multipart_memory cfg = configured cfg (λ c. c.max_multipart_memory) (10 * 2 ^ 20)

-- `SetLimit`, if the limit is positive.
abbrev limited_to : Text → ℕ → PerEndpointRateLimiter → PerEndpointRateLimiter
limited_to path limit r = if ltb 0 limit then set_limit path limit minute r else r

abbrev with_limits : Option Config → PerEndpointRateLimiter → PerEndpointRateLimiter
with_limits none r = r
with_limits (some cfg) r =
    if cfg.rate_limiting
    then limited_to (bytes "/api/v1/messages/stream") cfg.sse_per_minute (
        limited_to (bytes "/api/v1/rooms") cfg.rooms_per_minute
          (limited_to (bytes "/api/v1/messages") cfg.messages_per_minute r))
    else r

unfoldable pub setup_rate_limiter : Option Config → PerEndpointRateLimiter
setup_rate_limiter cfg =
    with_limits cfg (new_per_endpoint (configured cfg (λ c. c.default_per_minute) 100) minute)

abbrev sse_interval_of : Option Config → ℕ
sse_interval_of none = 0
sse_interval_of (some cfg) = cfg.sse_interval

unfoldable pub setup_sse_limiter : Option Config → SseLimiter
setup_sse_limiter cfg =
    new_sse_limiter (configured cfg (λ c. c.sse_per_ip) 50) (sse_interval_of cfg * second)
      (configured cfg (λ c. c.sse_total) 100000)

-- The gateway that `Router` sets up over a service.
unfoldable pub new_gateway : (p : Platform) → Option Config → World p → Gateway p
unfolding setup_rate_limiter setup_sse_limiter
new_gateway p cfg w = record {
  world = w;
  rates = setup_rate_limiter cfg;
  streams = setup_sse_limiter cfg;
  connected = false;
}

-- The routes of `registerRoutes` with the parameters of their paths and the decoded bodies, and a
-- request that no route takes: gin answers 404, with a text of its own that is left out.
pub data Route : Type 0 where
  get_health : Probe → Route
  post_rooms : Result Text RoomForm → Route
  list_rooms : Route
  post_members : Text → Result Text Text → Route
  delete_members : Text → Text → Route
  post_messages : Result Text MessageForm → Route
  list_messages : Route
  post_reads : Result Text ReadForm → Route
  get_stream : Route
  no_route : Route

pub record Request : Type 0 where
  pub method : Text
  pub path : Text
  pub origin : Text
  pub request_id : Text
  pub source : Origin
  pub query : Dict Text
  pub route : Route

-- `streamMessages` up to its loop, by its checks.
unfoldable pub open_stream : Dict Text → Outcome
open_stream q =
    let room = query (bytes "room_id") q in
    let user = query (bytes "user_id") q in
    if text_eq room [] || text_eq user []
    then answer 400 (complaint (says (bytes "缺少 room_id 或 user_id 參數")))
    else streamed room user

module _ (p : Platform) (wide : ℕ → ℕ) (cfg : Option Config) where
  -- The limiter of the streams and their handler. A header that marks a stream is left out.
  unfoldable pub limited_stream : ℕ → Text → Dict Text → Gateway p → Outcome × Gateway p
  unfolding open_stream
  limited_stream now ip q g =
      if not (allow_connection now ip g.streams)
      then (answer 429 (refused (says (bytes "SSE 連接數已達上限，請稍後再試"))), g)
      else (open_stream q, record g { streams = register_connection now ip g.streams })

  -- What the handler's goroutine does when the request of a stream ends.
  unfoldable pub end_stream : Text → Gateway p → Gateway p
  end_stream ip g = record g { streams = remove_connection ip g.streams }

  -- The handler of a route, with the request's id.
  unfoldable pub handle : Text → Turn → Request → Route → Gateway p → Outcome × Gateway p
  unfolding limited_stream post_room get_rooms post_member delete_member post_message get_page
      post_read health_check
  handle id t r (get_health probe) g = (health_check cfg probe, g)
  handle id t r (post_rooms body) g = post_room p wide cfg id t body g
  handle id t r list_rooms g = get_rooms p wide cfg id t r.query g
  handle id t r (post_members room body) g = post_member p wide cfg id t room body g
  handle id t r (delete_members room user) g = delete_member p wide cfg id t room user g
  handle id t r (post_messages body) g = post_message p wide cfg id t body g
  handle id t r list_messages g = get_page p wide cfg id t r.query g
  handle id t r (post_reads body) g = post_read p wide cfg id t body g
  handle id t r get_stream g = limited_stream t.now r.source.client_ip r.query g
  handle id t r no_route g = (answer 404 blank, g)

  -- What the client gets, and the metadata in the request's context.
  pub record Answer : Type 0 where
    pub headers : Dict Text
    pub metadata : Option RequestMetadata
    pub outcome : Outcome

  abbrev pub after_limiter :
      Text → Turn → Request → Gateway p → PerEndpointRateLimiter × Verdict → Outcome × Gateway p
  after_limiter id t r g (rates, next) = handle id t r r.route (record g { rates = rates })
  after_limiter id t r g (rates, too_many_requests) =
      (answer 429 (refused (says (bytes "請求過於頻繁，請稍後再試"))), record g { rates = rates })

  -- The headers of every answer that is not one to `OPTIONS`.
  abbrev pub all_headers : Text → Text → Dict Text
  all_headers origin id =
      set_security_headers (insert (bytes "X-Request-ID") id (set_cors_headers origin []))

  abbrev pub passed_on : Turn → Request → Gateway p → Answer × Gateway p
  passed_on t r g =
      let id = request_id r.request_id t.uuid in
      let (outcome, g') =
        after_limiter id t r g (middleware t.now r.path r.source.client_ip g.rates) in
      (
        record {
          headers = all_headers r.origin id;
          metadata = some (request_metadata r.source (query (bytes "user_id") r.query));
          outcome = outcome;
        },
        g',
      )

  -- The whole chain.
  unfoldable pub serve_request : Turn → Request → Gateway p → Answer × Gateway p
  unfolding set_security_headers set_cors_headers handle
  serve_request t r g =
      if text_eq r.method (bytes "OPTIONS")
      then (
        record {
          headers = set_cors_headers r.origin [];
          metadata = none;
          outcome = answer 204 blank;
        },
        g,
      )
      else passed_on t r g
