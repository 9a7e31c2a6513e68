-- ===== src/Http/Router/Limits.antt =====
-- platform/server/http.go, `Router`: the limit on a path, seen from the answers of the gateway.
use chat_gateway.Prelude.{
  ℕ, ◌+◌, ◌*◌, ◌≤◌, ◌<◌, ◌≡◌, ◌∙◌, inl, inr, refl, Option, some, Bool, true, false, not, ◌&&◌, List,
  [], ◌∷◌, ◌==◌, ltb, leb, lt→ltb, if◌then◌else◌, Bool-cases, Result, ok, err, arith,
}
use chat_gateway.Prelude.Text.{Text, bytes, text_eq, text_eq_iff}
use chat_gateway.Prelude.Dict.{Dict, lookup, insert, lookup-insert_self}
use chat_gateway.Middleware.RateLimiter.{
  RateLimiter, PerEndpointRateLimiter, new_rate_limiter, new_per_endpoint, set_limit, allow_request,
  verdict, Verdict, next, too_many_requests, middleware, minute, cleanup_visitors, cleanup_path,
  cleanup_default,
}
use chat_gateway.Middleware.RateLimiter.Cleanup.{Op, Monotone}
use chat_gateway.Middleware.RateLimiter.Running.{answers, times_in}
use chat_gateway.Middleware.RateLimiter.Endpoints.{limited, unaffected, swept_path, swept_other}
use chat_gateway.Middleware.RateLimiter.Window.{passes, passed_in, span_bound}
use chat_gateway.Middleware.RequestContext.{request_id}
use chat_gateway.Rooms.World.{Platform, World}
use chat_gateway.Rooms.Membership.{leave_room}
use chat_gateway.Http.Errors.{Outcome, answer, streamed, panic}
use chat_gateway.Http.Setup.{Config, Gateway, Turn, get_connection}
use chat_gateway.Http.Calling.{invoke, over, after_checks}
use chat_gateway.Http.RoomHandlers.{post_room, get_rooms, post_member, delete_member}
use chat_gateway.Http.MessageHandlers.{post_message, get_page, post_read}
use chat_gateway.Http.Router.{
  Route, get_health, post_rooms, list_rooms, post_members, delete_members, post_messages,
  list_messages, post_reads, get_stream, no_route, Request, limited_stream, handle, after_limiter,
  passed_on, serve_request, setup_rate_limiter, new_gateway,
}

abbrev pub too_many : Outcome → Bool
too_many (answer status body) = status == 429
too_many (streamed room user) = false
too_many panic = false

abbrev pub is_preflight : Request → Bool
is_preflight r = text_eq r.method (bytes "OPTIONS")

-- What happens to a gateway: a request, or a round of the cleanup of a limiter.
pub data Event : Type 0 where
  asks : Turn → Request → Event
  sweeps : ℕ → Text → Event
  sweeps_default : ℕ → Event

abbrev mine : Text → Request → Bool
mine path r = not (is_preflight r) && text_eq r.path path

-- What the limiter of a path sees of it; requests of `OPTIONS` do not come to it.
abbrev pub ops_for : Text → List Event → List (ℕ × Op)
ops_for path [] = []
ops_for path (asks t r ∷ es) =
    let rest = ops_for path es in
    if mine path r then (t.now, Op.request r.source.client_ip) ∷ rest else rest
ops_for path (sweeps now q ∷ es) =
    let rest = ops_for path es in if text_eq q path then (now, Op.sweep) ∷ rest else rest
ops_for path (sweeps_default now ∷ es) = ops_for path es

-- A request of a client for a path that got past the limiter in a span.
abbrev counted : ℕ → ℕ → Text → Text → Turn → Request → Outcome → ℕ
counted lo hi path ip t r outcome =
    if mine path r && text_eq r.source.client_ip ip
    then if not (too_many outcome) && leb lo t.now && leb t.now hi then 1 else 0
    else 0

-- One request more: what the limiter lets through bounds what the gateway does.
count_step :
    (own limited allowed : Bool) (lo hi now rest : ℕ) (ts : List ℕ) (bs : List Bool)
    → (if limited then 0 else 1) ≤ passes (allowed ∷ [])
    → rest ≤ passed_in lo hi ts bs
    → (if own then if not limited && leb lo now && leb now hi then 1 else 0 else 0) + rest
      ≤ passed_in lo hi (if own then now ∷ ts else ts) (if own then allowed ∷ bs else bs)
count_step true limited true lo hi now rest ts bs h k = ground (arith, h, k)
count_step true limited false lo hi now rest ts bs h k = ground (arith, h, k)
count_step false limited allowed lo hi now rest ts bs h k = omega arith

module _ (p : Platform) (wide : ℕ → ℕ) (cfg : Option Config) where
  -- How many of a client's requests for a path get an answer other than 429 from `lo` to `hi`.
  unfoldable pub admitted : ℕ → ℕ → Text → Text → List Event → Gateway p → ℕ
  admitted lo hi path ip [] g = 0
  admitted lo hi path ip (asks t r ∷ es) g =
      let (a, g') = serve_request p wide cfg t r g in
      counted lo hi path ip t r a.outcome + admitted lo hi path ip es g'
  admitted lo hi path ip (sweeps now q ∷ es) g =
      admitted lo hi path ip es (record g { rates = cleanup_path now q g.rates })
  admitted lo hi path ip (sweeps_default now ∷ es) g =
      admitted lo hi path ip es (record g { rates = cleanup_default now g.rates })

  rates-over :
      {A : Type 0} (id : Text) (t : Turn) (serve : World p → A × World p) (respond : A → Outcome)
      (g : Gateway p) (c : Bool × Result Text (Unit {0}))
      → (over p wide cfg id t serve respond g c).1.rates ≡ g.rates
  rates-over id t serve respond g (c, err e) = refl
  rates-over id t serve respond g (c, ok done) = refl

  rates-after_checks :
      {A B : Type 0} (id : Text) (t : Turn) (r : Result Outcome A)
      (serve : A → World p → B × World p) (respond : B → Outcome) (g : Gateway p)
      → (after_checks p wide cfg id r (λ a. invoke p wide cfg id t (serve a) respond) g).1.rates
        ≡ g.rates
  unfolding invoke
  rates-after_checks id t (ok a) serve respond g =
      rates-over id t (serve a) respond g (get_connection cfg t.dialled g.connected)
  rates-after_checks id t (err e) serve respond g = refl

  rates-limited_stream :
      (now : ℕ) (ip : Text) (q : Dict Text) (g : Gateway p)
      → (limited_stream p wide cfg now ip q g).1.rates ≡ g.rates
  unfolding limited_stream
  rates-limited_stream now ip q g = ground arith

  -- No handler touches the limiters of the paths.
  rates-handle :
      (id : Text) (t : Turn) (r : Request) (route : Route) (g : Gateway p)
      → (handle p wide cfg id t r route g).1.rates ≡ g.rates
  unfolding handle post_room post_message get_rooms get_page post_member delete_member post_read
  rates-handle id t r (get_health probe) g = refl
  rates-handle id t r (post_rooms body) g = rates-after_checks id t _ _ _ g
  rates-handle id t r list_rooms g = rates-after_checks id t _ _ _ g
  rates-handle id t r (post_members room body) g = rates-after_checks id t _ _ _ g
  rates-handle id t r (delete_members room user) g =
      rates-after_checks id t (ok tt) (λ (done : Unit {0}). leave_room p t.moment room user) _ g
  rates-handle id t r (post_messages body) g = rates-after_checks id t _ _ _ g
  rates-handle id t r list_messages g = rates-after_checks id t _ _ _ g
  rates-handle id t r (post_reads body) g = rates-after_checks id t _ _ _ g
  rates-handle id t r get_stream g = rates-limited_stream t.now r.source.client_ip r.query g
  rates-handle id t r no_route g = refl

  rates-after_limiter :
      (id : Text) (t : Turn) (r : Request) (g : Gateway p)
      (limited : PerEndpointRateLimiter × Verdict)
      → (after_limiter p wide cfg id t r g limited).1.rates ≡ limited.0
  rates-after_limiter id t r g (rates, next) =
      rates-handle id t r r.route (record g { rates = rates })
  rates-after_limiter id t r g (rates, too_many_requests) = refl

  -- What the limiter refuses is answered 429.
  refused-after_limiter :
      (id : Text) (t : Turn) (r : Request) (g : Gateway p) (rates : PerEndpointRateLimiter)
      (allowed : Bool)
      → (if too_many (after_limiter p wide cfg id t r g (rates, verdict allowed)).0 then 0 else 1)
        ≤ passes (allowed ∷ [])
  refused-after_limiter id t r g rates true =
      elim (Bool-cases (too_many (after_limiter p wide cfg id t r g (rates, verdict true)).0)) [
        | inl e ↦ rw e (omega arith)
        | inr e ↦ rw e (omega arith)
      ]
  refused-after_limiter id t r g rates false = omega arith

  preflight_state :
      (t : Turn) (r : Request) (g : Gateway p)
      → is_preflight r ≡ true
      → (serve_request p wide cfg t r g).1 ≡ g
  unfolding serve_request
  preflight_state t r g h = rw (h, serve_request) refl

  passed_lem :
      (t : Turn) (r : Request) (g : Gateway p)
      → is_preflight r ≡ false
      → serve_request p wide cfg t r g ≡ passed_on p wide cfg t r g
  unfolding serve_request
  passed_lem t r g h = rw (h, serve_request) refl

  -- The answers of the gateway let no more requests through than the path's limiter alone.
  admitted-le-passed :
      (lo hi : ℕ) (path ip : Text) (rl : RateLimiter) (es : List Event) (g : Gateway p)
      → lookup path g.rates.limiters ≡ some rl
      → admitted lo hi path ip es g
        ≤ passed_in lo hi (times_in ip (ops_for path es)) (answers ip rl (ops_for path es))
  unfolding admitted answers cleanup_default
  admitted-le-passed lo hi path ip rl [] g h = omega arith
  admitted-le-passed lo hi path ip rl (sweeps_default now ∷ es) g h =
      admitted-le-passed lo hi path ip rl es (record g { rates = cleanup_default now g.rates }) h
  admitted-le-passed lo hi path ip rl (sweeps now q ∷ es) g h = elim (Bool-cases (text_eq q path)) [
    | inl e ↦
        let same : q ≡ path = (text_eq_iff q path).0 e in
        rw e (
          admitted-le-passed lo hi path ip (cleanup_visitors now rl) es _
            (rw same (swept_path now path rl g.rates h)))
    | inr e ↦ rw e (admitted-le-passed lo hi path ip rl es _ (swept_other now q path g.rates e ∙ h))
  ]
  admitted-le-passed lo hi path ip rl (asks t r ∷ es) g h = elim (Bool-cases (is_preflight r)) [
    | inl e ↦
        rw (preflight_state t r g e, e) (omega (arith, admitted-le-passed lo hi path ip rl es g h))
    | inr e ↦
        let id = request_id r.request_id t.uuid in
        let m = middleware t.now r.path r.source.client_ip g.rates in
        let kept = rates-after_limiter id t r g m in
        elim (Bool-cases (text_eq r.path path)) [
          | inl q ↦
              let one = allow_request t.now r.source.client_ip rl in
              let rates : PerEndpointRateLimiter = record g.rates {
                limiters = insert path one.0 g.rates.limiters;
              } in
              let found : m ≡ (rates, verdict one.1) =
                rw ((text_eq_iff r.path path).0 q)
                  (limited t.now path r.source.client_ip rl g.rates h) in
              let next_found : lookup path (after_limiter p wide cfg id t r g m).1.rates.limiters
                  ≡ some one.0 =
                rw (kept, found) (lookup-insert_self path one.0 g.rates.limiters) in
              rw (passed_lem t r g e, e, q)
                (count_step (text_eq r.source.client_ip ip) _ one.1 lo hi t.now _ _ _
                  (rw found (refused-after_limiter id t r g rates one.1))
                  (admitted-le-passed lo hi path ip one.0 es _ next_found))
          | inr q ↦
              let next_found : lookup path (after_limiter p wide cfg id t r g m).1.rates.limiters
                  ≡ some rl =
                rw kept (unaffected t.now r.path path r.source.client_ip g.rates q ∙ h) in
              rw (passed_lem t r g e, e, q)
                (let ih =
                    admitted-le-passed lo hi path ip rl es (passed_on p wide cfg t r g).1
                      next_found in
                  omega (arith, ih))
        ]
  ]

-- The limit of the messages, where the configuration sets one.
messages_limiter :
    (cfg : Config)
    → cfg.rate_limiting ≡ true
    → 0 < cfg.messages_per_minute
    → lookup (bytes "/api/v1/messages") (setup_rate_limiter (some cfg)).limiters
      ≡ some (new_rate_limiter cfg.messages_per_minute minute)
unfolding setup_rate_limiter set_limit new_per_endpoint text_eq lookup insert
messages_limiter cfg on h =
    rw (on, lt→ltb 0 cfg.messages_per_minute h)
      (elim (Bool-cases (ltb 0 cfg.rooms_per_minute)) [
        | inl a ↦ elim (Bool-cases (ltb 0 cfg.sse_per_minute)) [
          | inl b ↦ rw (a, b) refl
          | inr b ↦ rw (a, b) refl
        ]
        | inr a ↦ elim (Bool-cases (ltb 0 cfg.sse_per_minute)) [
          | inl b ↦ rw (a, b) refl
          | inr b ↦ rw (a, b) refl
        ]
      ])

-- Where the rate limits are on and the configuration has a limit for messages, in a run of the
-- gateway from its start, of any length, with rounds of the cleanup at any times, under a clock that
-- does not go back: a client gets in any minute of the run at most twice that many answers other than
-- 429 to its requests for `/api/v1/messages`, those of the method `OPTIONS` aside, whatever it and
-- others ask for besides and whatever the handlers do.
pub admitted_bound :
    (p : Platform) (wide : ℕ → ℕ) (cfg : Config) (ip : Text) (w : World p) (es : List Event)
    (a until : ℕ)
    → cfg.rate_limiting ≡ true
    → 0 < cfg.messages_per_minute
    → Monotone 0 (ops_for (bytes "/api/v1/messages") es) until
    → admitted p wide
        (some cfg)
        a
        (a + minute)
        (bytes "/api/v1/messages")
        ip
        es
        (new_gateway p (some cfg) w)
      ≤ 2 * cfg.messages_per_minute
unfolding new_gateway
admitted_bound p wide cfg ip w es a until on h clock =
    let path = bytes "/api/v1/messages" in
    let rl = new_rate_limiter cfg.messages_per_minute minute in
    omega (
      arith,
      admitted-le-passed p wide (some cfg) a (a + minute) path ip rl es (new_gateway p (some cfg) w)
          (messages_limiter cfg on h),
      span_bound ip cfg.messages_per_minute minute until (ops_for path es) a (omega arith) clock,
    )
