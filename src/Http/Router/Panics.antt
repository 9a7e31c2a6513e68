-- ===== src/Http/Router/Panics.antt =====
-- platform/server/http.go: the requests whose handler panics.
use chat_gateway.Prelude.{
  ◌≡◌, ◌≢◌, ◌⊎◌, inl, inr, refl, ap, ℕ, Option, none, Bool, true, false, not, ◌||◌, List, [], ◌∷◌,
  Result, ok, err, ◌>>=◌, Bool-cases, Option-cases, Result-cases, arith,
}
use chat_gateway.Prelude.Text.{Text, bytes, text_eq}
use chat_gateway.Prelude.Dict.{Dict}
use chat_gateway.Middleware.Validation.{ValidationError, validate_user_id}
use chat_gateway.Middleware.RateLimiter.{
  PerEndpointRateLimiter, Verdict, next, too_many_requests, middleware,
}
use chat_gateway.Middleware.RequestContext.{request_id}
use chat_gateway.Rooms.World.{Platform, World, Reply, GrpcRoom, ChatMessage}
use chat_gateway.Rooms.Creating.{CreateRoomRequest, create_room}
use chat_gateway.Rooms.Membership.{join_room, leave_room}
use chat_gateway.Rooms.Messaging.{send_message, get_messages}
use chat_gateway.Rooms.Reading.{mark_as_read_reply}
use chat_gateway.Rooms.Listing.{list_user_rooms_reply}
use chat_gateway.Http.Errors.{
  Outcome, answer, streamed, panic, told, bad_request, internal_server_error,
}
use chat_gateway.Http.Setup.{
  Config, Fate, through, lost, Gateway, Turn, query, get_connection, call,
}
use chat_gateway.Http.Health.{Probe, health_check}
use chat_gateway.Http.Calling.{checked_by, unless, bound, invoke, over, replied, after_checks}
use chat_gateway.Http.RoomHandlers.{
  MemberForm, RoomForm, member_ids, room_request, room_answer, post_room, get_rooms, post_member,
  delete_member, told_answer, rooms_answer, listed_rooms, rooms_limit,
}
use chat_gateway.Http.MessageHandlers.{
  MessageForm, message_request, sent_answer, post_message, get_page, post_read, page_answer,
  messages_limit,
}
use chat_gateway.Http.Router.{
  Route, get_health, post_rooms, list_rooms, post_members, delete_members, post_messages,
  list_messages, post_reads, get_stream, no_route, Request, handle, after_limiter, serve_request,
  limited_stream, open_stream,
}

abbrev panics : Outcome → Bool
panics (answer status body) = false
panics (streamed room user) = false
panics panic = true

-- A failed check is answered.
abbrev calm : {A : Type 0} → Result Outcome A → Bool
calm (ok a) = true
calm (err e) = not (panics e)

calm-bind :
    {A B : Type 0} (m : Result Outcome A) (f : A → Result Outcome B)
    → calm m ≡ true
    → ((a : A) → calm (f a) ≡ true)
    → calm (m >>= f) ≡ true
calm-bind (ok a) f h k = k a
calm-bind (err e) f h k = h

calm-checked_by :
    (id : Text) (r : Result ValidationError (Unit {0})) → calm (checked_by id r) ≡ true
unfolding bad_request
calm-checked_by id (ok done) = refl
calm-checked_by id (err e) = refl

calm-unless : (b : Bool) (text : Text) → calm (unless b text) ≡ true
calm-unless true text = refl
calm-unless false text = refl

calm-bound :
    {A : Type 0} (text : Text → Text) (body : Result Text A) → calm (bound text body) ≡ true
calm-bound text (ok form) = refl
calm-bound text (err e) = refl

calm-member_ids : (ms : List MemberForm) → calm (member_ids ms) ≡ true
unfolding member_ids
calm-member_ids [] = refl
calm-member_ids (m ∷ ms) = elim (Result-cases (validate_user_id m.user_id)) [
  | inl (done, e) ↦
      rw (e, member_ids) (calm-bind (member_ids ms) _ (calm-member_ids ms) (λ ids. refl))
  | inr (error, e) ↦ rw (e, member_ids) refl
]

calm-room_request :
    (cfg : Option Config) (id : Text) (body : Result Text RoomForm)
    → calm (room_request cfg id body) ≡ true
unfolding room_request
calm-room_request cfg id body =
    search (calm-bind, calm-checked_by, calm-unless, calm-bound, calm-member_ids) depth 8

calm-message_request :
    (cfg : Option Config) (id : Text) (body : Result Text MessageForm)
    → calm (message_request cfg id body) ≡ true
unfolding message_request
calm-message_request cfg id body = search (calm-bind, calm-checked_by, calm-bound)

panics-room_answer : (r : Reply (Option GrpcRoom)) → room_answer r ≡ panic → r.body ≡ none
unfolding room_answer
panics-room_answer r h = elim (Option-cases r.body) [ inl e ↦ e | inr (room, e) ↦ cc ]

panics-sent_answer : (r : Reply (Option ChatMessage)) → panics (sent_answer r) ≡ false
unfolding sent_answer
panics-sent_answer r = elim (Bool-cases r.success) [
  | inl e ↦ elim (Option-cases r.body) [
    | inl b ↦ rw (e, b, sent_answer) refl
    | inr (m, b) ↦ rw (e, b, sent_answer) refl
  ]
  | inr e ↦ rw (e, sent_answer) refl
]

module _ (p : Platform) (wide : ℕ → ℕ) (cfg : Option Config) (id : Text) where
  -- An error of the transport is answered.
  panics-replied :
      {A : Type 0} (respond : A → Outcome) (r : Result Text A)
      → replied p wide cfg id respond r ≡ panic
      → (a : A) × (r ≡ ok a) × (respond a ≡ panic)
  unfolding internal_server_error
  panics-replied respond (ok a) h = (a, refl, h)
  panics-replied respond (err e) h = cc

  call-ok :
      {A : Type 0} (fate : Fate) (w : World p) (r : A × World p) (a : A)
      → (call p fate w r).0 ≡ ok a
      → (fate ≡ through) × (r.0 ≡ a)
  call-ok through w (b, w') a h = (refl, ground (arith, h))
  call-ok (lost true error) w (b, w') a h = cc
  call-ok (lost false error) w (b, w') a h = cc

  panics-over :
      {A : Type 0} (t : Turn) (serve : World p → A × World p) (respond : A → Outcome)
      (g : Gateway p) (c : Bool × Result Text (Unit {0}))
      → (over p wide cfg id t serve respond g c).0 ≡ panic
      → (t.fate ≡ through) × (respond (serve g.world).0 ≡ panic)
  unfolding internal_server_error
  panics-over t serve respond g (c, err e) h = cc
  panics-over t serve respond g (c, ok done) h =
      let (a, got, there) = panics-replied respond (call p t.fate g.world (serve g.world)).0 h in
      let (sent, same) = call-ok t.fate g.world (serve g.world) a got in (sent, rw same there)

  panics-after_checks :
      {A B : Type 0} (t : Turn) (r : Result Outcome A) (serve : A → World p → B × World p)
      (respond : B → Outcome) (g : Gateway p)
      → calm r ≡ true
      → (after_checks p wide cfg id r (λ a. invoke p wide cfg id t (serve a) respond) g).0 ≡ panic
      → (a : A) × (r ≡ ok a) × (t.fate ≡ through) × (respond (serve a g.world).0 ≡ panic)
  unfolding invoke
  panics-after_checks t (ok a) serve respond g k h =
      let (sent, there) =
        panics-over t (serve a) respond g (get_connection cfg t.dialled g.connected) h in
      (a, refl, sent, there)
  panics-after_checks t (err e) serve respond g k h = cc

  calm_route :
      {A B : Type 0} (t : Turn) (r : Result Outcome A) (serve : A → World p → B × World p)
      (respond : B → Outcome) (g : Gateway p)
      → calm r ≡ true
      → ((b : B) → panics (respond b) ≡ false)
      → (after_checks p wide cfg id r (λ a. invoke p wide cfg id t (serve a) respond) g).0 ≢ panic
  calm_route t r serve respond g k never h =
      let (a, e, sent, there) = panics-after_checks t r serve respond g k h in
      let no_panic = never (serve a g.world).0 in cc (ap panics there)

module _ (p : Platform) (wide : ℕ → ℕ) (cfg : Option Config) where
  health_check-panic : (probe : Probe) → health_check cfg probe ≡ panic → cfg ≡ none
  unfolding health_check
  health_check-panic probe h = elim (Option-cases cfg) [
    | inl e ↦ e
    | inr (c, e) ↦ absurd (let h' = rw (e, health_check) at h in cc)
  ]

  limited_stream-calm :
      (now : ℕ) (ip : Text) (q : Dict Text) (g : Gateway p)
      → panics (limited_stream p wide cfg now ip q g).0 ≡ false
  unfolding limited_stream open_stream
  limited_stream-calm now ip q g = ground arith

  -- Why a handler panics: the health check without a configuration, or a valid request for a room
  -- that the service answers without a room.
  abbrev pub Cause : Text → Turn → Gateway p → Route → Type 0
  Cause id t g route =
      ((probe : Probe) × (route ≡ get_health probe) × (cfg ≡ none))
      ⊎ ((body : Result Text RoomForm) × (req : CreateRoomRequest) × (route ≡ post_rooms body)
          × (room_request cfg id body ≡ ok req)
          × (t.fate ≡ through)
          × ((create_room p t.moment req g.world).0.body ≡ none))

  handle-panic :
      (id : Text) (t : Turn) (r : Request) (route : Route) (g : Gateway p)
      → (handle p wide cfg id t r route g).0 ≡ panic
      → Cause id t g route
  unfolding handle post_room post_message get_rooms get_page post_member delete_member post_read
  handle-panic id t r (get_health probe) g h = inl (probe, refl, health_check-panic probe h)
  handle-panic id t r (post_rooms body) g h =
      let (req, e, sent, there) =
        panics-after_checks p wide cfg id t (room_request cfg id body) (create_room p t.moment)
          room_answer g (calm-room_request cfg id body) h in
      inr (body, req, refl, e, sent, panics-room_answer _ there)
  handle-panic id t r list_rooms g h =
      let user = query (bytes "user_id") r.query in
      absurd (
        calm_route p wide cfg id t (unless (text_eq user []) (bytes "缺少 user_id 參數"))
          (λ done w. listed_rooms p t user (
            list_user_rooms_reply p t.moment user (rooms_limit p.limits)
              (query (bytes "cursor") r.query) w))
          rooms_answer g (calm-unless _ _) (λ b. refl) h)
  handle-panic id t r (post_members room body) g h = absurd (
      calm_route p wide cfg id t (bound (λ error. error) body) (join_room p t.moment room)
        told_answer g (calm-bound _ body) (λ b. refl) h)
  handle-panic id t r (delete_members room user) g h = absurd (
      calm_route p wide cfg id {A = Unit {0}} t (ok tt) (λ done. leave_room p t.moment room user)
        told_answer g refl (λ b. refl) h)
  handle-panic id t r (post_messages body) g h = absurd (
      calm_route p wide cfg id t (message_request cfg id body) (send_message p t.moment) sent_answer
        g (calm-message_request cfg id body) panics-sent_answer h)
  handle-panic id t r list_messages g h =
      let room = query (bytes "room_id") r.query in
      absurd (
        calm_route p wide cfg id t
          (unless (text_eq room [] || text_eq (query (bytes "user_id") r.query) [])
            (bytes "缺少必要參數"))
          (λ done.
            get_messages p t.moment room (messages_limit p.limits (query (bytes "limit") r.query))
              (query (bytes "cursor") r.query))
          page_answer g (calm-unless _ _) (λ b. refl) h)
  handle-panic id t r (post_reads body) g h = absurd (
      calm_route p wide cfg id t (bound (λ error. error) body)
        (λ form. mark_as_read_reply p t.moment form.room_id form.user_id form.message_id)
        (λ a. answer 200 (told a.success a.message)) g (calm-bound _ body) (λ b. refl) h)
  handle-panic id t r get_stream g h =
      let never = limited_stream-calm t.now r.source.client_ip r.query g in cc
  handle-panic id t r no_route g h = cc

  after_limiter-panic :
      (id : Text) (t : Turn) (r : Request) (g : Gateway p)
      (limited : PerEndpointRateLimiter × Verdict)
      → (after_limiter p wide cfg id t r g limited).0 ≡ panic
      → Cause id t g r.route
  after_limiter-panic id t r g (rates, next) h =
      handle-panic id t r r.route (record g { rates = rates }) h
  after_limiter-panic id t r g (rates, too_many_requests) h = cc

  -- The only requests that make a handler panic are a health check where no configuration is loaded,
  -- and a request for a new room that passes all checks, reaches the service and is answered by the
  -- service without a room.
  pub serve_request-panic :
      (t : Turn) (r : Request) (g : Gateway p)
      → (serve_request p wide cfg t r g).0.outcome ≡ panic
      → Cause (request_id r.request_id t.uuid) t g r.route
  unfolding serve_request
  serve_request-panic t r g h = elim (Bool-cases (text_eq r.method (bytes "OPTIONS"))) [
    | inl e ↦ absurd (let h' = rw (e, serve_request) at h in cc)
    | inr e ↦
        after_limiter-panic (request_id r.request_id t.uuid) t r g
          (middleware t.now r.path r.source.client_ip g.rates) (rw (e, serve_request) at h)
  ]
