-- ===== src/Http/Router/Outcomes.antt =====
-- platform/server/http.go: which requests reach the service, and which of them panic.
use chat_gateway.Prelude.{
  ℕ, ◌≡◌, inl, inr, refl, Option, Bool, true, false, ◌||◌, [], ◌==◌, Result, ok, err, Bool-cases,
  Option-cases,
}
use chat_gateway.Prelude.Text.{Text, bytes, text_eq}
use chat_gateway.Rooms.World.{Platform, World, Reply, GrpcRoom, ChatMessage}
use chat_gateway.Rooms.Creating.{create_room}
use chat_gateway.Middleware.RateLimiter.{next, too_many_requests, middleware}
use chat_gateway.Middleware.RequestContext.{request_id}
use chat_gateway.Rooms.Membership.{join_room, leave_room}
use chat_gateway.Rooms.Messaging.{send_message, get_messages}
use chat_gateway.Rooms.Reading.{mark_as_read_reply}
use chat_gateway.Rooms.Listing.{list_user_rooms_reply}
use chat_gateway.Http.Errors.{told, Outcome, answer, streamed, panic, internal_server_error}
use chat_gateway.Http.Setup.{query, Config, Gateway, Turn, get_connection, call}
use chat_gateway.Http.Calling.{unless, bound, replied, invoke, over, after_checks}
use chat_gateway.Http.RoomHandlers.{
  listed_rooms, rooms_limit, rooms_answer, delete_member, post_member, get_rooms, room_request,
  room_answer, post_room, told_answer, rooms_answer,
}
use chat_gateway.Http.MessageHandlers.{
  message_request, messages_limit, page_answer, page_answer, message_request, post_read, get_page,
  post_message, sent_answer,
}
use chat_gateway.Http.Router.{
  post_reads, Verdict, post_messages, PerEndpointRateLimiter, delete_members, post_members,
  get_health, allow_connection, Dict, limited_stream, Route, get_health, list_rooms, post_members,
  delete_members, post_messages, list_messages, post_reads, get_stream, no_route, post_rooms,
  Request, handle, after_limiter, serve_request,
}

-- The outcomes of a request whose call may have changed the stores. A stream, which is answered 200,
-- does not count: the run that follows its start is in Http.EventStream and Rooms.Streaming.
abbrev pub reached : Outcome → Bool
reached (answer status body) = (status == 200) || (status == 500)
reached (streamed room user) = false
reached panic = true

reached-internal_server_error :
    (wide : ℕ → ℕ) (id error : Text) → reached (internal_server_error wide id error) ≡ true
unfolding internal_server_error
reached-internal_server_error wide id error = refl

reached-room_answer : (r : Reply (Option GrpcRoom)) → reached (room_answer r) ≡ true
unfolding room_answer
reached-room_answer r = elim (Option-cases r.body) [
  | inl e ↦ rw (e, room_answer) refl
  | inr (room, e) ↦ rw (e, room_answer) refl
]

reached-sent_answer : (r : Reply (Option ChatMessage)) → reached (sent_answer r) ≡ true
unfolding sent_answer
reached-sent_answer r = elim (Bool-cases r.success) [
  | inl e ↦ elim (Option-cases r.body) [
    | inl b ↦ rw (e, b, sent_answer) refl
    | inr (m, b) ↦ rw (e, b, sent_answer) refl
  ]
  | inr e ↦ rw (e, sent_answer) refl
]

module _ (p : Platform) (wide : ℕ → ℕ) (cfg : Option Config) where
  module _ (id : Text) where
    reached-replied :
        {A : Type 0} (respond : A → Outcome) (r : Result Text A)
        → ((a : A) → reached (respond a) ≡ true)
        → reached (replied p wide cfg id respond r) ≡ true
    reached-replied respond (ok a) h = h a
    reached-replied respond (err e) h = reached-internal_server_error wide id e

    reached-over :
        {A : Type 0} (t : Turn) (serve : World p → A × World p) (respond : A → Outcome)
        (g : Gateway p) (c : Bool × Result Text (Unit {0}))
        → ((a : A) → reached (respond a) ≡ true)
        → reached (over p wide cfg id t serve respond g c).0 ≡ true
    reached-over t serve respond g (c, err e) h = reached-internal_server_error wide id e
    reached-over t serve respond g (c, ok done) h =
        reached-replied respond (call p t.fate g.world (serve g.world)).0 h

    reached-invoke :
        {A : Type 0} (t : Turn) (serve : World p → A × World p) (respond : A → Outcome)
        (g : Gateway p)
        → ((a : A) → reached (respond a) ≡ true)
        → reached (invoke p wide cfg id t serve respond g).0 ≡ true
    unfolding invoke
    reached-invoke t serve respond g h =
        reached-over t serve respond g (get_connection cfg t.dialled g.connected) h

    -- Where the service is not reached, a check has failed.
    world-after_checks :
        {A B : Type 0} (t : Turn) (r : Result Outcome A) (serve : A → World p → B × World p)
        (respond : B → Outcome) (g : Gateway p)
        → ((b : B) → reached (respond b) ≡ true)
        → reached (after_checks p wide cfg id r (λ a. invoke p wide cfg id t (serve a) respond) g).0
          ≡ false
        → (after_checks p wide cfg id r (λ a. invoke p wide cfg id t (serve a) respond) g).1.world
          ≡ g.world
    world-after_checks t (ok a) serve respond g h no_reach =
        cc (reached-invoke t (serve a) respond g h)
    world-after_checks t (err e) serve respond g h no_reach = refl

  world-limited_stream :
      (now : ℕ) (ip : Text) (q : Dict Text) (g : Gateway p)
      → (limited_stream p wide cfg now ip q g).1.world ≡ g.world
  unfolding limited_stream
  world-limited_stream now ip q g = elim (Bool-cases (allow_connection now ip g.streams)) [
    | inl e ↦ rw (e, limited_stream) refl
    | inr e ↦ rw (e, limited_stream) refl
  ]

  world-handle :
      (id : Text) (t : Turn) (r : Request) (route : Route) (g : Gateway p)
      → reached (handle p wide cfg id t r route g).0 ≡ false
      → (handle p wide cfg id t r route g).1.world ≡ g.world
  unfolding handle post_room post_message get_rooms get_page post_member delete_member post_read
  world-handle id t r (get_health probe) g h = refl
  world-handle id t r (post_rooms body) g h =
      world-after_checks id t (room_request cfg id body) (create_room p t.moment) room_answer g
        reached-room_answer h
  world-handle id t r list_rooms g h =
      let user = query (bytes "user_id") r.query in
      world-after_checks id t (unless (text_eq user []) (bytes "缺少 user_id 參數"))
        (λ done w. listed_rooms p t user (
          list_user_rooms_reply p t.moment user (rooms_limit p.limits)
            (query (bytes "cursor") r.query) w))
        rooms_answer g (λ a. refl) h
  world-handle id t r (post_members room body) g h =
      world-after_checks id t (bound (λ error. error) body) (join_room p t.moment room) told_answer
        g (λ a. refl) h
  world-handle id t r (delete_members room user) g h =
      cc (reached-invoke id t (leave_room p t.moment room user) told_answer g (λ a. refl))
  world-handle id t r (post_messages body) g h =
      world-after_checks id t (message_request cfg id body) (send_message p t.moment) sent_answer g
        reached-sent_answer h
  world-handle id t r list_messages g h =
      let room = query (bytes "room_id") r.query in
      world-after_checks id t
        (unless (text_eq room [] || text_eq (query (bytes "user_id") r.query) []) (bytes "缺少必要參數"))
        (λ done.
          get_messages p t.moment room (messages_limit p.limits (query (bytes "limit") r.query))
            (query (bytes "cursor") r.query))
        page_answer g (λ a. refl) h
  world-handle id t r (post_reads body) g h =
      world-after_checks id t (bound (λ error. error) body)
        (λ form. mark_as_read_reply p t.moment form.room_id form.user_id form.message_id)
        (λ a. answer 200 (told a.success a.message)) g (λ a. refl) h
  world-handle id t r get_stream g h = world-limited_stream t.now r.source.client_ip r.query g
  world-handle id t r no_route g h = refl

  world-after_limiter :
      (id : Text) (t : Turn) (r : Request) (g : Gateway p)
      (limited : PerEndpointRateLimiter × Verdict)
      → reached (after_limiter p wide cfg id t r g limited).0 ≡ false
      → (after_limiter p wide cfg id t r g limited).1.world ≡ g.world
  world-after_limiter id t r g (rates, next) h =
      world-handle id t r r.route (record g { rates = rates }) h
  world-after_limiter id t r g (rates, too_many_requests) h = refl

  -- A request, whatever it asks for, whose answer is none of the statuses 200 and 500 nor a panic,
  -- leaves the service as it was: its stores, its keys and its audit log.
  pub serve_request-unreached :
      (t : Turn) (r : Request) (g : Gateway p)
      → reached (serve_request p wide cfg t r g).0.outcome ≡ false
      → (serve_request p wide cfg t r g).1.world ≡ g.world
  unfolding serve_request
  serve_request-unreached t r g h = elim (Bool-cases (text_eq r.method (bytes "OPTIONS"))) [
    | inl e ↦ rw (e, serve_request) refl
    | inr e ↦
        rw (e, serve_request)
          (world-after_limiter (request_id r.request_id t.uuid) t r g
            (middleware t.now r.path r.source.client_ip g.rates) (rw (e, serve_request) at h))
  ]
