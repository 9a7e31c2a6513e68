-- ===== src/Http/Router/Examples.antt =====
-- The theorems on the gateway at a few requests.
use chat_gateway.Prelude.{
  ◌+◌, ◌*◌, ◌≤◌, ◌≡◌, refl, inl, some, true, false, ok, err, List, [], ◌∷◌, arith,
}
use chat_gateway.Prelude.Text.{bytes, text_eq}
use chat_gateway.Prelude.Utf8.{runes, runes_from, encode_runes}
use chat_gateway.Prelude.Dict.{lookup, insert}
use chat_gateway.Storage.Collection.{Collection, in_memory}
use chat_gateway.Storage.ChatRoomStore.{ChatRoom, activity}
use chat_gateway.Storage.ChatRoomStore
use chat_gateway.Storage.Fixtures.{ordered}
use chat_gateway.Middleware.RateLimiter.{
  middleware, allow_request, visit, new_per_endpoint, set_limit, new_rate_limiter,
}
use chat_gateway.Middleware.RequestContext.{request_id}
use chat_gateway.Middleware.Validation.{validate_room_name, validate_user_id, sanitize_input}
use chat_gateway.Rooms.World.{Platform}
use chat_gateway.Rooms.Creating.{CreateRoomRequest, create_room, create_new_room}
use chat_gateway.Rooms.Fixtures.{platform, world}
use chat_gateway.Http.Errors.{panic}
use chat_gateway.Http.Setup.{Gateway, get_connection}
use chat_gateway.Http.Calling.{invoke}
use chat_gateway.Http.RoomHandlers.{RoomForm, member_ids, room_request, room_answer, post_room}
use chat_gateway.Http.Router.{
  minute, post_rooms, post_messages, Request, handle, serve_request, setup_rate_limiter,
  new_gateway,
}
use chat_gateway.Http.Router.Outcomes.{serve_request-unreached}
use chat_gateway.Http.Router.Panics.{Cause, serve_request-panic}
use chat_gateway.Http.Router.Refusal.{post_room-refused}
use chat_gateway.Http.Router.Limits.{Event, asks, sweeps, sweeps_default, admitted, admitted_bound}
use chat_gateway.Http.Fixtures.{config, wide, gateway, turn, alice, request}

-- A body that is no JSON.
abbrev garbled : Request
garbled = request (bytes "POST") (bytes "/api/v1/rooms") (post_rooms (err (bytes "EOF")))

serve_request-unreached_example :
    (serve_request platform wide (some config) turn garbled gateway).1.world ≡ gateway.world
unfolding serve_request handle post_room room_request middleware setup_rate_limiter new_gateway
    text_eq lookup allow_request visit set_limit insert new_per_endpoint new_rate_limiter
serve_request-unreached_example =
    serve_request-unreached platform wide (some config) turn garbled gateway refl

-- Rooms that are read only.
abbrev read_only : Collection ChatRoom
read_only = record (in_memory ChatRoom) {
  insert_one = λ d s. (s, false);
  inserted = λ d s h. cc;
  inserted_or_not = λ d s. inl refl;
}

abbrev strained : Platform
strained = record platform { rooms = read_only; ordered_rooms = ordered activity }

abbrev full : Gateway strained
full = new_gateway strained (some config) (record {
  rooms = world.rooms;
  messages = world.messages;
  encryption = world.encryption;
  audit = world.audit;
})

abbrev form : RoomForm
form = record { name = bytes "team"; kind = bytes "group"; owner_id = bytes "alice"; members = [] }

abbrev made : CreateRoomRequest
made = record {
  name = bytes "team";
  kind = bytes "group";
  owner_id = bytes "alice";
  member_ids = [];
  settings = record {
    allow_invite = true;
    allow_edit_messages = true;
    allow_delete_messages = true;
    allow_pin_messages = false;
    max_members = 1000;
    welcome_message = [];
  };
}

form_lem : room_request (some config) (bytes "u") (ok form) ≡ ok made
unfolding room_request member_ids validate_room_name validate_user_id sanitize_input runes
    runes_from encode_runes
form_lem = refl

post_room-refused_example :
    (post_room strained wide (some config) (bytes "u") turn (ok form) full).0 ≡ panic
unfolding get_connection new_gateway text_eq ChatRoomStore.create
post_room-refused_example =
    post_room-refused strained wide (some config) (bytes "u") turn (ok form) made full form_lem refl
      refl refl refl

abbrev wanted : Request
wanted = request (bytes "POST") (bytes "/api/v1/rooms") (post_rooms (ok form))

panicked : (serve_request strained wide (some config) turn wanted full).0.outcome ≡ panic
unfolding serve_request handle post_room room_request member_ids validate_room_name validate_user_id
    sanitize_input runes runes_from encode_runes middleware setup_rate_limiter new_gateway text_eq
    lookup allow_request visit get_connection invoke create_room create_new_room room_answer
    ChatRoomStore.create request_id new_per_endpoint set_limit insert new_rate_limiter
panicked = refl

serve_request-panic_example :
    Cause strained wide
      (some config)
      (request_id wanted.request_id turn.uuid)
      turn
      full
      wanted.route
serve_request-panic_example =
    serve_request-panic strained wide (some config) turn wanted full panicked

-- The clock goes on to the next minute, with a round of the cleanup between.
abbrev posts : List Event
posts =
    asks turn
      (request (bytes "POST") (bytes "/api/v1/messages") (post_messages (err (bytes "EOF"))))
    ∷ asks turn garbled
    ∷ sweeps 60000000000 (bytes "/api/v1/messages")
    ∷ sweeps_default 60000000000
    ∷ asks (record turn { now = 70000000000 })
        (request (bytes "GET") (bytes "/api/v1/messages") (post_messages (err (bytes "EOF"))))
    ∷ []

admitted_bound_example :
    admitted platform wide
      (some config)
      60000000000
      (60000000000 + minute)
      (bytes "/api/v1/messages")
      alice
      posts
      (new_gateway platform (some config) world)
    ≤ 2 * 30
unfolding text_eq
admitted_bound_example =
    admitted_bound platform wide config alice world posts 60000000000 80000000000 refl (omega arith)
      (ground arith)
