-- ===== src/Rooms/Calls/Examples.antt =====
-- A run of calls at a server with one room.
use chat_gateway.Prelude.{◌≡◌, ◌++◌, if◌then◌else◌, List, map, refl, [], ◌∷◌}
use chat_gateway.Prelude.Text.{text_eq, bytes}
use chat_gateway.Storage.Fixtures.{settings}
use chat_gateway.Rooms.Fixtures.{platform, world, r1, moment}
use chat_gateway.Rooms.Membership.Once.{Once}
use chat_gateway.Rooms.Calls.{
  Moment, Call, create_call, join_call, leave_call, send_call, serve_all, serve_all-Once,
}
use chat_gateway.Rooms.Calls.Entries.{entry_of}
use chat_gateway.Rooms.Calls.Trail.{trail, serve_all-trail}

abbrev calls : List (Moment × Call)
calls =
    (moment, join_call r1 (bytes "bob"))
    ∷ (
      moment,
      create_call (record {
        name = bytes "new";
        kind = bytes "group";
        owner_id = bytes "bob";
        member_ids = bytes "alice" ∷ bytes "eve" ∷ [];
        settings = settings;
      }),
    )
    ∷ (
      moment,
      send_call (record {
        room_id = r1;
        sender_id = bytes "bob";
        content = bytes "hi";
        kind = bytes "text";
      }),
    )
    ∷ (moment, join_call r1 (bytes "bob"))
    ∷ (moment, leave_call r1 (bytes "alice"))
    ∷ []

serve_all-Once_example : Once platform (serve_all platform calls world)
unfolding text_eq
serve_all-Once_example = serve_all-Once platform calls world (tt, (refl, (tt, (tt, (tt, tt))))) refl

serve_all-trail_example :
    map entry_of (serve_all platform calls world).audit.events
    ≡ map entry_of world.audit.events
      ++ (if world.audit.enabled then trail platform calls world else [])
serve_all-trail_example = serve_all-trail platform calls world
