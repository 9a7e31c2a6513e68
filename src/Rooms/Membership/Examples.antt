-- ===== src/Rooms/Membership/Examples.antt =====
-- The theorems on joins and leaves at a server with one room.
use chat_gateway.Storage.MessageStore.{create}
use chat_gateway.Prelude.{List, [], ◌∷◌, ◌≡◌, refl}
use chat_gateway.Prelude.Text.{bytes, text_eq}
use chat_gateway.Storage.ChatRoomStore.{update, add_member, is_member}
use chat_gateway.Rooms.Fixtures.{platform, world, r1, moment}
use chat_gateway.Rooms.Membership.{is_member, join_new}
use chat_gateway.Rooms.World.{Moment}
use chat_gateway.Rooms.Membership.Roster.{roster}
use chat_gateway.Rooms.Membership.Roster.Refines.{
  Visit, joins, leaves, Follows, history, visit_all, visit_all-Follows,
}
use chat_gateway.Rooms.Membership.Joining.{listings, join_new-twice}

join_new-twice_example :
    listings r1 (bytes "bob") (
      platform.rooms.contents
        (join_new platform moment r1
          (bytes "bob")
          (join_new platform moment r1 (bytes "bob") world).1).1.rooms)
    ≡ 2
unfolding join_new add_member is_member text_eq create update
join_new-twice_example = join_new-twice platform moment moment r1 (bytes "bob") world refl refl refl

abbrev visits : List (Moment × Visit)
visits =
    (moment, joins (bytes "bob"))
    ∷ (moment, leaves (bytes "alice"))
    ∷ (moment, joins (bytes "bob"))
    ∷ []

visit_all-Follows_example :
    Follows
      (roster r1 (platform.rooms.contents world.rooms))
      (history platform r1 visits world)
      (roster r1 (platform.rooms.contents (visit_all platform r1 visits world).rooms))
unfolding text_eq
visit_all-Follows_example = visit_all-Follows platform r1 visits world refl
