-- ===== src/Rooms.antt =====
-- internal/grpc/server.go: the helpers of the room service on members and readers.
pub mod World
pub mod Fixtures
pub mod Membership
pub mod Creating
pub mod Listing
pub mod Messaging
pub mod Reading
pub mod Streaming
pub mod Calls
pub mod Readers
pub mod Members
use chat_gateway.Prelude.{
  ℕ, Option, none, some, Bool, true, false, not, ◌||◌, List, [], ◌∷◌, map, length, any, ltb, ◌==◌,
  if◌then◌else◌,
}
use chat_gateway.Prelude.Text.{Text, text_eq, bytes}
use chat_gateway.Prelude.Dict.{Dict, lookup, insert}
use chat_gateway.Storage.ChatRoomStore.{RoomMember}

-- A Go map from texts to `bool`, read with the default `false`.
abbrev pub is_set : Option Bool → Bool
is_set none = false
is_set (some b) = b

-- The loop of `cleanReadBy` over the readers' ids.
unfoldable pub clean_from : Text → Dict Bool → List Text → List Text
clean_from sender seen [] = []
clean_from sender seen (user ∷ users) =
    if text_eq user sender
    then clean_from sender seen users
    else if is_set (lookup user seen)
    then clean_from sender seen users
    else user ∷ clean_from sender (insert user true seen) users

unfoldable pub clean_read_by : List Text → Text → List Text
unfolding clean_from
clean_read_by users sender = clean_from sender [] users

unfoldable pub ensure_owner_in_members : Text → List Text → List Text
ensure_owner_in_members owner members =
    if any (λ member. text_eq member owner) members then members else owner ∷ members

unfoldable pub create_room_members : ℕ → List Text → List RoomMember
create_room_members now = map (λ member. record {
  user_id = member;
  username = member;
  display_name = member;
  avatar_url = [];
  role = bytes "member";
  status = bytes "active";
  joined_at = now;
  last_seen = now;
  last_read_at = 0;
})

unfoldable pub all_set : Dict Bool → List RoomMember → Bool
all_set ids [] = true
all_set ids (m ∷ ms) =
    let rest = all_set ids ms in if not (is_set (lookup m.user_id ids)) then false else rest

unfoldable pub has_same_members : List RoomMember → Dict Bool → Bool
unfolding all_set
has_same_members members ids =
    if not (length members == length ids) then false else all_set ids members
