-- ===== src/Rooms/Membership/Once.antt =====
-- grpc/server.go: no room lists a user twice, and what each call on rooms does to that.
use chat_gateway.Prelude.{
  Result-cases, ℕ, ◌≡◌, refl, sym, ◌∙◌, inl, inr, Option-cases, Bool, true, false, not, ◌&&◌, ◌||◌,
  List, [], ◌∷◌, ◌++◌, any, all, keep, Bool-cases, arith,
}
use chat_gateway.Prelude.Text.{bytes, Text, text_eq_iff}
use chat_gateway.Storage.Collection.{update_first}
use chat_gateway.Storage.ChatRoomStore.{
  done, push_member, pull_member, ChatRoom, RoomMember, is_user, has_member, has_id, is_member,
  add_member, remove_member,
}
use chat_gateway.Storage.ChatRoomStore
use chat_gateway.Storage.ChatRoomStore.Membership.{member_in, is_member_in}
use chat_gateway.Rooms.{ensure_owner_in_members}
use chat_gateway.Rooms.Readers.{has, once}
use chat_gateway.Rooms.Members.{ids, ids-create_room_members}
use chat_gateway.Rooms.World.{Platform, World, Moment}
use chat_gateway.Rooms.Membership.Touching.{
  done_state, IsUntouched, contents-touch_room, contents-system_message,
}
use chat_gateway.Rooms.Membership.{
  new_member, create_system_message_and_update_room, announce_join, join_new, join_room, leave_room,
  touch_room,
}
use chat_gateway.Rooms.Creating.{
  requested_room, existing_room, CreateRoomRequest, create_new_room, create_room,
}

-- The members of the room are different users.
abbrev pub one_each : ChatRoom → Bool
one_each r = once (ids r.members)

has-ids : (user : Text) (ms : List RoomMember) → has user (ids ms) ≡ any (is_user user) ms
has-ids user [] = refl
has-ids user (m ∷ ms) = ground (arith, has-ids user ms)

pub has-append :
    (user : Text) (m : RoomMember) (ms : List RoomMember)
    → has user (ids (ms ++ m ∷ [])) ≡ (has user (ids ms) || is_user user m)
has-append user m [] = ground arith
has-append user m (k ∷ ks) = ground (arith, has-append user m ks)

once_append :
    (m : RoomMember) (ms : List RoomMember)
    → has m.user_id (ids ms) ≡ false
    → once (ids ms) ≡ true
    → once (ids (ms ++ m ∷ [])) ≡ true
once_append m [] h o = refl
once_append m (k ∷ ks) h o = ground (
  arith,
  once_append m ks,
  has-append k.user_id m ks,
  text_eq_iff m.user_id k.user_id,
  text_eq_iff k.user_id m.user_id,
)

has-kept :
    (gone user : Text) (ms : List RoomMember)
    → has user (ids ms) ≡ false
    → has user (ids (keep (λ m. not (is_user gone m)) ms)) ≡ false
has-kept gone user [] h = refl
has-kept gone user (m ∷ ms) h = ground (arith, has-kept gone user ms)

once-kept :
    (gone : Text) (ms : List RoomMember)
    → once (ids ms) ≡ true
    → once (ids (keep (λ m. not (is_user gone m)) ms)) ≡ true
once-kept gone [] h = refl
once-kept gone (m ∷ ms) h = ground (arith, once-kept gone ms, has-kept gone m.user_id ms)

-- An update of one room that keeps its members different. No selected room has the property `q`.
all-update_first :
    (f q : ChatRoom → Bool) (g : ChatRoom → ChatRoom) (rs : List ChatRoom)
    → ((r : ChatRoom) → q r ≡ false → one_each r ≡ true → one_each (g r) ≡ true)
    → any (λ r. f r && q r) rs ≡ false
    → all one_each rs ≡ true
    → all one_each (update_first f g rs) ≡ true
all-update_first f q g [] h n a = refl
all-update_first f q g (r ∷ rs) h n a = ground (arith, h r, all-update_first f q g rs h)

pub one_each-IsUntouched : (room : Text) → IsUntouched room (all one_each)
one_each-IsUntouched room content time updated [] = refl
one_each-IsUntouched room content time updated (r ∷ rs) =
    ground (arith, one_each-IsUntouched room content time updated rs)

none_such : (f : ChatRoom → Bool) (rs : List ChatRoom) → any (λ r. f r && false) rs ≡ false
none_such f [] = refl
none_such f (r ∷ rs) = ground (arith, none_such f rs)

all-append :
    (r : ChatRoom) (rs : List ChatRoom)
    → all one_each rs ≡ true
    → one_each r ≡ true
    → all one_each (rs ++ r ∷ []) ≡ true
all-append r [] a o = ground (arith, o)
all-append r (k ∷ ks) a o = ground (arith, all-append r ks)

module _ (p : Platform) where
  -- No room of the store lists a user twice.
  abbrev pub Once : World p → Type 0
  Once w = all one_each (p.rooms.contents w.rooms) ≡ true

  -- `UpdateOne` keeps the members different, whether it is reported or not.
  update_one-Once :
      (f q : ChatRoom → Bool) (g : ChatRoom → ChatRoom) (s : p.rooms.State)
      → ((r : ChatRoom) → q r ≡ false → one_each r ≡ true → one_each (g r) ≡ true)
      → any (λ r. f r && q r) (p.rooms.contents s) ≡ false
      → all one_each (p.rooms.contents s) ≡ true
      → all one_each (p.rooms.contents (p.rooms.update_one f g s).0) ≡ true
  update_one-Once f q g s h n a = elim (p.rooms.updated_or_not f g s) [
    | inl e ↦ rw e a
    | inr e ↦ rw e (all-update_first f q g (p.rooms.contents s) h n a)
  ]

  pub touch_room-Once :
      (i : Moment) (room content : Text) (time : ℕ) (w : World p)
      → Once w
      → Once (touch_room p i room content time w)
  touch_room-Once i room content time w a =
      contents-touch_room p room (all one_each) (one_each-IsUntouched room) i content time w ∙ a

  system_message-Once :
      (i : Moment) (room content : Text) (w : World p)
      → Once w
      → Once (create_system_message_and_update_room p i room content w)
  system_message-Once i room content w a =
      contents-system_message p room (all one_each) (one_each-IsUntouched room) i content w ∙ a

  add_member-Once :
      (now : ℕ) (room : Text) (m : RoomMember) (s : p.rooms.State)
      → member_in room m.user_id (p.rooms.contents s) ≡ false
      → all one_each (p.rooms.contents s) ≡ true
      → all one_each (p.rooms.contents (add_member p.ids p.rooms now room m s).0) ≡ true
  unfolding add_member
  add_member-Once now room m s n a =
      let m' : RoomMember = record m { joined_at = now; last_seen = now; last_read_at = now } in
      update_one-Once (has_id room) (has_member m.user_id) (push_member now m') s
        (λ r absent o. once_append m' r.members (has-ids m.user_id r.members ∙ absent) o) n a

  remove_member-Once :
      (now : ℕ) (room user : Text) (s : p.rooms.State)
      → all one_each (p.rooms.contents s) ≡ true
      → all one_each (p.rooms.contents (remove_member p.ids p.rooms now room user s).0) ≡ true
  unfolding remove_member
  remove_member-Once now room user s a =
      rw (done_state p (p.rooms.update_one (has_id room) (pull_member now user) s)) (
        update_one-Once (has_id room) (λ r. false) (pull_member now user) s
          (λ r n o. once-kept user r.members o) (none_such (has_id room) (p.rooms.contents s)) a)

  announce_join-Once :
      (i : Moment) (room user : Text) (w : World p) → Once w → Once (announce_join p i room user w)
  unfolding announce_join
  announce_join-Once i room user w a = system_message-Once i room (user ++ bytes " 已加入群組") w a

  join_new-Once :
      (i : Moment) (room user : Text) (w : World p)
      → member_in room user (p.rooms.contents w.rooms) ≡ false
      → Once w
      → Once (join_new p i room user w).1
  unfolding join_new
  join_new-Once i room user w n a =
      let added : all one_each
            (p.rooms.contents (add_member p.ids p.rooms i.changed room (new_member user) w.rooms).0)
          ≡ true =
        add_member-Once i.changed room (new_member user) w.rooms n a in
      elim (Result-cases (add_member p.ids p.rooms i.changed room (new_member user) w.rooms).1) [
        | inr (e, h) ↦ rw (h, join_new) added
        | inl (d, h) ↦ rw (h, join_new) (announce_join-Once i room user _ added)
      ]

  pub join_room-Once :
      (i : Moment) (room user : Text) (w : World p) → Once w → Once (join_room p i room user w).1
  unfolding join_room
  join_room-Once i room user w a = elim (Option-cases (is_member p.ids p.rooms room user w.rooms)) [
    | inl e ↦ rw (e, join_room) a
    | inr (true, e) ↦ rw (e, join_room) a
    | inr (false, e) ↦
        rw (e, join_room)
          (join_new-Once i room user w (sym (is_member_in p.ids p.rooms room user w.rooms false e))
            a)
  ]

  pub leave_room-Once :
      (i : Moment) (room user : Text) (w : World p) → Once w → Once (leave_room p i room user w).1
  unfolding leave_room
  leave_room-Once i room user w a =
      let less = remove_member-Once i.changed room user w.rooms a in
      elim (Bool-cases (remove_member p.ids p.rooms i.changed room user w.rooms).1) [
        | inl e ↦ rw (e, leave_room) (system_message-Once i room (user ++ bytes " 已離開群組") _ less)
        | inr e ↦ rw (e, leave_room) less
      ]

  once-ensure_owner_in_members :
      (owner : Text) (us : List Text)
      → once us ≡ true
      → once (ensure_owner_in_members owner us) ≡ true
  unfolding ensure_owner_in_members
  once-ensure_owner_in_members owner us o = ground arith

  create_new_room-Once :
      (i : Moment) (req : CreateRoomRequest) (w : World p)
      → once req.member_ids ≡ true
      → Once w
      → Once (create_new_room p i req w).1
  unfolding create_new_room ChatRoomStore.create
  create_new_room-Once i req w o a =
      let stored : ChatRoom = record (requested_room i req) {
        object_id = i.new.stored;
        id = p.ids.hex i.new.own;
        created_at = i.now;
        updated_at = i.now;
        last_message_at = i.now;
      } in
      let asked = ensure_owner_in_members req.owner_id req.member_ids in
      let different : one_each stored ≡ true =
        rw (ids-create_room_members i.changed asked)
          (once-ensure_owner_in_members req.owner_id req.member_ids o) in
      let inserted : all one_each (p.rooms.contents (p.rooms.insert_one stored w.rooms).0) ≡ true =
        elim (p.rooms.inserted_or_not stored w.rooms) [
          | inl e ↦ rw e a
          | inr e ↦ rw e (all-append stored (p.rooms.contents w.rooms) a different)
        ] in
      elim (Bool-cases (p.rooms.insert_one stored w.rooms).1) [
        | inl e ↦ rw (e, create_new_room) inserted
        | inr e ↦ rw (e, create_new_room) inserted
      ]

  pub create_room-Once :
      (i : Moment) (req : CreateRoomRequest) (w : World p)
      → once req.member_ids ≡ true
      → Once w
      → Once (create_room p i req w).1
  unfolding create_room
  create_room-Once i req w o a = elim (Option-cases (existing_room p req w)) [
    | inl e ↦ rw (e, create_room) (create_new_room-Once i req w o a)
    | inr (r, e) ↦ rw (e, create_room) a
  ]
