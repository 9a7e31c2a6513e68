-- ===== src/Rooms/Membership/Results.antt =====
-- grpc/server.go, `JoinRoom` and `LeaveRoom`: who is a member after a reply of success.
use chat_gateway.Prelude.{
  ◌≡◌, refl, sym, ap, ◌∙◌, inl, inr, Option-cases, true, false, not, ◌&&◌, ◌||◌, List, [], ◌∷◌,
  ◌++◌, Bool-cases, arith,
}
use chat_gateway.Prelude.Text.{Text, bytes, text_eq, text_eq_iff}
use chat_gateway.Storage.ChatRoomStore.{ChatRoom, is_member, remove_member}
use chat_gateway.Storage.ChatRoomStore.Membership.{
  lone, member_in, is_member_in, member_in-push, member_in-pull, contents-remove_member,
}
use chat_gateway.Rooms.World.{Platform, World, Moment}
use chat_gateway.Rooms.Membership.{join_room, leave_room}
use chat_gateway.Rooms.Membership.Touching.{IsUntouched, contents-system_message}
use chat_gateway.Rooms.Membership.Joining.{contents-join_new}

member_in-IsUntouched : (room user : Text) → IsUntouched room (member_in room user)
member_in-IsUntouched room user content time updated [] = refl
member_in-IsUntouched room user content time updated (r ∷ rs) =
    ground (arith, member_in-IsUntouched room user content time updated rs)

member_already :
    (room user other : Text) (rs : List ChatRoom)
    → member_in room user rs ≡ true
    → member_in room other rs ≡ (member_in room other rs || text_eq user other)
member_already room user other rs h = elim (Bool-cases (text_eq user other)) [
  | inl e ↦ let same = (text_eq_iff user other).0 e in rw e (ground (arith, rw same at h))
  | inr e ↦ rw e (ground arith)
]

-- After a join that reports success the user is a member of the room, and the others are members as
-- they were before.
pub join_room-member_in :
    (p : Platform) (i : Moment) (room user other : Text) (w : World p)
    → (join_room p i room user w).0.success ≡ true
    → member_in room other (p.rooms.contents (join_room p i room user w).1.rooms)
      ≡ (member_in room other (p.rooms.contents w.rooms) || text_eq user other)
unfolding join_room
join_room-member_in p i room user other w h =
    elim (Option-cases (is_member p.ids p.rooms room user w.rooms)) [
      | inl e ↦ absurd (let h' = rw (e, join_room) at h in cc)
      | inr (true, e) ↦
          rw (e, join_room)
            (member_already room user other (p.rooms.contents w.rooms)
              (sym (is_member_in p.ids p.rooms room user w.rooms true e)))
      | inr (false, e) ↦
          let (left, there) =
            contents-join_new p i room user w (member_in room other)
              (member_in-IsUntouched room other) (rw (e, join_room) at h) in
          rw (e, join_room)
            (left ∙ member_in-push room i.changed other _ (p.rooms.contents w.rooms) there)
    ]

-- After a leave that reports success the user is no member of the room, and the others are members as
-- they were before, where one room at most has the id.
pub leave_room-member_in :
    (p : Platform) (i : Moment) (room user other : Text) (w : World p)
    → lone room (p.rooms.contents w.rooms) ≡ true
    → (leave_room p i room user w).0.success ≡ true
    → member_in room other (p.rooms.contents (leave_room p i room user w).1.rooms)
      ≡ (not (text_eq other user) && member_in room other (p.rooms.contents w.rooms))
unfolding leave_room
leave_room-member_in p i room user other w single h =
    elim (Bool-cases (remove_member p.ids p.rooms i.changed room user w.rooms).1) [
      | inr e ↦ absurd (let h' = rw (e, leave_room) at h in cc)
      | inl e ↦
          rw (e, leave_room)
            (contents-system_message p room (member_in room other)
                (member_in-IsUntouched room other) i (user ++ bytes " 已離開群組") _
              ∙ ap (member_in room other)
                  (contents-remove_member p.ids p.rooms i.changed room user w.rooms e)
              ∙ member_in-pull room i.changed user other (p.rooms.contents w.rooms) single)
    ]
