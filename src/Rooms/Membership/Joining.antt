-- ===== src/Rooms/Membership/Joining.antt =====
-- grpc/server.go, `JoinRoom` and `LeaveRoom`: what they do to a room, and two joins at once.
use chat_gateway.Prelude.{
  ◌==◌, sym, some, keep, ◌+◌, length, ℕ, ◌≡◌, refl, ap, ◌∙◌, inl, inr, Bool, true, false, List, [],
  ◌∷◌, ◌++◌, any, if◌then◌else◌, Result-cases, arith,
}
use chat_gateway.Prelude.Text.{Text, bytes, text_eq_refl}
use chat_gateway.Storage.Collection.{update_first}
use chat_gateway.Storage.ChatRoomStore.{
  is_user, push_member, ChatRoom, RoomMember, has_id, add_member,
}
use chat_gateway.Storage.ChatRoomStore.Membership.{is_member_in, member_in, contents-add_member}
use chat_gateway.Rooms.World.{Platform, World, Moment}
use chat_gateway.Rooms.Membership.{is_member, new_member, announce_join, join_new}
use chat_gateway.Rooms.Membership.Touching.{touched, IsUntouched, contents-system_message}

-- How often the members of a room list the user.
abbrev pub entries : Text → List RoomMember → ℕ
entries user ms = length (keep (is_user user) ms)

-- How often the rooms with the id list the user.
abbrev pub listings : Text → Text → List ChatRoom → ℕ
listings room user [] = 0
listings room user (r ∷ rs) =
    let rest = listings room user rs in
    if has_id room r then entries user r.members + rest else rest

entries-absent :
    (user : Text) (ms : List RoomMember) → any (is_user user) ms ≡ false → entries user ms ≡ 0
entries-absent user [] h = refl
entries-absent user (m ∷ ms) h = ground (arith, entries-absent user ms)

entries-append :
    (m : RoomMember) (ms : List RoomMember)
    → entries m.user_id (ms ++ m ∷ []) ≡ entries m.user_id ms + 1
entries-append m [] = ground (arith, text_eq_refl m.user_id)
entries-append m (k ∷ ks) = ground (arith, entries-append m ks)

listings-absent :
    (room user : Text) (rs : List ChatRoom)
    → member_in room user rs ≡ false
    → listings room user rs ≡ 0
listings-absent room user [] h = refl
listings-absent room user (r ∷ rs) h =
    ground (arith, listings-absent room user rs, entries-absent user r.members)

listings-push :
    (room : Text) (now : ℕ) (m : RoomMember) (rs : List ChatRoom)
    → any (has_id room) rs ≡ true
    → listings room m.user_id (update_first (has_id room) (push_member now m) rs)
      ≡ listings room m.user_id rs + 1
listings-push room now m [] h = cc
listings-push room now m (r ∷ rs) h =
    ground (arith, listings-push room now m rs, entries-append m r.members)

listings-touched :
    (room user content : Text) (time updated : ℕ) (rs : List ChatRoom)
    → listings room user (update_first (has_id room) (touched content time updated) rs)
      ≡ listings room user rs
listings-touched room user content time updated [] = refl
listings-touched room user content time updated (r ∷ rs) =
    ground (arith, listings-touched room user content time updated rs)

abbrev is_listed : Text → Text → ℕ → List ChatRoom → Bool
is_listed room user n rs = listings room user rs == n

is_listed-IsUntouched : (room user : Text) (n : ℕ) → IsUntouched room (is_listed room user n)
is_listed-IsUntouched room user n content time updated rs =
    ap (λ k. k == n) (listings-touched room user content time updated rs)

module _ (p : Platform) (room : Text) (F : List ChatRoom → Bool) (same : IsUntouched room F) where
  contents-announce_join :
      (i : Moment) (user : Text) (w : World p)
      → F (p.rooms.contents (announce_join p i room user w).rooms) ≡ F (p.rooms.contents w.rooms)
  unfolding announce_join
  contents-announce_join i user w =
      contents-system_message p room F same i (user ++ bytes " 已加入群組") w

-- What a join that reports success did to the store.
module _ (p : Platform) (i : Moment) (room user : Text) (w : World p) where
  pub contents-join_new :
      (F : List ChatRoom → Bool)
      → IsUntouched room F
      → (join_new p i room user w).0.success ≡ true
      → (F (p.rooms.contents (join_new p i room user w).1.rooms)
          ≡ F (
              update_first
                (has_id room)
                (push_member i.changed (record (new_member user) {
                  joined_at = i.changed;
                  last_seen = i.changed;
                  last_read_at = i.changed;
                }))
                (p.rooms.contents w.rooms)))
        × (any (has_id room) (p.rooms.contents w.rooms) ≡ true)
  unfolding join_new
  contents-join_new F same h =
      elim (Result-cases (add_member p.ids p.rooms i.changed room (new_member user) w.rooms).1) [
        | inr (e, r) ↦ absurd (let h' = rw (r, join_new) at h in cc)
        | inl (d, r) ↦
            let (left, there) =
              contents-add_member p.ids p.rooms i.changed room (new_member user) w.rooms r in
            rw (r, join_new) (contents-announce_join p room F same i user _ ∙ ap F left, there)
      ]

-- A join that reports success adds one listing of the user.
listings-join_new :
    (p : Platform) (i : Moment) (room user : Text) (w : World p)
    → (join_new p i room user w).0.success ≡ true
    → listings room user (p.rooms.contents (join_new p i room user w).1.rooms)
      ≡ listings room user (p.rooms.contents w.rooms) + 1
listings-join_new p i room user w h =
    let n = listings room user (p.rooms.contents w.rooms) + 1 in
    let (left, there) =
      contents-join_new p i room user w (is_listed room user n) (is_listed-IsUntouched room user n)
        h in
    let added =
      listings-push room i.changed
        (record (new_member user) {
          joined_at = i.changed;
          last_seen = i.changed;
          last_read_at = i.changed;
        })
        (p.rooms.contents w.rooms) there in
    ground (arith, left, added)

-- Two calls of `JoinRoom` for one user make the check of the membership before either adds the user:
-- it says no member. Where both then report success, the user is listed twice under the room's id, as
-- the members of the documents with that id count together.
pub join_new-twice :
    (p : Platform) (i j : Moment) (room user : Text) (w : World p)
    → is_member p.ids p.rooms room user w.rooms ≡ some false
    → (join_new p i room user w).0.success ≡ true
    → (join_new p j room user (join_new p i room user w).1).0.success ≡ true
    → listings room user
        (p.rooms.contents (join_new p j room user (join_new p i room user w).1).1.rooms)
      ≡ 2
join_new-twice p i j room user w new h k =
    let absent = sym (is_member_in p.ids p.rooms room user w.rooms false new) in
    listings-join_new p j room user (join_new p i room user w).1 k
    ∙ ap (λ n. n + 1)
        (listings-join_new p i room user w h
          ∙ ap (λ n. n + 1) (listings-absent room user (p.rooms.contents w.rooms) absent))
