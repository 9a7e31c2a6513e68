-- ===== src/Storage/ChatRoomStore/Membership.antt =====
-- chatroom.go, `IsMember`, `AddMember` and `RemoveMember`: who is in a room.
use chat_gateway.Prelude.{
  Option, ap, ◌∙◌, sym, inr, inl, Option-cases, ok, some, none, ℕ, ◌≡◌, refl, Bool, true, false,
  not, ◌&&◌, ◌||◌, List, [], ◌∷◌, ◌++◌, any, keep, length, ltb, if◌then◌else◌, arith,
}
use chat_gateway.Prelude.Text.{Text, text_eq, text_eq_iff}
use chat_gateway.Storage.Collection.{update_first}
use chat_gateway.Storage.ChatRoomStore.{
  done, Counts, remove_member, add_member, is_member, Collection, ObjectIds, ChatRoom, RoomMember,
  is_user, has_member, has_id, push_member, pull_member,
}

-- Whether a room of that id has the user among its members.
abbrev pub member_in : Text → Text → List ChatRoom → Bool
member_in room user rs = any (λ r. has_id room r && has_member user r) rs

-- The rooms under other ids.
abbrev pub elsewhere : Text → List ChatRoom → List ChatRoom
elsewhere room rs = keep (λ r. not (has_id room r)) rs

-- At most one room has the id.
abbrev pub lone : Text → List ChatRoom → Bool
lone room [] = true
lone room (r ∷ rs) = if has_id room r then not (any (has_id room) rs) else lone room rs

count-any : (f : ChatRoom → Bool) (rs : List ChatRoom) → ltb 0 (length (keep f rs)) ≡ any f rs
count-any f [] = refl
count-any f (r ∷ rs) = ground (arith, count-any f rs)

has_member-push :
    (now : ℕ) (user : Text) (m : RoomMember) (r : ChatRoom)
    → has_member user (push_member now m r) ≡ (has_member user r || is_user user m)
has_member-push now user m r = append r.members
  where
    append :
        (ms : List RoomMember)
        → any (is_user user) (ms ++ m ∷ []) ≡ (any (is_user user) ms || is_user user m)
    append [] = ground arith
    append (k ∷ ms) = ground (arith, append ms)

has_member-pull :
    (now : ℕ) (gone user : Text) (r : ChatRoom)
    → has_member user (pull_member now gone r) ≡ (not (text_eq user gone) && has_member user r)
has_member-pull now gone user r = removed r.members
  where
    removed :
        (ms : List RoomMember)
        → any (is_user user) (keep (λ m. not (is_user gone m)) ms)
          ≡ (not (text_eq user gone) && any (is_user user) ms)
    removed [] = ground arith
    removed (k ∷ ms) = ground (
      arith,
      removed ms,
      text_eq_iff k.user_id gone,
      text_eq_iff k.user_id user,
      text_eq_iff user gone,
    )

module _ (room : Text) (now : ℕ) where
  elsewhere-push :
      (m : RoomMember) (rs : List ChatRoom)
      → elsewhere room (update_first (has_id room) (push_member now m) rs) ≡ elsewhere room rs
  elsewhere-push m [] = refl
  elsewhere-push m (r ∷ rs) = ground (arith, elsewhere-push m rs)

  elsewhere-pull :
      (user : Text) (rs : List ChatRoom)
      → elsewhere room (update_first (has_id room) (pull_member now user) rs) ≡ elsewhere room rs
  elsewhere-pull user [] = refl
  elsewhere-pull user (r ∷ rs) = ground (arith, elsewhere-pull user rs)

  pub member_in-push :
      (user : Text) (m : RoomMember) (rs : List ChatRoom)
      → any (has_id room) rs ≡ true
      → member_in room user (update_first (has_id room) (push_member now m) rs)
        ≡ (member_in room user rs || is_user user m)
  member_in-push user m [] h = cc
  member_in-push user m (r ∷ rs) h =
      ground (arith, member_in-push user m rs, has_member-push now user m r)

  absent_member_in :
      (user : Text) (rs : List ChatRoom)
      → any (has_id room) rs ≡ false
      → member_in room user rs ≡ false
  absent_member_in user [] h = refl
  absent_member_in user (r ∷ rs) h = ground (arith, absent_member_in user rs)

  pub member_in-pull :
      (gone user : Text) (rs : List ChatRoom)
      → lone room rs ≡ true
      → member_in room user (update_first (has_id room) (pull_member now gone) rs)
        ≡ (not (text_eq user gone) && member_in room user rs)
  member_in-pull gone user [] h = ground arith
  member_in-pull gone user (r ∷ rs) h = ground (
    arith,
    member_in-pull gone user rs,
    has_member-pull now gone user r,
    absent_member_in user rs,
  )

done_lem :
    {S : Type 0} (p : S × Option Counts)
    → (done p).1 ≡ true
    → (n : Counts) × (p.1 ≡ some n) × ((done p).0 ≡ p.0)
done_lem (s, none) h = cc
done_lem (s, some n) h = (n, refl, refl)

module _ (ids : ObjectIds) (c : Collection ChatRoom) where
  pub is_member_in :
      (room user : Text) (s : c.State) (b : Bool)
      → is_member ids c room user s ≡ some b
      → b ≡ member_in room user (c.contents s)
  unfolding is_member
  is_member_in room user s b h =
      elim (Option-cases (c.count_documents (λ r. has_id room r && has_member user r) s)) [
        | inl e ↦ let h' = rw (e, is_member) at h in cc
        | inr (n, e) ↦
            let h' = rw (e, is_member) at h in
            let count : n ≡ length (keep (λ r. has_id room r && has_member user r) (c.contents s)) =
              c.counted _ s n e in
            sym (ground (arith, h')) ∙ ap (ltb 0) count ∙ count-any _ (c.contents s)
      ]

  -- What an addition without an error did to the collection.
  pub contents-add_member :
      (now : ℕ) (room : Text) (m : RoomMember) (s : c.State)
      → (add_member ids c now room m s).1 ≡ ok tt
      → (c.contents (add_member ids c now room m s).0
          ≡ update_first
              (has_id room)
              (push_member now (record m { joined_at = now; last_seen = now; last_read_at = now }))
              (c.contents s))
        × (any (has_id room) (c.contents s) ≡ true)
  unfolding add_member
  contents-add_member now room m s h =
      let push : ChatRoom → ChatRoom =
        push_member now (record m { joined_at = now; last_seen = now; last_read_at = now }) in
      elim (Option-cases (c.update_one (has_id room) push s).1) [
        | inl e ↦ let h' = rw e at h in absurd ground arith
        | inr (n, e) ↦
            let (left, matched) = c.updated_one (has_id room) push s n e in
            let h' = rw e at h in (left, ground (arith, h', matched))
      ]

  pub contents-remove_member :
      (now : ℕ) (room user : Text) (s : c.State)
      → (remove_member ids c now room user s).1 ≡ true
      → c.contents (remove_member ids c now room user s).0
        ≡ update_first (has_id room) (pull_member now user) (c.contents s)
  unfolding remove_member
  contents-remove_member now room user s h =
      let (n, e, same) = done_lem (c.update_one (has_id room) (pull_member now user) s) h in
      ap c.contents same ∙ (c.updated_one (has_id room) (pull_member now user) s n e).0

  -- Adding a member without an error makes that user a member of the room and changes no other
  -- user's membership there, and no other room.
  pub is_member-add_member :
      (now : ℕ) (room user : Text) (m : RoomMember) (s : c.State) (b : Bool)
      → (add_member ids c now room m s).1 ≡ ok tt
      → is_member ids c room user (add_member ids c now room m s).0 ≡ some b
      → (b ≡ (member_in room user (c.contents s) || is_user user m))
        × (elsewhere room (c.contents (add_member ids c now room m s).0)
            ≡ elsewhere room (c.contents s))
  is_member-add_member now room user m s b h e =
      let (left, there) = contents-add_member now room m s h in
      (
        is_member_in room user _ b e
            ∙ ap (member_in room user) left
            ∙ member_in-push room now user _ (c.contents s) there,
        ap (elsewhere room) left ∙ elsewhere-push room now _ (c.contents s),
      )

  -- Where one room at most has the id, removing a user without an error makes that user no member of
  -- the room, and changes no other user's membership and no other room.
  pub is_member-remove_member :
      (now : ℕ) (room gone user : Text) (s : c.State) (b : Bool)
      → lone room (c.contents s) ≡ true
      → (remove_member ids c now room gone s).1 ≡ true
      → is_member ids c room user (remove_member ids c now room gone s).0 ≡ some b
      → (b ≡ (not (text_eq user gone) && member_in room user (c.contents s)))
        × (elsewhere room (c.contents (remove_member ids c now room gone s).0)
            ≡ elsewhere room (c.contents s))
  is_member-remove_member now room gone user s b single h e =
      let left = contents-remove_member now room gone s h in
      (
        is_member_in room user _ b e
            ∙ ap (member_in room user) left
            ∙ member_in-pull room now gone user (c.contents s) single,
        ap (elsewhere room) left ∙ elsewhere-pull room now gone (c.contents s),
      )
