-- ===== src/Rooms/Membership/Roster/Refines.antt =====
-- grpc/server.go, `JoinRoom` and `LeaveRoom`, one after the other in one room, against the set of its
-- members.
use chat_gateway.Prelude.{◌≡◌, sym, subst, ◌∙◌, ◌⊎◌, inl, inr, Bool, true, false, List, [], ◌∷◌}
use chat_gateway.Prelude.Text.{Text}
use chat_gateway.Storage.ChatRoomStore.Membership.{lone}
use chat_gateway.Rooms.World.{Platform, World, Moment}
use chat_gateway.Rooms.Membership.{join_room, leave_room}
use chat_gateway.Rooms.Membership.Roster.{UserSet, enter, exit, roster}
use chat_gateway.Rooms.Membership.Roster.Effects.{
  roster-join_room, roster-leave_room, lone-join_room, lone-leave_room,
}

pub data Visit : Type 0 where
  joins leaves : Text → Visit

-- What a visit does to the set of the members.
abbrev pub effect : Visit → UserSet → UserSet
effect (joins user) = enter user
effect (leaves user) = exit user

-- From the first set to the second by these visits, each with whether it reports success: one that
-- does has its effect, one that does not has it or not.
pub data Follows : UserSet → List (Visit × Bool) → UserSet → Type 0 where
  stop : (a : UserSet) → Follows a [] a
  takes :
      {a b : UserSet} (v : Visit) (success : Bool) {rest : List (Visit × Bool)}
      → Follows (effect v a) rest b
      → Follows a ((v, success) ∷ rest) b
  fails :
      {a b : UserSet} (v : Visit) {rest : List (Visit × Bool)}
      → Follows a rest b
      → Follows a ((v, false) ∷ rest) b

module _ (p : Platform) (room : Text) where
  abbrev pub visit : Moment → Visit → World p → Bool × World p
  visit i (joins user) w = ((join_room p i room user w).0.success, (join_room p i room user w).1)
  visit i (leaves user) w = ((leave_room p i room user w).0.success, (leave_room p i room user w).1)

  abbrev pub visit_all : List (Moment × Visit) → World p → World p
  visit_all [] w = w
  visit_all ((i, v) ∷ vs) w = visit_all vs (visit i v w).1

  -- The visits with what they report.
  abbrev pub history : List (Moment × Visit) → World p → List (Visit × Bool)
  history [] w = []
  history ((i, v) ∷ vs) w = (v, (visit i v w).0) ∷ history vs (visit i v w).1

  followed :
      (v : Visit) (success : Bool) (a b c : UserSet) (rest : List (Visit × Bool))
      → (b ≡ effect v a) ⊎ ((success ≡ false) × (b ≡ a))
      → Follows b rest c
      → Follows a ((v, success) ∷ rest) c
  followed v success a b c rest (inl e) f =
      takes v success (subst (λ (x : UserSet). Follows x rest c) e f)
  followed v success a b c rest (inr (h, e)) f =
      subst (λ (s : Bool). Follows a ((v, s) ∷ rest) c) (sym h)
        (fails v (subst (λ (x : UserSet). Follows x rest c) e f))

  -- Where one room at most has the id, the members of the room as a set go, over any joins and leaves
  -- of any users one after the other, as the answers tell: each that reports success adds or removes
  -- its user and nobody else, whether or not the user was there, and each that reports a failure does
  -- so or changes nothing.
  pub visit_all-Follows :
      (vs : List (Moment × Visit)) (w : World p)
      → lone room (p.rooms.contents w.rooms) ≡ true
      → Follows
          (roster room (p.rooms.contents w.rooms))
          (history vs w)
          (roster room (p.rooms.contents (visit_all vs w).rooms))
  visit_all-Follows [] w single = stop _
  visit_all-Follows ((i, joins user) ∷ vs) w single =
      followed (joins user) _ _ _ _ _ (roster-join_room p i room user w) (
        visit_all-Follows vs (join_room p i room user w).1
          (lone-join_room p i room user w ∙ single))
  visit_all-Follows ((i, leaves user) ∷ vs) w single =
      followed (leaves user) _ _ _ _ _ (roster-leave_room p i room user w single) (
        visit_all-Follows vs (leave_room p i room user w).1
          (lone-leave_room p i room user w ∙ single))
