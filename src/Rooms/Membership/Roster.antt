-- ===== src/Rooms/Membership/Roster.antt =====
-- The members of a room as a set of users: lists of users that have the same ones are equal.
pub mod Effects
pub mod Refines
use mathlib.Core.Quot
use mathlib.Core.Quot.{Quot, Quot-set}
use mathlib.Core.Bool.{Bool-set}
use chat_gateway.Prelude.{
  ℕ, ◌≡◌, refl, sym, ap, ◌∙◌, Bool, true, false, not, ◌&&◌, ◌||◌, List, [], ◌∷◌, ◌++◌, any, keep,
  if◌then◌else◌, arith,
}
use chat_gateway.Prelude.Text.{Text, text_eq, text_eq_iff}
use chat_gateway.Storage.ChatRoomStore.{ChatRoom, RoomMember, has_id, has_member, is_user}
use chat_gateway.Storage.ChatRoomStore.Membership.{member_in}
use chat_gateway.Rooms.Readers.{has}
use chat_gateway.Rooms.Members.{ids}

abbrev SameUsers : List Text → List Text → Type 0
SameUsers xs ys = (user : Text) → has user xs ≡ has user ys

abbrev pub UserSet : Type 0
UserSet = Quot SameUsers

abbrev without : Text → List Text → List Text
without user xs = keep (λ x. not (text_eq x user)) xs

has-without :
    (user gone : Text) (xs : List Text)
    → has user (without gone xs) ≡ (not (text_eq user gone) && has user xs)
has-without user gone [] = ground arith
has-without user gone (x ∷ xs) =
    ground (
      arith,
      has-without user gone xs,
      text_eq_iff x gone,
      text_eq_iff x user,
      text_eq_iff user gone,
    )

SameUsers-cons :
    (user : Text) (xs ys : List Text) → SameUsers xs ys → SameUsers (user ∷ xs) (user ∷ ys)
SameUsers-cons user xs ys h other = ap (λ (b : Bool). text_eq user other || b) (h other)

SameUsers-without :
    (user : Text) (xs ys : List Text)
    → SameUsers xs ys
    → SameUsers (without user xs) (without user ys)
SameUsers-without user xs ys h other =
    has-without other user xs
    ∙ ap (λ (b : Bool). not (text_eq other user) && b) (h other)
    ∙ sym (has-without other user ys)

pub enter : Text → UserSet → UserSet
enter user =
    Quot.lift Quot-set (λ xs. Quot.mk (user ∷ xs))
      (λ xs ys h. Quot.sound (SameUsers-cons user xs ys h))

pub exit : Text → UserSet → UserSet
exit user =
    Quot.lift Quot-set (λ xs. Quot.mk (without user xs))
      (λ xs ys h. Quot.sound (SameUsers-without user xs ys h))

unfoldable pub holds : Text → UserSet → Bool
holds user = Quot.lift Bool-set (has user) (λ xs ys h. h user)

-- What the two operations mean.
pub holds-enter :
    (user other : Text) (a : UserSet)
    → holds other (enter user a) ≡ (text_eq user other || holds other a)
unfolding holds enter
holds-enter user other = Quot.ind (λ a. Bool-set _ _) (λ xs. refl)

pub holds-exit :
    (user other : Text) (a : UserSet)
    → holds other (exit user a) ≡ (not (text_eq other user) && holds other a)
unfolding holds exit
holds-exit user other = Quot.ind (λ a. Bool-set _ _) (λ xs. has-without other user xs)

-- The order of arrivals, and a second one, make no difference to the set.
pub enter_comm :
    (user other : Text) (a : UserSet) → enter user (enter other a) ≡ enter other (enter user a)
unfolding enter
enter_comm user other = Quot.ind (λ a. Quot-set _ _) (λ xs. Quot.sound (λ u. ground arith))

-- The users of the rooms under an id.
abbrev users_in : Text → List ChatRoom → List Text
users_in room [] = []
users_in room (r ∷ rs) =
    let rest = users_in room rs in if has_id room r then ids r.members ++ rest else rest

has_both :
    (user : Text) (ms : List RoomMember) (rest : List Text)
    → has user (ids ms ++ rest) ≡ (any (is_user user) ms || has user rest)
has_both user [] rest = refl
has_both user (m ∷ ms) rest = ground (arith, has_both user ms rest)

has-users_in :
    (room user : Text) (rs : List ChatRoom) → has user (users_in room rs) ≡ member_in room user rs
has-users_in room user [] = refl
has-users_in room user (r ∷ rs) =
    ground (arith, has-users_in room user rs, has_both user r.members (users_in room rs))

abbrev pub roster : Text → List ChatRoom → UserSet
roster room rs = Quot.mk (users_in room rs)

module _ (room : Text) (rs after : List ChatRoom) where
  pub roster-enter :
      (user : Text)
      → ((other : Text)
          → member_in room other after ≡ (member_in room other rs || text_eq user other))
      → roster room after ≡ enter user (roster room rs)
  unfolding enter
  roster-enter user h = Quot.sound (λ other.
      has-users_in room other after ∙ h other ∙ ground (arith, has-users_in room other rs))

  pub roster-exit :
      (user : Text)
      → ((other : Text)
          → member_in room other after ≡ (not (text_eq other user) && member_in room other rs))
      → roster room after ≡ exit user (roster room rs)
  unfolding exit
  roster-exit user h = Quot.sound (λ other.
      has-users_in room other after
      ∙ h other
      ∙ ap (λ (b : Bool). not (text_eq other user) && b) (sym (has-users_in room other rs))
      ∙ sym (has-without other user (users_in room rs)))
