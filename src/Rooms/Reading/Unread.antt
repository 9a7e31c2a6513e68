-- ===== src/Rooms/Reading/Unread.antt =====
-- grpc/server.go, `MarkAsRead` and then `GetUnreadCount`, and how far the latter counts.
use chat_gateway.Prelude.{
  ℕ, ◌≤◌, ◌≡◌, refl, ap, ◌∙◌, inl, inr, max, none, some, Option-cases, Bool, true, not, ◌||◌, List,
  [], ◌∷◌, all, length, Bool-cases, arith,
}
use chat_gateway.Prelude.Text.{Text, text_eq, text_eq_refl}
use chat_gateway.Storage.Collection.{In, update_all}
use chat_gateway.Storage.Messages.{Message, Limits, setting, get_by_room_id}
use chat_gateway.Storage.Messages.Content.{In-get_by_room_id}
use chat_gateway.Storage.Messages.Bounds.{length-get_by_room_id}
use chat_gateway.Storage.MessageStore.{read_by, read_mark, mark_as_read}
use chat_gateway.Storage.MessageStore.Reading.{selects, any-append}
use chat_gateway.Rooms.World.{Platform, World, Moment}
use chat_gateway.Rooms.Reading.{mark_as_read_reply, count_unread, get_unread_count_reply}

all_In :
    (f : Message → Bool) (ms : List Message) (m : Message) → all f ms ≡ true → In m ms → f m ≡ true
all_In f [] m a i = absurd i
all_In f (k ∷ ks) m a (inl e) = ap f e ∙ ground arith
all_In f (k ∷ ks) m a (inr i) = all_In f ks m (ground (arith, a)) i

-- The user has read the message, if it is one of the room's.
abbrev read_in : Text → Text → Message → Bool
read_in room user m = not (text_eq m.room_id room) || read_by user m

all_read :
    (room user : Text) (now : ℕ) (ms : List Message)
    → all (read_in room user) (update_all (selects room user now none) (read_mark user now) ms)
      ≡ true
all_read room user now [] = refl
all_read room user now (m ∷ ms) = ground (
  arith,
  all_read room user now ms,
  text_eq_refl user,
  any-append (λ r. text_eq r.user_id user) m.read_by (record { user_id = user; read_at = now }),
)

none_counted :
    (user : Text) (ms : List Message)
    → ((m : Message) → In m ms → read_by user m ≡ true)
    → count_unread user ms ≡ 0
unfolding count_unread
none_counted user [] h = refl
none_counted user (m ∷ ms) h = rw (h m (inl refl)) (none_counted user ms (λ k i. h k (inr i)))

length-count_unread : (user : Text) (ms : List Message) → count_unread user ms ≤ length ms
unfolding count_unread
length-count_unread user [] = omega arith
length-count_unread user (m ∷ ms) = ground (arith, length-count_unread user ms)

module _ (p : Platform) where
  contents-mark_as_read_reply :
      (i : Moment) (room user : Text) (w : World p)
      → (mark_as_read_reply p i room user [] w).0.success ≡ true
      → all
          (read_in room user)
          (p.messages.contents (mark_as_read_reply p i room user [] w).1.messages)
        ≡ true
  unfolding mark_as_read_reply mark_as_read text_eq
  contents-mark_as_read_reply i room user w h =
      elim (Bool-cases (mark_as_read p.ids p.messages i.changed room user none w.messages).1) [
        | inl e ↦
            rw (e, mark_as_read_reply)
              (ap (all (read_in room user)) (
                  p.messages.updated (selects room user i.changed none) (read_mark user i.changed)
                    w.messages e)
                ∙ all_read room user i.changed (p.messages.contents w.messages))
        | inr e ↦ absurd (let h' = rw (e, mark_as_read_reply) at h in cc)
      ]

  -- After `MarkAsRead` of a whole room reports success, `GetUnreadCount` counts no unread message there.
  pub get_unread_count_reply-mark_as_read_reply :
      (i : Moment) (room user : Text) (w : World p)
      → (mark_as_read_reply p i room user [] w).0.success ≡ true
      → (get_unread_count_reply p room user (mark_as_read_reply p i room user [] w).1).body ≡ 0
  unfolding get_unread_count_reply
  get_unread_count_reply-mark_as_read_reply i room user w h =
      let s = (mark_as_read_reply p i room user [] w).1.messages in
      elim (Option-cases
        (get_by_room_id p.time p.limits (p.ordered_messages s) room 1000 [] none none)) [
          | inl e ↦ rw (e, get_unread_count_reply) refl
          | inr (page, e) ↦
              rw (e, get_unread_count_reply)
                (none_counted user page.messages (λ m t.
                  let (own, there) =
                    In-get_by_room_id p.time p.limits (p.ordered_messages s) room [] 1000 none none
                      page m e t in
                  let read : read_in room user m ≡ true =
                    all_In (read_in room user) (p.messages.contents s) m
                      (contents-mark_as_read_reply i room user w h)
                      (p.ordered_contents s m there) in
                  ground (arith, own, read)))
        ]

  -- However many messages of a room are unread, `GetUnreadCount` answers with no more than the larger
  -- of the configured page size and the configured maximum, or their defaults.
  pub get_unread_count_reply_bound :
      (cfg : Limits) (room user : Text) (w : World p)
      → p.limits ≡ some cfg
      → (get_unread_count_reply p room user w).body
        ≤ max (setting cfg.default_page_size 20) (setting cfg.max_query_limit 100)
  unfolding get_unread_count_reply
  get_unread_count_reply_bound cfg room user w configured =
      elim (Option-cases
        (get_by_room_id p.time p.limits (p.ordered_messages w.messages) room 1000 [] none none)) [
          | inl e ↦ rw (e, get_unread_count_reply) (omega arith)
          | inr (page, e) ↦
              rw (e, get_unread_count_reply)
                (omega (
                  arith,
                  length-count_unread user page.messages,
                  length-get_by_room_id p.time cfg (p.ordered_messages w.messages) room [] 1000 none
                      none page (rw configured at e),
                ))
        ]
