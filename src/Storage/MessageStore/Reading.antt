-- ===== src/Storage/MessageStore/Reading.antt =====
-- message.go, `MarkAsRead` and `GetUnreadCount`: who has read what.
use chat_gateway.Prelude.{
  ℕ, ◌≡◌, ◌∙◌, refl, ap, Option, none, some, Bool, true, false, not, ◌&&◌, List, [], ◌∷◌, ◌++◌,
  ◌||◌, Option-cases, any, all, keep, length, inl, inr, arith,
}
use chat_gateway.Prelude.Text.{Text, text_eq, text_eq_iff, text_eq_refl}
use chat_gateway.Storage.Collection.{Collection, update_all}
use chat_gateway.Storage.Messages.{Message, ReadMark}
use chat_gateway.Storage.MessageStore.{
  ObjectIds, unread, read_mark, has_id, room_test, mark_as_read, get_unread_count,
}

-- Nobody is listed twice among the readers.
abbrev pub once : List ReadMark → Bool
once [] = true
once (r ∷ rs) = not (any (λ s. text_eq s.user_id r.user_id) rs) && once rs

abbrev pub reads_once : Message → Bool
reads_once m = once m.read_by

-- The messages of the other rooms.
abbrev pub elsewhere : Text → Message → Bool
elsewhere room m = not (text_eq m.room_id room)

pub any-append :
    (p : ReadMark → Bool) (rs : List ReadMark) (r : ReadMark)
    → any p (rs ++ r ∷ []) ≡ (any p rs || p r)
any-append p [] r = ground arith
any-append p (s ∷ rs) r = ground (arith, any-append p rs r)

once-append :
    (rs : List ReadMark) (r : ReadMark)
    → any (λ s. text_eq s.user_id r.user_id) rs ≡ false
    → once rs ≡ true
    → once (rs ++ r ∷ []) ≡ true
once-append [] r h o = refl
once-append (s ∷ rs) r h o = ground (
  arith,
  once-append rs r,
  any-append (λ q. text_eq q.user_id s.user_id) rs r,
  text_eq_iff s.user_id r.user_id,
  text_eq_iff r.user_id s.user_id,
)

module _ (room user : Text) (now : ℕ) where
  abbrev pub selects : Option ℕ → Message → Bool
  selects id m = text_eq m.room_id room && unread user m && has_id id m

  nothing_left :
      (ms : List Message)
      → length (
          keep
            (λ m. unread user m && room_test (some room) m)
            (update_all (selects none) (read_mark user now) ms))
        ≡ 0
  nothing_left [] = refl
  nothing_left (m ∷ ms) = ground (
    arith,
    nothing_left ms,
    text_eq_refl user,
    any-append (λ r. text_eq r.user_id user) m.read_by (record { user_id = user; read_at = now }),
  )

  elsewhere-update_all :
      (id : Option ℕ) (ms : List Message)
      → keep (elsewhere room) (update_all (selects id) (read_mark user now) ms)
        ≡ keep (elsewhere room) ms
  elsewhere-update_all id [] = refl
  elsewhere-update_all id (m ∷ ms) = ground (arith, elsewhere-update_all id ms)

  once-update_all :
      (id : Option ℕ) (ms : List Message)
      → all reads_once ms ≡ true
      → all reads_once (update_all (selects id) (read_mark user now) ms) ≡ true
  once-update_all id [] h = refl
  once-update_all id (m ∷ ms) h = ground (
    arith,
    once-update_all id ms,
    once-append m.read_by (record { user_id = user; read_at = now }),
  )

module _ (ids : ObjectIds) (c : Collection Message) where
  -- After a room is marked as read for a user without an error, the unread count of that room for
  -- that user is 0 where the server counts, and the messages of the other rooms are as they were.
  pub get_unread_count-mark_as_read :
      (now n : ℕ) (room user : Text) (s : c.State)
      → (mark_as_read ids c now room user none s).1 ≡ true
      → get_unread_count ids c user (some room) (mark_as_read ids c now room user none s).0 ≡ some n
      → (n ≡ 0)
        × (keep (elsewhere room) (c.contents (mark_as_read ids c now room user none s).0)
            ≡ keep (elsewhere room) (c.contents s))
  unfolding mark_as_read get_unread_count
  get_unread_count-mark_as_read now n room user s h counted =
      let left = c.updated (selects room user now none) (read_mark user now) s h in
      (
        c.counted _ _ n counted
            ∙ ap
                (λ (ms : List Message).
                  length (keep (λ m. unread user m && room_test (some room) m) ms))
                left
            ∙ nothing_left room user now (c.contents s),
        ap (keep (elsewhere room)) left ∙ elsewhere-update_all room user now none (c.contents s),
      )

  -- Marking as read never lists a reader of a message twice, for a whole room or for one message.
  pub mark_as_read-once :
      (now : ℕ) (room user : Text) (id : Option Text) (s : c.State)
      → all reads_once (c.contents s) ≡ true
      → (mark_as_read ids c now room user id s).1 ≡ true
      → all reads_once (c.contents (mark_as_read ids c now room user id s).0) ≡ true
  unfolding mark_as_read
  mark_as_read-once now room user none s o h =
      ap (all reads_once) (c.updated (selects room user now none) (read_mark user now) s h)
      ∙ once-update_all room user now none (c.contents s) o
  mark_as_read-once now room user (some id) s o h = elim (Option-cases (ids.from_hex id)) [
    | inl e ↦ let h' = rw (e, mark_as_read) at h in cc
    | inr (n, e) ↦
        rw (e, mark_as_read)
          (ap (all reads_once) (
              c.updated (selects room user now (some n)) (read_mark user now) s
                (rw (e, mark_as_read) at h))
            ∙ once-update_all room user now (some n) (c.contents s) o)
  ]
