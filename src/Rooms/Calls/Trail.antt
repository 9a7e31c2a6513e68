-- ===== src/Rooms/Calls/Trail.antt =====
-- grpc/server.go with audit/audit.go: what the audit log keeps of a run, against what the clients were
-- told.
use chat_gateway.Prelude.{
  ℕ, ◌≡◌, refl, subst, inl, inr, Option, none, some, Option-cases, Bool-cases, List, [], ◌∷◌, ◌++◌,
  map, if◌then◌else◌, Result, Result-cases, ok, err, arith,
}
use chat_gateway.Prelude.Text.{Text, bytes}
use chat_gateway.Security.Audit.{AuditService}
use chat_gateway.Security.MessageEncryption.{MessageEncryption, MessageError, encrypt_message}
use chat_gateway.Storage.Messages.{Message, get_by_room_id}
use chat_gateway.Storage.MessageStore.{mark_as_read}
use chat_gateway.Storage.ChatRoomStore.{
  list_user_rooms, add_member, remove_member, is_member, RoomError,
}
use chat_gateway.Storage.ChatRoomStore
use chat_gateway.Rooms.World.{
  Platform, World, Moment, Notice, GrpcRoom, ChatMessage, convert_room_to_grpc,
}
use chat_gateway.Rooms.Membership.{
  create_system_message_and_update_room, announce_join, join_new, join_room, leave_room, new_member,
}
use chat_gateway.Rooms.Creating.{
  CreateRoomRequest, create_new_room, create_room, existing_room, requested_room,
}
use chat_gateway.Rooms.Listing.{list_user_rooms_reply, list_limit}
use chat_gateway.Rooms.Messaging.{
  SendMessageRequest, create_encrypted_message, update_room_last_message, build_message_response,
  send_message, answer_sent, store_message, get_messages,
}
use chat_gateway.Rooms.Reading.{mark_as_read_reply, message_of}
use chat_gateway.Rooms.Calls.{
  Call, create_call, join_call, leave_call, rooms_call, send_call, messages_call, mark_call, serve,
  serve_all,
}
use chat_gateway.Rooms.Calls.Entries.{
  Entry, entry_of, entry, Adds, Adds-none, Adds-append, log_room_creation-Adds, log_room_join-Adds,
  log_room_leave-Adds, log_message_sent-Adds, log_message_read-Adds,
}

-- What each answer is worth in the log. A failure, a room that was there and a user who was a member
-- before are worth nothing.
abbrev pub created_entry : ℕ → Text → Notice → Option GrpcRoom → List Entry
created_entry time owner Notice.room_created (some room) =
    entry time (bytes "room_creation") owner room.id []
created_entry time owner _ _ = []

abbrev pub sent_entry : ℕ → Text → Text → Option ChatMessage → Notice → List Entry
sent_entry time sender room none _ = []
sent_entry time sender room (some message) Notice.sent =
    entry time (bytes "message_sent") sender room message.id
sent_entry time sender room (some message) _ = []

abbrev pub member_entry : ℕ → Text → Text → Notice → List Entry
member_entry time user room Notice.joined = entry time (bytes "room_join") user room []
member_entry time user room Notice.left = entry time (bytes "room_leave") user room []
member_entry time user room _ = []

abbrev pub marked_entry : ℕ → Text → Text → Text → Notice → List Entry
marked_entry time user room id Notice.marked = entry time (bytes "message_read") user room id
marked_entry time user room id _ = []

module _ (p : Platform) where
  -- What the answer of a call is worth.
  abbrev pub told : Moment → Call → World p → List Entry
  told i (create_call req) w =
      let reply = (create_room p i req w).0 in
      created_entry i.logged req.owner_id reply.message reply.body
  told i (join_call room user) w =
      member_entry i.logged user room (join_room p i room user w).0.message
  told i (leave_call room user) w =
      member_entry i.logged user room (leave_room p i room user w).0.message
  told i (rooms_call user limit cursor) w = []
  told i (send_call req) w =
      let reply = (send_message p i req w).0 in
      sent_entry i.logged req.sender_id req.room_id reply.body reply.message
  told i (messages_call room limit cursor) w = []
  told i (mark_call room user id) w =
      marked_entry i.logged user room id (mark_as_read_reply p i room user id w).0.message

  -- What the answers of a run are worth, in their order.
  abbrev pub trail : List (Moment × Call) → World p → List Entry
  trail [] w = []
  trail ((i, c) ∷ cs) w = told i c w ++ trail cs (serve p i c w)

  audit-create_system_message :
      (i : Moment) (room content : Text) (w : World p)
      → (create_system_message_and_update_room p i room content w).audit ≡ w.audit
  unfolding create_system_message_and_update_room
  audit-create_system_message i room content w = ground arith

  create_room-Adds :
      (i : Moment) (req : CreateRoomRequest) (w : World p)
      → Adds w.audit (told i (create_call req) w) (create_room p i req w).1.audit
  unfolding create_room create_new_room convert_room_to_grpc
  create_room-Adds i req w = elim (Option-cases (existing_room p req w)) [
    | inr (r, e) ↦ rw (e, create_room) (Adds-none w.audit)
    | inl e ↦
        let made = ChatRoomStore.create p.ids p.rooms i.now i.new (requested_room i req) w.rooms in
        elim (Bool-cases made.2) [
          | inl done ↦
              rw (e, done, create_room)
                (log_room_creation-Adds i.logged req.owner_id made.0.id req.kind w.audit)
          | inr failed ↦ rw (e, failed, create_room) (Adds-none w.audit)
        ]
  ]

  join_room-Adds :
      (i : Moment) (room user : Text) (w : World p)
      → Adds w.audit (told i (join_call room user) w) (join_room p i room user w).1.audit
  unfolding join_room join_new announce_join
  join_room-Adds i room user w = elim (Option-cases (is_member p.ids p.rooms room user w.rooms)) [
    | inl e ↦ rw (e, join_room) (Adds-none w.audit)
    | inr (there, e) ↦ elim (Bool-cases there) [
      | inl t ↦ rw (e, t, join_room) (Adds-none w.audit)
      | inr t ↦
          elim (Result-cases
            (add_member p.ids p.rooms i.changed room (new_member user) w.rooms).1) [
              | inr (x, r) ↦ rw (e, t, r, join_room, join_new) (Adds-none w.audit)
              | inl (done, r) ↦
                  rw (e, t, r, join_room, join_new, audit-create_system_message i room _ _)
                    (log_room_join-Adds i.logged user room w.audit)
            ]
    ]
  ]

  leave_room-Adds :
      (i : Moment) (room user : Text) (w : World p)
      → Adds w.audit (told i (leave_call room user) w) (leave_room p i room user w).1.audit
  unfolding leave_room
  leave_room-Adds i room user w =
      elim (Bool-cases (remove_member p.ids p.rooms i.changed room user w.rooms).1) [
        | inr failed ↦ rw (failed, leave_room) (Adds-none w.audit)
        | inl done ↦
            rw (done, leave_room, audit-create_system_message i room _ _)
              (log_room_leave-Adds i.logged user room w.audit)
      ]

  mark_as_read_reply-Adds :
      (i : Moment) (room user id : Text) (w : World p)
      → Adds w.audit
          (told i (mark_call room user id) w)
          (mark_as_read_reply p i room user id w).1.audit
  unfolding mark_as_read_reply
  mark_as_read_reply-Adds i room user id w =
      elim (Bool-cases
        (mark_as_read p.ids p.messages i.changed room user (message_of id) w.messages).1) [
          | inl done ↦
              rw (done, mark_as_read_reply) (log_message_read-Adds i.logged user room id w.audit)
          | inr failed ↦ rw (failed, mark_as_read_reply) (Adds-none w.audit)
        ]

  audit-store_message :
      (i : Moment) (req : SendMessageRequest)
      (r : Result MessageError Text × MessageEncryption p.keys.State) (w : World p)
      → (store_message p i req r w).1.audit ≡ w.audit
  audit-store_message i req (ok text, e) w = refl
  audit-store_message i req (err x, e) w = refl

  answer_sent-Adds :
      (i : Moment) (req : SendMessageRequest) (r : Result Notice Message) (w : World p)
      → Adds w.audit
          (sent_entry i.logged req.sender_id req.room_id
            (answer_sent p i req (r, w)).0.body
            (answer_sent p i req (r, w)).0.message)
          (answer_sent p i req (r, w)).1.audit
  unfolding update_room_last_message build_message_response
  answer_sent-Adds i req (err n) w = Adds-none w.audit
  answer_sent-Adds i req (ok m) w =
      log_message_sent-Adds i.logged req.sender_id req.room_id m.id req.kind w.audit

  send_message-Adds :
      (i : Moment) (req : SendMessageRequest) (w : World p)
      → Adds w.audit (told i (send_call req) w) (send_message p i req w).1.audit
  unfolding send_message create_encrypted_message
  send_message-Adds i req w =
      let sealed = encrypt_message p.aes p.keys i.sealing req.content req.room_id w.encryption in
      let stored = store_message p i req sealed w in
      subst
        (λ (a : AuditService).
          Adds a
            (sent_entry i.logged req.sender_id req.room_id (answer_sent p i req stored).0.body
              (answer_sent p i req stored).0.message)
            (answer_sent p i req stored).1.audit)
        (audit-store_message i req sealed w) (answer_sent-Adds i req stored.0 stored.1)

  list_user_rooms_reply-Adds :
      (i : Moment) (user : Text) (limit : ℕ) (cursor : Text) (w : World p)
      → Adds w.audit [] (list_user_rooms_reply p i user limit cursor w).1.audit
  unfolding list_user_rooms_reply
  list_user_rooms_reply-Adds i user limit cursor w =
      elim (Option-cases (
        list_user_rooms p.time (p.ordered_rooms w.rooms) user (list_limit p.limits limit) cursor)) [
          | inl e ↦ rw (e, list_user_rooms_reply) (Adds-none w.audit)
          | inr (page, e) ↦ rw (e, list_user_rooms_reply) (Adds-none w.audit)
        ]

  get_messages-Adds :
      (i : Moment) (room : Text) (limit : ℕ) (cursor : Text) (w : World p)
      → Adds w.audit [] (get_messages p i room limit cursor w).1.audit
  unfolding get_messages
  get_messages-Adds i room limit cursor w =
      elim (Option-cases (
        get_by_room_id p.time p.limits (p.ordered_messages w.messages) room limit cursor none
          none)) [
            | inl e ↦ rw (e, get_messages) (Adds-none w.audit)
            | inr (page, e) ↦ rw (e, get_messages) (Adds-none w.audit)
          ]

  serve-Adds :
      (i : Moment) (call : Call) (w : World p)
      → Adds w.audit (told i call w) (serve p i call w).audit
  serve-Adds i (create_call req) w = create_room-Adds i req w
  serve-Adds i (join_call room user) w = join_room-Adds i room user w
  serve-Adds i (leave_call room user) w = leave_room-Adds i room user w
  serve-Adds i (rooms_call user limit cursor) w = list_user_rooms_reply-Adds i user limit cursor w
  serve-Adds i (send_call req) w = send_message-Adds i req w
  serve-Adds i (messages_call room limit cursor) w = get_messages-Adds i room limit cursor w
  serve-Adds i (mark_call room user id) w = mark_as_read_reply-Adds i room user id w

  serve_all-Adds :
      (cs : List (Moment × Call)) (w : World p) → Adds w.audit (trail cs w) (serve_all p cs w).audit
  serve_all-Adds [] w = Adds-none w.audit
  serve_all-Adds ((i, call) ∷ cs) w =
      Adds-append w.audit (serve p i call w).audit (serve_all p cs (serve p i call w)).audit
        (told i call w) (trail cs (serve p i call w)) (serve-Adds i call w)
        (serve_all-Adds cs (serve p i call w))

  -- The audit log is the record of the answers: whatever calls are made one after the other, and
  -- whatever fails on the way, the log afterwards is the log before and, where auditing is on, an
  -- entry for each answer that tells of a new room, a user who joined or left, a message sent or
  -- messages marked as read, in the order of the answers, with the time, the user, the room and the
  -- message of each; where it is off, nothing is added.
  pub serve_all-trail :
      (cs : List (Moment × Call)) (w : World p)
      → map entry_of (serve_all p cs w).audit.events
        ≡ map entry_of w.audit.events ++ (if w.audit.enabled then trail cs w else [])
  serve_all-trail cs w = (serve_all-Adds cs w).1
