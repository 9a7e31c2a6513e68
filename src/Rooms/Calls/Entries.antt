-- ===== src/Rooms/Calls/Entries.antt =====
-- audit/audit.go: what the events of the room service tell, and what its calls of the log add.
use chat_gateway.Prelude.{
  ℕ, ◌≡◌, refl, sym, ap, ◌∙◌, inl, inr, Bool, true, false, Bool-cases, List, [], ◌∷◌, ◌++◌,
  append_assoc, append-nil, map, map-append, if◌then◌else◌, all,
}
use chat_gateway.Prelude.Text.{Text, bytes}
use chat_gateway.Prelude.Dict.{Dict}
use chat_gateway.Security.Audit.{
  Detail, word, AuditEvent, AuditService, is_encodable, log, simple_event, log_simple_event,
  log_room_creation, log_message_sent, log_message_read, log_room_join, log_room_leave,
}

-- What an event tells: when, what, who, where, and about which message.
pub record Entry : Type 0 where
  pub time : ℕ
  pub kind : Text
  pub user : Text
  pub room : Text
  pub message : Text

abbrev pub entry_of : AuditEvent → Entry
entry_of e = record {
  time = e.timestamp;
  kind = e.event_type;
  user = e.user_id;
  room = e.room_id;
  message = e.message_id;
}

abbrev pub entry : ℕ → Text → Text → Text → Text → List Entry
entry time kind user room message =
    record { time = time; kind = kind; user = user; room = room; message = message } ∷ []

-- `a'` is `a` with these entries, if auditing is on.
abbrev pub Adds : AuditService → List Entry → AuditService → Type 0
Adds a es a' =
    (a'.enabled ≡ a.enabled)
    × (map entry_of a'.events ≡ map entry_of a.events ++ (if a.enabled then es else []))

pub Adds-none : (a : AuditService) → Adds a [] a
Adds-none a = elim (Bool-cases a.enabled) [
  | inl on ↦ rw on (refl, sym (append-nil _))
  | inr off ↦ rw off (refl, sym (append-nil _))
]

Adds-log :
    (e : AuditEvent) (a : AuditService)
    → all (λ detail. is_encodable detail.1) e.details ≡ true
    → Adds a (entry_of e ∷ []) (log e a)
unfolding log
Adds-log e a good = elim (Bool-cases a.enabled) [
  | inl on ↦ rw (on, good) (refl, map-append entry_of a.events (e ∷ []))
  | inr off ↦ rw off (refl, sym (append-nil _))
]

both_if :
    (on : Bool) (l es fs : List Entry)
    → (l ++ (if on then es else [])) ++ (if on then fs else []) ≡ l ++ (if on then es ++ fs else [])
both_if true l es fs = append_assoc l es fs
both_if false l es fs = append-nil (l ++ [])

pub Adds-append :
    (a b c : AuditService) (es fs : List Entry) → Adds a es b → Adds b fs c → Adds a (es ++ fs) c
Adds-append a b c es fs (same, x) (same', y) =
    let y' = rw same at y in
    (
      same' ∙ same,
      y'
          ∙ ap (λ (l : List Entry). l ++ (if a.enabled then fs else [])) x
          ∙ both_if a.enabled (map entry_of a.events) es fs,
    )

simple_event-Adds :
    (now : ℕ) (kind user room action result : Text) (details : Dict Detail) (a : AuditService)
    → all (λ detail. is_encodable detail.1) details ≡ true
    → Adds a
        (entry now kind user room [])
        (log (simple_event now kind user room action result details) a)
unfolding simple_event
simple_event-Adds now kind user room action result details a good =
    Adds-log (simple_event now kind user room action result details) a good

pub log_room_creation-Adds :
    (now : ℕ) (user room kind : Text) (a : AuditService)
    → Adds a
        (entry now (bytes "room_creation") user room [])
        (log_room_creation now user room kind a)
unfolding log_room_creation
log_room_creation-Adds now user room kind a =
    simple_event-Adds now (bytes "room_creation") user room (bytes "create_room") (bytes "success")
      ((bytes "room_type", word kind) ∷ []) a refl

pub log_room_join-Adds :
    (now : ℕ) (user room : Text) (a : AuditService)
    → Adds a (entry now (bytes "room_join") user room []) (log_room_join now user room a)
unfolding log_room_join log_simple_event
log_room_join-Adds now user room a =
    simple_event-Adds now (bytes "room_join") user room (bytes "join_room") (bytes "success") [] a
      refl

pub log_room_leave-Adds :
    (now : ℕ) (user room : Text) (a : AuditService)
    → Adds a (entry now (bytes "room_leave") user room []) (log_room_leave now user room a)
unfolding log_room_leave log_simple_event
log_room_leave-Adds now user room a =
    simple_event-Adds now (bytes "room_leave") user room (bytes "leave_room") (bytes "success") [] a
      refl

pub log_message_sent-Adds :
    (now : ℕ) (user room message kind : Text) (a : AuditService)
    → Adds a
        (entry now (bytes "message_sent") user room message)
        (log_message_sent now user room message kind a)
unfolding log_message_sent simple_event
log_message_sent-Adds now user room message kind a =
    Adds-log
      (record (simple_event now (bytes "message_sent") user room (bytes "send_message")
        (bytes "success") ((bytes "message_type", word kind) ∷ [])) { message_id = message })
      a refl

pub log_message_read-Adds :
    (now : ℕ) (user room message : Text) (a : AuditService)
    → Adds a
        (entry now (bytes "message_read") user room message)
        (log_message_read now user room message a)
unfolding log_message_read simple_event
log_message_read-Adds now user room message a =
    Adds-log
      (record (simple_event now (bytes "message_read") user room (bytes "mark_as_read")
        (bytes "success") []) { message_id = message })
      a refl
