-- ===== src/Security/Audit.antt =====
-- internal/security/audit/audit.go: the events that `AuditService` writes. The log is the list of the
-- events written, the last one at the end. Their text as JSON is that of Go's library; of a detail
-- that is no text it is given, `none` where the library refuses the value, and then the event is lost.
-- `enrichWithMetadata` looks up a context key of a type that it declares itself, which no other code
-- can have set, so it leaves the event as it is.
use chat_gateway.Prelude.{
  ℕ, Option, none, some, Bool, true, false, not, List, [], ◌∷◌, ◌++◌, all, if◌then◌else◌,
}
use chat_gateway.Prelude.Text.{Text, bytes}
use chat_gateway.Prelude.Dict.{Dict}

pub data Detail : Type 0 where
  word : Text → Detail
  value : (json : Option Text) → Detail

abbrev pub is_encodable : Detail → Bool
is_encodable (word text) = true
is_encodable (value none) = false
is_encodable (value (some json)) = true

pub record AuditEvent : Type 0 where
  pub timestamp : ℕ
  pub event_type : Text
  pub user_id : Text
  pub room_id : Text
  pub message_id : Text
  pub action : Text
  pub result : Text
  pub details : Dict Detail
  pub ip_address : Text
  pub user_agent : Text

pub record AuditService : Type 0 where
  pub enabled : Bool
  pub events : List AuditEvent

unfoldable pub new_audit_service : Bool → AuditService
new_audit_service enabled = record { enabled = enabled; events = [] }

unfoldable pub is_enabled : AuditService → Bool
is_enabled a = a.enabled

-- An event goes to the log where auditing is on.
unfoldable pub log : AuditEvent → AuditService → AuditService
log e a =
    if not a.enabled
    then a
    else if all (λ detail. is_encodable detail.1) e.details
    then record a { events = a.events ++ e ∷ [] }
    else a

unfoldable pub simple_event : ℕ → Text → Text → Text → Text → Text → Dict Detail → AuditEvent
simple_event now kind user room action result details = record {
  timestamp = now;
  event_type = kind;
  user_id = user;
  room_id = room;
  message_id = [];
  action = action;
  result = result;
  details = details;
  ip_address = [];
  user_agent = [];
}

unfoldable pub log_simple_event :
    ℕ → Text → Text → Text → Text → Text → Dict Detail → AuditService → AuditService
unfolding log simple_event
log_simple_event now kind user room action result details =
    log (simple_event now kind user room action result details)

unfoldable pub log_room_creation : ℕ → Text → Text → Text → AuditService → AuditService
unfolding log simple_event
log_room_creation now user room kind = log (
    simple_event now (bytes "room_creation") user room (bytes "create_room") (bytes "success")
      ((bytes "room_type", word kind) ∷ []))

unfoldable pub log_message_sent : ℕ → Text → Text → Text → Text → AuditService → AuditService
unfolding log simple_event
log_message_sent now user room message kind =
    log
      (record (simple_event now (bytes "message_sent") user room (bytes "send_message")
        (bytes "success") ((bytes "message_type", word kind) ∷ [])) { message_id = message })

unfoldable pub log_message_read : ℕ → Text → Text → Text → AuditService → AuditService
unfolding log simple_event
log_message_read now user room message =
    log
      (record (simple_event now (bytes "message_read") user room (bytes "mark_as_read")
        (bytes "success") []) { message_id = message })

unfoldable pub log_room_join : ℕ → Text → Text → AuditService → AuditService
unfolding log_simple_event
log_room_join now user room =
    log_simple_event now (bytes "room_join") user room (bytes "join_room") (bytes "success") []

unfoldable pub log_room_leave : ℕ → Text → Text → AuditService → AuditService
unfolding log_simple_event
log_room_leave now user room =
    log_simple_event now (bytes "room_leave") user room (bytes "leave_room") (bytes "success") []

unfoldable pub log_member_added : ℕ → Text → Text → Text → AuditService → AuditService
unfolding log_simple_event
log_member_added now operator room member =
    log_simple_event now (bytes "member_added") operator room (bytes "add_member") (bytes "success")
      ((bytes "member_id", word member) ∷ [])

unfoldable pub log_member_removed : ℕ → Text → Text → Text → AuditService → AuditService
unfolding log_simple_event
log_member_removed now operator room member =
    log_simple_event now (bytes "member_removed") operator room (bytes "remove_member")
      (bytes "success") ((bytes "member_id", word member) ∷ [])

unfoldable pub log_authentication_failure : ℕ → Text → Text → AuditService → AuditService
unfolding log simple_event
log_authentication_failure now user reason = log (
    simple_event now (bytes "authentication") user [] (bytes "authenticate") (bytes "failure")
      ((bytes "reason", word reason) ∷ []))

unfoldable pub log_rate_limit_exceeded : ℕ → Text → Text → AuditService → AuditService
unfolding log simple_event
log_rate_limit_exceeded now address endpoint =
    log
      (record (simple_event now (bytes "rate_limit") [] [] (bytes "api_request") (bytes "blocked") (
        (bytes "endpoint", word endpoint)
        ∷ (bytes "reason", word (bytes "rate_limit_exceeded"))
        ∷ [])) { ip_address = address })

unfoldable pub log_suspicious_activity : ℕ → Text → Text → Text → Text → AuditService → AuditService
unfolding log simple_event
log_suspicious_activity now user address kind description =
    log
      (record (simple_event now (bytes "suspicious_activity") user [] kind (bytes "flagged")
        ((bytes "description", word description) ∷ [])) { ip_address = address })

unfoldable pub log_access_denied : ℕ → Text → Text → Text → AuditService → AuditService
unfolding log_simple_event
log_access_denied now user room reason =
    log_simple_event now (bytes "access_denied") user room (bytes "access_resource")
      (bytes "denied") ((bytes "reason", word reason) ∷ [])

unfoldable pub log_data_modification :
    ℕ → Text → Text → Text → Text → Option Text → AuditService → AuditService
unfolding log simple_event
log_data_modification now user resource_type resource operation changes = log (
    simple_event now (bytes "data_modification") user [] operation (bytes "success") (
      (bytes "resource_type", word resource_type)
      ∷ (bytes "resource_id", word resource)
      ∷ (bytes "changes", value changes)
      ∷ []))

unfoldable pub log_security_event :
    ℕ → Text → Text → Text → Option Text → AuditService → AuditService
unfolding log simple_event
log_security_event now kind description severity details = log (
    simple_event now (bytes "security_event") [] [] kind severity (
      (bytes "description", word description)
      ∷ (bytes "severity", word severity)
      ∷ (bytes "details", value details)
      ∷ []))
