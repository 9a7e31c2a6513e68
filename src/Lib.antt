-- ===== src/Lib.antt =====
-- chat-gateway, a gateway for chat rooms in Go: HTTP handlers behind a chain of middleware call the
-- room service, which stores rooms and messages in MongoDB, the messages encrypted under a key of their
-- room.
--
-- Parts and files:
-- - Middleware: internal/platform/middleware. RateLimiter models rate_limiter.go (allowRequest,
--   cleanupVisitors, the limiter for each endpoint; RateLimiter.Running is a run of requests and
--   cleanup rounds), SseLimiter models sse_limiter.go (allowConnection,
--   registerConnection, removeConnection, cleanup). SseLimiter.Handlers is the step relation of the
--   handlers that Middleware starts, since check and registration take the lock one after the other.
--   Validation models validation.go, an error by its kind.
-- - Security: internal/security. Base64 and Cipher are what the code uses of Go's library; the block
--   function of AES is a parameter. AesCtr models encryption/aes_ctr.go, KeyStore models
--   keymanager/persistence.go, KeyManager models keymanager/key_manager_v2.go with the byte slices of
--   the keys as buffers on a heap (KeyManager.Upkeep: loading, reports and the rotation of the keys
--   that are due; KeyManager.Rotating: the start and stop of the rotation's loops), and MessageEncryption models encryption/message_encryption.go over
--   the key manager. Signal models encryption/signal_protocol.go, over a record for X25519, HKDF,
--   SHA-512 and AES-GCM with their documented laws. Audit models audit/audit.go: the log is the list of
--   the events written.
-- - Storage: internal/storage/database/chatroom. Collection is the interface of a MongoDB collection,
--   with the documented behaviour of the driver as laws and an instance in memory; Paging is what the
--   repositories share to read in pages (processPaginationResult and the cursors), over a record for the
--   reads in order and one for RFC 3339 times. Messages models the paged queries of message.go,
--   MessageStore its other operations (Create, GetByID, Update, Delete, MarkAsRead, MarkAsDelivered,
--   GetUnreadCount, GetRecentMessages, SearchMessages), ChatRoomStore the operations of chatroom.go.
--   Queries models internal/storage/database/security.go, the checks of filters and updates.
-- - Rooms: internal/grpc/server.go, the room service over the parts above. World is the state of Server
--   (the two repositories, the encryption, the audit log) and the messages of its protocol. Each call is
--   a function from its request, what the clock and the random source give to it (Moment) and the world
--   to its reply and the next world: Creating (CreateRoom), Membership (JoinRoom, LeaveRoom and their
--   system messages), Listing (ListUserRooms, GetRoomInfo), Messaging (SendMessage, GetMessages),
--   Reading (MarkAsRead, GetUnreadCount), Streaming (StreamMessages, a run over the polls of one
--   stream). Calls puts calls one after the other, and Calls.Trail compares the audit log with the
--   answers of a run. Membership.Roster is the set of a room's members, a quotient of the lists of users,
--   which joins and leaves follow. Readers and Members are about the helpers on lists of users.
-- - Http: internal/platform/server and internal/httputil, the gateway before the room service. Errors
--   models httputil/error_handler.go and the bodies of the answers, Setup the configuration that the
--   gateway reads and grpcclient/client.go, Health platform/health/health.go. RoomHandlers and
--   MessageHandlers are the handlers of platform/server/http.go over the calls of Rooms, with what they
--   share in Calling; Router is its chain of middleware and its routes, one request at a time, and
--   EventStream models platform/server/stream.go as a step relation of the goroutine that reads and the
--   loop that writes. Sending follows a message from the form to the store.
-- - Start: cmd/api/main.go, the way from the settings to the services. Configuration models
--   internal/platform/config/config.go (Load, validateConfig and the overrides of the environment),
--   MongoUrl the masking of URLs there and in internal/platform/driver/mongo.go, and Boot main.go with
--   NewServer of internal/grpc/server.go.
-- - Older: internal/message and internal/storage/database/message, handlers of messages that no route
--   leads to. Requests models message_record.go and validator.go, Store message_store.go, Handlers
--   message.go.
-- - Middleware.RequestContext models request_id.go and request_context.go, Middleware.Authentication
--   auth.go and middleware.go, which the router does not use.
-- - Prelude: tests, lists, texts as lists of bytes with their UTF-8, maps as association lists, results
--   and options as monads.
--
-- Times are nanoseconds, each reading of the clock and of the random source is an argument. Every loop
-- of the program runs over a list. The client that follows cursors (Storage.Paging.Walk) is the only
-- recursion on fuel: one step more than there are documents is enough, which its theorems show. A run of
-- calls is a list of them, and two handlers at once are put as the order of their steps where it matters
-- (SseLimiter.Handlers, Membership.Joining, Http.EventStream, KeyManager.Rotating).
--
-- Not modelled: what the process reads and writes (configuration files, logging, the database driver,
-- listeners and TLS), which is input and output; gin, its decoding of requests and gRPC, which are
-- parameters; the generated protocol code; the web page; the settings of the security package
-- (internal/security/config), which no other package imports.
pub mod Http
pub mod Middleware
pub mod Older
pub mod Prelude
pub mod Rooms
pub mod Security
pub mod Start
pub mod Storage
