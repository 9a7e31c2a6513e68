-- ===== src/Older.antt =====
-- internal/message and internal/storage/database/message: the older handlers of messages and their
-- store. No route of the router leads to them.
pub mod Requests
pub mod Store
pub mod Handlers
pub mod Created
mod Examples
