-- ===== src/Storage.antt =====
-- internal/storage/database, and what the program takes from MongoDB.
pub mod Collection
pub mod Paging
pub mod Messages
pub mod MessageStore
pub mod ChatRoomStore
pub mod Queries
pub mod Fixtures
