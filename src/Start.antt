-- ===== src/Start.antt =====
-- cmd/api/main.go and internal/platform/config: how the process comes to its services.
pub mod Configuration
pub mod MongoUrl
pub mod Boot
