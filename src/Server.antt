-- ===== src/Server.antt =====
-- The HTTP server: internal/server.
pub mod RateLimit
pub mod Auth
pub mod ReportCache
pub mod Events
pub mod TagFilter
pub mod TagHandlers
pub mod AckHandlers
pub mod AlertHandlers
pub mod AdminKeys
pub mod AuditTrail
pub mod ScanTrigger
