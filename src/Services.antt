-- ===== src/Services.antt =====
-- Services beside billing and the runtime: src/orkio_v2/services.
pub mod Authorization
pub mod RateLimit
pub mod RealtimeBridge
pub mod Segmenter
pub mod TargetResolver
pub mod AuditPath
pub mod Directive
pub mod Capabilities
pub mod Tests
