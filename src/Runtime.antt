-- ===== src/Runtime.antt =====
-- The runtime contracts: src/orkio_v2/runtime.
pub mod Contracts
pub mod Execution
pub mod Orchestration
pub mod Events
pub mod Identity
pub mod Realtime
pub mod Tests
