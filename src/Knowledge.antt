-- ===== src/Knowledge.antt =====
-- The knowledge documents: src/orkio_v2/services/knowledge_policy.py and knowledge_repository.py.
pub mod Tables
pub mod Policy
pub mod Storage
pub mod Repository
pub mod Versions
pub mod Supersede
pub mod Rows
pub mod Visibility
pub mod Operations
pub mod Terms
pub mod Requests
pub mod Current
pub mod Cleanup
pub mod Tests
pub mod Backing
