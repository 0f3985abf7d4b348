-- ===== src/Access/Native.antt =====
-- src/orkio_v2/services/native_auth.py: sessions, passwords, one-time challenges and second factors.
pub mod Tables
pub mod Session
pub mod Password
pub mod Challenge
pub mod Login
pub mod Mfa
pub mod Bootstrap
pub mod Tests
