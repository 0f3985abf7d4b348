-- ===== src/Access.antt =====
-- Who may act: src/orkio_v2/auth.py and services/identity.py, invitations.py, native_auth.py.
pub mod Principal
pub mod Native
pub mod Invitations
pub mod Identity
pub mod Tests
