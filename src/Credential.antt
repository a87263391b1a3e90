-- ===== src/Credential.antt =====
-- gateway/internal/credential: the manager of venue credentials. It keeps the master passphrase, derives a key
-- for each credential, and stores what it encrypts.
pub mod Vault
pub mod Types
pub mod Manager
pub mod Opened
pub mod Sealed
pub mod Kept
pub mod Moved
pub mod Rotation
pub mod Postgres
pub mod Tests
