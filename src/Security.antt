-- ===== src/Security.antt =====
-- src-tauri/src/security: the key of the vault, the encryption, and the store on disk.
pub mod Vault
pub mod Keys
pub mod FileStore
