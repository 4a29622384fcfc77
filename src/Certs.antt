-- ===== src/Certs.antt =====
-- The certificates of the webhook server: internal/webhook/util/writer and
-- internal/webhook/util/generator.
pub mod Writer
pub mod SecretStore
pub mod DirectoryStore
pub mod Folder
pub mod Generator
