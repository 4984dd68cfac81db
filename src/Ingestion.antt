-- ===== src/Ingestion.antt =====
-- src-tauri/src/ingestion: the collection of items from the sources.
pub mod Cursors
pub mod Service
pub mod Sessions
