-- ===== src/Processing.antt =====
-- From collected items to facts and questions: src-tauri/src/processing.
pub mod Titles
pub mod Router
pub mod Entries
pub mod Labels
pub mod Pending
pub mod Gateway
pub mod Service
