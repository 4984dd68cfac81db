-- ===== src/Knowledge.antt =====
-- The knowledge store: src-tauri/src/knowledge/.
pub mod SearchIndex
pub mod Service
