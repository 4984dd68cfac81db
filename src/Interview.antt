-- ===== src/Interview.antt =====
-- The interview: src-tauri/src/interview/.
pub mod Queue
pub mod Intake
pub mod Service
