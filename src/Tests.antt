-- ===== src/Tests.antt =====
-- Runs of the model on concrete inputs, and the theorems at concrete inputs.
mod Domain
mod Processing
mod Pipeline
mod Persona
mod Mcp
pub mod Packs
mod Sharing
mod Security
mod Knowledge
mod Graph
mod Interview
mod Ingestion
