-- ===== src/Lib.antt =====
-- knows-me: a personal knowledge base that collects items, turns them into facts, asks its owner
-- about them and shares them with other agents. This library models the Rust core, src-tauri/src.
--
-- The parts. The ingestion service (ingestion/) asks the connectors of the sources for new items and
-- hands them to the pipeline of processing/service.rs, which parks what it cannot process. Items are
-- masked, summarised and labelled by a language model; the router (processing/router.rs) makes of
-- each entry of a summary a fact, a question or nothing. Facts are kept by the
-- knowledge service (knowledge/), which stores them encrypted (security/), keeps a history of their
-- texts and an index in memory. Questions wait in the queue of the interview (interview/), whose
-- answers become facts. The persona (persona/) answers questions from confirmed facts, and the
-- sharing surface (sharing/) serves facts to holders of tokens.
--
-- Which file models which part:
--   Domain, Domain/Category       core/types.rs: the data, `Category::parse`, `normalize_topic`
--   Base/Results                  core/error.rs
--   Similarity                    core/text.rs
--   Ingestion/Cursors             ingestion/cursor_store.rs
--   Ingestion/Service             ingestion/service.rs, ingestion/registry.rs
--   Ingestion/Sessions            ingestion/connectors/session.rs: the choice of transcripts
--   Processing/Titles, Router     processing/router.rs, and `is_nothing` of llm/prompts.rs
--   Processing/Entries, Labels    `split_facts` and `parse_labels` of llm/prompts.rs
--   Processing/Pending, Gateway   processing/pending.rs; processing/llm_gateway.rs, transfer_log.rs
--   Processing/Service            processing/service.rs
--   Storage                       core/traits.rs (`EncryptedStore`) with laws, the store of mocks.rs
--   Storage/Documents             the JSON documents of knowledge/fact_store.rs, knowledge/history.rs
--                                 and interview/queue_manager.rs
--   Security/Vault, Keys          security/vault.rs, security/key_manager.rs
--   Security/FileStore            security/store.rs
--   Knowledge/SearchIndex         knowledge/search_index.rs, graph and `topic_pages` in children
--   Knowledge/Service             knowledge/service.rs, with fact_store.rs and history.rs
--   Interview/Queue, Intake       interview/queue_manager.rs, interview/answer_intake.rs
--   Interview/Service             interview/service.rs
--   Sharing                       sharing/mod.rs: tokens and the access rule
--   Sharing/Tokens, Envelope      sharing/tokens.rs, sharing/envelope.rs
--   Sharing/Knowledge             sharing/knowledge.rs
--   Persona, Persona/Context      persona/mod.rs, persona/context.rs
--   Persona/Intent, Selection     persona/intent.rs; persona/selection.rs and persona/query.rs
--   Persona/Service               persona/service.rs
--   Persona/LocalApi              persona/local_api.rs
--   Sharing/Mcp                   sharing/mcp.rs: types and identity; Tools its handlers, Server its
--                                 requests
--   Io, Base, Tests               fallible operations on a state, shared helpers, runs and examples
-- The functions keep their names. A file below a model's file holds theorems about it.
--
-- Conventions. A text is the list of its characters, identities and times are numbers, a set is a
-- list without order, a map is a list of entries or a function. An operation that may fail is a
-- function from a state to a result and the state after it, also where it fails. The clock, random
-- bytes and new identities are arguments. No function needs fuel: every loop runs over a list, or is
-- bounded in the source (the attempts of a call, the passes of a drain), where the bound is the
-- argument of the recursion and a theorem says what is reached within it.
--
-- Parameters: the tables of Unicode, AES-256-GCM, Argon2id, base64, SHA-256, serde_json, the file
-- system's failures, the masker and the language model. What is relied on is in the records of
-- laws: LowercaseLaws, AeadLaws, PrimitiveLaws, StoreLaws, SeparateSpaces, Codec. The module Tests
-- instantiates each of them.
--
-- Not modelled: the masker, and the connectors apart from the choice of transcripts; HTTP clients,
-- child processes and the wiring of the application, which are input and output. Operations
-- that one lock covers are single steps.
pub mod Base
pub mod Domain
pub mod Io
pub mod Storage
pub mod Security
pub mod Similarity
pub mod Ingestion
pub mod Processing
pub mod Knowledge
pub mod Interview
pub mod Persona
pub mod Sharing
mod Tests
