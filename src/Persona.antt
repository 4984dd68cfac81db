-- ===== src/Persona.antt =====
-- src-tauri/src/persona: the types of persona/mod.rs and of the persona part of core/types.rs.
pub mod Context
pub mod Selection
pub mod Intent
pub mod Service
pub mod LocalApi
use knows_me.Base.{ℕ, Bool, Option, List}
use knows_me.Base.Texts.{Text, codes}
use knows_me.Domain.{FactId, Time, Scope, FactSummary}

pub data ChatRole : Type 0 where
  owner persona : ChatRole

pub record ChatTurn : Type 0 where
  pub role : ChatRole
  pub text : Text

pub record FactRef : Type 0 where
  pub id : FactId
  pub title : Text

pub record PersonaReply : Type 0 where
  pub text : Text
  pub sources : List FactRef

pub data DraftKind : Type 0 where
  email message post : DraftKind

pub record DraftRequest : Type 0 where
  pub kind : DraftKind
  pub prompt : Text

pub record TopicPage : Type 0 where
  pub topic : Text
  pub mentions : ℕ
  pub concerns : ℕ
  pub first_seen : Option Time
  pub last_seen : Option Time
  pub facts : List FactSummary

pub record ContextEntry : Type 0 where
  pub id : FactId
  pub title : Text
  pub body : Text
  pub scope : Scope
  pub relevance : ℕ

pub record PersonaContext : Type 0 where
  pub entries : List ContextEntry
  pub total_confirmed : ℕ

pub record ContextSelection : Type 0 where
  pub max_facts : ℕ
  pub scope : Option Scope

pub record PersonaPrompt : Type 0 where
  pub system : Text
  pub user_document : Text

abbrev pub max_prompt_chars : ℕ
max_prompt_chars = 4000

abbrev pub no_context_reply : Text
no_context_reply = codes "확정된 맥락이 없어 답변할 수 없습니다. 인터뷰 Queue에서 질문에 답하면 페르소나가 근거로 쓸 사실이 쌓입니다."
