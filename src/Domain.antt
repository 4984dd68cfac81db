-- ===== src/Domain.antt =====
-- The shared types: src-tauri/src/core/types.rs.
-- Identifiers (UUIDs, ordered by their bytes) and points in time are numbers; a text is the list of
-- its characters. `Category`, a String behind a private constructor, is built by `Category.parse`.
pub mod Category
use knows_me.Base.{ℕ, ◌≡◌, Bool, true, false, Option, List, arith, ◌==◌}
use knows_me.Base.Texts.{Text, codes}
use knows_me.Base.Results.{AppError}

abbrev pub FactId : Type 0
FactId = ℕ

abbrev pub QueueItemId : Type 0
QueueItemId = ℕ

abbrev pub Time : Type 0
Time = ℕ

pub data SourceKind : Type 0 where
  session notion gmail file confluence jira : SourceKind

-- Derived `PartialEq` of `SourceKind`.
abbrev pub source_index : SourceKind → ℕ
source_index session = 0
source_index notion = 1
source_index gmail = 2
source_index file = 3
source_index confluence = 4
source_index jira = 5

abbrev pub source_eq : SourceKind → SourceKind → Bool
source_eq a b = source_index a == source_index b

-- The form of a source in storage keys.
abbrev pub source_tag : SourceKind → Text
source_tag session = codes "session"
source_tag notion = codes "notion"
source_tag gmail = codes "gmail"
source_tag file = codes "file"
source_tag confluence = codes "confluence"
source_tag jira = codes "jira"

pub data FactKind : Type 0 where
  note practice preference project concern concept : FactKind

pub data Scope : Type 0 where
  company personal unknown : Scope

pub data Visibility : Type 0 where
  private shared : Visibility

abbrev pub is_shared : Visibility → Bool
is_shared shared = true
is_shared private = false

abbrev pub scope_eq : Scope → Scope → Bool
scope_eq company company = true
scope_eq personal personal = true
scope_eq unknown unknown = true
scope_eq _ _ = false

pub record RawItem : Type 0 where
  pub source : SourceKind
  pub external_id : Text
  pub collected_at : Time
  pub text : Option Text
  pub image_png : Option (List ℕ)

-- What a message prints: the source and its error.
pub record ErrorMessage : Type 0 where
  pub source : SourceKind
  pub cause : AppError

pub record IngestReport : Type 0 where
  pub collected : ℕ
  pub skipped : ℕ
  pub errors : ℕ
  pub remaining : ℕ
  pub error_messages : List ErrorMessage

pub record ProcessReport : Type 0 where
  pub facts_created : ℕ
  pub queue_items_created : ℕ
  pub filtered : ℕ

pub record Provenance : Type 0 where
  pub source : SourceKind
  pub collected_at : Time

abbrev pub CategoryName : Type 0
CategoryName = Text

pub record FactMetadata : Type 0 where
  pub provenance : Provenance
  pub confirmed : Bool
  pub scope : Scope
  pub confirmed_at : Option Time
  pub visibility : Visibility
  pub category : Option CategoryName
  pub topics : List Text
  pub kind : FactKind

pub record Fact : Type 0 where
  pub id : FactId
  pub title : Text
  pub body : Text
  pub links : List FactId
  pub metadata : FactMetadata

pub record FactChange : Type 0 where
  pub changed_at : Time
  pub before : Option Text
  pub after : Text
  pub note : Option Text

pub record FactCandidate : Type 0 where
  pub title : Text
  pub body : Text
  pub provenance : Provenance
  pub suggested_scope : Scope
  pub topics : List Text
  pub kind : FactKind
  pub visibility : Visibility

pub record FactSummary : Type 0 where
  pub id : FactId
  pub title : Text
  pub scope : Scope
  pub kind : FactKind
  pub topics : List Text
  pub visibility : Visibility
  pub confirmed : Bool

pub data GraphNodeKind : Type 0 where
  fact topic : GraphNodeKind

pub record GraphNode : Type 0 where
  pub id : FactId
  pub label : Text
  pub kind : GraphNodeKind

pub record GraphEdge : Type 0 where
  pub from : FactId
  pub to : FactId

pub record GraphDto : Type 0 where
  pub nodes : List GraphNode
  pub edges : List GraphEdge

pub record TopicPage : Type 0 where
  pub topic : Text
  pub mentions : ℕ
  pub concerns : ℕ
  pub first_seen : Option Time
  pub last_seen : Option Time
  pub facts : List FactSummary

pub record DashboardDto : Type 0 where
  pub collected_count : ℕ
  pub pending_queue : ℕ
  pub recent_facts : List FactSummary

pub data QueueItemKind : Type 0 where
  confirm : FactCandidate → QueueItemKind
  deepen : Text → Option Text → QueueItemKind

pub record QueueItem : Type 0 where
  pub id : QueueItemId
  pub kind : QueueItemKind
  pub priority : ℕ
  pub created_at : Time
  pub expires_at : Option Time

pub data QueueSort : Type 0 where
  priority_desc newest_first : QueueSort

pub data AnswerInput : Type 0 where
  choice : Text → AnswerInput
  text : Text → AnswerInput
  skip : AnswerInput

pub record AnswerResult : Type 0 where
  pub confirmed_fact : Option Fact
  pub follow_ups : List QueueItem

pub source_eq-eq : (a b : SourceKind) → source_eq a b ≡ true → a ≡ b
source_eq-eq a b h = ground arith
