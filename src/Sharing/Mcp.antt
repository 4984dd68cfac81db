-- ===== src/Sharing/Mcp.antt =====
-- src-tauri/src/sharing/mcp.rs: the types of the MCP server, and who is asking.
pub mod Tools
pub mod Server
pub mod Serving
pub mod Answers
use knows_me.Base.{
  ℕ, Bool, true, false, ◌&&◌, Option, none, some, List, [], ◌∷◌, ◌++◌, take, drop, if◌then◌else◌,
}
use knows_me.Base.Texts.{Text, codes, text_eq, trim, lower_ascii}
use knows_me.Base.Lines.{is_empty}
use knows_me.Base.Results.{AppError, Result, ok, err}
use knows_me.Io.{Io}
use knows_me.Domain.{Fact, FactId, FactMetadata, SourceKind, Time}
use knows_me.Storage.{Store, Codec}
use knows_me.Persona.LocalApi.{Header, readable, opaque, header_text, split_once, loopback_header}
use knows_me.Sharing.{AccessError, Token, owner_token}
use knows_me.Sharing.Envelope.{envelope, sanitize_field}
use knows_me.Sharing.Tokens as Tokens
use knows_me.Sharing.Tokens.{TokenRecord}

-- `serde_json::Value`: of numbers only the naturals of 64 bits are told apart. An object is the list of
-- its fields, without double keys.
mutual
  pub data Json : Type 0 where
    null other_number : Json
    boolean : Bool → Json
    natural : ℕ → Json
    string : Text → Json
    array : Items → Json
    object : Fields → Json

  pub data Items : Type 0 where
    no_items : Items
    item : Json → Items → Items

  pub data Fields : Type 0 where
    no_fields : Fields
    field : Text → Json → Fields → Fields

abbrev pub find_field : Text → Fields → Option Json
find_field key no_fields = none
find_field key (field k v rest) =
    let found = find_field key rest in if text_eq k key then some v else found

-- `Value::get` with a key.
abbrev pub get : Text → Json → Option Json
get key (object fs) = find_field key fs
get key _ = none

-- `and_then(Value::as_str)`.
abbrev pub as_str : Option Json → Option Text
as_str (some (string t)) = some t
as_str _ = none

pub record CategoryOut : Type 0 where
  pub name : Text
  pub page_count : ℕ
  pub summary : Option Text

pub record SearchHit : Type 0 where
  pub id : FactId
  pub title : Text
  pub category : Option Text
  pub excerpt : Text
  pub updated_at : Time

pub record SearchOut : Type 0 where
  pub results : List SearchHit
  pub truncated : Bool

pub record LinkOut : Type 0 where
  pub id : FactId
  pub title : Text

pub record ProvOut : Type 0 where
  pub source : SourceKind
  pub collected_at : Time

pub record PageOut : Type 0 where
  pub id : FactId
  pub title : Text
  pub category : Option Text
  pub body : Text
  pub links : List LinkOut
  pub provenance : ProvOut
  pub confirmed_at : Option Time
  pub updated_at : Time

pub record GuidePage : Type 0 where
  pub id : FactId
  pub title : Text
  pub excerpt : Text

pub record GuideOut : Type 0 where
  pub category : Text
  pub summary : Option Text
  pub pages : List GuidePage

-- What a tool gives, before it is written as JSON.
pub data ToolOutput : Type 0 where
  categories_out : List CategoryOut → ToolOutput
  search_out : SearchOut → ToolOutput
  page_out : PageOut → ToolOutput
  guide_out : GuideOut → ToolOutput

pub data ToolError : Type 0 where
  not_found unauthorized locked unavailable : ToolError
  invalid_input : Text → ToolError

abbrev pub message : ToolError → Text
message not_found = codes "해당 항목을 찾을 수 없습니다."
message unauthorized = codes "토큰이 유효하지 않습니다."
message ToolError.locked = codes "지식 저장소가 잠겨 있습니다. 소유자가 앱에서 잠금을 해제해야 합니다."
message unavailable = codes "지식 저장소에 연결할 수 없습니다. 소유자의 앱이 실행 중이 아닐 수 있습니다."
message (invalid_input name) = codes "요청 인자가 올바르지 않습니다: " ++ name

abbrev pub tool_error : AccessError → ToolError
tool_error AccessError.not_found = not_found
tool_error AccessError.unauthorized = unauthorized
tool_error AccessError.locked = ToolError.locked
tool_error AccessError.unavailable = unavailable
tool_error AccessError.invalid_input = invalid_input (codes "인자")

abbrev pub updated_at : FactMetadata → Time
updated_at meta = elim meta.confirmed_at [ none ↦ meta.provenance.collected_at | some t ↦ t ]

abbrev excerpt_max_chars : ℕ
excerpt_max_chars = 200

abbrev elided : Text → Text → Text
elided head [] = head
elided head (c ∷ rest) = head ++ codes "…"

unfoldable pub excerpt : Text → Text
excerpt body = elided (take excerpt_max_chars body) (drop excerpt_max_chars body)

abbrev pub served_category : Option Text → Option Text
served_category none = none
served_category (some c) = some (sanitize_field c)

abbrev pub search_hit : Fact → SearchHit
search_hit f = record {
  id = f.id;
  title = sanitize_field f.title;
  category = served_category f.metadata.category;
  excerpt = envelope (excerpt f.body);
  updated_at = updated_at f.metadata;
}

-- The secret after the scheme, if the scheme is Bearer and there is one; the separator is a space (32).
abbrev non_empty : Text → Option Text
non_empty secret = if is_empty secret then none else some secret

abbrev bearer_of : Option (Text × Text) → Option Text
bearer_of none = none
bearer_of (some (scheme, secret)) =
    if text_eq (lower_ascii scheme) (codes "bearer") then non_empty (trim secret) else none

unfoldable pub parse_bearer : Text → Option Text
parse_bearer header = bearer_of (split_once 32 header)

pub record Headers : Type 0 where
  pub authorization : Option Header
  pub host : Option Header

abbrev pub secret_of : Option Text → Option Text
secret_of none = none
secret_of (some header) = parse_bearer header

module _ (S : Store) (codec : Codec TokenRecord) (key_for : Text → Text) where
  -- What the store of tokens found.
  abbrev pub resolved : Result AppError (Option Token) → Result ToolError Token
  resolved (ok (some token)) = ok token
  resolved (ok none) = err unauthorized
  resolved (err AppError.locked) = err ToolError.locked
  resolved (err e) = err unavailable

  abbrev pub identify : Option Text → S.State → Result ToolError Token × S.State
  identify none s = (err unauthorized, s)
  identify (some secret) s =
      let found = Tokens.resolve S codec key_for secret s in (resolved found.0, found.1)

  abbrev pub anonymous : Bool → Option Header → Result ToolError Token
  anonymous allow_owner host =
      if allow_owner && loopback_header (header_text host) then ok owner_token else err unauthorized

  abbrev pub identity :
      Option Header → Option Header → Bool → S.State → Result ToolError Token × S.State
  identity none host allow_owner s = (anonymous allow_owner host, s)
  identity (some value) host allow_owner s = identify (secret_of (header_text (some value))) s

  unfoldable pub resolve_identity : Headers → Bool → S.State → Result ToolError Token × S.State
  resolve_identity headers allow_owner = identity headers.authorization headers.host allow_owner
