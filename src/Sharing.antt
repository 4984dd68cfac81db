-- ===== src/Sharing.antt =====
-- src-tauri/src/sharing/mod.rs: tokens and the access rule.
-- `BTreeSet<Category>` is a list; only membership in it is used here.
pub mod Tokens
pub mod Envelope
pub mod Knowledge
pub mod Mcp
use knows_me.Base.{ℕ, Bool, true, false, ◌&&◌, ◌||◌, Option, none, some, List, []}
use knows_me.Base.Texts.{Text, codes, text_eq}
use knows_me.Base.Sets.{contains}
use knows_me.Domain.{CategoryName, Visibility, is_shared}

pub data AccessError : Type 0 where
  not_found unauthorized locked unavailable invalid_input : AccessError

pub record Token : Type 0 where
  pub id : Text
  pub granted : List CategoryName
  pub owner : Bool

abbrev pub owner_token : Token
owner_token = record { id = codes "owner"; granted = []; owner = true }

abbrev pub consumer : Text → List CategoryName → Token
consumer id granted = record { id = id; granted = granted; owner = false }

abbrev in_granted : List CategoryName → Option CategoryName → Bool
in_granted granted none = false
in_granted granted (some c) = contains text_eq granted c

unfoldable pub can_access : Token → Visibility → Option CategoryName → Bool
can_access t visibility category = t.owner || is_shared visibility && in_granted t.granted category

unfoldable pub grants : Token → CategoryName → Bool
grants t category = t.owner || contains text_eq t.granted category
