-- ===== src/Persona/LocalApi.antt =====
-- src-tauri/src/persona/local_api.rs: the handlers of the local HTTP API. A body arrives parsed, or as
-- malformed; sockets and routing are left out.
use knows_me.Base.{
  ℕ, Bool, true, false, ◌||◌, Option, none, some, List, [], ◌∷◌, map, if◌then◌else◌, ◌==◌,
}
use knows_me.Base.Texts.{Text, codes, text_eq, trim}
use knows_me.Base.Results.{
  AppError, Result, ok, err, locked, not_found, invalid_input, crypto, io, external, serde, map_err,
}
use knows_me.Io.{Io}
use knows_me.Persona.{ChatRole, ChatTurn, DraftKind, DraftRequest, PersonaReply}
use knows_me.Persona as Persona

-- The value of a header, which may not be text.
pub data Header : Type 0 where
  readable : Text → Header
  opaque : Header

abbrev pub header_text : Option Header → Option Text
header_text none = none
header_text (some opaque) = none
header_text (some (readable t)) = some t

-- `str::split_once` at one character.
abbrev grown : ℕ → Option (Text × Text) → Option (Text × Text)
grown c none = none
grown c (some (a, b)) = some (c ∷ a, b)

unfoldable pub split_once : ℕ → Text → Option (Text × Text)
split_once sep [] = none
split_once sep (c ∷ s) =
    let rest = split_once sep s in if c == sep then some ([], s) else grown c rest

abbrev first_part : Text → Option (Text × Text) → Text
first_part whole none = whole
first_part whole (some (a, b)) = a

abbrev is_loopback_name : Text → Bool
is_loopback_name name =
    text_eq name (codes "127.0.0.1")
    || (text_eq name (codes "localhost") || text_eq name (codes "::1"))

abbrev bracketed : Option (Text × Text) → Bool
bracketed none = false
bracketed (some (inner, rest)) = is_loopback_name inner

-- An IPv6 literal stands in brackets (91 and 93); a colon (58) precedes the port.
abbrev loopback_trimmed : Text → Bool
loopback_trimmed [] = is_loopback_name []
loopback_trimmed (c ∷ rest) =
    if c == 91
    then bracketed (split_once 93 rest)
    else is_loopback_name (first_part (c ∷ rest) (split_once 58 (c ∷ rest)))

unfoldable pub is_loopback_host : Text → Bool
is_loopback_host host = loopback_trimmed (trim host)

abbrev pub loopback_header : Option Text → Bool
loopback_header none = false
loopback_header (some host) = is_loopback_host host

pub data ApiError : Type 0 where
  non_loopback_host malformed_body : ApiError
  domain : AppError → ApiError

abbrev pub status_for : AppError → ℕ
status_for locked = 423
status_for invalid_input = 400
status_for not_found = 404
status_for external = 502
status_for crypto = 500
status_for io = 500
status_for serde = 500

-- The status of the answer to a request that fails.
abbrev pub error_status : ApiError → ℕ
error_status non_loopback_host = 403
error_status malformed_body = 400
error_status (domain e) = status_for e

unfoldable pub require_loopback : Option Header → Result ApiError (Unit {0})
require_loopback host = if loopback_header (header_text host) then ok tt else err non_loopback_host

pub data ChatRoleWire : Type 0 where
  owner persona : ChatRoleWire

pub record ChatTurnBody : Type 0 where
  pub role : ChatRoleWire
  pub text : Text

pub record ChatRequestBody : Type 0 where
  pub prompt : Text
  pub history : List ChatTurnBody

pub data DraftKindWire : Type 0 where
  email message post : DraftKindWire

pub record DraftRequestBody : Type 0 where
  pub kind : DraftKindWire
  pub prompt : Text

abbrev role_from : ChatRoleWire → ChatRole
role_from owner = Persona.owner
role_from persona = Persona.persona

abbrev turn_from : ChatTurnBody → ChatTurn
turn_from t = record { role = role_from t.role; text = t.text }

abbrev kind_from : DraftKindWire → DraftKind
kind_from email = Persona.email
kind_from message = Persona.message
kind_from post = Persona.post

abbrev pub wire_from : DraftKind → DraftKindWire
wire_from Persona.email = email
wire_from Persona.message = message
wire_from Persona.post = post

pub record HealthBody : Type 0 where
  pub status : Text
  pub persona : Bool

-- The trait `PersonaApi`; the text of a draft stands for the draft.
pub record PersonaApi (P : Type 0) : Type 0 where
  pub chat : Text → List ChatTurn → Io P PersonaReply
  pub draft : DraftRequest → Io P Text

abbrev pub reply_text : Result AppError PersonaReply → Result ApiError Text
reply_text (ok r) = ok r.text
reply_text (err e) = err (domain e)

unfoldable pub health : Option Header → Result ApiError HealthBody
health host = elim (require_loopback host) [
  | ok u ↦ ok (record { status = codes "ok"; persona = true })
  | err e ↦ err e
]

module _ {P : Type 0} (api : PersonaApi P) where
  abbrev chat_body : Option ChatRequestBody → P → Result ApiError Text × P
  chat_body none p = (err malformed_body, p)
  chat_body (some body) p =
      let answer = api.chat body.prompt (map turn_from body.history) p in
      (reply_text answer.0, answer.1)

  unfoldable pub chat : Option Header → Option ChatRequestBody → P → Result ApiError Text × P
  chat host body p = elim (require_loopback host) [ ok u ↦ chat_body body p | err e ↦ (err e, p) ]

  abbrev draft_body : Option DraftRequestBody → P → Result ApiError Text × P
  draft_body none p = (err malformed_body, p)
  draft_body (some body) p =
      let answer = api.draft (record { kind = kind_from body.kind; prompt = body.prompt }) p in
      (map_err domain answer.0, answer.1)

  unfoldable pub draft : Option Header → Option DraftRequestBody → P → Result ApiError Text × P
  draft host body p = elim (require_loopback host) [ ok u ↦ draft_body body p | err e ↦ (err e, p) ]
