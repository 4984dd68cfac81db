-- ===== src/Sharing/Tokens.antt =====
-- `TokenStore` of src-tauri/src/sharing/tokens.rs over an `EncryptedStore`.
-- `key_for` is base64url(SHA-256(secret)); the secret of a new token and the time are arguments.
pub mod Revocation
use knows_me.Base.{
  ℕ, Bool, true, false, not, ◌&&◌, Option, none, some, List, [], ◌∷◌, ◌++◌, if◌then◌else◌, ltb,
  ◌==◌, ◌||◌, leb,
}
use knows_me.Base.Texts.{Text, codes, text_eq}
use knows_me.Base.Results.{AppError, Result, ok, err, locked, serde}
use knows_me.Base.Sort.{sort_by}
use knows_me.Base.Order.{text_le}
use knows_me.Domain.{CategoryName, Time}
use knows_me.Io.{Io, pure, raise, continue, ◌>>=◌, ◌>>◌}
use knows_me.Storage.{Store, Bytes, Codec}
use knows_me.Sharing.{Token, consumer}

pub record TokenRecord : Type 0 where
  pub id : Text
  pub granted : List CategoryName
  pub issued_at : Time
  pub revoked : Bool

pub record IssuedToken : Type 0 where
  pub id : Text
  pub secret : Text

pub record TokenInfo : Type 0 where
  pub id : Text
  pub granted : List CategoryName
  pub issued_at : Time

abbrev pub tokens_ns : Text
tokens_ns = codes "sharing-tokens"

-- Newest first, then by id.
abbrev pub info_le : TokenInfo → TokenInfo → Bool
info_le a b = ltb b.issued_at a.issued_at || (a.issued_at == b.issued_at && text_le a.id b.id)

module _ (S : Store) (codec : Codec TokenRecord) (key_for : Text → Text) where
  unfoldable pub issue : Text → List CategoryName → Text → Time → Io S.State IssuedToken
  issue id granted secret now = do
    S.put tokens_ns (key_for secret)
        (codec.encode (record { id = id; granted = granted; issued_at = now; revoked = false }))
    pure (record { id = id; secret = secret })

  abbrev pub identify : TokenRecord → Option Token
  identify r = if r.revoked then none else some (consumer r.id r.granted)

  abbrev pub resolve_bytes : Option Bytes → Io S.State (Option Token)
  resolve_bytes none = pure none
  resolve_bytes (some bytes) = elim (codec.decode bytes) [
    | none ↦ raise serde
    | some r ↦ pure (identify r)
  ]

  unfoldable pub resolve : Text → Io S.State (Option Token)
  resolve secret = do found ← S.get tokens_ns (key_for secret); resolve_bytes found

  -- The match that `revoke` and `list` begin with: a record that cannot be read or parsed is
  -- skipped, a locked vault is an error.
  abbrev pub readable : Result AppError (Option Bytes) → Result AppError (Option TokenRecord)
  readable (ok none) = ok none
  readable (ok (some bytes)) = ok (codec.decode bytes)
  readable (err locked) = err locked
  readable (err _) = ok none

  unfoldable pub read_record : Text → Io S.State (Option TokenRecord)
  read_record key s = (readable (S.get tokens_ns key s).0, (S.get tokens_ns key s).1)

  unfoldable pub write_revoked : Text → TokenRecord → Io S.State Bool
  write_revoked key r = do
    S.put tokens_ns key (codec.encode (record r { revoked = true }))
    pure true

  unfoldable pub revoke_record : Text → Text → Bool → Option TokenRecord → Io S.State Bool
  revoke_record id key revoked_any none = pure revoked_any
  revoke_record id key revoked_any (some r) =
      if text_eq r.id id && not r.revoked then write_revoked key r else pure revoked_any

  unfoldable pub revoke_step : Text → Text → Bool → Io S.State Bool
  unfolding read_record write_revoked revoke_record
  revoke_step id key revoked_any = do
    found ← read_record key
    revoke_record id key revoked_any found

  unfoldable pub revoke_loop : Text → List Text → Bool → Io S.State Bool
  revoke_loop id [] revoked_any = pure revoked_any
  revoke_loop id (key ∷ keys) revoked_any =
      revoke_step id key revoked_any >>= λ b. revoke_loop id keys b

  unfoldable pub revoke : Text → Io S.State Bool
  revoke id = do keys ← S.list tokens_ns; revoke_loop id keys false

  abbrev push_live : List TokenInfo → Option TokenRecord → List TokenInfo
  push_live out none = out
  push_live out (some r) =
      if r.revoked
      then out
      else out
        ++ (record { id = r.id; granted = sort_by text_le r.granted; issued_at = r.issued_at } ∷ [])

  pub list_loop : List Text → List TokenInfo → Io S.State (List TokenInfo)
  unfolding read_record
  list_loop [] out = pure out
  list_loop (key ∷ keys) out = read_record key >>= λ found. list_loop keys (push_live out found)

  unfoldable pub list : Io S.State (List TokenInfo)
  unfolding list_loop
  list = do keys ← S.list tokens_ns; out ← list_loop keys []; pure (sort_by info_le out)
