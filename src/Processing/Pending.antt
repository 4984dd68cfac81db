-- ===== src/Processing/Pending.antt =====
-- src-tauri/src/processing/pending.rs: the items that wait for the language model. SHA-256 in
-- hexadecimal is the parameter `digest`.
pub mod Parking
use knows_me.Base.{ℕ, suc, Option, none, some, List, [], ◌∷◌, ◌++◌, Bool, length, ◌==◌}
use knows_me.Base.Texts.{Text, codes}
use knows_me.Io.{Io, pure, lift, continue, ◌>>=◌, ◌>>◌}
use knows_me.Domain.{RawItem, source_tag}
use knows_me.Storage.{Store, Codec}
use knows_me.Storage.Documents as Documents

abbrev pub pending_ns : Text
pending_ns = codes "processing.pending"

pub record PendingItem : Type 0 where
  pub raw : RawItem
  pub queued_at : Text
  pub attempts : ℕ

-- How often an item was parked before.
abbrev pub attempts_after : Option PendingItem → ℕ
attempts_after none = 0
attempts_after (some p) = suc p.attempts

abbrev pub kept : Option PendingItem → List PendingItem → List PendingItem
kept none out = out
kept (some p) out = out ++ (p ∷ [])

module _ (S : Store) (items : Codec PendingItem) (digest : Text → Text) where
  abbrev pub pending_key : RawItem → Text
  pending_key raw = source_tag raw.source ++ (codes ":" ++ digest raw.external_id)

  unfoldable pub push : RawItem → Text → Io S.State (Unit {0})
  push raw at = do
    prev ← Documents.get S items pending_ns (pending_key raw)
    Documents.put S items pending_ns (pending_key raw)
        (record { raw = raw; queued_at = at; attempts = attempts_after prev })

  unfoldable pub drain_loop : List Text → List PendingItem → Io S.State (List PendingItem)
  drain_loop [] out = pure out
  drain_loop (key ∷ keys) out = Documents.get S items pending_ns key >>= λ found.
      Documents.delete S items pending_ns key >>= λ _. drain_loop keys (kept found out)

  unfoldable pub drain : Io S.State (List PendingItem)
  drain = S.list pending_ns >>= λ keys. drain_loop keys []

  unfoldable pub len : Io S.State ℕ
  len = do keys ← S.list pending_ns; pure (length keys)

  unfoldable pub is_empty : Io S.State Bool
  is_empty = do n ← len; pure (n == 0)
