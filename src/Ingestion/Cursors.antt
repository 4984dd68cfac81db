-- ===== src/Ingestion/Cursors.antt =====
-- src-tauri/src/ingestion/cursor_store.rs: the marks of collected items and the cursor of each source.
-- SHA-256 in hexadecimal is the parameter `digest`, UTF-8 the codec `utf8`.
pub mod Marks
use knows_me.Base.{
  ℕ, suc, ◌+◌, Bool, true, false, Option, none, some, List, [], ◌∷◌, ◌++◌, if◌then◌else◌,
}
use knows_me.Base.Texts.{Text, codes, starts_with}
use knows_me.Io.{Io, pure, lift, continue, ◌>>=◌, ◌>>◌}
use knows_me.Domain.{SourceKind, source_tag}
use knows_me.Storage.{Store, Bytes, Codec}
use knows_me.Storage.Documents as Documents

abbrev pub seen_ns : Text
seen_ns = codes "ingestion.seen"

abbrev pub cursor_ns : Text
cursor_ns = codes "ingestion.cursor"

abbrev pub Cursor : Type 0
Cursor = Text

abbrev pub is_some : {A : Type 0} → Option A → Bool
is_some none = false
is_some (some a) = true

module _ (digest : Text → Text) where
  abbrev pub seen_key : SourceKind → Text → Text
  seen_key source external_id = source_tag source ++ (codes ":" ++ digest external_id)

module _ (S : Store) (utf8 : Codec Text) where
  unfoldable pub load_cursor : SourceKind → Io S.State (Option Cursor)
  load_cursor source = Documents.get S utf8 cursor_ns (source_tag source)

  unfoldable pub save_cursor : SourceKind → Cursor → Io S.State (Unit {0})
  save_cursor source cursor = Documents.put S utf8 cursor_ns (source_tag source) cursor

module _ (S : Store) where
  unfoldable pub clear_cursor : SourceKind → Io S.State (Unit {0})
  clear_cursor source = S.delete cursor_ns (source_tag source)

  -- One key of `clear_seen`: a mark of the source goes, and is counted.
  abbrev pub cleared_key : Text → Text → ℕ → Io S.State ℕ
  cleared_key prefix key cleared =
      if starts_with key prefix
      then (S.delete seen_ns key >>= λ _. pure (suc cleared))
      else pure cleared

  unfoldable pub clear_keys : Text → List Text → ℕ → Io S.State ℕ
  clear_keys prefix [] cleared = pure cleared
  clear_keys prefix (key ∷ keys) cleared =
      cleared_key prefix key cleared >>= λ n. clear_keys prefix keys n

  unfoldable pub clear_seen : SourceKind → Io S.State ℕ
  clear_seen source = S.list seen_ns >>= λ keys. clear_keys (source_tag source ++ codes ":") keys 0

  module _ (digest : Text → Text) where
    unfoldable pub is_seen : SourceKind → Text → Io S.State Bool
    is_seen source external_id = do
      found ← S.get seen_ns (seen_key digest source external_id)
      pure (is_some found)

    module _ (utf8 : Codec Text) where
      unfoldable pub mark_seen : SourceKind → Text → Text → Io S.State (Unit {0})
      mark_seen source external_id at =
          Documents.put S utf8 seen_ns (seen_key digest source external_id) at
