-- ===== src/Ingestion/Sessions.antt =====
-- src-tauri/src/ingestion/connectors/session.rs: which transcripts a run takes, and the two watermarks
-- between which everything counts as done. Reading the files is left out.
pub mod Coverage
use knows_me.Base.{
  ℕ, suc, ◌+◌, Bool, true, false, not, ◌&&◌, ◌||◌, Option, none, some, List, [], ◌∷◌, ◌++◌, filter,
  take, length, leb, ltb, ◌==◌, if◌then◌else◌,
}
use knows_me.Base.Texts.{Text}
use knows_me.Base.Order.{text_le}
use knows_me.Base.Sort.{sort_by}
use knows_me.Domain.{Time}

abbrev pub max_files_per_sync : ℕ
max_files_per_sync = 30

pub record SessionFile : Type 0 where
  pub path : Text
  pub modified : Time

pub record Watermarks : Type 0 where
  pub newest : Option Time
  pub oldest : Option Time

abbrev pub newer : Option Time → Time → Bool
newer none m = true
newer (some w) m = ltb w m

abbrev pub older : Option Time → Time → Bool
older none m = false
older (some w) m = ltb m w

-- Newest first, then by path.
abbrev pub newest_first : SessionFile → SessionFile → Bool
newest_first a b = ltb b.modified a.modified || (a.modified == b.modified && text_le a.path b.path)

abbrev pub fresh : Watermarks → SessionFile → Bool
fresh w f = newer w.newest f.modified

abbrev pub backfill : Watermarks → SessionFile → Bool
backfill w f = older w.oldest f.modified

-- The files that a run takes.
unfoldable pub selected : Watermarks → List SessionFile → List SessionFile
selected w files =
    let all = sort_by newest_first files in
    take max_files_per_sync (filter (fresh w) all ++ filter (backfill w) all)

abbrev pub later : Option Time → Time → Time
later none m = m
later (some n) m = if leb m n then n else m

abbrev pub earlier : Option Time → Time → Time
earlier none m = m
earlier (some o) m = if leb o m then o else m

abbrev pub covered : Watermarks → SessionFile → Watermarks
covered w f = record {
  newest = some (later w.newest f.modified);
  oldest = some (earlier w.oldest f.modified);
}

-- The watermarks after a run has taken the files.
unfoldable pub advance : Watermarks → List SessionFile → Watermarks
advance w [] = w
advance w (f ∷ fs) = advance (covered w f) fs

abbrev pub is_pending : Watermarks → SessionFile → Bool
is_pending w f = fresh w f || backfill w f

-- How many files are left for a later run.
unfoldable pub pending : Watermarks → List SessionFile → ℕ
pending w files = length (filter (is_pending w) files)
