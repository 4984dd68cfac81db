-- ===== src/Interview/Queue.antt =====
-- The policy of src-tauri/src/interview/queue_manager.rs: priority, time to live, duplicates, order.
-- Points in time are counted in nanoseconds. The storage is that of Storage/Documents.
pub mod Orders
use knows_me.Base.{
  ℕ, ◌+◌, ◌*◌, ◌≡◌, Bool, true, false, ◌&&◌, Option, none, some, List, [], ◌∷◌, leb, ltb, ◌==◌,
  if◌then◌else◌,
}
use knows_me.Base.Texts.{Text, codes, Unicode}
use knows_me.Base.Sort.{sort_by}
use knows_me.Domain.{
  QueueItem, QueueItemKind, confirm, deepen, QueueSort, priority_desc, newest_first, SourceKind,
  session, notion, gmail, file, confluence, jira, Time,
}
use knows_me.Similarity as Similarity

abbrev pub queue_ns : Text
queue_ns = codes "queue"

abbrev pub source_weight : SourceKind → ℕ
source_weight session = 40
source_weight notion = 25
source_weight gmail = 25
source_weight confluence = 25
source_weight jira = 25
source_weight file = 10

abbrev weights : QueueItemKind → ℕ
weights (confirm c) = source_weight c.provenance.source + 20
weights (deepen question hypothesis) = 15 + 10

abbrev clamp_u8 : ℕ → ℕ
clamp_u8 n = if ltb 255 n then 255 else n

unfoldable pub score_priority : QueueItem → ℕ
score_priority item = clamp_u8 (100 + weights item.kind)

unfoldable pub ttl_days : QueueItemKind → ℕ
ttl_days (confirm c) = 14
ttl_days (deepen question hypothesis) = 30

abbrev pub days : ℕ → Time
days n = n * 86400000000000

module _ (u : Unicode) where
  -- The namespaces of `dedup_text` keep the two kinds apart.
  unfoldable pub is_near_duplicate : QueueItemKind → QueueItemKind → Bool
  is_near_duplicate (confirm c) (confirm d) = Similarity.is_near_duplicate u c.title d.title
  is_near_duplicate (deepen q h) (deepen r g) = Similarity.is_near_duplicate u q r
  is_near_duplicate (confirm c) (deepen q h) = false
  is_near_duplicate (deepen q h) (confirm c) = false

unfoldable pub is_expired : QueueItem → Time → Bool
is_expired item now = elim item.expires_at [ none ↦ false | some e ↦ leb e now ]

-- "Not after" in the order of display.
abbrev pub shown_first : QueueSort → QueueItem → QueueItem → Bool
shown_first priority_desc a b =
    if a.priority == b.priority then leb b.created_at a.created_at else leb b.priority a.priority
shown_first newest_first a b = leb b.created_at a.created_at

unfoldable pub sort_queue : QueueSort → List QueueItem → List QueueItem
sort_queue sort items = sort_by (shown_first sort) items
