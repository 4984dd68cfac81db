-- ===== src/Knowledge/Service/Overview.antt =====
-- `topics` and `dashboard` of src-tauri/src/knowledge/service.rs: views over the index and the queue.
use knows_me.Base.{ℕ, suc, Option, none, some, List, [], ◌∷◌, length, if◌then◌else◌}
use knows_me.Base.Texts.{Text, Unicode}
use knows_me.Base.Results.{ok}
use knows_me.Io.{Io, pure, ◌>>=◌, ◌>>◌}
use knows_me.Domain.{FactId, Time, Fact, FactChange, Scope, QueueItem, TopicPage, DashboardDto}
use knows_me.Storage.{Store, Bytes, Codec}
use knows_me.Interview.Queue.{queue_ns, is_expired}
use knows_me.Knowledge.SearchIndex as Index
use knows_me.Knowledge.SearchIndex.{SearchIndex, MetaLite, find_meta}
use knows_me.Knowledge.SearchIndex.Topics.{topic_pages}
use knows_me.Knowledge.Service.{Knowledge, stored, ensure_index}

abbrev confirmed_time : Option MetaLite → Option Time
confirmed_time none = none
confirmed_time (some m) = m.confirmed_at

abbrev pub confirmed_at_map : SearchIndex → FactId → Option Time
confirmed_at_map x id = confirmed_time (find_meta id x.meta)

-- One entry of the queue: what does not decode is passed over.
abbrev pub count_item : Time → Option QueueItem → ℕ → ℕ
count_item now none n = n
count_item now (some item) n = if is_expired item now then n else suc n

module _ (S : Store) (items : Codec QueueItem) where
  abbrev pub decoded : Option Bytes → Option QueueItem
  decoded none = none
  decoded (some b) = items.decode b

  unfoldable pub count_pending : Time → List Text → Io S.State ℕ
  count_pending now [] = pure 0
  count_pending now (key ∷ keys) = S.get queue_ns key >>= λ found.
      count_pending now keys >>= λ n. pure (count_item now (decoded found) n)

  abbrev pub pending_queue : Time → Io S.State ℕ
  pending_queue now = S.list queue_ns >>= λ keys. count_pending now keys

  module _ (facts : Codec Fact) (log : Codec (List FactChange)) (id_text : FactId → Text)
      (u : Unicode) where
    unfoldable pub topics : Option Scope → Io (Knowledge S.State) (List TopicPage)
    topics scope = do
      ensure_index S facts log id_text u
      λ k. (ok (topic_pages u (Index.search u k.index [] scope) (confirmed_at_map k.index)), k)

    unfoldable pub dashboard : Time → Io (Knowledge S.State) DashboardDto
    dashboard now = do
      ensure_index S facts log id_text u
      pending ← stored (pending_queue now)
      λ k. (
        ok (record {
          collected_count = length k.index.meta;
          pending_queue = pending;
          recent_facts = Index.recent k.index 5;
        }),
        k,
      )
