-- ===== src/Knowledge/Service.antt =====
-- `KnowledgeService` of src-tauri/src/knowledge/service.rs, over `FactStore` (fact_store.rs) and
-- `HistoryTracker` (history.rs). The write lock is held from the reading to the last write of each
-- operation, so that an operation is one step; the clock is an argument.
pub mod Overview
pub mod Upserts
use knows_me.Base.{
  ℕ, suc, ◌+◌, ◌≡◌, Bool, true, false, not, ◌&&◌, Option, none, some, List, [], ◌∷◌, ◌++◌, ltb,
  if◌then◌else◌,
}
use knows_me.Base.Texts.{Text, codes, text_eq, Unicode, trim}
use knows_me.Base.Lines.{is_empty}
use knows_me.Base.Results.{AppError, Result, ok, err, not_found, invalid_input}
use knows_me.Io.{Io, pure, raise, lift, continue, ◌>>=◌, ◌>>◌}
use knows_me.Knowledge.SearchIndex.Graph as Graph
use knows_me.Domain.{
  GraphDto, FactId, Time, Fact, FactChange, FactSummary, Scope, SourceKind, source_eq, Visibility,
  CategoryName,
}
use knows_me.Storage.{Store, Bytes, Codec}
use knows_me.Storage.Documents as Documents
use knows_me.Knowledge.SearchIndex as Index
use knows_me.Knowledge.SearchIndex.{SearchIndex}

abbrev pub facts_ns : Text
facts_ns = codes "facts"

abbrev pub history_ns : Text
history_ns = codes "fact_history"

pub record Knowledge (State : Type 0) : Type 0 where
  pub store : State
  pub index : SearchIndex
  pub initialized : Bool

module _ {State : Type 0} where
  -- An operation of the store.
  abbrev pub stored : {A : Type 0} → Io State A → Io (Knowledge State) A
  stored m k = ((m k.store).0, record k { store = (m k.store).1 })

  -- Under the index's mutex.
  abbrev pub indexed : (SearchIndex → SearchIndex) → Io (Knowledge State) (Unit {0})
  indexed f k = (ok tt, record k { index = f k.index })

  abbrev pub set_initialized : Io (Knowledge State) (Unit {0})
  set_initialized k = (ok tt, record k { initialized = true })

abbrev pub or_empty : Option (List FactChange) → List FactChange
or_empty none = []
or_empty (some changes) = changes

abbrev pub found_or_absent : Option Fact → Result AppError Fact
found_or_absent none = err not_found
found_or_absent (some f) = ok f

-- The guards of `upsert`.
abbrev is_none : Option Time → Bool
is_none none = true
is_none (some t) = false

unfoldable pub check_fact : Fact → Result AppError (Unit {0})
check_fact f =
    if not f.metadata.confirmed
    then err invalid_input
    else if is_none f.metadata.confirmed_at
    then err invalid_input
    else if is_empty (trim f.title)
    then err invalid_input
    else ok tt

abbrev pub change_of : Time → Fact → Fact → FactChange
change_of now prev f = record {
  changed_at = now;
  before = some prev.body;
  after = f.body;
  note = none;
}

abbrev pub shared_as : Visibility → Option CategoryName → Fact → Fact
shared_as visibility category f = record f {
  metadata = record (f.metadata) { visibility = visibility; category = category };
}

module _ (S : Store) (facts : Codec Fact) (log : Codec (List FactChange))
    (id_text : FactId → Text) where
  unfoldable pub history : FactId → Io S.State (List FactChange)
  history id = do found ← Documents.get S log history_ns (id_text id); pure (or_empty found)

  unfoldable pub append : FactId → FactChange → Io S.State (Unit {0})
  append id change = do
    changes ← history id
    Documents.put S log history_ns (id_text id) (changes ++ (change ∷ []))

  unfoldable pub all_facts : Io S.State (List Fact)
  all_facts = Documents.load_all S facts facts_ns

  unfoldable pub get : FactId → Io S.State Fact
  get id = do found ← Documents.get S facts facts_ns (id_text id); lift (found_or_absent found)

  abbrev pub record_change : Time → Fact → Option Fact → Io S.State (Unit {0})
  record_change now f none = pure tt
  record_change now f (some prev) =
      if not (text_eq prev.body f.body) then append f.id (change_of now prev f) else pure tt

  unfoldable pub write_fact : Time → Fact → Io S.State (Unit {0})
  write_fact now f = do
    prev ← Documents.get S facts facts_ns (id_text f.id)
    Documents.put S facts facts_ns (id_text f.id) f
    record_change now f prev

  unfoldable pub links : FactId → Io S.State (List FactId)
  links id = do f ← get id; pure f.links

  -- The loop of `delete_facts_from_source`, which counts what it removes.
  unfoldable pub delete_from : SourceKind → List Fact → Io S.State ℕ
  delete_from source [] = pure 0
  delete_from source (f ∷ fs) =
      let rest = delete_from source fs in
      if source_eq f.metadata.provenance.source source
      then (Documents.delete S facts facts_ns (id_text f.id) >>= λ _. rest >>= λ n. pure (suc n))
      else rest

  module _ (u : Unicode) where
    unfoldable pub upsert_all : List Fact → SearchIndex → SearchIndex
    upsert_all [] x = x
    upsert_all (f ∷ fs) x = upsert_all fs (Index.upsert u f x)

    unfoldable pub rebuild_locked : List Fact → SearchIndex → SearchIndex
    rebuild_locked all x = upsert_all all (Index.clear x)

    unfoldable pub build_index : Io (Knowledge S.State) (Unit {0})
    build_index = do all ← stored all_facts; indexed (rebuild_locked all); set_initialized

    unfoldable pub ensure_index : Io (Knowledge S.State) (Unit {0})
    ensure_index k = if k.initialized then (ok tt, k) else build_index k

    unfoldable pub upsert : Time → Fact → Io (Knowledge S.State) FactId
    upsert now f = do
      lift (check_fact f)
      ensure_index
      stored (write_fact now f)
      indexed (Index.upsert u f)
      pure f.id

    unfoldable pub set_sharing :
        FactId → Visibility → Option CategoryName → Io (Knowledge S.State) Fact
    set_sharing id visibility category = do
      ensure_index
      f ← stored (get id)
      stored (Documents.put S facts facts_ns (id_text id) (shared_as visibility category f))
      indexed (Index.upsert u (shared_as visibility category f))
      pure (shared_as visibility category f)

    unfoldable pub search : Text → Option Scope → Io (Knowledge S.State) (List FactSummary)
    search query scope = do ensure_index; λ k. (ok (Index.search u k.index query scope), k)

    unfoldable pub graph : (Text → FactId) → Option Scope → Io (Knowledge S.State) GraphDto
    graph topic_node_id scope = do
      ensure_index
      λ k. (ok (Graph.graph u topic_node_id k.index scope), k)

    unfoldable pub delete_facts_from_source : SourceKind → Io (Knowledge S.State) ℕ
    delete_facts_from_source source = do
      all ← stored all_facts
      removed ← stored (delete_from source all)
      if ltb 0 removed then build_index >> pure removed else pure removed
