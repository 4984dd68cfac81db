-- ===== src/Sharing/Knowledge/Withdrawal.antt =====
-- The tools of src-tauri/src/sharing/knowledge.rs over the service of src-tauri/src/knowledge/service.rs:
-- what a change of a fact's sharing does to a reader.
use knows_me.Base.{Option, List}
use knows_me.Base.Texts.{Text, Unicode}
use knows_me.Io.{Io, pure, ◌>>◌}
use knows_me.Domain.{FactId, Fact, FactChange, CategoryName, Visibility}
use knows_me.Storage.{Store, StoreLaws, Codec}
use knows_me.Storage.Documents as Documents
use knows_me.Knowledge.SearchIndex as Index
use knows_me.Knowledge.Service as Service
use knows_me.Knowledge.Service.{Knowledge, stored, indexed, facts_ns, shared_as}
use knows_me.Sharing.Knowledge.{Reads}

module _ (S : Store) (facts : Codec Fact) (log : Codec (List FactChange)) (id_text : FactId → Text)
    (u : Unicode) where
  -- The knowledge service as the tools see it.
  abbrev pub served : Reads (Knowledge S.State)
  served = record {
    search = Service.search S facts log id_text u;
    get = λ id. stored (Service.get S facts log id_text id);
    all_facts = stored (Service.all_facts S facts log id_text);
  }

module _ (S : Store) (L : StoreLaws S) (facts : Codec Fact) (log : Codec (List FactChange))
    (id_text : FactId → Text) where
  module _ (u : Unicode) where
    -- The last steps of `set_sharing`, from the fact that was read.
    abbrev change_sharing :
        FactId → Visibility → Option CategoryName → Fact → Io (Knowledge S.State) Fact
    change_sharing id visibility category f =
        stored (Documents.put S facts facts_ns (id_text id) (shared_as visibility category f))
        >> (indexed (Index.upsert u (shared_as visibility category f))
            >> pure (shared_as visibility category f))
