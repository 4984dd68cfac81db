-- ===== src/Tests/Knowledge.antt =====
-- The theorems of src-tauri/src/knowledge at concrete facts.
use knows_me.Base.{◌≡◌, refl, Bool, true, none, some, [], ◌∷◌, ◌==◌, arith}
use knows_me.Base.Texts.{Text, codes, ascii_tables, text_eq, trim, is_whitespace}
use knows_me.Base.Results.{ok}
use knows_me.Domain.{FactId, Fact, note, personal, private, session}
use knows_me.Storage.{Memory, in_memory, in_memory_laws}
use knows_me.Storage.Documents as Documents
use knows_me.Knowledge.SearchIndex.{SearchIndex, clear, search, upsert}
use knows_me.Knowledge.SearchIndex.Mirror.{Facts, Mirrors, set_fact, clear-Mirrors, upsert-Mirrors}
use knows_me.Knowledge.SearchIndex.Searching.{listed, answers, search-answers}
use knows_me.Knowledge.Service as Service
use knows_me.Knowledge.Service.{
  Knowledge, rebuild_locked, check_fact, ensure_index, write_fact, record_change,
}
use knows_me.Knowledge.Service.Upserts.{
  fact_at, changes_at, logged, Indexed, last_of, upsert-writes, rebuild-Mirrors,
}
use knows_me.Tests.Packs.{fact_codec, log_codec}

abbrev fact_with : FactId → Bool → Fact
fact_with id confirmed = record {
  id = id;
  title = codes "Deploys";
  body = codes "by hand";
  links = [];
  metadata = record {
    provenance = record { source = session; collected_at = 1 };
    confirmed = confirmed;
    scope = personal;
    confirmed_at = some 2;
    visibility = private;
    category = none;
    topics = [];
    kind = note;
  };
}

abbrev nothing : SearchIndex
nothing = record { postings = λ t. none; tokens = λ id. none; meta = [] }

abbrev no_facts : Facts
no_facts j = none

abbrev one : SearchIndex
one = upsert ascii_tables (fact_with 1 true) (clear nothing)

upsert-Mirrors_example : Mirrors ascii_tables (set_fact no_facts (fact_with 1 true)) one
upsert-Mirrors_example =
    upsert-Mirrors ascii_tables no_facts (fact_with 1 true) (clear nothing)
      (clear-Mirrors ascii_tables nothing)

one-Mirrors : Mirrors ascii_tables (set_fact no_facts (fact_with 1 true)) one
one-Mirrors =
    upsert-Mirrors ascii_tables no_facts (fact_with 1 true) (clear nothing)
      (clear-Mirrors ascii_tables nothing)

search-answers_example :
    listed ascii_tables 1 (search ascii_tables one (codes "hand") none)
    ≡ answers ascii_tables (codes "hand") none (some (fact_with 1 true))
search-answers_example =
    search-answers ascii_tables (set_fact no_facts (fact_with 1 true)) one one-Mirrors
      (codes "hand") none 1

abbrev id_text : FactId → Text
id_text id = id ∷ []

same_id : (a b : FactId) → text_eq (id_text a) (id_text b) ≡ (b == a)
same_id a b = ground arith

abbrev empty : Knowledge Memory
empty = record { store = []; index = nothing; initialized = true }

upserted_ok :
    (Service.upsert in_memory fact_codec log_codec id_text ascii_tables 9
      (fact_with 1 true)
      empty).0
    ≡ ok 1
unfolding Service.upsert check_fact ensure_index write_fact trim is_whitespace Documents.get
    Documents.put
upserted_ok = refl

abbrev after : Knowledge Memory
after =
    (Service.upsert in_memory fact_codec log_codec id_text ascii_tables 9 (fact_with 1 true)
      empty).1

upsert-writes_example :
    ((j : FactId)
      → fact_at in_memory in_memory_laws fact_codec log_codec id_text after.store j
        ≡ set_fact
            (fact_at in_memory in_memory_laws fact_codec log_codec id_text empty.store)
            (fact_with 1 true)
            j)
    × (changes_at in_memory in_memory_laws fact_codec log_codec id_text after.store 1
        ≡ logged in_memory in_memory_laws fact_codec log_codec id_text 9
            (fact_with 1 true)
            (fact_at in_memory in_memory_laws fact_codec log_codec id_text empty.store 1)
            (changes_at in_memory in_memory_laws fact_codec log_codec id_text empty.store 1))
    × (Indexed in_memory in_memory_laws fact_codec log_codec id_text same_id ascii_tables empty
        → Indexed in_memory in_memory_laws fact_codec log_codec id_text same_id ascii_tables after)
upsert-writes_example =
    upsert-writes in_memory in_memory_laws fact_codec log_codec id_text same_id ascii_tables 9
      (fact_with 1 true) empty refl upserted_ok

rebuild-Mirrors_example :
    Mirrors ascii_tables
      (last_of in_memory in_memory_laws fact_codec log_codec id_text
        (fact_with 1 true ∷ [])
        no_facts)
      (rebuild_locked in_memory fact_codec log_codec id_text ascii_tables
        (fact_with 1 true ∷ [])
        nothing)
rebuild-Mirrors_example =
    rebuild-Mirrors in_memory in_memory_laws fact_codec log_codec id_text ascii_tables
      (fact_with 1 true ∷ []) nothing

abbrev withdrawn : Fact
withdrawn = Service.shared_as private none (fact_with 1 true)
