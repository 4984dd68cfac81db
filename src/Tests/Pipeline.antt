-- ===== src/Tests/Pipeline.antt =====
-- Runs of the model of src-tauri/src/processing/service.rs and of its parts, and the theorems at
-- concrete inputs.
use knows_me.Base.{
  arith, ℕ, zero, suc, ◌≡◌, refl, Bool, true, false, Option, none, some, List, [], ◌∷◌, ◌++◌,
  Member, ◌==◌,
}
use knows_me.Base.Texts.{Text, codes, ascii_tables, trim, is_whitespace}
use knows_me.Base.Lines.{lines, split_whitespace, split_by, len, floor_boundary, slice_to}
use knows_me.Base.Results.{AppError, Result, ok, err, external}
use knows_me.Io.{Io}
use knows_me.Domain.{RawItem, session, Fact, FactSummary, QueueItem}
use knows_me.Storage.{
  Memory, in_memory, in_memory_laws, SeparateSpaces, same_key, find_entry, Bytes, find-remove,
  remove_entry,
}
use knows_me.Storage.Documents as Documents
use knows_me.Processing.Entries.{split_facts}
use knows_me.Processing.Titles.{is_nothing, title_of, body_of}
use knows_me.Processing.Router.{route, has}
use knows_me.Processing.Pending.{PendingItem, push, drain, drain_loop}
use knows_me.Processing.Pending.Parking.{parked_at, drain-all}
use knows_me.Processing.Gateway as Gateway
use knows_me.Processing.Gateway.{Model, Link, call, with_retry, attempt}
use knows_me.Processing.Gateway.Retries.{Outcome, with_retry-Outcome}
use knows_me.Processing.Service as Service
use knows_me.Processing.Service.{Masker, KnowledgeApi, InterviewApi, Pipeline, empty_report}
use knows_me.Processing.Service.Accounts as Accounts
use knows_me.Tests.Packs.{pending_codec, transfer_codec}

abbrev item : ℕ → RawItem
item n = record {
  source = session;
  external_id = n ∷ [];
  collected_at = n;
  text = some (codes "Deploys");
  image_png = none;
}

abbrev digest : Text → Text
digest t = t

abbrev parked : Memory
parked =
    (push in_memory pending_codec digest (item 2) []
      (push in_memory pending_codec digest (item 1) [] []).1).1

abbrev waiting : ℕ → PendingItem
waiting n = record { raw = item n; queued_at = []; attempts = 0 }

drained_ok : (drain in_memory pending_codec digest parked).0 ≡ ok (waiting 2 ∷ waiting 1 ∷ [])
unfolding drain drain_loop push Documents.get Documents.put Documents.delete
drained_ok = refl

drain-all_example :
    ((key : Text) (p : PendingItem)
      → parked_at in_memory in_memory_laws pending_codec digest parked key ≡ some p
      → Member p (waiting 2 ∷ waiting 1 ∷ []))
    × ((key : Text)
        → parked_at in_memory in_memory_laws pending_codec digest
            (drain in_memory pending_codec digest parked).1
            key
          ≡ none)
drain-all_example =
    drain-all in_memory in_memory_laws pending_codec digest parked (waiting 2 ∷ waiting 1 ∷ [])
      drained_ok

-- A service that fails once.
abbrev answer : ℕ → Result AppError Text
answer zero = err external
answer (suc n) = ok (codes "Deploys")

abbrev link : Link Memory
link = record { store = []; calls = 0 }

retry_runs :
    with_retry (call answer) 3 link ≡ (ok (codes "Deploys"), record { store = []; calls = 2 })
unfolding with_retry attempt
retry_runs = refl

with_retry-Outcome_example :
    Outcome answer 3 0
      (err external)
      (with_retry (call answer) 3 link).0
      (with_retry (call answer) 3 link).1.calls
    × ((with_retry (call answer) 3 link).1.store ≡ [])
with_retry-Outcome_example = with_retry-Outcome answer 3 link

elsewhere :
    (ns k : Text) (b : Bytes) (s : Memory) (n j : Text)
    → same_key ns k n j ≡ false
    → find_entry n j (record { ns = ns; key = k; bytes = b } ∷ remove_entry ns k s)
      ≡ find_entry n j s
elsewhere ns k b s n j h = rw (h, find-remove ns k n j s, h) refl

abbrev apart : SeparateSpaces in_memory in_memory_laws
apart = record { put_elsewhere = λ ns k b s n j h. elsewhere ns k b s n j (rw h refl) }

abbrev masker : Masker
masker = record {
  UnmaskMap = Unit {0};
  mask = λ t. (t, tt);
  unmask = λ t u. t;
  is_empty_map = λ u. true;
}

abbrev knowledge : KnowledgeApi (List Fact)
knowledge = record {
  upsert = λ f k. (ok f.id, f ∷ k);
  search = λ q o k. (ok [], k);
  topics = λ k. (ok [], k);
}

abbrev interview : InterviewApi (List QueueItem)
interview = record { enqueue = λ i q. (ok i.id, i ∷ q); list = λ o q. (ok q, q) }

abbrev model : Model
model = record {
  summarize = λ n t. ok (codes "Deploys by hand");
  classify = λ n t. ok (codes "certain" ∷ []);
  vision_extract = λ n b. ok [];
}

-- The connection is there for the first item only.
abbrev online : ℕ → Bool
online n = n == 0

abbrev start : Pipeline Memory (List Fact) (List QueueItem)
start = record {
  link = link;
  knowledge = [];
  interview = [];
  report = empty_report;
  made = 0;
  probes = 0;
}

abbrev number : ℕ → Text
number n = n ∷ []

abbrev run : List RawItem → Io (Pipeline Memory (List Fact) (List QueueItem)) (Unit {0})
run =
    Service.process_all masker ascii_tables in_memory knowledge interview model transfer_codec
      pending_codec digest number 3 online (λ n. n) 9 [] false

run_ok : (run (item 1 ∷ item 2 ∷ []) start).0 ≡ ok tt
unfolding Service.process_all Service.process_item Service.is_online Service.process_one
    Service.obtain Service.known_titles Gateway.summarize Gateway.record_transfer Gateway.append
    Documents.put with_retry attempt Service.process_some split_facts is_nothing is_whitespace
    knows_me.Processing.Entries.gather split_by floor_boundary knows_me.Base.Lines.is_char_boundary
    knows_me.Base.Lines.join len knows_me.Base.Lines.len_utf8 lines slice_to split_whitespace trim
    knows_me.Domain.Category.normalize_topic knows_me.Domain.Category.parse
    knows_me.Processing.Entries.is_cut Gateway.classify Gateway.preview Gateway.vision_extract push
    knows_me.Processing.Router.candidate has knows_me.Processing.Router.kind_from_labels route
    knows_me.Processing.Router.scope_from_labels knows_me.Processing.Router.topics_from_labels
    knows_me.Processing.Router.visibility_from_labels Service.act Service.confirm_item
    Service.deepen_item Service.fact_from Service.park Service.process_entries Service.process_entry
    Service.shown_titles body_of knows_me.Processing.Titles.is_bare_url
    knows_me.Processing.Titles.title_line_index title_of knows_me.Similarity.is_near_duplicate
    knows_me.Similarity.similarity Documents.get
run_ok = refl

process_all-Accounted_example :
    Accounts.Accounted masker ascii_tables in_memory in_memory_laws apart knowledge interview model
      transfer_codec pending_codec digest number 3 online
      (λ n. n)
      9
      []
      false
      (item 1 ∷ item 2 ∷ [])
      start
      (run (item 1 ∷ item 2 ∷ []) start).1
process_all-Accounted_example =
    Accounts.process_all-Accounted masker ascii_tables in_memory in_memory_laws apart knowledge
      interview model transfer_codec pending_codec digest number 3 online (λ n. n) 9 [] false
      (item 1 ∷ item 2 ∷ []) start run_ok
