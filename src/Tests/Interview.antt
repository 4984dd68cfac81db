-- ===== src/Tests/Interview.antt =====
-- The theorems of src-tauri/src/interview at concrete questions.
use knows_me.Base.{◌==◌, ◌+◌, ◌≡◌, refl, none, some, List, [], ◌∷◌}
use knows_me.Base.Texts.{Text, codes, ascii_tables, trim, is_whitespace}
use knows_me.Base.Results.{ok}
use knows_me.Domain.{Fact, QueueItem, QueueItemId, deepen, priority_desc, skip, text, AnswerResult}
use knows_me.Storage.{Memory, in_memory, in_memory_laws}
use knows_me.Storage.Documents as Documents
use knows_me.Interview.Queue.{is_expired, sort_queue}
use knows_me.Interview.Intake.{Assistant, fact_from_deepen, derive_follow_ups}
use knows_me.Interview.Service.{
  Interview, Upserts, enqueue_final, load_queue, duplicates, list, answer, remove_all, settle,
  get_item, best_of, answer_found, answer_item, answer_deepen, accept, enqueue_all, remove,
}
use knows_me.Interview.Service.Answers.{
  item_at, Rivals, Settled, enqueue_final-Settled, answer-removes, answer_withheld,
}
use knows_me.Knowledge.Service.{check_fact}
use knows_me.Interview.Service.{enqueue, finalize}
use knows_me.Interview.Service.Completeness.{enqueue-answerable}
use knows_me.Interview.Service.{suppress}
use knows_me.Interview.Service.Suppression.{tally, ids, suppress-tally}
use knows_me.Base.{true}
use knows_me.Knowledge.Service.{Knowledge, ensure_index}
use knows_me.Knowledge.Service.Overview as Overview
use knows_me.Knowledge.SearchIndex.{recent}
use knows_me.Tests.Packs.{fact_codec, log_codec}
use knows_me.Tests.Packs.{item_codec}

abbrev id_text : QueueItemId → Text
id_text id = id ∷ []

abbrev question : QueueItem
question = record {
  id = 1;
  kind = deepen (codes "Why by hand?") none;
  priority = 125;
  created_at = 10;
  expires_at = some 100;
}

abbrev asked : Memory
asked = (enqueue_final ascii_tables in_memory item_codec id_text question 20 []).1

enqueued_ok : (enqueue_final ascii_tables in_memory item_codec id_text question 20 []).0 ≡ ok 1
unfolding enqueue_final load_queue duplicates best_of settle remove_all Documents.load_all
    Documents.load Documents.put
enqueued_ok = refl

enqueue_final-Settled_example :
    (existing : List QueueItem) × (dups : List QueueItem) × ((load_queue ascii_tables in_memory
        item_codec id_text []).0
      ≡ ok existing)
    × Rivals ascii_tables in_memory item_codec id_text in_memory_laws question 20 existing dups
    × Settled ascii_tables in_memory item_codec id_text in_memory_laws question dups [] asked 1
enqueue_final-Settled_example =
    enqueue_final-Settled ascii_tables in_memory item_codec id_text in_memory_laws question 20 [] 1
      enqueued_ok

listed_ok :
    (list ascii_tables in_memory item_codec id_text priority_desc 30 asked).0 ≡ ok (question ∷ [])
unfolding enqueue_final load_queue duplicates best_of settle remove_all list is_expired
    Documents.load_all Documents.load Documents.put Documents.get sort_queue
listed_ok = refl

abbrev api : Upserts (List Fact)
api = record { upsert = λ f fs. (ok f.id, f ∷ fs) }

abbrev assistant : Assistant
assistant = record {
  UnmaskMap = Unit {0};
  mask = λ t. (t, tt);
  unmask = λ t m. t;
  classify = λ t. none;
}

abbrev start : Interview Memory (List Fact)
start = record { queue = asked; knowledge = [] }

found_ok : (get_item ascii_tables in_memory item_codec id_text 1 asked).0 ≡ ok question
unfolding enqueue_final load_queue duplicates best_of settle remove_all get_item Documents.load_all
    Documents.load Documents.put Documents.get
found_ok = refl

abbrev nothing : AnswerResult
nothing = record { confirmed_fact = none; follow_ups = [] }

answer_withheld_example :
    ((answer ascii_tables in_memory item_codec id_text api assistant 7
        (λ n. n + 2)
        30
        1
        skip
        start).0
      ≡ ok nothing)
    × ((answer ascii_tables in_memory item_codec id_text api assistant 7
          (λ n. n + 2)
          30
          1
          skip
          start).1.knowledge
        ≡ [])
    × ((j : QueueItemId)
        → item_at ascii_tables in_memory item_codec id_text in_memory_laws
            (answer ascii_tables in_memory item_codec id_text api assistant 7
              (λ n. n + 2)
              30
              1
              skip
              start).1.queue
            j
          ≡ item_at ascii_tables in_memory item_codec id_text in_memory_laws asked j)
answer_withheld_example =
    answer_withheld ascii_tables in_memory item_codec id_text in_memory_laws api assistant 7
      (λ n. n + 2) 30 1 skip start question found_ok refl

abbrev told : AnswerResult
told = record {
  confirmed_fact = some (fact_from_deepen 7 30 (codes "Why by hand?") (codes "no pipeline"));
  follow_ups = [];
}

answered_ok :
    (answer ascii_tables in_memory item_codec id_text api assistant 7
      (λ n. n + 2)
      30
      1
      (text (codes "no pipeline"))
      start).0
    ≡ ok told
unfolding enqueue_final load_queue duplicates best_of settle remove_all get_item answer answer_found
    answer_item answer_deepen accept enqueue_all derive_follow_ups remove Documents.load_all
    Documents.load Documents.put Documents.get trim is_whitespace Documents.delete
answered_ok = refl

answer-removes_example :
    item_at ascii_tables in_memory item_codec id_text in_memory_laws
      (answer ascii_tables in_memory item_codec id_text api assistant 7
        (λ n. n + 2)
        30
        1
        (text (codes "no pipeline"))
        start).1.queue
      1
    ≡ none
answer-removes_example =
    answer-removes ascii_tables in_memory item_codec id_text in_memory_laws api assistant 7
      (λ n. n + 2) 30 1 (text (codes "no pipeline")) start told refl answered_ok

enqueue_ok : (enqueue ascii_tables in_memory item_codec id_text question 20 []).0 ≡ ok 1
unfolding enqueue trim is_whitespace finalize enqueue_final load_queue duplicates best_of settle
    remove_all Documents.load_all Documents.load Documents.put
enqueue_ok = refl

enqueue-answerable_example :
    check_fact (fact_from_deepen 7 30 (codes "Why by hand?") (codes "no pipeline")) ≡ ok tt
enqueue-answerable_example =
    enqueue-answerable ascii_tables in_memory item_codec id_text question 20 [] 1
      (codes "Why by hand?") none 7 30 (codes "no pipeline") enqueue_ok refl

abbrev again : QueueItem
again = record question { id = 2; priority = 130 }

suppress-tally_example :
    tally
        (λ id. id == 2)
        (ids
          (suppress ascii_tables in_memory item_codec id_text (question ∷ again ∷ []) [] []).kept)
      + tally
          (λ id. id == 2)
          (suppress ascii_tables in_memory item_codec id_text (question ∷ again ∷ []) [] []).dropped
    ≡ tally (λ id. id == 2) (ids (question ∷ again ∷ []))
suppress-tally_example =
    suppress-tally ascii_tables in_memory item_codec id_text (λ id. id == 2) (question ∷ again ∷ [])

abbrev over_asked : Knowledge Memory
over_asked = record {
  store = asked;
  index = record { postings = λ t. none; tokens = λ id. none; meta = [] };
  initialized = true;
}

-- The dashboard counts the question until it expires.
dashboard_runs :
    (Overview.dashboard in_memory item_codec fact_codec log_codec id_text ascii_tables 30
      over_asked).0
    ≡ ok (record { collected_count = 0; pending_queue = 1; recent_facts = [] })
unfolding Overview.dashboard Overview.count_pending ensure_index recent is_expired enqueue_final
    load_queue duplicates best_of settle remove_all Documents.load_all Documents.load Documents.put
    Documents.get
dashboard_runs = refl
