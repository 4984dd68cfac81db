-- ===== src/Tests/Ingestion.antt =====
-- Runs of the model of src-tauri/src/ingestion, and the theorems at concrete inputs.
use knows_me.Base.{
  arith, ℕ, suc, ◌≡◌, ◌||◌, refl, Bool, true, Option, none, some, List, [], ◌∷◌, ◌++◌,
}
use knows_me.Base.Texts.{Text, codes}
use knows_me.Base.Results.{ok, err, external}
use knows_me.Io.{Io}
use knows_me.Domain.{RawItem, session, notion}
use knows_me.Storage.{Memory, in_memory, in_memory_laws}
use knows_me.Storage.Documents as Documents
use knows_me.Ingestion.Cursors.{Cursor, load_cursor, save_cursor, is_seen, mark_seen}
use knows_me.Ingestion.Service as Service
use knows_me.Ingestion.Service.{Connector, Registry, Run, empty_report}
use knows_me.Ingestion.Service.Locks as Locks
use knows_me.Ingestion.Service.Passes as Passes
use knows_me.Ingestion.Service.Collecting as Collecting
use knows_me.Ingestion.Service.Draining as Draining
use knows_me.Base.{false, All}
use knows_me.Ingestion.Sessions.{SessionFile, Watermarks, selected, advance, pending, is_pending}
use knows_me.Ingestion.Sessions.Coverage.{advance-Settles}
use knows_me.Tests.Packs.{text_codec}

abbrev item : ℕ → RawItem
item n = record {
  source = session;
  external_id = n ∷ [];
  collected_at = n;
  text = none;
  image_png = none;
}

-- A connector that gives the items 1, 2, 1 from the start, and nothing from there.
abbrev from : Option Cursor → List RawItem × Cursor
from none = (item 1 ∷ item 2 ∷ item 1 ∷ [], codes "end")
from (some c) = ([], c)

abbrev connector : Connector ℕ (Unit {0})
connector = record {
  id = session;
  sync = λ c n. (ok (from c), suc n);
  remaining = λ c n. (ok 4, n);
  configure = λ u n. (ok tt, n);
}

-- A connector that is never there.
abbrev broken : Connector ℕ (Unit {0})
broken = record {
  id = notion;
  sync = λ c n. (err external, suc n);
  remaining = λ c n. (err external, n);
  configure = λ u n. (ok tt, n);
}

abbrev registry : Registry ℕ (Unit {0})
registry = broken ∷ connector ∷ []

abbrev accept : List RawItem → Io (List RawItem) (Unit {0})
accept items k = (ok tt, k ++ items)

abbrev start : Run Memory ℕ (List RawItem)
start = record { store = []; connectors = 0; sink = []; running = []; report = empty_report }

abbrev digest : Text → Text
digest t = t

abbrev pass : Io (Run Memory ℕ (List RawItem)) Bool
pass = Service.pass in_memory registry accept text_codec digest [] session connector

passed_ok : (pass start).0 ≡ ok true
unfolding Service.pass Service.gather Service.sieve Service.hand_over load_cursor save_cursor
    is_seen mark_seen Documents.get Documents.put
passed_ok = refl

abbrev trigger : Run Memory ℕ (List RawItem)
trigger = (Service.trigger in_memory registry accept text_codec digest [] none start).1

trigger_runs :
    (trigger.sink ≡ item 1 ∷ item 2 ∷ [])
    × (trigger.report.errors ≡ 1)
    × (trigger.report.skipped ≡ 1)
    × (trigger.report.remaining ≡ 4)
unfolding Service.trigger Service.trigger_each Service.run_one Service.try_lock Service.unlock
    Service.run_one_inner Service.get Service.sources Service.source_remaining Service.pass
    Service.gather Service.sieve Service.hand_over load_cursor save_cursor is_seen mark_seen
    Documents.get Documents.put
trigger_runs = (refl, refl, refl, refl)

pass-Collects_example :
    Collecting.Collects in_memory in_memory_laws registry accept text_codec digest [] session
      connector start true
      (pass start).1
pass-Collects_example =
    Collecting.pass-Collects in_memory in_memory_laws registry accept text_codec digest [] session
      connector start true passed_ok

run_until_done-Outcome_example :
    Draining.Outcome in_memory registry accept text_codec digest [] session 3 start
      (Service.run_until_done in_memory registry accept text_codec digest [] session 3 start)
run_until_done-Outcome_example =
    Draining.run_until_done-Outcome in_memory registry accept text_codec digest [] session 3 start

trigger-Contained_example :
    (trigger.running ≡ [])
    × Locks.Explained in_memory registry accept text_codec digest [] trigger
    × ((Service.trigger in_memory registry accept text_codec digest [] none start).0
        ≡ ok trigger.report)
    × ((Service.trigger_all in_memory registry accept text_codec digest [] none 2 start).1.running
        ≡ [])
    × Locks.Explained in_memory registry accept text_codec digest []
        (Service.trigger_all in_memory registry accept text_codec digest [] none 2 start).1
    × ((Service.trigger_all in_memory registry accept text_codec digest [] none 2 start).0
        ≡ ok
            (Service.trigger_all in_memory registry accept text_codec digest [] none 2
              start).1.report)
trigger-Contained_example =
    Locks.trigger-Contained in_memory registry accept text_codec digest [] none 2 start

abbrev gather : List RawItem → Io (Run Memory ℕ (List RawItem)) (List RawItem)
gather items = Service.gather in_memory registry accept text_codec digest [] session items []

gathered_ok : (gather (item 1 ∷ item 2 ∷ []) start).0 ≡ ok (item 1 ∷ item 2 ∷ [])
unfolding Service.gather Service.sieve is_seen mark_seen Documents.put
gathered_ok = refl

again_ok : (gather (item 2 ∷ []) (gather (item 1 ∷ item 2 ∷ []) start).1).0 ≡ ok []
unfolding Service.gather Service.sieve is_seen mark_seen Documents.put
again_ok = refl

or_right : (a b : Bool) → b ≡ true → (a || b) ≡ true
or_right a b h = ground arith

covered :
    (k : Text)
    → Passes.among
        (Passes.key_of in_memory in_memory_laws registry accept text_codec digest [] session)
        (item 2 ∷ [])
        k
      ≡ true
    → Passes.among
        (Passes.key_of in_memory in_memory_laws registry accept text_codec digest [] session)
        (item 1 ∷ item 2 ∷ [])
        k
      ≡ true
covered k h = or_right _ _ h

gather-again_example : ◌≡◌ {A = List RawItem} [] []
gather-again_example =
    Passes.gather-again in_memory in_memory_laws registry accept text_codec digest [] session
      (item 1 ∷ item 2 ∷ []) (item 2 ∷ []) (item 1 ∷ item 2 ∷ []) [] start gathered_ok covered
      again_ok

abbrev transcript : ℕ → SessionFile
transcript n = record { path = n ∷ []; modified = n }

abbrev marks : Watermarks
marks = record { newest = some 5; oldest = some 3 }

-- The newer transcripts come first, then those that are left over from the runs before.
select_tests :
    selected marks (transcript 2 ∷ transcript 4 ∷ transcript 7 ∷ [])
    ≡ transcript 7 ∷ transcript 2 ∷ []
unfolding selected
select_tests = refl

advance_tests :
    pending
      (advance marks (transcript 7 ∷ transcript 2 ∷ []))
      (transcript 2 ∷ transcript 4 ∷ transcript 7 ∷ transcript 8 ∷ [])
    ≡ 1
unfolding pending advance
advance_tests = refl

advance-Settles_example :
    All
      (λ f. is_pending (advance marks (transcript 7 ∷ transcript 2 ∷ [])) f ≡ false)
      (transcript 7 ∷ transcript 2 ∷ [])
advance-Settles_example = advance-Settles marks (transcript 7 ∷ transcript 2 ∷ [])
