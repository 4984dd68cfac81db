-- ===== src/Interview/Service.antt =====
-- `InterviewService` of src-tauri/src/interview/service.rs. The knowledge that a fact goes to is the
-- interface `Upserts`; the clock and new identities are arguments.
pub mod Answers
pub mod Completeness
pub mod Suppression
use knows_me.Base.{
  ℕ, suc, ◌+◌, ◌≡◌, Bool, true, false, not, ◌&&◌, Option, none, some, List, [], ◌∷◌, ◌++◌, leb, ltb,
  ◌==◌, filter, if◌then◌else◌,
}
use knows_me.Base.Texts.{Text, Unicode, trim}
use knows_me.Base.Lines.{is_empty}
use knows_me.Base.Results.{AppError, Result, ok, err, not_found, invalid_input}
use knows_me.Io.{Io, pure, raise, lift, continue, ◌>>=◌, ◌>>◌}
use knows_me.Domain.{
  FactId, Time, Fact, FactCandidate, QueueItem, QueueItemId, QueueItemKind, confirm, deepen,
  QueueSort, AnswerInput, choice, text, skip, AnswerResult,
}
use knows_me.Storage.{Store, Codec}
use knows_me.Storage.Documents as Documents
use knows_me.Interview.Queue.{
  queue_ns, score_priority, ttl_days, days, is_near_duplicate, is_expired, sort_queue,
}
use knows_me.Interview.Intake.{
  is_affirmative, fact_from_candidate, fact_from_deepen, Assistant, derive_follow_ups,
}

-- The part of `KnowledgeApi` that the interview uses.
pub record Upserts (K : Type 0) : Type 0 where
  pub upsert : Fact → Io K FactId

pub record Interview (State K : Type 0) : Type 0 where
  pub queue : State
  pub knowledge : K

abbrev or_scored : QueueItem → ℕ
or_scored item = if item.priority == 0 then score_priority item else item.priority

abbrev or_ttl : QueueItem → Option Time → Option Time
or_ttl item none = some (item.created_at + days (ttl_days item.kind))
or_ttl item (some e) = some e

unfoldable pub finalize : QueueItem → QueueItem
finalize item = record item { priority = or_scored item; expires_at = or_ttl item item.expires_at }

-- `max_by_key`: the last of those with the highest priority.
abbrev better : QueueItem → Option QueueItem → QueueItem
better e none = e
better e (some b) = if ltb b.priority e.priority then e else b

unfoldable pub best_of : List QueueItem → Option QueueItem
best_of [] = none
best_of (e ∷ es) = some (better e (best_of es))

abbrev pub loses : QueueItem → Option QueueItem → Option QueueItemId
loses item none = none
loses item (some best) = if leb item.priority best.priority then some best.id else none

abbrev pub blank_question : QueueItemKind → Bool
blank_question (deepen question hypothesis) = is_empty (trim question)
blank_question (confirm c) = false

abbrev pub blank_answer : AnswerInput → Bool
blank_answer (choice c) = is_empty (trim c)
blank_answer (text t) = is_empty (trim t)
blank_answer skip = false

abbrev pub corrected : Fact → Text → Fact
corrected f body = record f { body = body }

pub record Swept : Type 0 where
  pub alive : List QueueItem
  pub removed : ℕ

pub record Placed : Type 0 where
  pub kept : List QueueItem
  pub dropped : List QueueItemId

abbrev pub found_item : Option QueueItem → Result AppError QueueItem
found_item none = err not_found
found_item (some i) = ok i

abbrev pub is_skip : AnswerInput → Bool
is_skip (choice c) = false
is_skip (text t) = false
is_skip skip = true

abbrev pub text_of : AnswerInput → Text
text_of (choice c) = c
text_of (text t) = t
text_of skip = []

module _ (u : Unicode) (S : Store) (items : Codec QueueItem) (id_text : QueueItemId → Text) where
  unfoldable pub load_queue : Io S.State (List QueueItem)
  load_queue = Documents.load_all S items queue_ns

  unfoldable pub remove : QueueItemId → Io S.State (Unit {0})
  remove id = Documents.delete S items queue_ns (id_text id)

  unfoldable pub remove_all : List QueueItem → Io S.State (Unit {0})
  remove_all [] = pure tt
  remove_all (e ∷ es) = remove e.id >>= λ _. remove_all es

  unfoldable pub duplicates : QueueItem → Time → List QueueItem → List QueueItem
  duplicates item now existing =
      filter (λ e. not (is_expired e now) && is_near_duplicate u e.kind item.kind) existing

  -- The incoming item loses to an equal or better one, or takes the place of all its duplicates.
  unfoldable pub settle : QueueItem → List QueueItem → Option QueueItemId → Io S.State QueueItemId
  settle item dups (some id) = pure id
  settle item dups none =
      remove_all dups >> Documents.put S items queue_ns (id_text item.id) item >> pure item.id

  unfoldable pub enqueue_final : QueueItem → Time → Io S.State QueueItemId
  enqueue_final item now = do
    existing ← load_queue
    settle item (duplicates item now existing) (loses item (best_of (duplicates item now existing)))

  unfoldable pub enqueue : QueueItem → Time → Io S.State QueueItemId
  enqueue item now =
      if blank_question item.kind then raise invalid_input else enqueue_final (finalize item) now

  unfoldable pub list : QueueSort → Time → Io S.State (List QueueItem)
  list sort now = do
    existing ← load_queue
    pure (sort_queue sort (filter (λ i. not (is_expired i now)) existing))

  -- The first pass of `expire`: what is left alive, and how many went.
  unfoldable pub sweep : Time → List QueueItem → Io S.State Swept
  sweep now [] = pure (record { alive = []; removed = 0 })
  sweep now (i ∷ is) =
      let rest = sweep now is in
      if is_expired i now
      then (remove i.id >>= λ _. rest >>= λ s. pure (record s { removed = suc s.removed }))
      else (rest >>= λ s. pure (record s { alive = i ∷ s.alive }))

  -- The second pass: an item goes to the first kept one that it nearly duplicates, and the one of
  -- higher priority stays in its place.
  unfoldable pub place : QueueItem → List QueueItem → Placed
  place item [] = record { kept = item ∷ []; dropped = [] }
  place item (k ∷ ks) =
      let rest = place item ks in
      if is_near_duplicate u k.kind item.kind
      then if ltb k.priority item.priority
        then record { kept = item ∷ ks; dropped = k.id ∷ [] }
        else record { kept = k ∷ ks; dropped = item.id ∷ [] }
      else record { kept = k ∷ rest.kept; dropped = rest.dropped }

  unfoldable pub suppress : List QueueItem → List QueueItem → List QueueItemId → Placed
  suppress [] kept dropped = record { kept = kept; dropped = dropped }
  suppress (i ∷ is) kept dropped =
      suppress is (place i kept).kept (dropped ++ (place i kept).dropped)

  unfoldable pub remove_ids : List QueueItemId → ℕ → Io S.State ℕ
  remove_ids [] removed = pure removed
  remove_ids (id ∷ ids) removed = remove id >>= λ _. remove_ids ids (suc removed)

  unfoldable pub expire : Time → Io S.State ℕ
  expire now = do
    existing ← load_queue
    swept ← sweep now existing
    remove_ids (suppress swept.alive [] []).dropped swept.removed

  unfoldable pub get_item : QueueItemId → Io S.State QueueItem
  get_item id = do found ← Documents.get S items queue_ns (id_text id); lift (found_item found)

  module _ {K : Type 0} (api : Upserts K) (assistant : Assistant) where
    abbrev pub on_queue : {A : Type 0} → Io S.State A → Io (Interview S.State K) A
    on_queue m s = ((m s.queue).0, record s { queue = (m s.queue).1 })

    abbrev pub on_knowledge : {A : Type 0} → Io K A → Io (Interview S.State K) A
    on_knowledge m s = ((m s.knowledge).0, record s { knowledge = (m s.knowledge).1 })

    -- Accept a fact: it is the confirmed one once the knowledge has taken it.
    unfoldable pub accept : Fact → Io (Interview S.State K) (Option Fact)
    accept f = do on_knowledge (api.upsert f); pure (some f)

    unfoldable pub answer_confirm :
        FactId → Time → FactCandidate → AnswerInput → Io (Interview S.State K) AnswerResult
    answer_confirm fact_id now c input = do
      confirmed ← elim input [
        | choice t ↦
            if is_affirmative u t then accept (fact_from_candidate fact_id now c) else pure none
        | text t ↦ accept (corrected (fact_from_candidate fact_id now c) t)
        | skip ↦ pure none
      ]
      pure (record { confirmed_fact = confirmed; follow_ups = [] })

    -- The follow-ups go through `enqueue`; those that were added are reported.
    unfoldable pub enqueue_all :
        List QueueItem → Time → List QueueItem → Io S.State (List QueueItem)
    enqueue_all [] now out = pure out
    enqueue_all (up ∷ ups) now out = enqueue (finalize up) now >>= λ stored.
        enqueue_all ups now (if stored == up.id then out ++ (finalize up ∷ []) else out)

    unfoldable pub answer_deepen :
        FactId → (ℕ → QueueItemId) → Time → Text → Text → Io (Interview S.State K) AnswerResult
    answer_deepen fact_id new_id now question t = do
      confirmed ← accept (fact_from_deepen fact_id now question t)
      ups ← on_queue (enqueue_all (derive_follow_ups assistant new_id now t) now [])
      pure (record { confirmed_fact = confirmed; follow_ups = ups })

    unfoldable pub answer_item :
        FactId
        → (ℕ → QueueItemId)
        → Time
        → QueueItemKind
        → AnswerInput
        → Io (Interview S.State K) AnswerResult
    answer_item fact_id new_id now (confirm c) input = answer_confirm fact_id now c input
    answer_item fact_id new_id now (deepen question hypothesis) input =
        answer_deepen fact_id new_id now question (text_of input)

    unfoldable pub answer_found :
        FactId
        → (ℕ → QueueItemId)
        → Time
        → QueueItemId
        → AnswerInput
        → QueueItem
        → Io (Interview S.State K) AnswerResult
    answer_found fact_id new_id now id input item =
        if is_skip input
        then pure (record { confirmed_fact = none; follow_ups = [] })
        else if blank_answer input
        then raise invalid_input
        else (answer_item fact_id new_id now item.kind input >>= λ r.
            on_queue (remove id) >>= λ _. pure r)

    unfoldable pub answer :
        FactId
        → (ℕ → QueueItemId)
        → Time
        → QueueItemId
        → AnswerInput
        → Io (Interview S.State K) AnswerResult
    answer fact_id new_id now id input =
        on_queue (get_item id) >>= λ item. answer_found fact_id new_id now id input item
