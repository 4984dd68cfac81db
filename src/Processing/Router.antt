-- ===== src/Processing/Router.antt =====
-- src-tauri/src/processing/router.rs: what becomes of an item, from the classifier's labels.
-- The flag `debug` is the build's `debug_assertions`.
pub mod Decisions
use knows_me.Base.{
  ℕ, Bool, true, false, not, ◌&&◌, ◌||◌, Option, none, some, List, [], ◌∷◌, ◌++◌, any,
  if◌then◌else◌,
}
use knows_me.Base.Texts.{Text, codes, text_eq, Unicode}
use knows_me.Base.Sets.{contains}
use knows_me.Domain.{
  RawItem, Provenance, FactCandidate, FactKind, Scope, company, personal, unknown, Visibility,
  private, shared, gmail, source_eq, note, practice, preference, project, concern, concept,
}
use knows_me.Domain.Category.{normalize_topic}
use knows_me.Processing.Titles.{eq_ignore_ascii_case, is_nothing, title_of, body_of}

abbrev pub control_labels : List Text
control_labels =
    codes "certain"
    ∷ codes "uncertain"
    ∷ codes "needs-context"
    ∷ codes "noise"
    ∷ codes "one-off"
    ∷ codes "company"
    ∷ codes "personal"
    ∷ codes "unknown"
    ∷ codes "practice"
    ∷ codes "preference"
    ∷ codes "project"
    ∷ codes "concern"
    ∷ codes "concept"
    ∷ codes "public"
    ∷ codes "private"
    ∷ codes "unclear"
    ∷ []

pub data ProcessingDecision : Type 0 where
  store : FactCandidate → ProcessingDecision
  confirm : FactCandidate → ProcessingDecision
  deepen : Text → Option Text → ProcessingDecision
  drop : Text → ProcessingDecision

unfoldable pub has : List Text → Text → Bool
has labels needle = any (λ l. eq_ignore_ascii_case l needle) labels

-- The loop of `topics_from_labels`; `out` grows at its end.
push_topic : List Text → Option Text → List Text
push_topic out none = out
push_topic out (some t) = if contains text_eq out t then out else out ++ (t ∷ [])

collect_topics : Unicode → List Text → List Text → List Text
collect_topics u out [] = out
collect_topics u out (label ∷ labels) =
    collect_topics u
      (if contains text_eq control_labels label
        then out
        else push_topic out (normalize_topic u label))
      labels

unfoldable pub topics_from_labels : Unicode → List Text → List Text
unfolding push_topic collect_topics
topics_from_labels u labels = collect_topics u [] labels

unfoldable pub kind_from_labels : List Text → FactKind
kind_from_labels labels =
    if has labels (codes "concern")
    then concern
    else if has labels (codes "concept")
    then concept
    else if has labels (codes "preference")
    then preference
    else if has labels (codes "practice")
    then practice
    else if has labels (codes "project")
    then project
    else note

unfoldable pub visibility_from_labels : List Text → Visibility
visibility_from_labels labels = if has labels (codes "public") then shared else private

unfoldable pub scope_from_labels : List Text → Scope
scope_from_labels labels =
    if has labels (codes "company")
    then company
    else if has labels (codes "personal")
    then personal
    else unknown

-- The closure `candidate`.
unfoldable pub candidate : Unicode → List Text → Text → RawItem → Scope → FactCandidate
candidate u labels summary raw scope = record {
  title = title_of summary;
  body = body_of summary;
  provenance = record { source = raw.source; collected_at = raw.collected_at };
  suggested_scope = scope;
  topics = topics_from_labels u labels;
  kind = kind_from_labels labels;
  visibility = visibility_from_labels labels;
}

abbrev is_nil : List Text → Bool
is_nil [] = true
is_nil (l ∷ ls) = false

unfoldable pub route : Unicode → Bool → List Text → Text → RawItem → ProcessingDecision
route u debug labels summary raw =
    let placed = candidate u labels summary raw (scope_from_labels labels) in
    if is_nothing summary
    then drop (codes "no durable fact in item")
    else if debug && source_eq raw.source gmail
    then store placed
    else if has labels (codes "noise") || has labels (codes "one-off")
    then confirm placed
    else if has labels (codes "needs-context")
    then deepen (codes "More context needed about: " ++ title_of summary) (some summary)
    else if has labels (codes "unclear")
    then confirm placed
    else if has labels (codes "uncertain")
    then confirm placed
    else if is_nil labels
    then confirm (candidate u labels summary raw unknown)
    else store placed
