-- ===== src/Interview/Intake.antt =====
-- src-tauri/src/interview/answer_intake.rs: facts from answers, and the questions that follow.
-- New identities and the time are arguments; the masker and the language model are parameters.
use knows_me.Base.{
  ℕ, suc, Bool, true, not, ◌&&◌, Option, none, some, List, [], ◌∷◌, ◌++◌, take, any,
}
use knows_me.Base.Texts.{Text, codes, text_eq, Unicode, trim}
use knows_me.Base.Lines.{is_empty}
use knows_me.Domain.{
  FactId, Time, Fact, FactCandidate, QueueItem, QueueItemId, deepen, session, unknown, practice,
  private,
}

abbrev pub max_follow_ups : ℕ
max_follow_ups = 3

abbrev negatives : List Text
negatives =
    codes "no"
    ∷ codes "n"
    ∷ codes "reject"
    ∷ codes "false"
    ∷ codes "x"
    ∷ codes "아니오"
    ∷ codes "아니요"
    ∷ codes "아니"
    ∷ codes "아님"
    ∷ []

unfoldable pub is_negative : Unicode → Text → Bool
is_negative u choice = any (text_eq (u.to_lowercase (trim choice))) negatives

unfoldable pub is_affirmative : Unicode → Text → Bool
is_affirmative u choice = not (is_empty (trim choice)) && not (is_negative u choice)

unfoldable pub fact_from_candidate : FactId → Time → FactCandidate → Fact
fact_from_candidate id now c = record {
  id = id;
  title = c.title;
  body = c.body;
  links = [];
  metadata = record {
    provenance = c.provenance;
    confirmed = true;
    scope = c.suggested_scope;
    confirmed_at = some now;
    topics = c.topics;
    kind = c.kind;
    visibility = c.visibility;
    category = none;
  };
}

unfoldable pub fact_from_deepen : FactId → Time → Text → Text → Fact
fact_from_deepen id now question answer = record {
  id = id;
  title = take 80 (trim question);
  body = answer;
  links = [];
  metadata = record {
    provenance = record { source = session; collected_at = now };
    confirmed = true;
    scope = unknown;
    confirmed_at = some now;
    topics = [];
    kind = practice;
    visibility = private;
    category = none;
  };
}

-- The masker with the map that restores what it took out, and the model's labels.
pub record Assistant : Type 1 where
  pub UnmaskMap : Type 0
  pub mask : Text → Text × UnmaskMap
  pub unmask : Text → UnmaskMap → Text
  pub classify : Text → Option (List Text)

abbrev follow_up : (Text → Text) → QueueItemId → Time → Text → QueueItem
follow_up restore id now label = record {
  id = id;
  kind = deepen (restore label ++ codes "에 대해 더 알려주세요") none;
  priority = 0;
  created_at = now;
  expires_at = none;
}

abbrev questions : (Text → Text) → (ℕ → QueueItemId) → ℕ → Time → List Text → List QueueItem
questions restore new_id n now [] = []
questions restore new_id n now (l ∷ ls) =
    follow_up restore (new_id n) now l ∷ questions restore new_id (suc n) now ls

-- No label where the model fails.
abbrev labels_or_none : Option (List Text) → List Text
labels_or_none none = []
labels_or_none (some ls) = ls

unfoldable pub derive_follow_ups : Assistant → (ℕ → QueueItemId) → Time → Text → List QueueItem
derive_follow_ups a new_id now answer =
    let masked = a.mask answer in
    questions (λ l. a.unmask l masked.1) new_id 0 now
      (take max_follow_ups (labels_or_none (a.classify masked.0)))
