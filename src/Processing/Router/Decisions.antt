-- ===== src/Processing/Router/Decisions.antt =====
-- What the router decides, and what it can never do.
use knows_me.Base.{
  ◌≡◌, ◌≢◌, ◌↔◌, refl, inl, inr, Bool, true, false, Option, none, some, List, [], ◌∷◌, arith, All,
  All-append, Bool-cases,
}
use knows_me.Base.Texts.{Text, codes, text_eq, Unicode}
use knows_me.Base.Sets.{contains, Distinct, Distinct-append}
use knows_me.Domain.{RawItem, FactCandidate, shared}
use knows_me.Domain.Category.{normalize_topic}
use knows_me.Domain.Category.Normal.{IsNormal, LowercaseLaws, parse-IsNormal}
use knows_me.Processing.Titles.{is_nothing}
use knows_me.Similarity.Symmetry.{text_eq_iff}
use knows_me.Processing.Router.{
  ProcessingDecision, store, confirm, deepen, drop, has, push_topic, collect_topics,
  topics_from_labels, visibility_from_labels, candidate, route, control_labels,
}

-- The candidate that a decision carries.
abbrev pub carried : ProcessingDecision → Option FactCandidate
carried (store c) = some c
carried (confirm c) = some c
carried (deepen q h) = none
carried (drop r) = none

module _ (u : Unicode) (debug : Bool) (labels : List Text) (summary : Text) (raw : RawItem) where
  -- An item is dropped exactly if the summarizer said that there is nothing in it.
  pub route-drop_iff :
      ((r : Text) × (route u debug labels summary raw ≡ drop r)) ↔ (is_nothing summary ≡ true)
  unfolding route
  route-drop_iff = (λ (r, h). ground arith, λ h. (codes "no durable fact in item", ground arith))

  -- A candidate is shared only if the classifier said `public`.
  pub route-shared :
      (c : FactCandidate)
      → carried (route u debug labels summary raw) ≡ some c
      → c.visibility ≡ shared
      → has labels (codes "public") ≡ true
  unfolding route candidate visibility_from_labels
  route-shared c e h = ground arith

  -- Outside a debug build an item becomes a fact with no question asked only if the labels are there
  -- and none of them asks for the owner.
  pub route-store :
      (c : FactCandidate)
      → debug ≡ false
      → route u debug labels summary raw ≡ store c
      → (labels ≢ [])
        × (has labels (codes "noise") ≡ false)
        × (has labels (codes "one-off") ≡ false)
        × (has labels (codes "needs-context") ≡ false)
        × (has labels (codes "unclear") ≡ false)
        × (has labels (codes "uncertain") ≡ false)
  unfolding route
  route-store c r h = ground arith

module _ (u : Unicode) (laws : LowercaseLaws u) where
  normalize_topic-IsNormal : (raw t : Text) → normalize_topic u raw ≡ some t → IsNormal t
  unfolding normalize_topic
  normalize_topic-IsNormal raw t h = parse-IsNormal u laws raw t (ground arith)

  push_topic-IsNormal :
      (out : List Text) (raw : Text)
      → All IsNormal out
      → All IsNormal (push_topic out (normalize_topic u raw))
  push_topic-IsNormal out raw h = go (normalize_topic u raw) refl
    where
      go : (o : Option Text) → normalize_topic u raw ≡ o → All IsNormal (push_topic out o)
      go none e = unfold push_topic in h
      go (some t) e =
          unfold push_topic in
          elim (Bool-cases (contains text_eq out t)) [
            | inl f ↦ rw f h
            | inr f ↦
                rw f (All-append IsNormal out (t ∷ []) h (normalize_topic-IsNormal raw t e, tt))
          ]

  collect_topics-IsNormal :
      (out labels : List Text) → All IsNormal out → All IsNormal (collect_topics u out labels)
  unfolding collect_topics
  collect_topics-IsNormal out [] h = h
  collect_topics-IsNormal out (l ∷ ls) h = elim (Bool-cases (contains text_eq control_labels l)) [
    | inl f ↦ rw f (collect_topics-IsNormal out ls h)
    | inr f ↦ rw f (
        collect_topics-IsNormal (push_topic out (normalize_topic u l)) ls
          (push_topic-IsNormal out l h))
  ]

push_topic-Distinct :
    (out : List Text) (o : Option Text) → Distinct text_eq out → Distinct text_eq (push_topic out o)
unfolding push_topic
push_topic-Distinct out none d = d
push_topic-Distinct out (some t) d = elim (Bool-cases (contains text_eq out t)) [
  | inl f ↦ rw f d
  | inr f ↦ rw f (Distinct-append text_eq text_eq_iff out t d f)
]

collect_topics-Distinct :
    (u : Unicode) (out labels : List Text)
    → Distinct text_eq out
    → Distinct text_eq (collect_topics u out labels)
unfolding collect_topics
collect_topics-Distinct u out [] d = d
collect_topics-Distinct u out (l ∷ ls) d = elim (Bool-cases (contains text_eq control_labels l)) [
  | inl f ↦ rw f (collect_topics-Distinct u out ls d)
  | inr f ↦ rw f (
      collect_topics-Distinct u (push_topic out (normalize_topic u l)) ls
        (push_topic-Distinct out (normalize_topic u l) d))
]

-- The topics of a candidate are in the normal form of categories, and none occurs twice.
pub topics_from_labels-IsNormal :
    (u : Unicode)
    → LowercaseLaws u
    → (labels : List Text)
    → All IsNormal (topics_from_labels u labels) × Distinct text_eq (topics_from_labels u labels)
unfolding topics_from_labels
topics_from_labels-IsNormal u laws labels =
    (collect_topics-IsNormal u laws [] labels tt, collect_topics-Distinct u [] labels tt)
