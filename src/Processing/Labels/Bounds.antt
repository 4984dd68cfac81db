-- ===== src/Processing/Labels/Bounds.antt =====
-- How many labels `parse_labels` of src-tauri/src/llm/prompts.rs gives.
use knows_me.Base.{
  ◌≤◌, ◌≡◌, refl, Option, none, some, List, [], ◌∷◌, ◌++◌, take, length, arith, length-append,
  length-take, Bool-cases, inl, inr,
}
use knows_me.Base.Texts.{Text, trim, Unicode}
use knows_me.Base.Lines.{is_empty}
use knows_me.Processing.Labels as Labels
use knows_me.Processing.Labels.{Reply, present, label_keys}

module _ (u : Unicode) where
  field_label-len : (v : Option Text) → length (Labels.field_label u v) ≤ 1
  field_label-len none = omega arith
  field_label-len (some v) = ground (arith)

  topic_label-len : (t : Option Text) → length (Labels.topic_label u t) ≤ 1
  topic_label-len none = omega arith
  topic_label-len (some t) = ground (arith)

  field_labels-len : (r : Reply) (ks : List Text) → length (Labels.field_labels u r ks) ≤ length ks
  unfolding Labels.field_labels
  field_labels-len r [] = omega arith
  field_labels-len r (k ∷ ks) = omega (
    arith,
    length-append (Labels.field_label u (r.field k)) (Labels.field_labels u r ks),
    field_label-len (r.field k),
    field_labels-len r ks,
  )

  topic_labels-len : (ts : List (Option Text)) → length (Labels.topic_labels u ts) ≤ length ts
  unfolding Labels.topic_labels
  topic_labels-len [] = omega arith
  topic_labels-len (t ∷ ts) = omega (
    arith,
    length-append (Labels.topic_label u t) (Labels.topic_labels u ts),
    topic_label-len t,
    topic_labels-len ts,
  )

  topics_of-len : (ts : Option (List (Option Text))) → length (Labels.topics_of u ts) ≤ 3
  topics_of-len none = omega arith
  topics_of-len (some ts) = omega (arith, topic_labels-len (take 3 ts), length-take 3 ts)

  line_labels-len : (raw : Text) → length (Labels.line_labels u raw) ≤ 3
  unfolding Labels.line_labels
  line_labels-len raw = omega (arith, length-take 3 (Labels.all_line_labels u raw))

  module _ (from_str : Text → Option Reply) where
    or_lines-len :
        (raw : Text) (o : Option (List Text))
        → ((ls : List Text) → o ≡ some ls → length ls ≤ 7)
        → length (Labels.or_lines u from_str raw o) ≤ 7
    or_lines-len raw (some ls) h = h ls refl
    or_lines-len raw none h = ground (arith, line_labels-len raw)

    present-len : (ls ms : List Text) → present ls ≡ some ms → length ms ≡ length ls
    present-len [] ms h = cc
    present-len (l ∷ ls) ms h = cc

    labels_of-len :
        (o : Option Reply) (ls : List Text) → Labels.labels_of u o ≡ some ls → length ls ≤ 7
    labels_of-len none ls h = cc
    labels_of-len (some r) ls h =
        let fields = Labels.field_labels u r label_keys in
        omega (
          arith,
          present-len (fields ++ Labels.topics_of u r.topics) ls h,
          length-append fields (Labels.topics_of u r.topics),
          field_labels-len r label_keys,
          topics_of-len r.topics,
        )

    parse_json_labels-len :
        (raw : Text) (ls : List Text)
        → Labels.parse_json_labels u from_str raw ≡ some ls
        → length ls ≤ 7
    unfolding Labels.parse_json_labels
    parse_json_labels-len raw ls h =
        let object = Labels.object_text (trim raw) in
        elim (Bool-cases (is_empty object)) [
          | inl e ↦ let k = rw e at h in cc k
          | inr e ↦ labels_of-len (from_str object) ls (rw e at h)
        ]

    -- A reply gives at most seven labels.
    pub parse_labels-len : (raw : Text) → length (Labels.parse_labels u from_str raw) ≤ 7
    unfolding Labels.parse_labels
    parse_labels-len raw =
        or_lines-len raw (Labels.parse_json_labels u from_str raw) (parse_json_labels-len raw)
