-- ===== src/Processing/Labels.antt =====
-- `parse_labels` of src-tauri/src/llm/prompts.rs: the labels in a classifier's reply. The parser of
-- JSON is the parameter `from_str`; of a value only its text fields and the entries of `topics` are
-- read, where an entry that is no text is `none`.
pub mod Bounds
use knows_me.Base.{
  ℕ, ◌+◌, ◌≤◌, ◌≡◌, refl, Bool, true, false, not, ◌&&◌, ◌||◌, Option, none, some, List, [], ◌∷◌,
  ◌++◌, map, filter, take, length, leb, ◌==◌, any, arith, length-append, length-take, if◌then◌else◌,
  Bool-cases, inl, inr,
}
use knows_me.Base.Texts.{Text, codes, text_eq, starts_with, trim, trim_start, trim_end, Unicode}
use knows_me.Base.Lines.{lines, is_empty, split_whitespace}

pub record Reply : Type 0 where
  pub field : Text → Option Text
  pub topics : Option (List (Option Text))

abbrev is_bullet : ℕ → Bool
is_bullet c = c == b'-' || c == b'*' || c == 8226

abbrev without_bullet : Text → Text
without_bullet l = trim (trim_start is_bullet (trim l))

abbrev pub contains_text : Text → Text → Bool
contains_text [] k = is_empty k
contains_text (c ∷ s) k = starts_with (c ∷ s) k || contains_text s k

abbrev schema_keys : List Text
schema_keys = codes "certainty" ∷ codes "scope" ∷ codes "kind" ∷ codes "topics" ∷ []

abbrev pub label_keys : List Text
label_keys = codes "certainty" ∷ codes "scope" ∷ codes "kind" ∷ codes "visibility" ∷ []

-- From the first `{` to the last `}`, or nothing.
unfoldable pub object_text : Text → Text
object_text s = trim_end (λ c. not (c == b'}')) (trim_start (λ c. not (c == b'{')) s)

abbrev pub present : List Text → Option (List Text)
present [] = none
present (l ∷ ls) = some (l ∷ ls)

module _ (u : Unicode) where
  unfoldable pub looks_like_schema_echo : Text → Bool
  looks_like_schema_echo raw =
      leb 2 (length (filter (contains_text (u.to_lowercase raw)) schema_keys))

  abbrev pub kept_value : Text → List Text
  kept_value v = if not (is_empty v) && not (text_eq v (codes "unknown")) then v ∷ [] else []

  abbrev pub field_label : Option Text → List Text
  field_label none = []
  field_label (some v) = kept_value (u.to_lowercase (trim v))

  unfoldable pub field_labels : Reply → List Text → List Text
  field_labels r [] = []
  field_labels r (k ∷ ks) = field_label (r.field k) ++ field_labels r ks

  abbrev pub kept_topic : Text → List Text
  kept_topic t = if is_empty t then [] else t ∷ []

  abbrev pub topic_label : Option Text → List Text
  topic_label none = []
  topic_label (some t) = kept_topic (u.to_lowercase (trim t))

  unfoldable pub topic_labels : List (Option Text) → List Text
  topic_labels [] = []
  topic_labels (t ∷ ts) = topic_label t ++ topic_labels ts

  abbrev pub topics_of : Option (List (Option Text)) → List Text
  topics_of none = []
  topics_of (some ts) = topic_labels (take 3 ts)

  abbrev pub labels_of : Option Reply → Option (List Text)
  labels_of none = none
  labels_of (some r) = present (field_labels r label_keys ++ topics_of r.topics)

  abbrev is_label : Text → Bool
  is_label l = leb (length l) 40 && leb (length (split_whitespace l)) 3

  abbrev pub all_line_labels : Text → List Text
  all_line_labels raw =
      filter is_label
        (map u.to_lowercase (filter (λ l. not (is_empty l)) (map without_bullet (lines raw))))

  unfoldable pub line_labels : Text → List Text
  line_labels raw = take 3 (all_line_labels raw)

  module _ (from_str : Text → Option Reply) where
    unfoldable pub parse_json_labels : Text → Option (List Text)
    parse_json_labels raw =
        let object = object_text (trim raw) in
        if is_empty object then none else labels_of (from_str object)

    abbrev pub or_lines : Text → Option (List Text) → List Text
    or_lines raw (some labels) = labels
    or_lines raw none = if looks_like_schema_echo raw then [] else line_labels raw

    unfoldable pub parse_labels : Text → List Text
    parse_labels raw = or_lines raw (parse_json_labels raw)
