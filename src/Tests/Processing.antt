-- ===== src/Tests/Processing.antt =====
-- Runs of the model of src-tauri/src/processing, and the theorems at concrete inputs.
use knows_me.Base.{◌≡◌, ◌≢◌, refl, true, false, none, some, List, [], ◌∷◌}
use knows_me.Base.Texts.{Text, codes, ascii_tables, trim, is_whitespace}
use knows_me.Base.{Option, if◌then◌else◌}
use knows_me.Base.Texts.{text_eq}
use knows_me.Base.Lines.{lines, split_whitespace, split_by}
use knows_me.Processing.Labels.{
  Reply, parse_labels, parse_json_labels, object_text, field_labels, topic_labels,
  looks_like_schema_echo, line_labels,
}
use knows_me.Domain.{RawItem, notion, shared, FactCandidate}
use knows_me.Processing.Titles.{title_of, body_of, is_nothing}
use knows_me.Processing.Router.{
  route, candidate, scope_from_labels, visibility_from_labels, has, store,
}
use knows_me.Processing.Router.Decisions.{carried, route-shared, route-store}

title_runs : title_of (codes "https://a.b\n**Deploys**\nby hand\n") ≡ codes "Deploys"
unfolding title_of
title_runs = refl

body_runs : body_of (codes "https://a.b\n## **Deploys**\nby hand\n") ≡ codes "by hand"
unfolding body_of
body_runs = refl

summary_not_blank : trim (codes "Deploys\nby hand") ≢ []
unfolding trim is_whitespace
summary_not_blank h = cc

abbrev item : RawItem
item = record {
  source = notion;
  external_id = codes "n1";
  collected_at = 7;
  text = none;
  image_png = none;
}

abbrev labels : List Text
labels = codes "certain" ∷ codes "public" ∷ []

abbrev summary : Text
summary = codes "Deploys\nby hand"

abbrev made : FactCandidate
made = candidate ascii_tables labels summary item (scope_from_labels labels)

stored_item : route ascii_tables false labels summary item ≡ store made
unfolding route is_nothing is_whitespace has
stored_item = refl

carried-item : carried (route ascii_tables false labels summary item) ≡ some made
unfolding route is_nothing is_whitespace has
carried-item = refl

shared_item : made.visibility ≡ shared
unfolding candidate visibility_from_labels has
shared_item = refl

route-shared_example : has labels (codes "public") ≡ true
route-shared_example =
    route-shared ascii_tables false labels summary item made carried-item shared_item

route-store_example :
    (labels ≢ [])
    × (has labels (codes "noise") ≡ false)
    × (has labels (codes "one-off") ≡ false)
    × (has labels (codes "needs-context") ≡ false)
    × (has labels (codes "unclear") ≡ false)
    × (has labels (codes "uncertain") ≡ false)
route-store_example = route-store ascii_tables false labels summary item made refl stored_item

-- The parser of the test knows one object, and its topics are a text and a number.
abbrev reply : Reply
reply = record {
  field = λ k.
      if text_eq k (codes "scope")
      then some (codes "unknown")
      else if text_eq k (codes "kind")
      then some (codes " Practice ")
      else none;
  topics = some (some (codes "AIDLC") ∷ none ∷ []);
}

abbrev from_str : Text → Option Reply
from_str t = if text_eq t (codes "{a}") then some reply else none

json_labels :
    parse_labels ascii_tables from_str (codes "Here: {a}!") ≡ codes "practice" ∷ codes "aidlc" ∷ []
unfolding parse_labels parse_json_labels object_text field_labels topic_labels trim is_whitespace
json_labels = refl

line_labels_run :
    parse_labels ascii_tables from_str (codes "- Deploys\n\n* by hand")
    ≡ codes "deploys" ∷ codes "by hand" ∷ []
unfolding parse_labels parse_json_labels object_text looks_like_schema_echo line_labels trim
    is_whitespace lines split_whitespace split_by
line_labels_run = refl

echo_labels : parse_labels ascii_tables from_str (codes "certainty, scope") ≡ []
unfolding parse_labels parse_json_labels object_text looks_like_schema_echo line_labels trim
    is_whitespace
echo_labels = refl
