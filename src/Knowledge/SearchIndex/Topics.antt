-- ===== src/Knowledge/SearchIndex/Topics.antt =====
-- `topic_pages` of src-tauri/src/knowledge/search_index.rs: the facts of each subject on a page.
pub mod Pages
use knows_me.Base.{
  ℕ, suc, Bool, true, false, not, ◌&&◌, ◌||◌, Option, none, some, List, [], ◌∷◌, ◌++◌, map, filter,
  leb, ltb, ◌==◌, length, if◌then◌else◌,
}
use knows_me.Base.Texts.{Text, text_eq, Unicode}
use knows_me.Base.Lines.{is_empty}
use knows_me.Base.Order.{text_le}
use knows_me.Base.Sort.{sort_by}
use knows_me.Base.Ranking.{dedup_by}
use knows_me.Domain.{
  FactId, Time, FactKind, note, practice, preference, project, concern, concept, FactSummary,
  TopicPage,
}
use knows_me.Knowledge.SearchIndex.Graph.{Surface, count_surface, best, topic_key}

-- A key with its spellings and the facts that carry one, as often as they do.
pub record Group : Type 0 where
  pub key : Text
  pub surfaces : List Surface
  pub members : List FactSummary

abbrev pub grown : Text → FactSummary → Group → Group
grown name f g = record g {
  surfaces = count_surface name g.surfaces;
  members = g.members ++ (f ∷ []);
}

abbrev pub new_group : Text → Text → FactSummary → Group
new_group key name f = record { key = key; surfaces = count_surface name []; members = f ∷ [] }

-- The entry of a key in the map of groups, which is in the order of the keys.
unfoldable pub join_group : Text → Text → FactSummary → List Group → List Group
join_group key name f [] = new_group key name f ∷ []
join_group key name f (g ∷ gs) =
    let rest = join_group key name f gs in
    if text_eq g.key key
    then grown name f g ∷ gs
    else if text_le key g.key
    then new_group key name f ∷ g ∷ gs
    else g ∷ rest

-- The most common spelling.
abbrev pub page_name : List Surface → Text
page_name [] = []
page_name (s ∷ ss) = (best s ss).name

abbrev pub by_id : FactSummary → FactSummary → Bool
by_id a b = leb a.id b.id

abbrev pub same_id : FactSummary → FactSummary → Bool
same_id a b = a.id == b.id

-- A fact that reached the group through two spellings counts once.
unfoldable pub distinct : List FactSummary → List FactSummary
distinct members = dedup_by same_id (sort_by by_id members)

abbrev pub is_friction : FactKind → Bool
is_friction note = false
is_friction practice = false
is_friction preference = false
is_friction project = false
is_friction concern = true
is_friction concept = false

abbrev pub is_concern : FactSummary → Bool
is_concern f = is_friction f.kind

-- Latest first; a fact with no time comes last.
abbrev pub same_time : Option Time → Option Time → Bool
same_time none none = true
same_time none (some b) = false
same_time (some a) none = false
same_time (some a) (some b) = a == b

abbrev pub later_than : Option Time → Option Time → Bool
later_than none b = false
later_than (some a) none = true
later_than (some a) (some b) = ltb b a

abbrev pub times : (FactId → Option Time) → List FactSummary → List Time
times seen_at [] = []
times seen_at (f ∷ fs) = elim (seen_at f.id) [
  | none ↦ times seen_at fs
  | some t ↦ t ∷ times seen_at fs
]

abbrev pub least : List Time → Option Time
least [] = none
least (t ∷ ts) = elim (least ts) [ none ↦ some t | some m ↦ some (if ltb m t then m else t) ]

abbrev pub greatest : List Time → Option Time
greatest [] = none
greatest (t ∷ ts) = elim (greatest ts) [ none ↦ some t | some m ↦ some (if ltb t m then m else t) ]

module _ (seen_at : FactId → Option Time) where
  abbrev pub newer_fact : FactSummary → FactSummary → Bool
  newer_fact a b =
      later_than (seen_at a.id) (seen_at b.id)
      || (same_time (seen_at a.id) (seen_at b.id) && text_le a.title b.title)

  unfoldable pub page : Text → List FactSummary → TopicPage
  page topic members = record {
    topic = topic;
    mentions = length members;
    concerns = length (filter is_concern members);
    first_seen = least (times seen_at members);
    last_seen = greatest (times seen_at members);
    facts = sort_by newer_fact members;
  }

  unfoldable pub page_of : Group → TopicPage
  page_of g = page (page_name g.surfaces) (distinct g.members)

-- By mentions, then by the last time, then by name.
abbrev pub page_order : TopicPage → TopicPage → Bool
page_order a b =
    ltb b.mentions a.mentions
    || (a.mentions == b.mentions
        && (later_than a.last_seen b.last_seen
            || (same_time a.last_seen b.last_seen && text_le a.topic b.topic)))

module _ (u : Unicode) where
  unfoldable pub group_topics : FactSummary → List Text → List Group → List Group
  group_topics f [] groups = groups
  group_topics f (t ∷ ts) groups =
      group_topics f ts
        (if is_empty (topic_key u t) then groups else join_group (topic_key u t) t f groups)

  unfoldable pub group_all : List FactSummary → List Group → List Group
  group_all [] groups = groups
  group_all (f ∷ fs) groups = group_all fs (group_topics f f.topics groups)

  unfoldable pub topic_pages : List FactSummary → (FactId → Option Time) → List TopicPage
  topic_pages facts seen_at = sort_by page_order (map (page_of seen_at) (group_all facts []))
