-- ===== src/Knowledge/SearchIndex/Graph.antt =====
-- `SearchIndex::graph` of src-tauri/src/knowledge/search_index.rs: facts and the topics that join them.
-- The identity of a topic's node, a SHA-256 of its key, is the parameter `topic_node_id`.
pub mod Closure
use knows_me.Base.{
  ℕ, suc, ◌+◌, Bool, true, false, not, ◌&&◌, ◌||◌, Option, none, some, List, [], ◌∷◌, ◌++◌, map,
  filter, leb, ltb, ◌==◌, length, if◌then◌else◌,
}
use knows_me.Base.Texts.{Text, text_eq, Unicode}
use knows_me.Base.Lines.{is_empty}
use knows_me.Base.Order.{text_le}
use knows_me.Base.Sort.{sort_by}
use knows_me.Domain.{
  FactId, Scope, scope_eq, GraphNode, GraphNodeKind, fact, topic, GraphEdge, GraphDto,
}
use knows_me.Knowledge.SearchIndex.{MetaEntry, SearchIndex, has_id, scope_wanted}

-- A spelling of a topic, and how often it occurs; in the order of the map, by name.
pub record Surface : Type 0 where
  pub name : Text
  pub count : ℕ

-- A topic with its spellings and the facts that carry it.
pub record Hub : Type 0 where
  pub key : Text
  pub surfaces : List Surface
  pub members : List FactId

abbrev pub count_surface : Text → List Surface → List Surface
count_surface name [] = record { name = name; count = 1 } ∷ []
count_surface name (s ∷ ss) =
    let rest = count_surface name ss in
    if text_eq s.name name
    then record { name = s.name; count = suc s.count } ∷ ss
    else if text_le name s.name
    then record { name = name; count = 1 } ∷ s ∷ ss
    else s ∷ rest

abbrev pub add_member : FactId → List FactId → List FactId
add_member id members = if has_id members id then members else members ++ (id ∷ [])

abbrev pub joined : Text → FactId → Hub → Hub
joined name id h = record h {
  surfaces = count_surface name h.surfaces;
  members = add_member id h.members;
}

abbrev pub new_hub : Text → Text → FactId → Hub
new_hub key name id = record {
  key = key;
  surfaces = record { name = name; count = 1 } ∷ [];
  members = id ∷ [];
}

-- The entry of a key in the map of hubs, which is in the order of the keys.
unfoldable pub join_hub : Text → Text → FactId → List Hub → List Hub
join_hub key name id [] = new_hub key name id ∷ []
join_hub key name id (h ∷ hs) =
    let rest = join_hub key name id hs in
    if text_eq h.key key
    then joined name id h ∷ hs
    else if text_le key h.key
    then new_hub key name id ∷ h ∷ hs
    else h ∷ rest

abbrev pub better : Surface → Surface → Surface
better a b =
    if ltb a.count b.count || (a.count == b.count && not (text_le a.name b.name)) then b else a

-- The most common spelling, of equals the first by name.
abbrev pub best : Surface → List Surface → Surface
best s [] = s
best s (r ∷ rs) = best (better s r) rs

abbrev label_of : Text → List Surface → Text
label_of key [] = key
label_of key (s ∷ ss) = (best s ss).name

abbrev pub kept_links : List FactId → FactId → List FactId → List GraphEdge
kept_links ids id [] = []
kept_links ids id (l ∷ ls) =
    let rest = kept_links ids id ls in
    if has_id ids l then record { from = id; to = l } ∷ rest else rest

abbrev pub link_edges : List FactId → List MetaEntry → List GraphEdge
link_edges ids [] = []
link_edges ids (e ∷ es) = kept_links ids e.id e.lite.links ++ link_edges ids es

abbrev pub fact_node : MetaEntry → GraphNode
fact_node e = record { id = e.id; label = e.lite.title; kind = fact }

abbrev pub member_edge : FactId → FactId → GraphEdge
member_edge hub member = record { from = member; to = hub }

unfoldable pub topic_key : Unicode → Text → Text
topic_key u t = filter u.is_alphanumeric t

module _ (u : Unicode) (topic_node_id : Text → FactId) where
  unfoldable pub join_topics : FactId → List Text → List Hub → List Hub
  join_topics id [] hubs = hubs
  join_topics id (t ∷ ts) hubs =
      join_topics id ts
        (if is_empty (topic_key u t) then hubs else join_hub (topic_key u t) t id hubs)

  unfoldable pub join_all : List MetaEntry → List Hub → List Hub
  join_all [] hubs = hubs
  join_all (e ∷ es) hubs = join_all es (join_topics e.id e.lite.topics hubs)

  -- A topic with less than two facts is left out.
  unfoldable pub add_hub : Hub → GraphDto → GraphDto
  add_hub h g = if ltb (length h.members) 2 then g else record {
    nodes =
        g.nodes
        ++ (record { id = topic_node_id h.key; label = label_of h.key h.surfaces; kind = topic }
            ∷ []);
    edges = g.edges ++ map (member_edge (topic_node_id h.key)) (sort_by leb h.members);
  }

  unfoldable pub add_hubs : List Hub → GraphDto → GraphDto
  add_hubs [] g = g
  add_hubs (h ∷ hs) g = add_hubs hs (add_hub h g)

  abbrev pub shown : SearchIndex → Option Scope → List MetaEntry
  shown x scope = filter (λ e. scope_wanted scope e.lite) x.meta

  abbrev pub ids_of : List MetaEntry → List FactId
  ids_of [] = []
  ids_of (e ∷ es) = e.id ∷ ids_of es

  unfoldable pub graph : SearchIndex → Option Scope → GraphDto
  graph x scope =
      let entries = shown x scope in
      add_hubs (join_all entries [])
        (record { nodes = map fact_node entries; edges = link_edges (ids_of entries) entries })
