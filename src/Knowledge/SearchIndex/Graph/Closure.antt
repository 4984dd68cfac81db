-- ===== src/Knowledge/SearchIndex/Graph/Closure.antt =====
-- The edges of the graph of src-tauri/src/knowledge/search_index.rs.
use knows_me.Base.{
  ◌≡◌, ◌≢◌, refl, sym, ap, subst, true, Option, List, [], ◌∷◌, ◌++◌, map, ltb, leb, length, arith,
  inl, inr, All, All-map, All-append, Member, Member-append_left, Member-append_right,
  Member-filter, filter-Member, Bool-cases, false, none, some, ◌⊎◌,
}
use knows_me.Base.Texts.{Text, text_eq, Unicode}
use knows_me.Base.Lines.{is_empty}
use knows_me.Base.Order.{text_le}
use knows_me.Base.Sort.{sort_by}
use knows_me.Base.Ranking.{sort_by-All}
use knows_me.Domain.{
  FactId, Scope, company, personal, unknown, scope_eq, GraphNode, GraphEdge, GraphDto, topic,
}
use knows_me.Knowledge.SearchIndex.{MetaEntry, SearchIndex, has_id, scope_wanted}
use knows_me.Knowledge.SearchIndex.Graph as Graph
use knows_me.Knowledge.SearchIndex.Graph.{
  Hub, kept_links, link_edges, fact_node, member_edge, add_member, joined, join_hub, new_hub,
}

-- A node has the identity.
abbrev pub HasNode : List GraphNode → FactId → Type 0
HasNode nodes id = (n : GraphNode) × Member n nodes × (n.id ≡ id)

-- Both ends of an edge are nodes.
abbrev pub Joins : List GraphNode → GraphEdge → Type 0
Joins nodes e = HasNode nodes e.from × HasNode nodes e.to

HasNode-append :
    (nodes more : List GraphNode) (id : FactId) → HasNode nodes id → HasNode (nodes ++ more) id
HasNode-append nodes more id (n, m, e) = (n, Member-append_left n nodes more m, e)

Joins-append :
    (nodes more : List GraphNode) (e : GraphEdge) → Joins nodes e → Joins (nodes ++ more) e
Joins-append nodes more e (a, b) =
    (HasNode-append nodes more e.from a, HasNode-append nodes more e.to b)

has_id-Member : (ids : List FactId) (id : FactId) → has_id ids id ≡ true → Member id ids
has_id-Member [] id h = cc
has_id-Member (x ∷ ids) id h = ground (arith, has_id-Member ids id)

scope_eq-eq : (a b : Scope) → scope_eq a b ≡ true → a ≡ b
scope_eq-eq company company h = refl
scope_eq-eq company personal h = cc
scope_eq-eq company unknown h = cc
scope_eq-eq personal company h = cc
scope_eq-eq personal personal h = refl
scope_eq-eq personal unknown h = cc
scope_eq-eq unknown company h = cc
scope_eq-eq unknown personal h = cc
scope_eq-eq unknown unknown h = refl

scope_eq_refl : (a : Scope) → scope_eq a a ≡ true
scope_eq_refl company = refl
scope_eq_refl personal = refl
scope_eq_refl unknown = refl

scope_ne : (a b : Scope) → scope_eq a b ≡ false → a ≢ b
scope_ne a b h e = let k = rw e at h in cc (k, scope_eq_refl b)

module _ (P : FactId → Type 0) where
  -- All facts of all hubs.
  abbrev pub Members : List Hub → Type 0
  Members hubs = All (λ h. All P h.members) hubs

  add_member-All :
      (id : FactId) (members : List FactId) → P id → All P members → All P (add_member id members)
  add_member-All id members p h = elim (Bool-cases (has_id members id)) [
    | inl e ↦ rw e h
    | inr e ↦ rw e (All-append P members (id ∷ []) h (p, tt))
  ]

  join_hub-Members :
      (key name : Text) (id : FactId) (hubs : List Hub)
      → P id
      → Members hubs
      → Members (join_hub key name id hubs)
  unfolding join_hub
  join_hub-Members key name id [] p h = ((p, tt), tt)
  join_hub-Members key name id (x ∷ hubs) p h = elim (Bool-cases (text_eq x.key key)) [
    | inl e ↦ rw e (add_member-All id x.members p h.0, h.1)
    | inr e ↦ elim (Bool-cases (text_le key x.key)) [
      | inl f ↦ rw (e, f) ((p, tt), h)
      | inr f ↦ rw (e, f) (h.0, join_hub-Members key name id hubs p h.1)
    ]
  ]

  module _ (u : Unicode) (topic_node_id : Text → FactId) where
    join_topics-Members :
        (id : FactId) (ts : List Text) (hubs : List Hub)
        → P id
        → Members hubs
        → Members (Graph.join_topics u topic_node_id id ts hubs)
    unfolding Graph.join_topics
    join_topics-Members id [] hubs p h = h
    join_topics-Members id (t ∷ ts) hubs p h = elim (Bool-cases (is_empty (Graph.topic_key u t))) [
      | inl e ↦ rw e (join_topics-Members id ts hubs p h)
      | inr e ↦ rw e (
          join_topics-Members id ts (join_hub (Graph.topic_key u t) t id hubs) p
            (join_hub-Members (Graph.topic_key u t) t id hubs p h))
    ]

    join_all-Members :
        (es : List MetaEntry) (hubs : List Hub)
        → All (λ e. P e.id) es
        → Members hubs
        → Members (Graph.join_all u topic_node_id es hubs)
    unfolding Graph.join_all
    join_all-Members [] hubs p h = h
    join_all-Members (e ∷ es) hubs p h =
        join_all-Members es (Graph.join_topics u topic_node_id e.id e.lite.topics hubs) p.1
          (join_topics-Members e.id e.lite.topics hubs p.0 h)

-- Each entry has its node, also among more entries.
entries-HasNode :
    (before es : List MetaEntry) → All (λ e. HasNode (map fact_node (before ++ es)) e.id) es
entries-HasNode before [] = tt
entries-HasNode before (e ∷ es) = (
  (fact_node e, at before, refl),
  subst (λ l. All (λ x. HasNode (map fact_node l) x.id) es) (shift before)
      (entries-HasNode (before ++ (e ∷ [])) es),
)
  where
    at : (before : List MetaEntry) → Member (fact_node e) (map fact_node (before ++ (e ∷ es)))
    at [] = inl refl
    at (b ∷ before) = inr (at before)

    shift : (before : List MetaEntry) → (before ++ (e ∷ [])) ++ es ≡ before ++ (e ∷ es)
    shift [] = refl
    shift (b ∷ before) = ap (λ l. b ∷ l) (shift before)

module _ (u : Unicode) (topic_node_id : Text → FactId) where
  id-HasNode :
      (es : List MetaEntry) (id : FactId)
      → Member id (Graph.ids_of u topic_node_id es)
      → HasNode (map fact_node es) id
  id-HasNode [] id m = absurd m
  id-HasNode (e ∷ es) id (inl same) = (fact_node e, inl refl, sym same)
  id-HasNode (e ∷ es) id (inr m) = let (n, k, same) = id-HasNode es id m in (n, inr k, same)

  kept_links-Join :
      (nodes : List GraphNode) (ids : List FactId) (id : FactId) (ls : List FactId)
      → ((i : FactId) → Member i ids → HasNode nodes i)
      → HasNode nodes id
      → All (Joins nodes) (kept_links ids id ls)
  kept_links-Join nodes ids id [] all_there there = tt
  kept_links-Join nodes ids id (l ∷ ls) all_there there = elim (Bool-cases (has_id ids l)) [
    | inl e ↦ rw e (
      (there, all_there l (has_id-Member ids l e)),
      kept_links-Join nodes ids id ls all_there there,
    )
    | inr e ↦ rw e (kept_links-Join nodes ids id ls all_there there)
  ]

  link_edges-Join :
      (nodes : List GraphNode) (ids : List FactId) (es : List MetaEntry)
      → ((i : FactId) → Member i ids → HasNode nodes i)
      → All (λ e. HasNode nodes e.id) es
      → All (Joins nodes) (link_edges ids es)
  link_edges-Join nodes ids [] all_there h = tt
  link_edges-Join nodes ids (e ∷ es) all_there h =
      All-append (Joins nodes) (kept_links ids e.id e.lite.links) (link_edges ids es)
        (kept_links-Join nodes ids e.id e.lite.links all_there h.0)
        (link_edges-Join nodes ids es all_there h.1)

  member_edges-Join :
      (nodes : List GraphNode) (hub : FactId) (members : List FactId)
      → HasNode nodes hub
      → All (HasNode nodes) members
      → All (Joins nodes) (map (member_edge hub) members)
  member_edges-Join nodes hub [] there h = tt
  member_edges-Join nodes hub (m ∷ ms) there h =
      ((h.0, there), member_edges-Join nodes hub ms there h.1)

  abbrev Closed : GraphDto → Type 0
  Closed g = All (Joins g.nodes) g.edges

  abbrev grows : Hub → GraphDto → GraphDto
  grows = Graph.add_hub u topic_node_id

  -- A hub adds edges between its facts and its own node only, and takes no node away.
  add_hub-Closed :
      (h : Hub) (g : GraphDto)
      → All (HasNode g.nodes) h.members
      → Closed g
      → Closed (grows h g) × ((id : FactId) → HasNode g.nodes id → HasNode (grows h g).nodes id)
  unfolding Graph.add_hub
  add_hub-Closed h g there c = elim (Bool-cases (ltb (length h.members) 2)) [
    | inl e ↦ rw e (c, λ id n. n)
    | inr e ↦
        let hub : GraphNode = record {
          id = topic_node_id h.key;
          label = Graph.label_of h.key h.surfaces;
          kind = topic;
        } in
        let nodes = g.nodes ++ (hub ∷ []) in
        rw e (
          All-append (Joins nodes) g.edges
              (map (member_edge (topic_node_id h.key)) (sort_by leb h.members))
              (All-map (Joins-append g.nodes (hub ∷ [])) g.edges c)
              (member_edges-Join nodes (topic_node_id h.key) (sort_by leb h.members)
                (hub, Member-append_right hub g.nodes (hub ∷ []) (inl refl), refl)
                (sort_by-All leb (HasNode nodes) h.members
                  (All-map (HasNode-append g.nodes (hub ∷ [])) h.members there))),
          HasNode-append g.nodes (hub ∷ []),
        )
  ]

  add_hubs-Closed :
      (hs : List Hub) (g : GraphDto)
      → Members (HasNode g.nodes) hs
      → Closed g
      → Closed (Graph.add_hubs u topic_node_id hs g)
  unfolding Graph.add_hubs
  add_hubs-Closed [] g there c = c
  add_hubs-Closed (h ∷ hs) g there c =
      let (closed, keeps) = add_hub-Closed h g there.0 c in
      add_hubs-Closed hs (grows h g) (All-map (λ x ms. All-map keeps x.members ms) hs there.1)
        closed

  -- The fact of an entry that is in the index and of the wanted scope.
  abbrev pub FactNode : SearchIndex → Option Scope → GraphNode → Type 0
  FactNode x scope n =
      (e : MetaEntry) × Member e x.meta
      × ((scope ≡ none) ⊎ (scope ≡ some e.lite.scope))
      × (n ≡ fact_node e)

  -- A topic.
  abbrev pub TopicNode : GraphNode → Type 0
  TopicNode n = (key : Text) × (n.id ≡ topic_node_id key) × (n.kind ≡ topic)

  wanted :
      (scope : Option Scope) (e : MetaEntry)
      → scope_wanted scope e.lite ≡ true
      → (scope ≡ none) ⊎ (scope ≡ some e.lite.scope)
  wanted none e h = inl refl
  wanted (some s) e h = inr (ap (λ z. some z) (scope_eq-eq s e.lite.scope h))

  -- The entry is of another scope than the one asked for.
  abbrev pub Unwanted : Option Scope → MetaEntry → Type 0
  Unwanted scope e = (s : Scope) × (scope ≡ some s) × (s ≢ e.lite.scope)

  unwanted :
      (scope : Option Scope) (e : MetaEntry) → scope_wanted scope e.lite ≡ false → Unwanted scope e
  unwanted none e h = cc
  unwanted (some s) e h = (s, refl, λ same. scope_ne s e.lite.scope h same)

  nodes-FactNode :
      (x : SearchIndex) (scope : Option Scope) (es : List MetaEntry)
      → ((e : MetaEntry) → Member e es → Member e (Graph.shown u topic_node_id x scope))
      → All (λ n. FactNode x scope n ⊎ TopicNode n) (map fact_node es)
  nodes-FactNode x scope [] sub = tt
  nodes-FactNode x scope (e ∷ es) sub =
      let (there, fits) =
        Member-filter (λ e. scope_wanted scope e.lite) x.meta e (sub e (inl refl)) in
      (inl (e, there, wanted scope e fits, refl), nodes-FactNode x scope es (λ d m. sub d (inr m)))

  -- Hubs add topics only.
  add_hubs-nodes :
      (P : GraphNode → Type 0) (hs : List Hub) (g : GraphDto)
      → ((n : GraphNode) → TopicNode n → P n)
      → All P g.nodes
      → All P (Graph.add_hubs u topic_node_id hs g).nodes
  unfolding Graph.add_hubs Graph.add_hub
  add_hubs-nodes P [] g topics h = h
  add_hubs-nodes P (b ∷ hs) g topics h =
      add_hubs-nodes P hs (grows b g) topics (grown (Bool-cases (ltb (length b.members) 2)))
    where
      grown :
          (ltb (length b.members) 2 ≡ true) ⊎ (ltb (length b.members) 2 ≡ false)
          → All P (grows b g).nodes
      grown (inl e) = rw e h
      grown (inr e) = rw e (All-append P g.nodes _ h (topics _ (b.key, refl, refl), tt))

  add_hubs-keeps :
      (n : GraphNode) (hs : List Hub) (g : GraphDto)
      → Member n g.nodes
      → Member n (Graph.add_hubs u topic_node_id hs g).nodes
  unfolding Graph.add_hubs Graph.add_hub
  add_hubs-keeps n [] g m = m
  add_hubs-keeps n (b ∷ hs) g m =
      add_hubs-keeps n hs (grows b g) (grown (Bool-cases (ltb (length b.members) 2)))
    where
      grown :
          (ltb (length b.members) 2 ≡ true) ⊎ (ltb (length b.members) 2 ≡ false)
          → Member n (grows b g).nodes
      grown (inl e) = rw e m
      grown (inr e) = rw e (Member-append_left n g.nodes _ m)

  entry_kept :
      (x : SearchIndex) (scope : Option Scope) (g : GraphDto) (es : List MetaEntry)
      → ((e : MetaEntry)
          → Member e es
          → scope_wanted scope e.lite ≡ true
          → Member (fact_node e) g.nodes)
      → All (λ e. Member (fact_node e) g.nodes ⊎ Unwanted scope e) es
  entry_kept x scope g [] h = tt
  entry_kept x scope g (e ∷ es) h = (
    elim (Bool-cases (scope_wanted scope e.lite)) [
      | inl w ↦ inl (h e (inl refl) w)
      | inr w ↦ inr (unwanted scope e w)
    ],
    entry_kept x scope g es (λ d m. h d (inr m)),
  )

  map-node :
      (e : MetaEntry) (es : List MetaEntry) → Member e es → Member (fact_node e) (map fact_node es)
  map-node e [] m = absurd m
  map-node e (d ∷ es) (inl same) = inl (ap fact_node same)
  map-node e (d ∷ es) (inr m) = inr (map-node e es m)

  edges-Join :
      (x : SearchIndex) (scope : Option Scope)
      → All
          (Joins (Graph.graph u topic_node_id x scope).nodes)
          (Graph.graph u topic_node_id x scope).edges
  unfolding Graph.graph
  edges-Join x scope =
      let es = Graph.shown u topic_node_id x scope in
      let nodes = map fact_node es in
      let there = entries-HasNode [] es in
      add_hubs-Closed (Graph.join_all u topic_node_id es [])
        (record { nodes = nodes; edges = link_edges (Graph.ids_of u topic_node_id es) es })
        (join_all-Members (HasNode nodes) u topic_node_id es [] there tt)
        (link_edges-Join nodes (Graph.ids_of u topic_node_id es) es (id-HasNode es) there)

  -- Both ends of every edge of a graph are nodes of it. Every node is a fact of the index that is of the
  -- wanted scope, or a topic, and every fact of the wanted scope is a node.
  pub graph-Closed :
      (x : SearchIndex) (scope : Option Scope)
      → All
          (Joins (Graph.graph u topic_node_id x scope).nodes)
          (Graph.graph u topic_node_id x scope).edges
        × All (λ n. FactNode x scope n ⊎ TopicNode n) (Graph.graph u topic_node_id x scope).nodes
        × All
            (λ e.
              Member (fact_node e) (Graph.graph u topic_node_id x scope).nodes ⊎ Unwanted scope e)
            x.meta
  unfolding Graph.graph
  graph-Closed x scope =
      let es = Graph.shown u topic_node_id x scope in
      let start : GraphDto = record {
        nodes = map fact_node es;
        edges = link_edges (Graph.ids_of u topic_node_id es) es;
      } in
      let hubs = Graph.join_all u topic_node_id es [] in
      (
        edges-Join x scope,
        add_hubs-nodes (λ n. FactNode x scope n ⊎ TopicNode n) hubs start (λ n t. inr t)
            (nodes-FactNode x scope es (λ e m. m)),
        entry_kept x scope (Graph.add_hubs u topic_node_id hubs start) x.meta (λ e m w.
            add_hubs-keeps (fact_node e) hubs start
              (map-node e es (filter-Member (λ d. scope_wanted scope d.lite) x.meta e m w))),
      )
