-- ===== src/Persona/Selection.antt =====
-- src-tauri/src/persona/selection.rs and persona/query.rs: the highlights of the mini-home.
use knows_me.Base.{
  ℕ, suc, Bool, true, false, not, ◌&&◌, ◌||◌, Option, none, some, List, [], ◌∷◌, leb, ltb, ◌==◌,
  take, filter, length, if◌then◌else◌,
}
use knows_me.Base.Texts.{Text}
use knows_me.Base.Order.{text_le}
use knows_me.Base.Sort.{sort_by}
use knows_me.Base.Ranking.{dedup_by}
use knows_me.Io.{Io, pure, ◌>>=◌}
use knows_me.Domain.{Fact, FactId, FactSummary, Scope, GraphEdge, GraphDto}

abbrev pub default_highlights : ℕ
default_highlights = 9

abbrev pub Degree : Type 0
Degree = FactId → ℕ

-- Degree descending, then title and identity ascending.
abbrev pub ranks : Degree → FactSummary → FactSummary → Bool
ranks degree a b =
    ltb (degree b.id) (degree a.id)
    || (degree a.id == degree b.id
        && (not (text_le b.title a.title) || (text_le a.title b.title && leb a.id b.id)))

abbrev pub same_fact : FactSummary → FactSummary → Bool
same_fact a b = a.id == b.id

unfoldable pub rank_highlights : List FactSummary → Degree → ℕ → List FactSummary
rank_highlights summaries degree limit =
    take limit (dedup_by same_fact (sort_by (ranks degree) (filter (λ s. s.confirmed) summaries)))

abbrev summary_of : Fact → FactSummary
summary_of f = record {
  id = f.id;
  title = f.title;
  scope = f.metadata.scope;
  kind = f.metadata.kind;
  topics = f.metadata.topics;
  visibility = f.metadata.visibility;
  confirmed = f.metadata.confirmed;
}

abbrev summaries_of : List Fact → List FactSummary
summaries_of [] = []
summaries_of (f ∷ fs) = summary_of f ∷ summaries_of fs

-- The number of links of the last fact with an identity, as the map is built from the front.
abbrev pub link_degree : List Fact → ℕ → Degree
link_degree [] found id = found
link_degree (f ∷ fs) found id = link_degree fs (if f.id == id then length f.links else found) id

unfoldable pub select_highlights : List Fact → ℕ → List FactSummary
select_highlights facts limit = rank_highlights (summaries_of facts) (link_degree facts 0) limit

abbrev one_if : Bool → ℕ → ℕ
one_if true n = suc n
one_if false n = n

-- How many ends of edges a node has.
abbrev pub edge_degree : List GraphEdge → Degree
edge_degree [] id = 0
edge_degree (e ∷ es) id = one_if (e.from == id) (one_if (e.to == id) (edge_degree es id))

-- The read side of knowledge, as the views use it.
pub record KnowledgeReader (K Dashboard : Type 0) : Type 0 where
  pub dashboard : Io K Dashboard
  pub search : Text → Option Scope → Io K (List FactSummary)
  pub graph : Option Scope → Io K GraphDto

abbrev limit_or : Option ℕ → ℕ
limit_or none = default_highlights
limit_or (some n) = n

module _ {K Dashboard : Type 0} (R : KnowledgeReader K Dashboard) where
  unfoldable pub dashboard : Io K Dashboard
  dashboard = R.dashboard

  unfoldable pub minihome : Option ℕ → Io K (List FactSummary)
  minihome limit = do
    summaries ← R.search [] none
    graph ← R.graph none
    pure (rank_highlights summaries (edge_degree graph.edges) (limit_or limit))

  unfoldable pub graph : Option Scope → Io K GraphDto
  graph scope = R.graph scope
