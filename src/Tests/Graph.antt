-- ===== src/Tests/Graph.antt =====
-- Runs of the graph and the pages of src-tauri/src/knowledge/search_index.rs, and the theorems at them.
use knows_me.Base.{ℕ, ◌≡◌, refl, true, none, List, [], ◌∷◌, All}
use knows_me.Base.Texts.{Text, codes, ascii_tables}
use knows_me.Domain.{FactId, company, note, shared}
use knows_me.Knowledge.SearchIndex.{MetaEntry, SearchIndex}
use knows_me.Knowledge.SearchIndex.Graph.{
  graph, join_all, join_topics, join_hub, add_hubs, add_hub, topic_key,
}
use knows_me.Knowledge.SearchIndex.Graph.{fact_node}
use knows_me.Base.{Member, ◌⊎◌, map, Option, some}
use knows_me.Domain.{FactSummary, concern}
use knows_me.Knowledge.SearchIndex.Topics.{
  topic_pages, group_all, group_topics, join_group, distinct, page_of, page,
}
use knows_me.Knowledge.SearchIndex.Topics.Pages.{Tells, topic_pages-Tell}
use knows_me.Knowledge.SearchIndex.Graph.Closure.{
  Joins, FactNode, TopicNode, Unwanted, graph-Closed,
}

abbrev entry : ℕ → Text → List FactId → MetaEntry
entry id name links = record {
  id = id;
  lite = record {
    title = codes "Deploys";
    scope = company;
    confirmed = true;
    confirmed_at = none;
    links = links;
    kind = note;
    topics = name ∷ [];
    visibility = shared;
  };
}

-- The facts 1 and 2 have one topic in two spellings; 1 has a link to 2 and one to nowhere.
abbrev index : SearchIndex
index = record {
  postings = λ t. none;
  tokens = λ id. none;
  meta = entry 1 (codes "ai-dlc") (2 ∷ 9 ∷ []) ∷ entry 2 (codes "aidlc") [] ∷ [];
}

abbrev hub_id : Text → FactId
hub_id key = 100

graph_runs :
    (graph ascii_tables hub_id index none).edges
    ≡ record { from = 1; to = 2 }
      ∷ record { from = 1; to = 100 }
      ∷ record { from = 2; to = 100 }
      ∷ []
unfolding graph join_all join_topics join_hub add_hubs add_hub topic_key
graph_runs = refl

graph-Closed_example :
    All
      (Joins (graph ascii_tables hub_id index none).nodes)
      (graph ascii_tables hub_id index none).edges
    × All
        (λ n. FactNode ascii_tables hub_id index none n ⊎ TopicNode ascii_tables hub_id n)
        (graph ascii_tables hub_id index none).nodes
    × All
        (λ e.
          Member (fact_node e) (graph ascii_tables hub_id index none).nodes
          ⊎ Unwanted ascii_tables hub_id none e)
        index.meta
graph-Closed_example = graph-Closed ascii_tables hub_id index none

abbrev summaries : List FactSummary
summaries =
    record {
      id = 1;
      title = codes "Deploys";
      scope = company;
      kind = concern;
      topics = codes "ai-dlc" ∷ codes "aidlc" ∷ [];
      visibility = shared;
      confirmed = true;
    }
    ∷ record {
      id = 2;
      title = codes "Reviews";
      scope = company;
      kind = note;
      topics = codes "ai-dlc" ∷ [];
      visibility = shared;
      confirmed = true;
    }
    ∷ []

abbrev seen_at : FactId → Option ℕ
seen_at id = some id

-- A fact that carries both spellings is one mention.
topic_runs :
    map {B = Text × (ℕ × ℕ)}
      (λ p. (p.topic, (p.mentions, p.concerns)))
      (topic_pages ascii_tables summaries seen_at)
    ≡ (codes "ai-dlc", (2, 1)) ∷ []
unfolding topic_pages group_all group_topics join_group distinct page_of page topic_key
topic_runs = refl

topic_pages-Tell_example :
    All (Tells ascii_tables summaries) (topic_pages ascii_tables summaries seen_at)
topic_pages-Tell_example = topic_pages-Tell ascii_tables summaries seen_at
