-- ===== src/Sharing/Mcp/Tools.antt =====
-- The tool handlers of src-tauri/src/sharing/mcp.rs. Parsing an identity (a UUID) is a parameter.
use knows_me.Base.{
  ℕ, suc, Bool, ◌&&◌, ◌||◌, Option, none, some, List, [], ◌∷◌, ◌++◌, map, leb, ltb, length, take,
  if◌then◌else◌,
}
use knows_me.Base.Texts.{Text, codes, trim, Unicode}
use knows_me.Base.Lines.{is_empty}
use knows_me.Base.Results.{AppError, Result, ok, err}
use knows_me.Domain.{Fact, FactId, CategoryName}
use knows_me.Domain.Category as Category
use knows_me.Sharing.{AccessError, Token}
use knows_me.Sharing.Envelope.{envelope, sanitize_field}
use knows_me.Sharing.Knowledge as Knowledge
use knows_me.Sharing.Knowledge.{Reads, Count, Access}
use knows_me.Sharing.Mcp.{
  Json, null, natural, get, as_str, CategoryOut, LinkOut, PageOut, GuidePage, ToolOutput,
  categories_out, search_out, page_out, guide_out, ToolError, invalid_input, tool_error, updated_at,
  excerpt, served_category, search_hit,
}

-- A handler: its answer, and the service after it.
abbrev pub Handler : Type 0 → Type 0 → Type 0
Handler K A = K → Result ToolError A × K

module _ {K A B : Type 0} where
  -- `?` on the answer of a tool of the sharing service.
  abbrev pub continue : Result AccessError A → (A → Handler K B) → Handler K B
  continue (ok a) f k = f a k
  continue (err e) f k = (err (tool_error e), k)

  abbrev pub from : Access K A → (A → Handler K B) → Handler K B
  from q f k = continue (q k).0 f (q k).1

abbrev pub bad : {K A : Type 0} → Text → Handler K A
bad name k = (err (invalid_input name), k)

abbrev default_search_limit : ℕ
default_search_limit = 10

abbrev max_search_limit : ℕ
max_search_limit = 50

abbrev max_query_chars : ℕ
max_query_chars = 500

abbrev category_out : Count → CategoryOut
category_out c = record { name = sanitize_field c.name; page_count = c.pages; summary = none }

abbrev guide_page : Fact → GuidePage
guide_page f = record {
  id = f.id;
  title = sanitize_field f.title;
  excerpt = envelope (excerpt f.body);
}

-- The limit that is asked for, from 1 to 50.
abbrev pub limit_of : Option Json → Option ℕ
limit_of none = some default_search_limit
limit_of (some null) = some default_search_limit
limit_of (some (natural n)) = if leb 1 n && leb n max_search_limit then some n else none
limit_of (some _) = none

abbrev pub is_bad_query : Text → Bool
is_bad_query query = is_empty (trim query) || ltb max_query_chars (length query)

abbrev pub found_out : ℕ → List Fact → ToolOutput
found_out limit facts =
    search_out
      (record { results = map search_hit (take limit facts); truncated = ltb limit (length facts) })

abbrev id_of : Option Text → (Text → Option FactId) → Option FactId
id_of none parse_uuid = none
id_of (some raw) parse_uuid = parse_uuid raw

module _ (u : Unicode) (parse_uuid : Text → Option FactId) {K : Type 0} (R : Reads K)
    (t : Token) where
  unfoldable pub handle_list_categories : Handler K ToolOutput
  handle_list_categories =
      from (Knowledge.category_counts R t)
        (λ counts k. (ok (categories_out (map category_out counts)), k))

  abbrev pub search_limited : Text → Option ℕ → Handler K ToolOutput
  search_limited query none = bad (codes "limit")
  search_limited query (some limit) =
      from (Knowledge.search_visible R t query (suc limit))
        (λ facts k. (ok (found_out limit facts), k))

  abbrev pub search_query : Option Text → Json → Handler K ToolOutput
  search_query none args = bad (codes "query")
  search_query (some query) args =
      if is_bad_query query
      then bad (codes "query")
      else search_limited query (limit_of (get (codes "limit") args))

  unfoldable pub handle_search : Json → Handler K ToolOutput
  handle_search args = search_query (as_str (get (codes "query") args)) args

  -- One link of a page: one that the token cannot see is left out.
  abbrev pub linked : Result AccessError Fact → List LinkOut → Result ToolError (List LinkOut)
  linked (ok f) out = ok (out ++ (record { id = f.id; title = sanitize_field f.title } ∷ []))
  linked (err AccessError.not_found) out = ok out
  linked (err e) out = err (tool_error e)

  abbrev pub next_link :
      Result ToolError (List LinkOut)
      → (List LinkOut → Handler K (List LinkOut))
      → Handler K (List LinkOut)
  next_link (ok out) f k = f out k
  next_link (err e) f k = (err e, k)

  unfoldable pub collect_links : List FactId → List LinkOut → Handler K (List LinkOut)
  collect_links [] out k = (ok out, k)
  collect_links (id ∷ ids) out k =
      next_link (linked (Knowledge.get_page R t id k).0 out) (λ more. collect_links ids more)
        (Knowledge.get_page R t id k).1

  abbrev pub page_from : Fact → List LinkOut → PageOut
  page_from f links = record {
    id = f.id;
    title = sanitize_field f.title;
    category = served_category f.metadata.category;
    body = envelope f.body;
    links = links;
    provenance = record {
      source = f.metadata.provenance.source;
      collected_at = f.metadata.provenance.collected_at;
    };
    confirmed_at = f.metadata.confirmed_at;
    updated_at = updated_at f.metadata;
  }

  abbrev pub shown_page : Fact → Result ToolError (List LinkOut) → Result ToolError ToolOutput
  shown_page f (ok links) = ok (page_out (page_from f links))
  shown_page f (err e) = err e

  abbrev pub page_with : Fact → Handler K ToolOutput
  page_with f k = let links = collect_links f.links [] k in (shown_page f links.0, links.1)

  abbrev pub page_by : Option FactId → Handler K ToolOutput
  page_by none = bad (codes "id")
  page_by (some id) = from (Knowledge.get_page R t id) page_with

  unfoldable pub parse_fact_id : Json → Option FactId
  parse_fact_id args = id_of (as_str (get (codes "id") args)) parse_uuid

  unfoldable pub handle_get_page : Json → Handler K ToolOutput
  handle_get_page args = page_by (parse_fact_id args)

  abbrev pub guide_by : Result AppError CategoryName → Handler K ToolOutput
  guide_by (err e) = bad (codes "category")
  guide_by (ok category) = from (Knowledge.guide_pages R t category) (λ pages k. (
    ok (
        guide_out (record {
          category = sanitize_field category;
          summary = none;
          pages = map guide_page pages;
        })),
    k,
  ))

  abbrev pub guide_for : Option Text → Handler K ToolOutput
  guide_for none = bad (codes "category")
  guide_for (some raw) = guide_by (Category.parse u raw)

  unfoldable pub handle_get_guide : Json → Handler K ToolOutput
  handle_get_guide args = guide_for (as_str (get (codes "category") args))
