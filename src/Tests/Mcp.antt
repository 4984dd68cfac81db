-- ===== src/Tests/Mcp.antt =====
-- Runs of the model of src-tauri/src/sharing/mcp.rs, and the theorems at concrete inputs.
use knows_me.Base.{◌≤◌, ◌≡◌, ◌⊎◌, refl, true, false, Option, none, some, [], ◌∷◌, length}
use knows_me.Base.Texts.{Text, codes, ascii_tables, trim, is_whitespace}
use knows_me.Base.Results.{ok, err}
use knows_me.Domain.{Fact, FactId, FactSummary, company, note, notion, shared}
use knows_me.Storage.{Memory, in_memory, Bytes}
use knows_me.Persona.LocalApi.{readable, is_loopback_host, split_once}
use knows_me.Sharing.{Token, owner_token, can_access}
use knows_me.Sharing.Envelope.{envelope, sanitize_field}
use knows_me.Sharing.Knowledge.{Reads, search_visible, collect_hits, get_page}
use knows_me.Sharing.Mcp.{
  Json, null, natural, string, object, field, no_fields, SearchOut, PageOut, ToolOutput, search_out,
  page_out, search_hit, Headers, resolve_identity, ToolError,
}
use knows_me.Sharing.Mcp.Serving.{Admitted}
use knows_me.Sharing.Mcp.Tools as Tools
use knows_me.Sharing.Mcp.Tools.{handle_search, handle_get_page}
use knows_me.Sharing.Mcp.Server.{RpcRequest, Served, auth_rejection}
use knows_me.Sharing.Mcp.Answers as Answers
use knows_me.Sharing.Mcp.Answers.{handle_search-Visible, handle_get_page-Visible, mcp_post-Admitted}
use knows_me.Tests.Packs.{token_codec}

abbrev fact : Fact
fact = record {
  id = 1;
  title = codes "Deploys";
  body = codes "by hand";
  links = 1 ∷ [];
  metadata = record {
    provenance = record { source = notion; collected_at = 7 };
    confirmed = true;
    scope = company;
    confirmed_at = some 8;
    visibility = shared;
    category = none;
    topics = [];
    kind = note;
  };
}

abbrev summary : FactSummary
summary = record {
  id = 1;
  title = codes "Deploys";
  scope = company;
  kind = note;
  topics = [];
  visibility = shared;
  confirmed = true;
}

abbrev reads : Reads (Unit {0})
reads = record {
  search = λ q o k. (ok (summary ∷ []), k);
  get = λ id k. (ok fact, k);
  all_facts = λ k. (ok (fact ∷ []), k);
}

abbrev parse_uuid : Text → Option FactId
parse_uuid t = some 1

abbrev query : Json
query =
    object (
      field (codes "query") (string (codes "deploys"))
        (field (codes "limit") (natural 1) no_fields))

abbrev page_query : Json
page_query = object (field (codes "id") (string (codes "1")) no_fields)

abbrev found : SearchOut
found = record { results = search_hit fact ∷ []; truncated = false }

found_ok :
    (handle_search ascii_tables parse_uuid reads owner_token query tt).0 ≡ ok (search_out found)
unfolding handle_search search_visible collect_hits trim is_whitespace can_access
found_ok = refl

handle_search-Visible_example :
    (length found.results ≤ 50)
    × Answers.Searched ascii_tables parse_uuid reads owner_token query tt found
handle_search-Visible_example =
    handle_search-Visible ascii_tables parse_uuid reads owner_token query tt found found_ok

abbrev page : PageOut
page = record {
  id = 1;
  title = sanitize_field (codes "Deploys");
  category = none;
  body = envelope (codes "by hand");
  links = record { id = 1; title = sanitize_field (codes "Deploys") } ∷ [];
  provenance = record { source = notion; collected_at = 7 };
  confirmed_at = some 8;
  updated_at = 8;
}

page_ok :
    (handle_get_page ascii_tables parse_uuid reads owner_token page_query tt).0 ≡ ok (page_out page)
unfolding handle_get_page Tools.parse_fact_id get_page Tools.collect_links can_access
page_ok = refl

handle_get_page-Visible_example :
    Answers.VisiblePage ascii_tables parse_uuid reads owner_token page_query tt page
handle_get_page-Visible_example =
    handle_get_page-Visible ascii_tables parse_uuid reads owner_token page_query tt page page_ok

abbrev write : ToolOutput → Text
write out = codes "{}"

abbrev parse_request : Bytes → Option RpcRequest
parse_request body = some (record { id = some null; method = codes "ping"; params = null })

abbrev headers : Headers
headers = record { authorization = none; host = some (readable (codes "localhost:8766")) }

abbrev served : Served Memory (Unit {0})
served = record { tokens = []; knowledge = tt }

-- The owner is admitted on its own listener, and not on the shared one.
owner_admitted :
    (resolve_identity in_memory token_codec (λ s. s) headers true []).0 ≡ ok owner_token
unfolding resolve_identity is_loopback_host trim is_whitespace split_once
owner_admitted = refl

owner_refused :
    (resolve_identity in_memory token_codec (λ s. s) headers false []).0
    ≡ err ToolError.unauthorized
unfolding resolve_identity
owner_refused = refl

mcp_post-Admitted_example :
    ((e : ToolError) × ((Answers.posted ascii_tables parse_uuid write
          (codes "1")
          reads
          in_memory
          token_codec
          (λ s. s)
          parse_request
          true
          headers
          []
          served).0
        ≡ auth_rejection e)
      × ((Answers.posted ascii_tables parse_uuid write
            (codes "1")
            reads
            in_memory
            token_codec
            (λ s. s)
            parse_request
            true
            headers
            []
            served).1.knowledge
          ≡ tt))
    ⊎ ((t : Token) × Admitted in_memory token_codec (λ s. s) headers true [] t
        × ((Answers.posted ascii_tables parse_uuid write
              (codes "1")
              reads
              in_memory
              token_codec
              (λ s. s)
              parse_request
              true
              headers
              []
              served).0
            ≡ (Answers.served ascii_tables parse_uuid write
                (codes "1")
                reads
                in_memory
                token_codec
                (λ s. s)
                parse_request
                true
                t
                []
                tt).0)
        × ((Answers.posted ascii_tables parse_uuid write
              (codes "1")
              reads
              in_memory
              token_codec
              (λ s. s)
              parse_request
              true
              headers
              []
              served).1.knowledge
            ≡ (Answers.served ascii_tables parse_uuid write
                (codes "1")
                reads
                in_memory
                token_codec
                (λ s. s)
                parse_request
                true
                t
                []
                tt).1))
mcp_post-Admitted_example =
    mcp_post-Admitted ascii_tables parse_uuid write (codes "1") reads in_memory token_codec (λ s. s)
      parse_request true headers [] served
