-- ===== src/Persona/Service.antt =====
-- src-tauri/src/persona/service.rs: answers and drafts from confirmed facts. Knowledge is an interface,
-- the masker and the language model are parameters; what the model answers depends on what it was sent
-- before.
pub mod Egress
use knows_me.Base.{
  ℕ, suc, ◌+◌, Bool, true, false, not, ◌&&◌, ◌||◌, Option, none, some, List, [], ◌∷◌, ◌++◌, leb,
  ltb, ◌==◌, length, take, filter, if◌then◌else◌,
}
use knows_me.Base.Texts.{Text, codes, Unicode, trim}
use knows_me.Base.Lines.{is_empty, join}
use knows_me.Base.Results.{AppError, Result, ok, err, invalid_input}
use knows_me.Base.Sort.{sort_by}
use knows_me.Base.Ranking.{dedup_by}
use knows_me.Io.{Io, pure, raise, continue, ◌>>=◌}
use knows_me.Domain.{Fact, FactId, FactSummary, Scope, Time}
use knows_me.Processing.Service.{Masker}
use knows_me.Persona.{
  ChatTurn, FactRef, PersonaReply, DraftKind, DraftRequest, TopicPage, ContextEntry, PersonaContext,
  ContextSelection, PersonaPrompt, max_prompt_chars, no_context_reply,
}
use knows_me.Persona.Context.{
  select_context, title_relevance, retrieval_query, render_prompt, wrap32, sum, time_ge,
}
use knows_me.Persona.Intent.{Intent, concerns, interests, recent, detect}

pub record KnowledgeReader (K : Type 0) : Type 0 where
  pub search : Text → Option Scope → Io K (List FactSummary)
  pub get : FactId → Io K Fact
  pub topics : Option Scope → Io K (List TopicPage)

-- The language model: the answer to a pair of texts, with the pairs that were sent before.
abbrev pub Chat : Type 0
Chat = List (Text × Text) → Text → Text → Result AppError Text

-- The state of a conversation: that of knowledge, and what was sent to the model.
pub record Talk (K : Type 0) : Type 0 where
  pub knowledge : K
  pub sent : List (Text × Text)

abbrev pub summary_by_id : FactSummary → FactSummary → Bool
summary_by_id a b = leb a.id b.id

abbrev pub same_summary : FactSummary → FactSummary → Bool
same_summary a b = a.id == b.id

abbrev pub with_fact : Result AppError Fact → List Fact → List Fact
with_fact (ok f) rest = f ∷ rest
with_fact (err e) rest = rest

abbrev pub confirmed_only : List FactSummary → List FactSummary
confirmed_only = filter (λ s. s.confirmed)

abbrev pub concerning : Intent → List TopicPage → List TopicPage
concerning concerns = filter (λ p. ltb 0 p.concerns)
concerning interests = filter (λ p. ltb 1 p.mentions)
concerning recent = λ ps. ps

-- Latest first.
abbrev pub in_order : Intent → List TopicPage → List TopicPage
in_order concerns ps = ps
in_order interests ps = ps
in_order recent ps = sort_by (λ a b. time_ge a.last_seen b.last_seen) ps

abbrev pub mentions_of : List TopicPage → List ℕ
mentions_of [] = []
mentions_of (p ∷ ps) = p.mentions ∷ mentions_of ps

abbrev titles_of : List FactSummary → List Text
titles_of [] = []
titles_of (s ∷ ss) = s.title ∷ titles_of ss

abbrev pub refs_of : List ContextEntry → List FactRef
refs_of [] = []
refs_of (e ∷ es) = record { id = e.id; title = e.title } ∷ refs_of es

-- Topics are looked for only where no draft is asked for.
abbrev pub intent_of : Unicode → Option DraftKind → Text → Option Intent
intent_of u none input = detect u input
intent_of u (some k) input = none

module _ (number : ℕ → Text) (day : Time → Text) where
  abbrev recency : Option Time → Text
  recency none = codes "미상"
  recency (some t) = day t

  abbrev page_entry : TopicPage → List FactSummary → List ContextEntry → List ContextEntry
  page_entry p [] rest = rest
  page_entry p (lead ∷ more) rest =
      record {
        id = lead.id;
        title = codes "[주제] " ++ p.topic;
        body =
            number p.mentions
            ++ (codes "번 언급 · 그중 걸림 "
                ++ (number p.concerns
                    ++ (codes "건 · 최근 "
                        ++ (recency p.last_seen
                            ++ (codes "\n관련: "
                                ++ join (codes " / ") (titles_of (take 4 (lead ∷ more))))))));
        scope = lead.scope;
        relevance = wrap32 p.mentions;
      }
      ∷ rest

  abbrev pub page_entries : List TopicPage → List ContextEntry
  page_entries [] = []
  page_entries (p ∷ ps) = page_entry p p.facts (page_entries ps)

  module _ (u : Unicode) (m : Masker) {K : Type 0} (R : KnowledgeReader K) (llm : Chat)
      (sel : ContextSelection) (fetch_cap : ℕ) where
    abbrev pub by_title : Text → FactSummary → FactSummary → Bool
    by_title prompt a b =
        ltb (title_relevance u prompt b.title) (title_relevance u prompt a.title)
        || (title_relevance u prompt a.title == title_relevance u prompt b.title && leb a.id b.id)

    -- A fact that cannot be read is left out.
    unfoldable pub fetch : List FactSummary → Io K (List Fact)
    fetch [] k = (ok [], k)
    fetch (s ∷ ss) k =
        let got = R.get s.id k in
        continue (fetch ss got.1).0 (λ rest k'. (ok (with_fact got.0 rest), k')) (fetch ss got.1).1

    abbrev pub widened : List FactSummary → List FactSummary → List FactSummary
    widened candidates population =
        if ltb (length candidates) sel.max_facts then candidates ++ population else candidates

    abbrev pub shortlist : Text → List FactSummary → List FactSummary
    shortlist prompt candidates =
        take fetch_cap
          (sort_by (by_title prompt) (dedup_by same_summary (sort_by summary_by_id candidates)))

    unfoldable pub build_context : Text → Io K PersonaContext
    build_context prompt = do
      hits ← R.search prompt sel.scope
      all ← R.search [] sel.scope
      facts ← fetch (shortlist prompt (widened (confirmed_only hits) (confirmed_only all)))
      pure (select_context u facts prompt sel (length (confirmed_only all)))

    unfoldable pub build_topic_context : Intent → Io K PersonaContext
    build_topic_context want = do
      pages ← R.topics sel.scope
      let shown = take sel.max_facts (in_order want (concerning want pages))
      pure (record { entries = page_entries shown; total_confirmed = sum (mentions_of shown) })

    abbrev pub State : Type 0
    State = Talk K

    abbrev pub on_knowledge : {A : Type 0} → Io K A → Io State A
    on_knowledge f s = ((f s.knowledge).0, record s { knowledge = (f s.knowledge).1 })

    unfoldable pub ask : Text → Text → Io State Text
    ask system masked s =
        (llm s.sent system masked, record s { sent = s.sent ++ ((system, masked) ∷ []) })

    abbrev pub context_for : Option Intent → Text → List ChatTurn → Io K PersonaContext
    context_for (some want) input history = build_topic_context want
    context_for none input history = build_context (retrieval_query input history)

    unfoldable pub converse :
        Text → Option DraftKind → List ChatTurn → PersonaContext → Io State (Text × List FactRef)
    converse input kind history ctx = do
      let prompt = render_prompt ctx input kind history
      let masked = m.mask prompt.user_document
      raw ← ask prompt.system masked.0
      pure (m.unmask raw masked.1, refs_of ctx.entries)

    abbrev pub answer :
        Text
        → Option DraftKind
        → List ChatTurn
        → PersonaContext
        → List ContextEntry
        → Io State (Text × List FactRef)
    answer input kind history ctx [] = pure (no_context_reply, [])
    answer input kind history ctx (e ∷ es) = converse input kind history ctx

    unfoldable pub ground_and_ask :
        Text → Option DraftKind → List ChatTurn → Io State (Text × List FactRef)
    ground_and_ask input kind history =
        if is_empty (trim input)
        then raise invalid_input
        else if ltb max_prompt_chars (length input)
        then raise invalid_input
        else on_knowledge (context_for (intent_of u kind input) input history) >>= λ ctx.
            answer input kind history ctx ctx.entries

    unfoldable pub chat : Text → List ChatTurn → Io State PersonaReply
    chat prompt history = do
      reply ← ground_and_ask prompt none history
      pure (record { text = reply.0; sources = reply.1 })

    unfoldable pub draft : DraftRequest → Io State Text
    draft req = do reply ← ground_and_ask req.prompt (some req.kind) []; pure reply.0
