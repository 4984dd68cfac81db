-- ===== src/Tests/Persona.antt =====
-- Runs of the model of src-tauri/src/persona, and the theorems at concrete inputs.
use knows_me.Base.{
  ℕ, ◌≤◌, ◌≡◌, ◌≢◌, ◌↔◌, ◌⊎◌, inl, inr, refl, sym, ◌∙◌, true, none, some, List, [], ◌∷◌, length,
  All, Member,
}
use knows_me.Base.Ranking.{Pairwise}
use knows_me.Base.Texts.{Text, codes, ascii_tables, trim, is_whitespace}
use knows_me.Base.Results.{ok}
use knows_me.Domain.{Fact, FactSummary, company, note, notion, shared}
use knows_me.Processing.Service.{Masker}
use knows_me.Persona.{PersonaContext, ContextSelection}
use knows_me.Persona.Context.{select_context, ranked, in_scope}
use knows_me.Persona.Context.Grounding.{Agree, Leads, select_context-order, select_context-best}
use knows_me.Base.{map}
use knows_me.Base.Lines.{split_by}
use knows_me.Persona.Context.{relevance, title_relevance, term_hits, terms, count_matches}
use knows_me.Persona.Intent.{detect, recent, has_cue, contains, is_open_question}
use knows_me.Persona.Service as Service
use knows_me.Persona.Service.{KnowledgeReader, Chat, Talk}
use knows_me.Persona.Service.Egress as Egress
use knows_me.Persona.Service.Egress.{ground_and_ask-Outcome, build_context-Grounded}

abbrev fact : ℕ → Fact
fact n = record {
  id = n;
  title = codes "Deploys";
  body = codes "by hand";
  links = [];
  metadata = record {
    provenance = record { source = notion; collected_at = n };
    confirmed = true;
    scope = company;
    confirmed_at = some n;
    visibility = shared;
    category = none;
    topics = [];
    kind = note;
  };
}

abbrev summary : ℕ → FactSummary
summary n = record {
  id = n;
  title = codes "Deploys";
  scope = company;
  kind = note;
  topics = [];
  visibility = shared;
  confirmed = true;
}

abbrev policy : ContextSelection
policy = record { max_facts = 1; scope = none }

abbrev query : Text
query = codes "deploys"

detect_runs : detect ascii_tables (codes "what do i do lately") ≡ some recent
unfolding detect has_cue contains is_open_question
detect_runs = refl

facts-Agree : Agree ascii_tables query policy (fact 1 ∷ fact 2 ∷ [])
facts-Agree f g (inl a) (inl b) e r = a ∙ sym b
facts-Agree f g (inl a) (inr (inl b)) e r = absurd (cc (a, b, e))
facts-Agree f g (inr (inl a)) (inl b) e r = absurd (cc (a, b, e))
facts-Agree f g (inr (inl a)) (inr (inl b)) e r = a ∙ sym b
facts-Agree f g (inl a) (inr (inr x)) e r = absurd x
facts-Agree f g (inr (inl a)) (inr (inr x)) e r = absurd x
facts-Agree f g (inr (inr x)) y e r = absurd x

second-Leads : Leads ascii_tables query policy (fact 1 ∷ fact 2 ∷ []) (fact 2)
second-Leads g (inl a) e r = absurd (cc (a, e))
second-Leads g (inr (inl a)) e r = a
second-Leads g (inr (inr x)) e r = absurd x

swapped : (f : Fact) → Member f (fact 1 ∷ fact 2 ∷ []) ↔ Member f (fact 2 ∷ fact 1 ∷ [])
swapped f = (to, back)
  where
    to : Member f (fact 1 ∷ fact 2 ∷ []) → Member f (fact 2 ∷ fact 1 ∷ [])
    to (inl a) = inr (inl a)
    to (inr (inl a)) = inl a
    to (inr (inr x)) = absurd x

    back : Member f (fact 2 ∷ fact 1 ∷ []) → Member f (fact 1 ∷ fact 2 ∷ [])
    back (inl a) = inr (inl a)
    back (inr (inl a)) = inl a
    back (inr (inr x)) = absurd x

select_context-order_example :
    select_context ascii_tables (fact 1 ∷ fact 2 ∷ []) query policy 2
    ≡ select_context ascii_tables (fact 2 ∷ fact 1 ∷ []) query policy 2
select_context-order_example =
    select_context-order ascii_tables query policy (fact 1 ∷ fact 2 ∷ []) (fact 2 ∷ fact 1 ∷ []) 2
      facts-Agree swapped

select_context-best_example :
    Member
      (ranked ascii_tables query (fact 2)).entry
      (select_context ascii_tables (fact 1 ∷ fact 2 ∷ []) query policy 2).entries
    ⊎ ((length (select_context ascii_tables (fact 1 ∷ fact 2 ∷ []) query policy 2).entries ≡ 1)
        × All
            (λ e. (ranked ascii_tables query (fact 2)).entry.relevance ≤ e.relevance)
            (select_context ascii_tables (fact 1 ∷ fact 2 ∷ []) query policy 2).entries)
select_context-best_example =
    select_context-best ascii_tables query policy (fact 1 ∷ fact 2 ∷ []) 2 (fact 2) second-Leads
      (inr (inl refl)) refl refl

-- Another version of a fact.
abbrev renamed : Fact
renamed = record (fact 1) { title = codes "Deploys!" }

-- Of two versions of a fact with equal relevance the one given first is kept.
first_kept :
    map (λ e. e.title) (select_context ascii_tables (fact 1 ∷ renamed ∷ []) query policy 2).entries
    ≡ codes "Deploys" ∷ []
unfolding select_context relevance title_relevance term_hits terms split_by count_matches
first_kept = refl

second_kept :
    map (λ e. e.title) (select_context ascii_tables (renamed ∷ fact 1 ∷ []) query policy 2).entries
    ≡ codes "Deploys!" ∷ []
unfolding select_context relevance title_relevance term_hits terms split_by count_matches
second_kept = refl

abbrev masker : Masker
masker = record {
  UnmaskMap = Unit {0};
  mask = λ t. (t, tt);
  unmask = λ t v. t;
  is_empty_map = λ v. true;
}

abbrev reader : KnowledgeReader (List Fact)
reader = record {
  search = λ q o k. (ok (summary 1 ∷ []), k);
  get = λ id k. (ok (fact id), k);
  topics = λ o k. (ok [], k);
}

abbrev llm : Chat
llm sent system masked = ok (codes "By hand.")

abbrev number : ℕ → Text
number n = n ∷ []

abbrev start : Talk (List Fact)
start = record { knowledge = []; sent = [] }

answered :
    (Service.ground_and_ask number number ascii_tables masker reader llm policy 64 query none []
      start).0
    ≡ ok (codes "By hand.", record { id = 1; title = codes "Deploys" } ∷ [])
unfolding Service.ground_and_ask trim is_whitespace detect has_cue contains Service.build_context
    Service.fetch select_context Service.converse Service.ask
answered = refl

ground_and_ask-Outcome_example :
    Egress.Outcome number number ascii_tables masker reader llm policy 64 query none [] start (
      Service.ground_and_ask number number ascii_tables masker reader llm policy 64 query none []
        start)
ground_and_ask-Outcome_example =
    ground_and_ask-Outcome number number ascii_tables masker reader llm policy 64 query none []
      start

abbrev built : PersonaContext
built = select_context ascii_tables (fact 1 ∷ []) query policy 1

built_ok :
    (Service.build_context number number ascii_tables masker reader llm policy 64 query []).0
    ≡ ok built
unfolding Service.build_context Service.fetch
built_ok = refl

build_context-Grounded_example :
    (length built.entries ≤ 1)
    × All
        (λ e.
          (f : Fact) × Egress.Read number number ascii_tables masker reader llm policy 64 f
          × (f.metadata.confirmed ≡ true)
          × (in_scope none f ≡ true)
          × (e ≡ (ranked ascii_tables query f).entry))
        built.entries
    × Pairwise (λ a b. a.id ≢ b.id) built.entries
build_context-Grounded_example =
    build_context-Grounded number number ascii_tables masker reader llm policy 64 query [] built
      built_ok
