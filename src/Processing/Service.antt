-- ===== src/Processing/Service.antt =====
-- src-tauri/src/processing/service.rs: the pipeline from collected items to facts and questions.
-- Knowledge and interview are interfaces, the masker and the language model parameters; what a model
-- call or the probe of the connection answers depends on how many were made before. The flag `debug`
-- is the build's `debug_assertions`; the clock and new identities are arguments.
pub mod Accounts
use knows_me.Base.{
  ℕ, suc, ◌+◌, ◌≡◌, Bool, true, false, not, ◌&&◌, ◌||◌, Option, none, some, List, [], ◌∷◌, ◌++◌,
  leb, length, any, take, if◌then◌else◌,
}
use knows_me.Base.Texts.{Text, codes, text_eq, Unicode, trim}
use knows_me.Base.Lines.{is_empty, join}
use knows_me.Base.Results.{AppError, Result, ok, err}
use knows_me.Io.{Io, pure, raise, lift, continue, ◌>>=◌, ◌>>◌}
use knows_me.Domain.{
  FactId, Time, Fact, FactCandidate, FactSummary, Scope, SourceKind, gmail, source_eq, RawItem,
  ProcessReport, QueueItem, QueueItemId, QueueItemKind, confirm, deepen, QueueSort, priority_desc,
}
use knows_me.Storage.{Store, Codec}
use knows_me.Similarity as Similarity
use knows_me.Processing.Entries.{split_facts}
use knows_me.Processing.Router as Router
use knows_me.Processing.Router.{ProcessingDecision, route}
use knows_me.Processing.Pending as Pending
use knows_me.Processing.Pending.{PendingItem}
use knows_me.Processing.Gateway as Gateway
use knows_me.Processing.Gateway.{Model, Link, TransferLogEntry}

pub record Masker : Type 1 where
  pub UnmaskMap : Type 0
  pub mask : Text → Text × UnmaskMap
  pub unmask : Text → UnmaskMap → Text
  pub is_empty_map : UnmaskMap → Bool

-- The parts of `KnowledgeApi` and `InterviewApi` that the pipeline uses; of a topic page only its
-- topic is read.
pub record KnowledgeApi (K : Type 0) : Type 0 where
  pub upsert : Fact → Io K FactId
  pub search : Text → Option Scope → Io K (List FactSummary)
  pub topics : Io K (List Text)

pub record InterviewApi (Q : Type 0) : Type 0 where
  pub enqueue : QueueItem → Io Q QueueItemId
  pub list : QueueSort → Io Q (List QueueItem)

-- The state of the pipeline; `store` has the parked items and the transfer log, `made` counts the new
-- identities, `probes` the questions for the connection.
pub record Pipeline (State K Q : Type 0) : Type 0 where
  pub link : Link State
  pub knowledge : K
  pub interview : Q
  pub report : ProcessReport
  pub made : ℕ
  pub probes : ℕ

pub record KnownTitles : Type 0 where
  pub hint : Option Text
  pub facts : List Text

abbrev pub count_fact : ProcessReport → ProcessReport
count_fact r = record r { facts_created = suc r.facts_created }

abbrev pub count_question : ProcessReport → ProcessReport
count_question r = record r { queue_items_created = suc r.queue_items_created }

abbrev pub count_filtered : ProcessReport → ProcessReport
count_filtered r = record r { filtered = suc r.filtered }

abbrev pub empty_report : ProcessReport
empty_report = record { facts_created = 0; queue_items_created = 0; filtered = 0 }

unfoldable pub fact_from : FactId → Time → FactCandidate → Fact
fact_from id now c = record {
  id = id;
  title = c.title;
  body = c.body;
  links = [];
  metadata = record {
    provenance = c.provenance;
    confirmed = true;
    scope = c.suggested_scope;
    confirmed_at = some now;
    visibility = c.visibility;
    category = none;
    topics = c.topics;
    kind = c.kind;
  };
}

unfoldable pub confirm_item : QueueItemId → Time → FactCandidate → QueueItem
confirm_item id now c = record {
  id = id;
  kind = confirm c;
  priority = 5;
  created_at = now;
  expires_at = none;
}

unfoldable pub deepen_item : QueueItemId → Time → Text → Option Text → QueueItem
deepen_item id now question hypothesis = record {
  id = id;
  kind = deepen question hypothesis;
  priority = 3;
  created_at = now;
  expires_at = none;
}

abbrev pub titles_of : List FactSummary → List Text
titles_of [] = []
titles_of (s ∷ ss) = s.title ∷ titles_of ss

abbrev asked_title : QueueItemKind → List Text → List Text
asked_title (confirm c) rest = c.title ∷ rest
asked_title (deepen question hypothesis) rest = rest

abbrev pub asked_titles : List QueueItem → List Text
asked_titles [] = []
asked_titles (i ∷ is) = asked_title i.kind (asked_titles is)

-- `unwrap_or_default`.
abbrev pub or_default : {A : Type 0} → Result AppError (List A) → List A
or_default (ok xs) = xs
or_default (err e) = []

abbrev pub max_title_hints : ℕ
max_title_hints = 30

abbrev pub max_topic_hints : ℕ
max_topic_hints = 40

abbrev title_hint : List Text → Option Text
title_hint [] = none
title_hint (t ∷ ts) = some (
    codes
      "\n\n[titles already recorded — if an item below means the same thing as one of these, reuse that title EXACTLY instead of writing a new one:\n- "
    ++ (join (codes "\n- ") (t ∷ ts) ++ codes "]"))

abbrev topic_hint : Result AppError (List Text) → Text
topic_hint (err e) = []
topic_hint (ok []) = []
topic_hint (ok (t ∷ ts)) =
    codes "\n\n[topics already in use — reuse one of these when it fits: "
    ++ (join (codes ", ") (take max_topic_hints (t ∷ ts)) ++ codes "]")

abbrev pub hinted : Text → Option Text → Text
hinted masked none = masked
hinted masked (some hint) = masked ++ hint

abbrev or_nothing : Option Text → Text
or_nothing none = []
or_nothing (some t) = t

-- In a debug build an item of Gmail with no entry is kept as a whole.
abbrev pub or_whole_mail : Bool → RawItem → Text → List Text → List Text
or_whole_mail debug raw masked [] =
    if debug && (source_eq raw.source gmail && not (is_empty (trim masked)))
    then masked ∷ []
    else []
or_whole_mail debug raw masked (e ∷ es) = e ∷ es

module _ (m : Masker) (u : Unicode) where
  -- Whether a title may be shown to the model: nothing of it is masked.
  abbrev pub is_safe : Text → Bool
  is_safe title = m.is_empty_map (m.mask title).1 && text_eq (m.mask title).0 title

  abbrev pub is_known : List Text → Text → Bool
  is_known known title = any (λ t. Similarity.is_near_duplicate u t title) known

  unfoldable pub shown_titles : List Text → List Text → List Text
  shown_titles [] shown = shown
  shown_titles (title ∷ titles) shown =
      let t = trim title in
      if leb max_title_hints (length shown)
      then shown
      else shown_titles titles (
          if is_empty t
          then shown
          else if is_safe t && not (is_known shown t)
          then shown ++ (t ∷ [])
          else shown)

  -- The masked text of an item, with the map where it was masked here.
  pub record Obtained : Type 0 where
    pub masked : Text
    pub unmap : Option m.UnmaskMap

  abbrev pub restored : Option m.UnmaskMap → Text → Text
  restored none entry = entry
  restored (some map) entry = m.unmask entry map

  module _ (S : Store) {K Q : Type 0} (knowledge : KnowledgeApi K) (interview : InterviewApi Q)
      (model : Model) (entries : Codec TransferLogEntry) (parked : Codec PendingItem)
      (digest : Text → Text) (number : ℕ → Text) (max_attempts : ℕ) (online : ℕ → Bool)
      (new_id : ℕ → ℕ) (now : Time) (now_text : Text) (debug : Bool) where
    abbrev pub State : Type 0
    State = Pipeline S.State K Q

    abbrev pub on_link : {A : Type 0} → Io (Link S.State) A → Io State A
    on_link f s = ((f s.link).0, record s { link = (f s.link).1 })

    abbrev pub on_store : {A : Type 0} → Io S.State A → Io State A
    on_store f s =
        ((f s.link.store).0, record s { link = record (s.link) { store = (f s.link.store).1 } })

    abbrev pub on_knowledge : {A : Type 0} → Io K A → Io State A
    on_knowledge f s = ((f s.knowledge).0, record s { knowledge = (f s.knowledge).1 })

    abbrev pub on_interview : {A : Type 0} → Io Q A → Io State A
    on_interview f s = ((f s.interview).0, record s { interview = (f s.interview).1 })

    -- A result that is looked at and does not end the block.
    abbrev pub attempted : {A : Type 0} → Io State A → Io State (Result AppError A)
    attempted f s = (ok (f s).0, (f s).1)

    abbrev pub counted : (ProcessReport → ProcessReport) → Io State (Unit {0})
    counted f s = (ok tt, record s { report = f s.report })

    abbrev pub fresh : Io State ℕ
    fresh s = (ok (new_id s.made), record s { made = suc s.made })

    unfoldable pub known_titles : Io State KnownTitles
    known_titles = do
      found ← attempted (on_knowledge (knowledge.search [] none))
      asked ← attempted (on_interview (interview.list priority_desc))
      let facts = titles_of (or_default found)
      pure (record {
        hint = title_hint (shown_titles (asked_titles (or_default asked) ++ facts) []);
        facts = facts;
      })

    unfoldable pub obtain : RawItem → Option (List ℕ) → Io State Obtained
    obtain raw (some image) = do
      masked ←
          on_link
            (Gateway.vision_extract S entries number model max_attempts now_text raw.source image)
      pure (record { masked = masked; unmap = none })
    obtain raw none =
        let masked = m.mask (or_nothing raw.text) in
        pure (record { masked = masked.0; unmap = some masked.1 })

    -- What a decision of the router leads to.
    unfoldable pub act : KnownTitles → ProcessingDecision → Io State (Unit {0})
    act known (Router.store c) = do
      id ← fresh
      on_knowledge (knowledge.upsert (fact_from id now c))
      counted count_fact
    act known (Router.confirm c) =
        if is_known known.facts c.title then counted count_filtered else (do
          id ← fresh
          on_interview (interview.enqueue (confirm_item id now c))
          counted count_question)
    act known (Router.deepen question hypothesis) = do
      id ← fresh
      on_interview (interview.enqueue (deepen_item id now question hypothesis))
      counted count_question
    act known (Router.drop reason) = counted count_filtered

    unfoldable pub process_entry :
        RawItem → Obtained → KnownTitles → Text → Text → Io State (Unit {0})
    process_entry raw got known vocab entry = do
      labels ← on_link (
          Gateway.classify S entries number model max_attempts now_text raw.source (entry ++ vocab))
      act known (route u debug labels (restored got.unmap entry) raw)

    unfoldable pub process_entries :
        RawItem → Obtained → KnownTitles → Text → List Text → Io State (Unit {0})
    process_entries raw got known vocab [] = pure tt
    process_entries raw got known vocab (e ∷ es) =
        process_entry raw got known vocab e >>= λ _. process_entries raw got known vocab es

    unfoldable pub process_some : RawItem → Obtained → KnownTitles → List Text → Io State (Unit {0})
    process_some raw got known [] = counted count_filtered
    process_some raw got known (e ∷ es) = do
      topics ← attempted (on_knowledge knowledge.topics)
      process_entries raw got known (topic_hint topics) (e ∷ es)

    unfoldable pub process_one : RawItem → Io State (Unit {0})
    process_one raw = do
      got ← obtain raw raw.image_png
      known ← known_titles
      summary ← on_link (
          Gateway.summarize S entries number model max_attempts now_text raw.source
            (hinted got.masked known.hint))
      process_some raw got known (or_whole_mail debug raw got.masked (split_facts summary))

    unfoldable pub is_online : Io State Bool
    is_online s = (ok (online s.probes), record s { probes = suc s.probes })

    unfoldable pub park : RawItem → Io State (Unit {0})
    park raw = on_store (Pending.push S parked digest raw now_text)

    -- An item that could not be processed is parked.
    abbrev pub or_parked : RawItem → Result AppError (Unit {0}) → Io State (Unit {0})
    or_parked raw (ok a) = pure tt
    or_parked raw (err e) = park raw

    unfoldable pub process_item : RawItem → Io State (Unit {0})
    process_item raw = do
      connected ← is_online
      if connected then (attempted (process_one raw) >>= or_parked raw) else park raw

    unfoldable pub process_all : List RawItem → Io State (Unit {0})
    process_all [] = pure tt
    process_all (raw ∷ rest) = process_item raw >>= λ _. process_all rest

    -- The report begins empty.
    unfoldable pub process : List RawItem → Io State ProcessReport
    process items s =
        continue (process_all items (record s { report = empty_report })).0
          (λ _ t. (ok t.report, t)) (process_all items (record s { report = empty_report })).1

    abbrev raws : List PendingItem → List RawItem
    raws [] = []
    raws (p ∷ ps) = p.raw ∷ raws ps

    unfoldable pub resume_pending : Io State ProcessReport
    resume_pending = do
      connected ← is_online
      if connected
          then (do items ← on_store (Pending.drain S parked digest); process (raws items))
          else pure empty_report

    abbrev pub add_reports : ProcessReport → ProcessReport → ProcessReport
    add_reports a b = record {
      facts_created = a.facts_created + b.facts_created;
      queue_items_created = a.queue_items_created + b.queue_items_created;
      filtered = a.filtered + b.filtered;
    }

    -- `ProcessingSink`: the totals beside the pipeline.
    pub record Sink : Type 0 where
      pub processing : State
      pub totals : ProcessReport

    unfoldable pub accept : List RawItem → Io Sink (Unit {0})
    accept items k =
        continue (process items k.processing).0
          (λ report t. (ok tt, record t { totals = add_reports k.totals report }))
          (record k { processing = (process items k.processing).1 })

    unfoldable pub take_totals : Sink → ProcessReport × Sink
    take_totals k = (k.totals, record k { totals = empty_report })
