-- ===== src/Ingestion/Service.antt =====
-- src-tauri/src/ingestion/service.rs and ingestion/registry.rs: collecting from the connectors, one run
-- per source at a time. The connectors are an interface over a state of their own, the sink an operation;
-- the reporting of progress is left out. `now` is the time that the marks record.
pub mod Locks
pub mod Passes
pub mod Draining
pub mod Collecting
use knows_me.Base.{
  ℕ, zero, suc, ◌+◌, Bool, true, false, not, Option, none, some, List, [], ◌∷◌, ◌++◌, length, any,
  filter, if◌then◌else◌,
}
use knows_me.Base.Texts.{Text, text_eq}
use knows_me.Base.Results.{AppError, Result, ok, err}
use knows_me.Io.{Io, pure, lift, continue, ◌>>=◌, ◌>>◌}
use knows_me.Domain.{SourceKind, source_eq, RawItem, IngestReport, ErrorMessage}
use knows_me.Storage.{Store, Codec}
use knows_me.Ingestion.Cursors.{Cursor, load_cursor, save_cursor, is_seen, mark_seen}

-- The trait `Connector`, over the state `C` of all connectors and the configurations `Config`.
pub record Connector (C Config : Type 0) : Type 0 where
  pub id : SourceKind
  pub sync : Option Cursor → Io C (List RawItem × Cursor)
  pub remaining : Option Cursor → Io C ℕ
  pub configure : Config → Io C (Unit {0})

-- The registry has one connector for a source; the order is the one in which the map gives its keys.
abbrev pub Registry : Type 0 → Type 0 → Type 0
Registry C Config = List (Connector C Config)

module _ {C Config : Type 0} where
  abbrev pub unregister : SourceKind → Registry C Config → Registry C Config
  unregister source r = filter (λ c. not (source_eq c.id source)) r

  unfoldable pub register : Connector C Config → Registry C Config → Registry C Config
  register connector r = connector ∷ unregister connector.id r

  unfoldable pub get : SourceKind → Registry C Config → Option (Connector C Config)
  get source [] = none
  get source (c ∷ cs) = if source_eq c.id source then some c else get source cs

  unfoldable pub sources : Registry C Config → List SourceKind
  sources [] = []
  sources (c ∷ cs) = c.id ∷ sources cs

-- The state of a run: the store, the connectors, the sink, the running sources and the report.
pub record Run (State C K : Type 0) : Type 0 where
  pub store : State
  pub connectors : C
  pub sink : K
  pub running : List SourceKind
  pub report : IngestReport

abbrev pub empty_report : IngestReport
empty_report = record { collected = 0; skipped = 0; errors = 0; remaining = 0; error_messages = [] }

abbrev pub count_skipped : IngestReport → IngestReport
count_skipped r = record r { skipped = suc r.skipped }

abbrev pub count_collected : IngestReport → IngestReport
count_collected r = record r { collected = suc r.collected }

abbrev pub count_error : SourceKind → AppError → IngestReport → IngestReport
count_error source e r = record r {
  errors = suc r.errors;
  error_messages = r.error_messages ++ (record { source = source; cause = e } ∷ []);
}

abbrev pub count_remaining : ℕ → IngestReport → IngestReport
count_remaining n r = record r { remaining = r.remaining + n }

abbrev pub is_running : SourceKind → List SourceKind → Bool
is_running source running = any (λ s. source_eq s source) running

-- Comparison of two cursors, the first of which may be missing.
abbrev pub cursor_eq : Option Cursor → Cursor → Bool
cursor_eq none next = false
cursor_eq (some before) next = text_eq before next

-- `unwrap_or`.
abbrev pub value_or : {A : Type 0} → A → Result AppError A → A
value_or a (ok b) = b
value_or a (err e) = a

module _ (S : Store) {C K Config : Type 0} (registry : Registry C Config)
    (accept : List RawItem → Io K (Unit {0})) (utf8 : Codec Text) (digest : Text → Text)
    (now : Text) where
  abbrev pub State : Type 0
  State = Run S.State C K

  abbrev pub on_store : {A : Type 0} → Io S.State A → Io State A
  on_store f s = ((f s.store).0, record s { store = (f s.store).1 })

  abbrev pub on_connectors : {A : Type 0} → Io C A → Io State A
  on_connectors f s = ((f s.connectors).0, record s { connectors = (f s.connectors).1 })

  abbrev pub on_sink : {A : Type 0} → Io K A → Io State A
  on_sink f s = ((f s.sink).0, record s { sink = (f s.sink).1 })

  abbrev pub counted : (IngestReport → IngestReport) → State → State
  counted f s = record s { report = f s.report }

  abbrev pub count : (IngestReport → IngestReport) → Io State (Unit {0})
  count f s = (ok tt, counted f s)

  unfoldable pub try_lock : SourceKind → State → Bool × State
  try_lock source s =
      if is_running source s.running
      then (false, s)
      else (true, record s { running = source ∷ s.running })

  unfoldable pub unlock : SourceKind → State → State
  unlock source s = record s { running = filter (λ r. not (source_eq r source)) s.running }

  -- One item of a sync: a seen one is skipped, another is marked and kept.
  unfoldable pub sieve : SourceKind → RawItem → List RawItem → Io State (List RawItem)
  sieve source it fresh = do
    seen ← on_store (is_seen S digest source it.external_id)
    if seen then (do count count_skipped; pure fresh) else (do
      on_store (mark_seen S digest utf8 source it.external_id now)
      count count_collected
      pure (fresh ++ (it ∷ [])))

  unfoldable pub gather : SourceKind → List RawItem → List RawItem → Io State (List RawItem)
  gather source [] fresh = pure fresh
  gather source (it ∷ items) fresh = sieve source it fresh >>= λ kept. gather source items kept

  unfoldable pub hand_over : List RawItem → Io State (Unit {0})
  hand_over [] = pure tt
  hand_over (it ∷ items) = on_sink (accept (it ∷ items))

  -- One pass with a connector; whether the cursor moved.
  unfoldable pub pass : SourceKind → Connector C Config → Io State Bool
  pass source connector = do
    cursor ← on_store (load_cursor S utf8 source)
    synced ← on_connectors (connector.sync cursor)
    fresh ← gather source synced.0 []
    hand_over fresh
    on_store (save_cursor S utf8 source synced.1)
    pure (not (cursor_eq cursor synced.1))

  abbrev pass_of : SourceKind → Option (Connector C Config) → Io State Bool
  pass_of source none = pure false
  pass_of source (some connector) = pass source connector

  unfoldable pub run_one_inner : SourceKind → Io State Bool
  run_one_inner source = pass_of source (get source registry)

  abbrev pub contained : SourceKind → Result AppError Bool → State → State
  contained source (ok moved) s = s
  contained source (err e) s = counted (count_error source e) s

  abbrev with_lock : SourceKind → (State → State) → Bool × State → State
  with_lock source body (false, s) = counted count_skipped s
  with_lock source body (true, s) = unlock source (body s)

  abbrev pub run_inner_contained : SourceKind → State → State
  run_inner_contained source s =
      contained source (run_one_inner source s).0 (run_one_inner source s).1

  unfoldable pub run_one : SourceKind → State → State
  run_one source s = with_lock source (run_inner_contained source) (try_lock source s)

  -- Whether another pass is made.
  abbrev pub advances : Result AppError Bool → Bool
  advances (ok moved) = moved
  advances (err e) = false

  unfoldable pub run_until_done : SourceKind → ℕ → State → State
  run_until_done source zero s = s
  run_until_done source (suc passes) s =
      let t = run_inner_contained source s in
      if advances (run_one_inner source s).0 then run_until_done source passes t else t

  abbrev remaining_of : SourceKind → Option (Connector C Config) → State → ℕ × State
  remaining_of source none s = (0, s)
  remaining_of source (some connector) s =
      let loaded = on_store (load_cursor S utf8 source) s in
      let asked = on_connectors (connector.remaining (value_or none loaded.0)) loaded.1 in
      (value_or 0 asked.0, asked.1)

  unfoldable pub source_remaining : SourceKind → State → ℕ × State
  source_remaining source s = remaining_of source (get source registry) s

  abbrev pub add_remaining : SourceKind → State → State
  add_remaining source s =
      let answer = source_remaining source s in counted (count_remaining answer.0) answer.1

  abbrev pub configure_of : Config → Option (Connector C Config) → Io State (Unit {0})
  configure_of config none = pure tt
  configure_of config (some connector) = on_connectors (connector.configure config)

  unfoldable pub configure : SourceKind → Config → Io State (Unit {0})
  configure source config = configure_of config (get source registry)

  abbrev targets : Option SourceKind → List SourceKind
  targets none = sources registry
  targets (some source) = source ∷ []

  unfoldable pub trigger_each : List SourceKind → State → State
  trigger_each [] s = s
  trigger_each (source ∷ rest) s = trigger_each rest (add_remaining source (run_one source s))

  -- The report begins empty.
  unfoldable pub trigger : Option SourceKind → Io State IngestReport
  trigger source s =
      let t = trigger_each (targets source) (record s { report = empty_report }) in (ok t.report, t)

  abbrev drain_locked : SourceKind → ℕ → Bool × State → State
  drain_locked source max_passes (false, s) = counted count_skipped s
  drain_locked source max_passes (true, s) =
      add_remaining source (unlock source (run_until_done source max_passes s))

  unfoldable pub drain : SourceKind → ℕ → State → State
  drain source max_passes s = drain_locked source max_passes (try_lock source s)

  unfoldable pub drain_each : List SourceKind → ℕ → State → State
  drain_each [] max_passes s = s
  drain_each (source ∷ rest) max_passes s = drain_each rest max_passes (drain source max_passes s)

  unfoldable pub trigger_all : Option SourceKind → ℕ → Io State IngestReport
  trigger_all source max_passes s =
      let t = drain_each (targets source) max_passes (record s { report = empty_report }) in
      (ok t.report, t)
