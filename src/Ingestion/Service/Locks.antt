-- ===== src/Ingestion/Service/Locks.antt =====
-- The run lock and the report of src-tauri/src/ingestion/service.rs.
use knows_me.Base.{
  ℕ, zero, suc, ◌≡◌, refl, sym, ap, ◌∙◌, Bool, true, false, not, Option, none, some, List, [], ◌∷◌,
  ◌++◌, length, filter, arith, inl, inr, if◌then◌else◌, Bool-cases,
}
use knows_me.Base.Texts.{Text}
use knows_me.Base.Results.{AppError, Result, ok, err}
use knows_me.Io.{Io, pure, ◌>>=◌, ◌>>◌, Preserves, bind-Preserves}
use knows_me.Domain.{SourceKind, source_eq, RawItem, IngestReport, ErrorMessage}
use knows_me.Storage.{Store, Codec}
use knows_me.Ingestion.Cursors.{is_seen, load_cursor, save_cursor, mark_seen}
use knows_me.Ingestion.Service as Service
use knows_me.Ingestion.Service.{Connector, Registry, Run, is_running, empty_report}

source_eq_refl : (a : SourceKind) → source_eq a a ≡ true
source_eq_refl a = ground arith

-- Removing a source that is not there changes nothing.
filter-absent :
    (source : SourceKind) (rs : List SourceKind)
    → is_running source rs ≡ false
    → filter (λ r. not (source_eq r source)) rs ≡ rs
filter-absent source [] h = refl
filter-absent source (r ∷ rs) h = ground (arith, filter-absent source rs)

length-snoc : {A : Type 0} (xs : List A) (a : A) → length (xs ++ (a ∷ [])) ≡ suc (length xs)
length-snoc [] a = refl
length-snoc (x ∷ xs) a = ap suc (length-snoc xs a)

module _ (S : Store) {C K Config : Type 0} (registry : Registry C Config)
    (accept : List RawItem → Io K (Unit {0})) (utf8 : Codec Text) (digest : Text → Text)
    (now : Text) where
  abbrev pub State : Type 0
  State = Run S.State C K

  -- What a pass leaves alone: the running sources, and the errors reported so far.
  abbrev Kept : Type 0
  Kept = List SourceKind × (ℕ × List ErrorMessage)

  abbrev kept : State → Kept
  kept s = (s.running, (s.report.errors, s.report.error_messages))

  abbrev pass_inner : SourceKind → Io State Bool
  pass_inner = Service.run_one_inner S registry accept utf8 digest now

  abbrev sieved : SourceKind → RawItem → List RawItem → Io State (List RawItem)
  sieved = Service.sieve S registry accept utf8 digest now

  abbrev gathered : SourceKind → List RawItem → List RawItem → Io State (List RawItem)
  gathered = Service.gather S registry accept utf8 digest now

  stored-Preserves :
      {A B : Type 0} (q : Io S.State A) (f : A → Io State B)
      → ((a : A) → Preserves kept (f a))
      → Preserves kept (Service.on_store S registry accept utf8 digest now q >>= f)
  stored-Preserves q f h =
      bind-Preserves kept (Service.on_store S registry accept utf8 digest now q) f (λ s. refl) h

  fresh_item-Preserves :
      (source : SourceKind) (it : RawItem) (fresh : List RawItem) (seen : Bool)
      → Preserves kept (
          if seen
          then (do
            Service.count S registry accept utf8 digest now Service.count_skipped
            pure fresh)
          else (do
            Service.on_store S registry accept utf8 digest now
                (mark_seen S digest utf8 source it.external_id now)
            Service.count S registry accept utf8 digest now Service.count_collected
            pure (fresh ++ (it ∷ []))))
  fresh_item-Preserves source it fresh true = λ s. refl
  fresh_item-Preserves source it fresh false =
      stored-Preserves (mark_seen S digest utf8 source it.external_id now) _ (λ x s. refl)

  sieve-Preserves :
      (source : SourceKind) (it : RawItem) (fresh : List RawItem)
      → Preserves kept (sieved source it fresh)
  unfolding Service.sieve
  sieve-Preserves source it fresh =
      stored-Preserves (is_seen S digest source it.external_id) _
        (fresh_item-Preserves source it fresh)

  gather-Preserves :
      (source : SourceKind) (items fresh : List RawItem)
      → Preserves kept (gathered source items fresh)
  unfolding Service.gather
  gather-Preserves source [] fresh = λ s. refl
  gather-Preserves source (it ∷ items) fresh =
      bind-Preserves kept (sieved source it fresh) (λ k. gathered source items k)
        (sieve-Preserves source it fresh) (λ k. gather-Preserves source items k)

  hand_over-Preserves :
      (items : List RawItem)
      → Preserves kept (Service.hand_over S registry accept utf8 digest now items)
  unfolding Service.hand_over
  hand_over-Preserves [] = λ s. refl
  hand_over-Preserves (it ∷ items) = λ s. refl

  pass-Preserves :
      (source : SourceKind) (c : Connector C Config)
      → Preserves kept (Service.pass S registry accept utf8 digest now source c)
  unfolding Service.pass
  pass-Preserves source c = stored-Preserves (load_cursor S utf8 source) _ (λ cursor.
      bind-Preserves kept (Service.on_connectors S registry accept utf8 digest now (c.sync cursor))
        _ (λ s. refl)
        (λ synced.
          bind-Preserves kept (gathered source synced.0 []) _ (gather-Preserves source synced.0 [])
            (λ fresh.
              bind-Preserves kept (Service.hand_over S registry accept utf8 digest now fresh) _
                (hand_over-Preserves fresh)
                (λ _. stored-Preserves (save_cursor S utf8 source synced.1) _ (λ x s. refl)))))

  inner-Preserves : (source : SourceKind) → Preserves kept (pass_inner source)
  unfolding Service.run_one_inner
  inner-Preserves source = go (Service.get source registry)
    where
      go :
          (c : Option (Connector C Config))
          → Preserves kept (Service.pass_of S registry accept utf8 digest now source c)
      go none = λ s. refl
      go (some c) = pass-Preserves source c

  remaining-Preserves :
      (source : SourceKind) (s : State)
      → kept (Service.add_remaining S registry accept utf8 digest now source s) ≡ kept s
  unfolding Service.source_remaining
  remaining-Preserves source s = go (Service.get source registry)
    where
      go :
          (c : Option (Connector C Config))
          → kept (Service.remaining_of S registry accept utf8 digest now source c s).1 ≡ kept s
      go none = refl
      go (some c) = refl

  -- A report with one message for each error.
  abbrev pub Explained : State → Type 0
  Explained s = s.report.errors ≡ length s.report.error_messages

  -- The same sources are running, and a report with one message for each error is one again.
  abbrev pub Sound : State → State → Type 0
  Sound s t = (t.running ≡ s.running) × (Explained s → Explained t)

  Sound-trans : (s t v : State) → Sound s t → Sound t v → Sound s v
  Sound-trans s t v a b = (b.0 ∙ a.0, λ h. b.1 (a.1 h))

  kept-Sound : (s t : State) → kept t ≡ kept s → Sound s t
  kept-Sound s t e = (ap (λ k. k.0) e, λ h. ap (λ k. k.1.0) e ∙ h ∙ ap (λ k. length k.1.1) (sym e))

  contained-Sound :
      (source : SourceKind) (s : State)
      → Sound s (Service.run_inner_contained S registry accept utf8 digest now source s)
  contained-Sound source s = go (pass_inner source s).0
    where
      go :
          (r : Result AppError Bool)
          → Sound s
              (Service.contained S registry accept utf8 digest now source r (pass_inner source s).1)
      go (ok moved) = kept-Sound s (pass_inner source s).1 (inner-Preserves source s)
      go (err e) =
          let same = kept-Sound s (pass_inner source s).1 (inner-Preserves source s) in
          (
            same.0,
            λ h.
                ap suc (same.1 h)
                ∙ sym (length-snoc (pass_inner source s).1.report.error_messages _),
          )

  -- With the lock of a source that was not running, and given back.
  locked-Sound :
      (source : SourceKind) (s t : State)
      → is_running source s.running ≡ false
      → Sound (record s { running = source ∷ s.running }) t
      → Sound s (Service.unlock S registry accept utf8 digest now source t)
  unfolding Service.unlock
  locked-Sound source s t h a = (
    ap (filter (λ r. not (source_eq r source))) a.0
        ∙ rw (source_eq_refl source) (filter-absent source s.running h),
    a.1,
  )

  -- A run gives its lock back, also where it fails, and the report keeps one message for each error;
  -- of a source that is running nothing is done but the count of skipped ones.
  pub run_one-Sound :
      (source : SourceKind) (s : State)
      → Sound s (Service.run_one S registry accept utf8 digest now source s)
        × (is_running source s.running ≡ true
            → Service.run_one S registry accept utf8 digest now source s
              ≡ Service.counted S registry accept utf8 digest now Service.count_skipped s)
  unfolding Service.run_one Service.try_lock
  run_one-Sound source s = elim (Bool-cases (is_running source s.running)) [
    | inl e ↦ rw e ((refl, λ h. h), λ _. refl)
    | inr e ↦ (
      rw e (
          locked-Sound source s
            (Service.run_inner_contained S registry accept utf8 digest now source
              (record s { running = source ∷ s.running }))
            e (contained-Sound source (record s { running = source ∷ s.running }))),
      λ h. absurd (cc (e, h)),
    )
  ]

  until_done-Sound :
      (source : SourceKind) (n : ℕ) (s : State)
      → Sound s (Service.run_until_done S registry accept utf8 digest now source n s)
  unfolding Service.run_until_done
  until_done-Sound source zero s = (refl, λ h. h)
  until_done-Sound source (suc n) s =
      let t = Service.run_inner_contained S registry accept utf8 digest now source s in
      elim (Bool-cases
        (Service.advances S registry accept utf8 digest now (pass_inner source s).0)) [
          | inl e ↦ rw e (
              Sound-trans s t (Service.run_until_done S registry accept utf8 digest now source n t)
                (contained-Sound source s) (until_done-Sound source n t))
          | inr e ↦ rw e (contained-Sound source s)
        ]

  remaining-Sound :
      (source : SourceKind) (s : State)
      → Sound s (Service.add_remaining S registry accept utf8 digest now source s)
  remaining-Sound source s =
      kept-Sound s (Service.add_remaining S registry accept utf8 digest now source s)
        (remaining-Preserves source s)

  drain-Sound :
      (source : SourceKind) (n : ℕ) (s : State)
      → Sound s (Service.drain S registry accept utf8 digest now source n s)
  unfolding Service.drain Service.try_lock
  drain-Sound source n s = elim (Bool-cases (is_running source s.running)) [
    | inl e ↦ rw e (refl, λ h. h)
    | inr e ↦
        let started : State = record s { running = source ∷ s.running } in
        let done =
          Service.unlock S registry accept utf8 digest now source
            (Service.run_until_done S registry accept utf8 digest now source n started) in
        rw e (
          Sound-trans s done (Service.add_remaining S registry accept utf8 digest now source done)
            (locked-Sound source s
              (Service.run_until_done S registry accept utf8 digest now source n started) e
              (until_done-Sound source n started))
            (remaining-Sound source done))
  ]

  each-Sound :
      (sources : List SourceKind) (s : State)
      → Sound s (Service.trigger_each S registry accept utf8 digest now sources s)
  unfolding Service.trigger_each
  each-Sound [] s = (refl, λ h. h)
  each-Sound (source ∷ rest) s =
      let t = Service.run_one S registry accept utf8 digest now source s in
      let v = Service.add_remaining S registry accept utf8 digest now source t in
      Sound-trans s v (Service.trigger_each S registry accept utf8 digest now rest v)
        (Sound-trans s t v (run_one-Sound source s).0 (remaining-Sound source t))
        (each-Sound rest v)

  drain_each-Sound :
      (sources : List SourceKind) (n : ℕ) (s : State)
      → Sound s (Service.drain_each S registry accept utf8 digest now sources n s)
  unfolding Service.drain_each
  drain_each-Sound [] n s = (refl, λ h. h)
  drain_each-Sound (source ∷ rest) n s =
      let t = Service.drain S registry accept utf8 digest now source n s in
      Sound-trans s t (Service.drain_each S registry accept utf8 digest now rest n t)
        (drain-Sound source n s) (drain_each-Sound rest n t)

  abbrev pub trigger_of : Option SourceKind → Io State IngestReport
  trigger_of = Service.trigger S registry accept utf8 digest now

  abbrev pub drain_of : Option SourceKind → ℕ → Io State IngestReport
  drain_of = Service.trigger_all S registry accept utf8 digest now

  -- A run over one or all sources, in one pass or in many, whatever fails in it, gives a report with one
  -- message for each error, and the sources that are running afterwards are those that were before.
  pub trigger-Contained :
      (source : Option SourceKind) (max_passes : ℕ) (s : State)
      → ((trigger_of source s).1.running ≡ s.running)
        × Explained (trigger_of source s).1
        × ((trigger_of source s).0 ≡ ok (trigger_of source s).1.report)
        × ((drain_of source max_passes s).1.running ≡ s.running)
        × Explained (drain_of source max_passes s).1
        × ((drain_of source max_passes s).0 ≡ ok (drain_of source max_passes s).1.report)
  unfolding Service.trigger Service.trigger_all
  trigger-Contained source max_passes s =
      let begun : State = record s { report = empty_report } in
      let once = each-Sound (Service.targets S registry accept utf8 digest now source) begun in
      let many =
        drain_each-Sound (Service.targets S registry accept utf8 digest now source) max_passes
          begun in
      (once.0, once.1 refl, refl, many.0, many.1 refl, refl)
