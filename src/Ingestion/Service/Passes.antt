-- ===== src/Ingestion/Service/Passes.antt =====
-- What one pass of src-tauri/src/ingestion/service.rs collects.
use knows_me.Base.{
  ◌+◌, ◌≡◌, refl, sym, ap, ◌∙◌, subst, Bool, true, false, ◌||◌, List, [], ◌∷◌, ◌++◌, append-nil,
  append_assoc, length, length-append, any, arith, inl, inr, if◌then◌else◌, Bool-cases,
}
use knows_me.Base.Texts.{Text, text_eq, text_eq_refl, text_eq-eq}
use knows_me.Base.Results.{ok}
use knows_me.Io.{Io, pure, ◌>>◌, bind-ok}
use knows_me.Domain.{SourceKind, RawItem}
use knows_me.Storage.{Store, StoreLaws, Codec}
use knows_me.Ingestion.Cursors.{seen_key, is_seen, mark_seen}
use knows_me.Ingestion.Cursors.Marks as Marks
use knows_me.Ingestion.Service as Service
use knows_me.Ingestion.Service.{Connector, Registry, Run, cursor_eq}

module _ (key_of : RawItem → Text) where
  -- The items to collect, by the description: those whose key was neither seen before nor carried by an
  -- earlier item.
  abbrev pub unseen : (Text → Bool) → List RawItem → List RawItem
  unseen seen [] = []
  unseen seen (it ∷ items) =
      let rest = unseen (λ k. text_eq (key_of it) k || seen k) items in
      if seen (key_of it) then unseen seen items else it ∷ rest

  abbrev pub among : List RawItem → Text → Bool
  among items key = any (λ it. text_eq (key_of it) key) items

  pub unseen-same :
      (f g : Text → Bool) (items : List RawItem)
      → ((k : Text) → f k ≡ g k)
      → unseen f items ≡ unseen g items
  unseen-same f g [] h = refl
  unseen-same f g (it ∷ items) h =
      rw
        (
          h (key_of it),
          unseen-same f g items h,
          unseen-same (λ k. text_eq (key_of it) k || f k) (λ k. text_eq (key_of it) k || g k) items
              (λ k. ap (λ b. text_eq (key_of it) k || b) (h k)),
        )
        refl

  unseen-all :
      (f : Text → Bool) (items : List RawItem)
      → ((k : Text) → among items k ≡ true → f k ≡ true)
      → unseen f items ≡ []
  unseen-all f [] h = refl
  unseen-all f (it ∷ items) h =
      rw (h (key_of it) (rw (text_eq_refl (key_of it)) refl))
        (unseen-all f items (λ k e. h k (ground (arith, e))))

module _ (S : Store) (L : StoreLaws S) {C K Config : Type 0} (registry : Registry C Config)
    (accept : List RawItem → Io K (Unit {0})) (utf8 : Codec Text) (digest : Text → Text)
    (now : Text) (source : SourceKind) where
  abbrev pub State : Type 0
  State = Run S.State C K

  abbrev pub key_of : RawItem → Text
  key_of it = seen_key digest source it.external_id

  abbrev pub mark : State → Text → Bool
  mark s key = Marks.marked S L s.store key

  abbrev pub gathered : List RawItem → List RawItem → Io State (List RawItem)
  gathered = Service.gather S registry accept utf8 digest now source

  abbrev sieved : RawItem → List RawItem → Io State (List RawItem)
  sieved = Service.sieve S registry accept utf8 digest now source

  abbrev on_store : {A : Type 0} → Io S.State A → Io State A
  on_store = Service.on_store S registry accept utf8 digest now

  -- The rest of the state that gathering leaves alone.
  abbrev Elsewhere : State → State → Type 0
  Elsewhere s t = (t.connectors ≡ s.connectors) × (t.sink ≡ s.sink)

  -- What gathering `items` after `fresh` comes to.
  abbrev pub Sieved : List RawItem → List RawItem → List RawItem → State → State → Type 0
  Sieved items fresh kept s t =
      (kept ≡ fresh ++ unseen key_of (mark s) items)
      × ((k : Text) → mark t k ≡ (among key_of items k || mark s k))
      × (t.report.collected + t.report.skipped
          ≡ s.report.collected + s.report.skipped + length items)
      × (t.report.collected ≡ s.report.collected + length (unseen key_of (mark s) items))
      × Elsewhere s t

  choice : RawItem → List RawItem → Bool → Io State (List RawItem)
  choice it fresh seen =
      if seen
      then (do Service.count S registry accept utf8 digest now Service.count_skipped; pure fresh)
      else (do
        on_store (mark_seen S digest utf8 source it.external_id now)
        Service.count S registry accept utf8 digest now Service.count_collected
        pure (fresh ++ (it ∷ [])))

  -- Where an item has a mark, so has its key, however it is written.
  mark-hit :
      (it : RawItem) (s : State) (k : Text)
      → mark s (key_of it) ≡ true
      → mark s k ≡ (among key_of (it ∷ []) k || mark s k)
  mark-hit it s k e = elim (Bool-cases (text_eq (key_of it) k)) [
    | inl same ↦ rw (same, ← text_eq-eq (key_of it) k same) e
    | inr other ↦ rw other refl
  ]

  marked_one :
      (it : RawItem) (s : State) (k : Text)
      → (if text_eq (key_of it) k then true else mark s k) ≡ (among key_of (it ∷ []) k || mark s k)
  marked_one it s k = elim (Bool-cases (text_eq (key_of it) k)) [
    | inl e ↦ rw e refl
    | inr e ↦ rw e refl
  ]

  choice-Sieved :
      (it : RawItem) (fresh kept : List RawItem) (s : State) (seen : Bool)
      → mark s (key_of it) ≡ seen
      → (choice it fresh seen s).0 ≡ ok kept
      → Sieved (it ∷ []) fresh kept s (choice it fresh seen s).1
  unfolding choice
  choice-Sieved it fresh kept s true e h =
      let same : fresh ≡ kept = cc h in
      (
        rw e (sym same ∙ sym (append-nil fresh)),
        λ k. mark-hit it s k e,
        omega arith,
        rw e (omega arith),
        (refl, refl),
      )
  choice-Sieved it fresh kept s false e h =
      let (x, good, next) =
        bind-ok (on_store (mark_seen S digest utf8 source it.external_id now))
          (λ _.
            Service.count S registry accept utf8 digest now Service.count_collected
            >> pure (fresh ++ (it ∷ [])))
          s kept h in
      let same : fresh ++ (it ∷ []) ≡ kept = let k = rw next at h in cc k in
      rw next (
        rw e (sym same),
        λ k.
            Marks.mark_seen-marks S L digest utf8 source it.external_id now s.store good k
            ∙ marked_one it s k,
        omega arith,
        rw e (omega arith),
        (refl, refl),
      )

  Sieved-store :
      (items fresh kept : List RawItem) (s t : State) (store : S.State)
      → ((k : Text) → Marks.marked S L store k ≡ mark s k)
      → Sieved items fresh kept (record s { store = store }) t
      → Sieved items fresh kept s t
  Sieved-store items fresh kept s t store same (made, marks, all_counted, taken, away) =
      let listed = unseen-same key_of (Marks.marked S L store) (mark s) items same in
      (
        made ∙ ap (λ xs. fresh ++ xs) listed,
        λ k. marks k ∙ ap (λ b. among key_of items k || b) (same k),
        all_counted,
        taken ∙ ap (λ xs. s.report.collected + length xs) listed,
        away,
      )

  -- One item.
  sieve-Sieved :
      (it : RawItem) (fresh kept : List RawItem) (s : State)
      → (sieved it fresh s).0 ≡ ok kept
      → Sieved (it ∷ []) fresh kept s (sieved it fresh s).1
  unfolding Service.sieve
  sieve-Sieved it fresh kept s h =
      let (seen, got, next) =
        bind-ok (on_store (is_seen S digest source it.external_id)) (choice it fresh) s kept
          (unfold choice in h) in
      let s1 = (on_store (is_seen S digest source it.external_id) s).1 in
      let reads = Marks.is_seen-reads S L digest source it.external_id s.store seen got in
      let same : (k : Text) → mark s1 k ≡ mark s k =
        Marks.is_seen-keeps S L digest source it.external_id s.store in
      let there : sieved it fresh s ≡ choice it fresh seen s1 =
        unfold choice Service.sieve in next in
      subst (λ r. Sieved (it ∷ []) fresh kept s r.1) (sym there)
        (Sieved-store (it ∷ []) fresh kept s (choice it fresh seen s1).1 s1.store same (
          choice-Sieved it fresh kept s1 seen (same (key_of it) ∙ sym reads)
            (ap (λ r. r.0) (sym there) ∙ h)))

  Sieved-cons :
      (it : RawItem) (items fresh first kept : List RawItem) (s s1 t : State)
      → Sieved (it ∷ []) fresh first s s1
      → Sieved items first kept s1 t
      → Sieved (it ∷ items) fresh kept s t
  Sieved-cons it items fresh first kept s s1 t (made, marks, all_counted, taken, away)
        (made', marks', all_counted', taken', away') =
      (
        made'
            ∙ ap (λ xs. xs ++ unseen key_of (mark s1) items) made
            ∙ append_assoc fresh _ _
            ∙ ap (λ xs. fresh ++ xs) listed,
        λ k. marks' k ∙ ap (λ b. among key_of items k || b) (marks k) ∙ ground arith,
        omega arith,
        taken'
            ∙ ap (λ n. n + length (unseen key_of (mark s1) items)) taken
            ∙ (omega (
              arith,
              length-append (unseen key_of (mark s) (it ∷ [])) (unseen key_of (mark s1) items),
            )
                ∙ ap (λ xs. s.report.collected + length xs) listed),
        (away'.0 ∙ away.0, away'.1 ∙ away.1),
      )
    where
      listed :
          unseen key_of (mark s) (it ∷ []) ++ unseen key_of (mark s1) items
          ≡ unseen key_of (mark s) (it ∷ items)
      listed = elim (Bool-cases (mark s (key_of it))) [
        | inl e ↦
            rw e
              (unseen-same key_of (mark s1) (mark s) items (λ k. marks k ∙ sym (mark-hit it s k e)))
        | inr e ↦ rw e (
            ap (λ xs. it ∷ xs)
              (unseen-same key_of (mark s1) (λ k. text_eq (key_of it) k || mark s k) items
                (λ k. marks k ∙ ground arith)))
      ]

  -- Gathering the items of a sync: kept are the items whose key has no mark and is not the key of an
  -- earlier one, in their order; afterwards their keys, and no others, are marked in addition; each item
  -- was counted once, as collected or as skipped.
  pub gather-Sieved :
      (items fresh kept : List RawItem) (s : State)
      → (gathered items fresh s).0 ≡ ok kept
      → Sieved items fresh kept s (gathered items fresh s).1
  unfolding Service.gather
  gather-Sieved [] fresh kept s h =
      let same : fresh ≡ kept = cc h in
      (sym same ∙ sym (append-nil fresh), λ k. refl, omega arith, omega arith, (refl, refl))
  gather-Sieved (it ∷ items) fresh kept s h =
      let (first, got, next) = bind-ok (sieved it fresh) (gathered items) s kept h in
      let s1 = (sieved it fresh s).1 in
      subst (λ r. Sieved (it ∷ items) fresh kept s r.1) (sym next)
        (Sieved-cons it items fresh first kept s s1 (gathered items first s1).1
          (sieve-Sieved it fresh first s got)
          (gather-Sieved items first kept s1 (ap (λ r. r.0) (sym next) ∙ h)))

  -- What was gathered once is not gathered again: of items whose keys are all among those of an earlier
  -- sync that was gathered, none is kept.
  pub gather-again :
      (items later fresh kept : List RawItem) (s : State)
      → (gathered items [] s).0 ≡ ok fresh
      → ((k : Text) → among key_of later k ≡ true → among key_of items k ≡ true)
      → (gathered later [] (gathered items [] s).1).0 ≡ ok kept
      → kept ≡ []
  gather-again items later fresh kept s h sub h' =
      let t = (gathered items [] s).1 in
      let marks = (gather-Sieved items [] fresh s h).1 in
      (gather-Sieved later [] kept t h').0
      ∙ unseen-all key_of (mark t) later (λ k e. marks k ∙ rw (sub k e) refl)
