-- ===== src/Ingestion/Service/Collecting.antt =====
-- What one pass of src-tauri/src/ingestion/service.rs does with the marks, the cursor and the sink.
use knows_me.Base.{◌≡◌, refl, sym, ap, ◌∙◌, subst, Bool, not, ◌||◌, Option, some, List, [], ◌∷◌}
use knows_me.Base.Texts.{Text}
use knows_me.Base.Results.{ok}
use knows_me.Io.{Io, pure, ◌>>=◌, ◌>>◌, bind-ok}
use knows_me.Domain.{SourceKind, RawItem}
use knows_me.Storage.{Store, StoreLaws, Codec}
use knows_me.Ingestion.Cursors.{Cursor, load_cursor, save_cursor}
use knows_me.Ingestion.Cursors.Marks as Marks
use knows_me.Ingestion.Service as Service
use knows_me.Ingestion.Service.{Connector, Registry, Run, cursor_eq}
use knows_me.Ingestion.Service.Passes as Passes
use knows_me.Ingestion.Service.Passes.{unseen, among, gather-Sieved}

module _ (S : Store) (L : StoreLaws S) {C K Config : Type 0} (registry : Registry C Config)
    (accept : List RawItem → Io K (Unit {0})) (utf8 : Codec Text) (digest : Text → Text)
    (now : Text) (source : SourceKind) where
  abbrev pub State : Type 0
  State = Run S.State C K

  abbrev key : RawItem → Text
  key = Passes.key_of S L registry accept utf8 digest now source

  abbrev mark : State → Text → Bool
  mark = Passes.mark S L registry accept utf8 digest now source

  abbrev cursor : State → Option Cursor
  cursor s = Marks.cursor_of S L utf8 s.store source

  abbrev on_store : {A : Type 0} → Io S.State A → Io State A
  on_store = Service.on_store S registry accept utf8 digest now

  abbrev on_connectors : {A : Type 0} → Io C A → Io State A
  on_connectors = Service.on_connectors S registry accept utf8 digest now

  abbrev gathered : List RawItem → List RawItem → Io State (List RawItem)
  gathered = Service.gather S registry accept utf8 digest now source

  abbrev hand_over : List RawItem → Io State (Unit {0})
  hand_over = Service.hand_over S registry accept utf8 digest now

  abbrev pub passed : Connector C Config → Io State Bool
  passed = Service.pass S registry accept utf8 digest now source

  -- The sink after it was given the items; with none it is not called.
  abbrev pub handed : List RawItem → K → K
  handed [] k = k
  handed (it ∷ items) k = (accept (it ∷ items) k).1

  -- The new items of a sync are handed to the sink, the keys of all its items are marked, and its cursor
  -- is kept for the next sync.
  abbrev pub CollectsFrom : Option Cursor → Connector C Config → State → Bool → State → Type 0
  CollectsFrom from c s moved t =
      (items : List RawItem) × (next : Cursor) × ((c.sync from s.connectors).0 ≡ ok (items, next))
      × (t.connectors ≡ (c.sync from s.connectors).1)
      × (t.sink ≡ handed (unseen key (mark s) items) s.sink)
      × ((k : Text) → mark t k ≡ (among key items k || mark s k))
      × (cursor t ≡ some next)
      × (moved ≡ not (cursor_eq from next))

  abbrev pub Collects : Connector C Config → State → Bool → State → Type 0
  Collects c s = CollectsFrom (cursor s) c s

  hand_over-handed :
      (items : List RawItem) (s : State)
      → (hand_over items s).1 ≡ record s { sink = handed items s.sink }
  unfolding Service.hand_over
  hand_over-handed [] s = refl
  hand_over-handed (it ∷ items) s = refl

  -- The end of a pass, with the items that were kept.
  finish : Option Cursor → Cursor → List RawItem → Io State Bool
  finish old next fresh = do
    hand_over fresh
    on_store (save_cursor S utf8 source next)
    pure (not (cursor_eq old next))

  finish-Collects :
      (old : Option Cursor) (next : Cursor) (fresh : List RawItem) (s : State) (moved : Bool)
      → (finish old next fresh s).0 ≡ ok moved
      → (moved ≡ not (cursor_eq old next))
        × (cursor (finish old next fresh s).1 ≡ some next)
        × ((k : Text) → mark (finish old next fresh s).1 k ≡ mark s k)
        × ((finish old next fresh s).1.sink ≡ handed fresh s.sink)
        × ((finish old next fresh s).1.connectors ≡ s.connectors)
  unfolding finish
  finish-Collects old next fresh s moved h =
      let (x, given, go1) =
        bind-ok (hand_over fresh)
          (λ _. on_store (save_cursor S utf8 source next) >> pure (not (cursor_eq old next))) s
          moved h in
      let s1 = (hand_over fresh s).1 in
      let (y, saved, go2) =
        bind-ok (on_store (save_cursor S utf8 source next)) (λ _. pure (not (cursor_eq old next)))
          s1 moved (ap (λ r. r.0) (sym go1) ∙ h) in
      let s2 = (on_store (save_cursor S utf8 source next) s1).1 in
      let all : finish old next fresh s ≡ (ok (not (cursor_eq old next)), s2) =
        unfold finish in (go1 ∙ go2) in
      let left = hand_over-handed fresh s in
      let kept = Marks.save_cursor-saves S L utf8 source next s1.store saved in
      rw all (
        let k = rw all at h in cc k,
        kept.0,
        λ j. kept.1 j ∙ ap (λ r. mark r j) left,
        ap (λ r. r.sink) left,
        ap (λ r. r.connectors) left,
      )

  -- A pass that succeeds has asked the connector from the cursor of the source for items, has handed
  -- exactly those to the sink whose key had no mark and came first, has marked the keys of all of them
  -- and no other, and has kept the connector's next cursor; it says whether the cursor moved.
  pub pass-Collects :
      (c : Connector C Config) (s : State) (moved : Bool)
      → (passed c s).0 ≡ ok moved
      → Collects c s moved (passed c s).1
  unfolding Service.pass
  pass-Collects c s moved h =
      let (old, loaded, go1) =
        bind-ok (on_store (load_cursor S utf8 source))
          (λ o. on_connectors (c.sync o) >>= λ r. gathered r.0 [] >>= λ fresh. finish o r.1 fresh) s
          moved (unfold finish in h) in
      let s1 = (on_store (load_cursor S utf8 source) s).1 in
      let (synced, got, go2) =
        bind-ok (on_connectors (c.sync old))
          (λ r. gathered r.0 [] >>= λ fresh. finish old r.1 fresh) s1 moved
          (ap (λ r. r.0) (sym go1) ∙ unfold finish in h) in
      let s2 = (on_connectors (c.sync old) s1).1 in
      let (fresh, kept, go3) =
        bind-ok (gathered synced.0 []) (finish old synced.1) s2 moved
          (ap (λ r. r.0) (sym (go1 ∙ go2)) ∙ unfold finish in h) in
      let s3 = (gathered synced.0 [] s2).1 in
      let all : passed c s ≡ finish old synced.1 fresh s3 =
        unfold Service.pass finish in (go1 ∙ go2 ∙ go3) in
      let (moves, at, same, given, kept_there) =
        finish-Collects old synced.1 fresh s3 moved (ap (λ r. r.0) (sym all) ∙ h) in
      let (made, marks, all_counted, taken, away) =
        gather-Sieved S L registry accept utf8 digest now source synced.0 [] fresh s2 kept in
      let before : (k : Text) → mark s2 k ≡ mark s k =
        λ k. Marks.load_cursor-keeps S L utf8 source s.store k in
      let fresh_eq : fresh ≡ unseen key (mark s) synced.0 =
        made ∙ Passes.unseen-same key (mark s2) (mark s) synced.0 before in
      let reads : old ≡ cursor s = Marks.load_cursor-reads S L utf8 source s.store old loaded in
      subst (λ r. Collects c s moved r.1) (sym all)
        (subst (λ o. CollectsFrom o c s moved (finish old synced.1 fresh s3).1) reads
          (
            synced.0,
            synced.1,
            got,
            kept_there ∙ away.0,
            given ∙ rw (away.1, fresh_eq) refl,
            λ k. same k ∙ marks k ∙ ap (λ b. among key synced.0 k || b) (before k),
            at,
            moves,
          ))
