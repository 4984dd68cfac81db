-- ===== src/Knowledge/Service/Upserts.antt =====
-- What `KnowledgeService.upsert` writes: the fact, its history and the index.
use knows_me.Base.{
  ◌≡◌, refl, sym, ap, ◌∙◌, subst, true, false, not, Option, none, some, List, [], ◌∷◌, ◌++◌, arith,
  if◌then◌else◌, Bool-cases, inl, inr, ◌==◌, ◌⊎◌,
}
use knows_me.Base.Texts.{Text, text_eq, text_eq_refl, Unicode, trim}
use knows_me.Base.Lines.{is_empty}
use knows_me.Base.Results.{AppError, Result, ok, err, invalid_input, Result-cases}
use knows_me.Io.{Io, pure, continue, ◌>>◌, bind-ok}
use knows_me.Domain.{FactId, Time, Fact, FactChange}
use knows_me.Storage.{Store, StoreLaws, Codec}
use knows_me.Storage.Documents as Documents
use knows_me.Knowledge.SearchIndex as Index
use knows_me.Knowledge.SearchIndex.Mirror.{Facts, set_fact, Mirrors, upsert-Mirrors, clear-Mirrors}
use knows_me.Knowledge.Service.{
  Knowledge, facts_ns, history_ns, history, append, or_empty, change_of, record_change, write_fact,
  check_fact, upsert, ensure_index, stored, indexed, upsert_all, rebuild_locked,
}

module _ (S : Store) (L : StoreLaws S) (facts : Codec Fact) (log : Codec (List FactChange))
    (id_text : FactId → Text) where
  -- The fact that a reader finds under an identity, and the changes that are on record for it.
  abbrev pub fact_at : S.State → FactId → Option Fact
  fact_at s j = Documents.document S facts facts_ns L s (id_text j)

  abbrev pub changes_at : S.State → FactId → List FactChange
  changes_at s j = or_empty (Documents.document S log history_ns L s (id_text j))

  history_reads :
      (id : FactId) (s : S.State) (changes : List FactChange)
      → (history S facts log id_text id s).0 ≡ ok changes
      → changes ≡ changes_at s id
  unfolding history
  history_reads id s changes h =
      let (found, got, rest) =
        bind-ok (Documents.get S log history_ns (id_text id)) (λ o. pure (or_empty o)) s changes
          h in
      let e : or_empty found ≡ changes = let k = ap (λ p. p.0) (sym rest) ∙ h in cc in
      sym e ∙ ap or_empty (Documents.get_reads S log history_ns L (id_text id) s found got)

  history-state :
      (id : FactId) (s : S.State)
      → (history S facts log id_text id s).1 ≡ (Documents.get S log history_ns (id_text id) s).1
  unfolding history
  history-state id s = go (Documents.get S log history_ns (id_text id) s).0
    where
      go :
          (r : Result AppError (Option (List FactChange)))
          → (continue r
              (λ o. pure (or_empty o))
              (Documents.get S log history_ns (id_text id) s).1).1
            ≡ (Documents.get S log history_ns (id_text id) s).1
      go (ok o) = refl
      go (err e) = refl

  history_keeps :
      (id : FactId) (s : S.State) (n j : Text)
      → L.view (history S facts log id_text id s).1 n j ≡ L.view s n j
  history_keeps id s n j =
      rw (history-state id s) (Documents.get_keeps S log history_ns L (id_text id) s n j)

  -- The change comes after those on record; the facts are as before.
  append-writes :
      (id : FactId) (change : FactChange) (s : S.State)
      → (append S facts log id_text id change s).0 ≡ ok tt
      → (changes_at (append S facts log id_text id change s).1 id
          ≡ changes_at s id ++ (change ∷ []))
        × ((j : FactId) → fact_at (append S facts log id_text id change s).1 j ≡ fact_at s j)
  unfolding append
  append-writes id change s h =
      let (changes, got, rest) =
        bind-ok (history S facts log id_text id)
          (λ cs. Documents.put S log history_ns (id_text id) (cs ++ (change ∷ []))) s tt h in
      let after = (history S facts log id_text id s).1 in
      let wrote = ap (λ p. p.0) (sym rest) ∙ h in
      (
        rw
            (
              rest,
              Documents.put_writes S log history_ns L (id_text id) (changes ++ (change ∷ [])) after
                  wrote (id_text id),
              text_eq_refl (id_text id),
              history_reads id s changes got,
            )
            refl,
        λ j. rw rest (
            ap (Documents.decoded S facts facts_ns L) (
              Documents.put_elsewhere S log history_ns L (id_text id) (changes ++ (change ∷ []))
                after wrote facts_ns (id_text j) refl
              ∙ history_keeps id s facts_ns (id_text j))),
      )

  -- What is on record after a write over `prev`.
  abbrev pub logged : Time → Fact → Option Fact → List FactChange → List FactChange
  logged now f none changes = changes
  logged now f (some prev) changes =
      if not (text_eq prev.body f.body) then changes ++ (change_of now prev f ∷ []) else changes

  record_change-logged :
      (now : Time) (f : Fact) (prev : Option Fact) (s : S.State)
      → (record_change S facts log id_text now f prev s).0 ≡ ok tt
      → (changes_at (record_change S facts log id_text now f prev s).1 f.id
          ≡ logged now f prev (changes_at s f.id))
        × ((j : FactId)
            → fact_at (record_change S facts log id_text now f prev s).1 j ≡ fact_at s j)
  record_change-logged now f none s h = (refl, λ j. refl)
  record_change-logged now f (some prev) s h = elim (Bool-cases (text_eq prev.body f.body)) [
    | inl e ↦ rw e (refl, λ j. refl)
    | inr e ↦ let k = rw e at h in rw e (append-writes f.id (change_of now prev f) s k)
  ]

  module _ (same_id : (a b : FactId) → text_eq (id_text a) (id_text b) ≡ (b == a)) where
    put-facts :
        (f : Fact) (s : S.State)
        → (Documents.put S facts facts_ns (id_text f.id) f s).0 ≡ ok tt
        → (changes_at (Documents.put S facts facts_ns (id_text f.id) f s).1 f.id
            ≡ changes_at s f.id)
          × ((j : FactId)
              → fact_at (Documents.put S facts facts_ns (id_text f.id) f s).1 j
                ≡ set_fact (fact_at s) f j)
    put-facts f s h = (
      ap (λ o. or_empty (Documents.decoded S log history_ns L o))
          (Documents.put_elsewhere S facts facts_ns L (id_text f.id) f s h history_ns (id_text f.id)
            refl),
      λ j.
          Documents.put_writes S facts facts_ns L (id_text f.id) f s h (id_text j)
          ∙ rw (same_id f.id j) refl,
    )

    get-facts :
        (key : Text) (s : S.State)
        → ((j : FactId) → fact_at (Documents.get S facts facts_ns key s).1 j ≡ fact_at s j)
          × ((j : FactId) → changes_at (Documents.get S facts facts_ns key s).1 j ≡ changes_at s j)
    get-facts key s = (
      λ j.
          ap (Documents.decoded S facts facts_ns L)
            (Documents.get_keeps S facts facts_ns L key s facts_ns (id_text j)),
      λ j.
          ap (λ o. or_empty (Documents.decoded S log history_ns L o))
            (Documents.get_keeps S facts facts_ns L key s history_ns (id_text j)),
    )

    -- A write that succeeds sets the fact, and no other, and puts a change of its text on record.
    pub write_fact-writes :
        (now : Time) (f : Fact) (s : S.State)
        → (write_fact S facts log id_text now f s).0 ≡ ok tt
        → (changes_at (write_fact S facts log id_text now f s).1 f.id
            ≡ logged now f (fact_at s f.id) (changes_at s f.id))
          × ((j : FactId)
              → fact_at (write_fact S facts log id_text now f s).1 j ≡ set_fact (fact_at s) f j)
    unfolding write_fact
    write_fact-writes now f s h =
        let (prev, got, rest) =
          bind-ok (Documents.get S facts facts_ns (id_text f.id))
            (λ p.
              Documents.put S facts facts_ns (id_text f.id) f
              >> record_change S facts log id_text now f p)
            s tt h in
        let s1 = (Documents.get S facts facts_ns (id_text f.id) s).1 in
        let (x, put_ok, then_) =
          bind-ok (Documents.put S facts facts_ns (id_text f.id) f)
            (λ _. record_change S facts log id_text now f prev) s1 tt
            (ap (λ p. p.0) (sym rest) ∙ h) in
        let s2 = (Documents.put S facts facts_ns (id_text f.id) f s1).1 in
        let last =
          record_change-logged now f prev s2
            (ap (λ p. p.0) (sym then_) ∙ ap (λ p. p.0) (sym rest) ∙ h) in
        let wrote = put-facts f s1 put_ok in
        let read = get-facts (id_text f.id) s in
        (
          rw
              (
                rest,
                then_,
                last.0,
                wrote.0,
                read.1 f.id,
                Documents.get_reads S facts facts_ns L (id_text f.id) s prev got,
              )
              refl,
          λ j. rw (rest, then_) (last.1 j ∙ wrote.1 j ∙ rw (read.0 j) refl),
        )

    module _ (u : Unicode) where
      -- The index holds the facts of the store.
      abbrev pub Indexed : Knowledge S.State → Type 0
      Indexed k = Mirrors u (fact_at k.store) k.index

      abbrev tail_of : Time → Fact → Io (Knowledge S.State) FactId
      tail_of now f =
          stored (write_fact S facts log id_text now f) >> indexed (Index.upsert u f) >> pure f.id

      Mirrors-congr :
          (m m' : Facts) (x : Index.SearchIndex)
          → ((j : FactId) → m' j ≡ m j)
          → Mirrors u m x
          → Mirrors u m' x
      Mirrors-congr m m' x e h =
          let same : m ≡ m' = λ i j. sym (e j) i in subst (λ n. Mirrors u n x) same h

      -- Once the index was built, an accepted fact is the one that is then found, the other facts are as
      -- before, a change of its text is put at the end of its history, and an index that held the facts of
      -- the store holds them after it too.
      pub upsert-writes :
          (now : Time) (f : Fact) (k : Knowledge S.State)
          → k.initialized ≡ true
          → (upsert S facts log id_text u now f k).0 ≡ ok f.id
          → ((j : FactId)
              → fact_at (upsert S facts log id_text u now f k).1.store j
                ≡ set_fact (fact_at k.store) f j)
            × (changes_at (upsert S facts log id_text u now f k).1.store f.id
                ≡ logged now f (fact_at k.store f.id) (changes_at k.store f.id))
            × (Indexed k → Indexed (upsert S facts log id_text u now f k).1)
      unfolding upsert ensure_index
      upsert-writes now f k ready h = elim (Result-cases (check_fact f)) [
        | inr (e, c) ↦ let x = rw c at h in cc x
        | inl (a, c) ↦ elim (Result-cases (write_fact S facts log id_text now f k.store).0) [
          | inr (e, w) ↦ let x = rw (c, ready, w) at h in cc x
          | inl (b, w) ↦
              let wrote = write_fact-writes now f k.store w in
              rw (c, ready, w)
                (
                  wrote.1,
                  wrote.0,
                  λ m.
                      Mirrors-congr (set_fact (fact_at k.store) f) _ _ wrote.1
                        (upsert-Mirrors u (fact_at k.store) f k.index m),
                )
        ]
      ]

  -- What `upsert` does not take.
  abbrev pub Incomplete : Fact → Type 0
  Incomplete f =
      (f.metadata.confirmed ≡ false)
      ⊎ ((f.metadata.confirmed_at ≡ none) ⊎ (is_empty (trim f.title) ≡ true))

  check-Incomplete : (f : Fact) → Incomplete f → check_fact f ≡ err invalid_input
  unfolding check_fact
  check-Incomplete f h = ground arith

  -- A fact that is not confirmed, has no time of confirmation or a blank title is refused, and
  -- nothing changes.
  pub upsert-Incomplete :
      (u : Unicode) (now : Time) (f : Fact) (k : Knowledge S.State)
      → Incomplete f
      → upsert S facts log id_text u now f k ≡ (err invalid_input, k)
  unfolding upsert
  upsert-Incomplete u now f k h = rw (check-Incomplete f h) refl

  -- The last fact of each identity.
  abbrev pub last_of : List Fact → Facts → Facts
  last_of [] m = m
  last_of (f ∷ fs) m = last_of fs (set_fact m f)

  upsert_all-Mirrors :
      (u : Unicode) (fs : List Fact) (m : Facts) (x : Index.SearchIndex)
      → Mirrors u m x
      → Mirrors u (last_of fs m) (upsert_all S facts log id_text u fs x)
  unfolding upsert_all
  upsert_all-Mirrors u [] m x h = h
  upsert_all-Mirrors u (f ∷ fs) m x h =
      upsert_all-Mirrors u fs (set_fact m f) (Index.upsert u f x) (upsert-Mirrors u m f x h)

  -- Whatever the index held, a rebuild from a list of facts holds those facts and no other, the last
  -- of each identity.
  pub rebuild-Mirrors :
      (u : Unicode) (fs : List Fact) (x : Index.SearchIndex)
      → Mirrors u (last_of fs (λ j. none)) (rebuild_locked S facts log id_text u fs x)
  unfolding rebuild_locked
  rebuild-Mirrors u fs x = upsert_all-Mirrors u fs (λ j. none) (Index.clear x) (clear-Mirrors u x)
