-- ===== src/Processing/Service/Accounts.antt =====
-- No item that is given to the pipeline of src-tauri/src/processing/service.rs is lost.
use knows_me.Base.{
  ℕ, suc, ◌≡◌, refl, sym, ap, ◌∙◌, subst, Bool, true, false, Option, none, some, List, [], ◌∷◌,
  ◌++◌, ◌⊎◌, inl, inr, if◌then◌else◌, Bool-cases,
}
use knows_me.Base.Texts.{Text, text_eq, text_eq-eq, text_eq_refl, Unicode}
use knows_me.Base.Results.{AppError, Result, ok, err, Result-cases}
use knows_me.Io.{Io, ◌>>=◌, ◌>>◌, bind-ok, Preserves, bind-Preserves}
use knows_me.Domain.{SourceKind, RawItem, Time}
use knows_me.Storage.{Store, StoreLaws, SeparateSpaces, Codec}
use knows_me.Storage.Documents as Documents
use knows_me.Processing.Router as Router
use knows_me.Processing.Router.{ProcessingDecision}
use knows_me.Processing.Pending.{PendingItem, pending_ns, pending_key}
use knows_me.Processing.Pending.Parking.{parked_at, parked_as, push-parked_at}
use knows_me.Processing.Gateway as Gateway
use knows_me.Processing.Gateway.{
  Model, Link, TransferLogEntry, TransferOp, call, with_retry, transfer_ns,
}
use knows_me.Processing.Gateway.Retries.{with_retry-Outcome}
use knows_me.Processing.Service as Service
use knows_me.Processing.Service.{
  Masker, KnowledgeApi, InterviewApi, Pipeline, KnownTitles, Obtained,
}

-- The transfer log leaves the parked items alone.
module _ (S : Store) (L : StoreLaws S) (apart : SeparateSpaces S L) (parked : Codec PendingItem)
    (digest : Text → Text) (entries : Codec TransferLogEntry) (number : ℕ → Text) where
  -- What is seen of a store: the parked items.
  abbrev pub waiting : S.State → Text → Option PendingItem
  waiting s key = parked_at S L parked digest s key

  put-Preserves :
      (key : Text) (e : TransferLogEntry)
      → Preserves waiting (Documents.put S entries transfer_ns key e)
  unfolding Documents.put
  put-Preserves key e s i j =
      Documents.decoded S parked pending_ns L
        (apart.put_elsewhere transfer_ns key (entries.encode e) s pending_ns j refl i)

  list-Preserves : Preserves waiting (S.list transfer_ns)
  list-Preserves s i key =
      Documents.decoded S parked pending_ns L (L.list_keeps transfer_ns s pending_ns key i)

  append-Preserves : (e : TransferLogEntry) → Preserves waiting (Gateway.append S entries number e)
  unfolding Gateway.append
  append-Preserves e =
      bind-Preserves waiting (S.list transfer_ns) _ list-Preserves (λ keys. put-Preserves _ e)

  module _ (model : Model) (max_attempts : ℕ) (now : Text) where
    abbrev pub waiting_link : Link S.State → Text → Option PendingItem
    waiting_link l = waiting l.store

    retry-Preserves :
        {A : Type 0} (answer : ℕ → Result AppError A)
        → Preserves waiting_link (with_retry (call answer) max_attempts)
    retry-Preserves answer l = ap waiting (with_retry-Outcome answer max_attempts l).1

    record_transfer-Preserves :
        (source : SourceKind) (op : TransferOp) (masked : Text)
        → Preserves waiting_link
            (Gateway.record_transfer S entries number model max_attempts now source op masked)
    unfolding Gateway.record_transfer
    record_transfer-Preserves source op masked l = append-Preserves _ l.store

    pub summarize-Preserves :
        (source : SourceKind) (masked : Text)
        → Preserves waiting_link
            (Gateway.summarize S entries number model max_attempts now source masked)
    unfolding Gateway.summarize
    summarize-Preserves source masked =
        bind-Preserves waiting_link
          (Gateway.record_transfer S entries number model max_attempts now source
            Gateway.summarize_op masked)
          _ (record_transfer-Preserves source Gateway.summarize_op masked)
          (λ u. retry-Preserves (λ n. model.summarize n masked))

    pub classify-Preserves :
        (source : SourceKind) (masked : Text)
        → Preserves waiting_link
            (Gateway.classify S entries number model max_attempts now source masked)
    unfolding Gateway.classify
    classify-Preserves source masked =
        bind-Preserves waiting_link
          (Gateway.record_transfer S entries number model max_attempts now source
            Gateway.classify_op masked)
          _ (record_transfer-Preserves source Gateway.classify_op masked)
          (λ u. retry-Preserves (λ n. model.classify n masked))

    pub vision_extract-Preserves :
        (source : SourceKind) (image : List ℕ)
        → Preserves waiting_link
            (Gateway.vision_extract S entries number model max_attempts now source image)
    unfolding Gateway.vision_extract
    vision_extract-Preserves source image =
        bind-Preserves waiting_link
          (with_retry (call (λ n. model.vision_extract n image)) max_attempts) _
          (retry-Preserves (λ n. model.vision_extract n image))
          (λ out.
            bind-Preserves waiting_link
              (Gateway.record_transfer S entries number model max_attempts now source
                Gateway.vision_extract_op out)
              _ (record_transfer-Preserves source Gateway.vision_extract_op out) (λ u l. refl))

module _ (m : Masker) (u : Unicode) (S : Store) (L : StoreLaws S) (apart : SeparateSpaces S L)
    {K Q : Type 0} (knowledge : KnowledgeApi K) (interview : InterviewApi Q) (model : Model)
    (entries : Codec TransferLogEntry) (parked : Codec PendingItem) (digest : Text → Text)
    (number : ℕ → Text) (max_attempts : ℕ) (online : ℕ → Bool) (new_id : ℕ → ℕ) (now : Time)
    (now_text : Text) (debug : Bool) where
  abbrev pub State : Type 0
  State = Pipeline S.State K Q

  -- What is seen of a pipeline: the parked items.
  abbrev pub waits : State → Text → Option PendingItem
  waits s = waiting S L apart parked digest entries number s.link.store

  abbrev pub one : RawItem → Io State (Unit {0})
  one =
      Service.process_one m u S knowledge interview model entries parked digest number max_attempts
        online new_id now now_text debug

  abbrev pub all_items : List RawItem → Io State (Unit {0})
  all_items =
      Service.process_all m u S knowledge interview model entries parked digest number max_attempts
        online new_id now now_text debug

  abbrev pub each_item : RawItem → Io State (Unit {0})
  each_item =
      Service.process_item m u S knowledge interview model entries parked digest number max_attempts
        online new_id now now_text debug

  abbrev on_k : {A : Type 0} → Io K A → Io State A
  on_k =
      Service.on_knowledge m u S knowledge interview model entries parked digest number max_attempts
        online new_id now now_text debug

  abbrev on_q : {A : Type 0} → Io Q A → Io State A
  on_q =
      Service.on_interview m u S knowledge interview model entries parked digest number max_attempts
        online new_id now now_text debug

  abbrev on_l : {A : Type 0} → Io (Link S.State) A → Io State A
  on_l =
      Service.on_link m u S knowledge interview model entries parked digest number max_attempts
        online new_id now now_text debug

  abbrev acts : KnownTitles → ProcessingDecision → Io State (Unit {0})
  acts =
      Service.act m u S knowledge interview model entries parked digest number max_attempts online
        new_id now now_text debug

  fresh-Preserves :
      {A : Type 0} (f : ℕ → Io State A)
      → ((id : ℕ) → Preserves waits (f id))
      → Preserves waits (
          Service.fresh m u S knowledge interview model entries parked digest number max_attempts
            online new_id now now_text debug
          >>= f)
  fresh-Preserves f h =
      bind-Preserves waits
        (Service.fresh m u S knowledge interview model entries parked digest number max_attempts
          online new_id now now_text debug)
        f (λ s. refl) h

  -- Asking the knowledge or the interview does not touch the parked items.
  know-Preserves :
      {A B : Type 0} (q : Io K A) (f : A → Io State B)
      → ((a : A) → Preserves waits (f a))
      → Preserves waits (on_k q >>= f)
  know-Preserves q f h = bind-Preserves waits (on_k q) f (λ s. refl) h

  ask-Preserves :
      {A B : Type 0} (q : Io Q A) (f : A → Io State B)
      → ((a : A) → Preserves waits (f a))
      → Preserves waits (on_q q >>= f)
  ask-Preserves q f h = bind-Preserves waits (on_q q) f (λ s. refl) h

  act-Preserves : (known : KnownTitles) (d : ProcessingDecision) → Preserves waits (acts known d)
  unfolding Service.act
  act-Preserves known (Router.store c) =
      fresh-Preserves
        (λ id.
          on_k (knowledge.upsert (Service.fact_from id now c))
          >> Service.counted m u S knowledge interview model entries parked digest number
              max_attempts online new_id now now_text debug Service.count_fact)
        (λ id.
          know-Preserves (knowledge.upsert (Service.fact_from id now c))
            (λ x.
              Service.counted m u S knowledge interview model entries parked digest number
                max_attempts online new_id now now_text debug Service.count_fact)
            (λ x s. refl))
  act-Preserves known (Router.confirm c) =
      elim (Bool-cases (Service.is_known m u known.facts c.title)) [
        | inl e ↦ rw e (λ s. refl)
        | inr e ↦ rw e (
            fresh-Preserves
              (λ id.
                on_q (interview.enqueue (Service.confirm_item id now c))
                >> Service.counted m u S knowledge interview model entries parked digest number
                    max_attempts online new_id now now_text debug Service.count_question)
              (λ id.
                ask-Preserves (interview.enqueue (Service.confirm_item id now c))
                  (λ x.
                    Service.counted m u S knowledge interview model entries parked digest number
                      max_attempts online new_id now now_text debug Service.count_question)
                  (λ x s. refl)))
      ]
  act-Preserves known (Router.deepen question hypothesis) =
      fresh-Preserves
        (λ id.
          on_q (interview.enqueue (Service.deepen_item id now question hypothesis))
          >> Service.counted m u S knowledge interview model entries parked digest number
              max_attempts online new_id now now_text debug Service.count_question)
        (λ id.
          ask-Preserves (interview.enqueue (Service.deepen_item id now question hypothesis))
            (λ x.
              Service.counted m u S knowledge interview model entries parked digest number
                max_attempts online new_id now now_text debug Service.count_question)
            (λ x s. refl))
  act-Preserves known (Router.drop reason) = λ s. refl

  abbrev entry : RawItem → Obtained m u → KnownTitles → Text → Text → Io State (Unit {0})
  entry =
      Service.process_entry m u S knowledge interview model entries parked digest number
        max_attempts online new_id now now_text debug

  abbrev entries_of : RawItem → Obtained m u → KnownTitles → Text → List Text → Io State (Unit {0})
  entries_of =
      Service.process_entries m u S knowledge interview model entries parked digest number
        max_attempts online new_id now now_text debug

  abbrev some_of : RawItem → Obtained m u → KnownTitles → List Text → Io State (Unit {0})
  some_of =
      Service.process_some m u S knowledge interview model entries parked digest number max_attempts
        online new_id now now_text debug

  abbrev titles : Io State KnownTitles
  titles =
      Service.known_titles m u S knowledge interview model entries parked digest number max_attempts
        online new_id now now_text debug

  abbrev obtained : RawItem → Option (List ℕ) → Io State (Obtained m u)
  obtained =
      Service.obtain m u S knowledge interview model entries parked digest number max_attempts
        online new_id now now_text debug

  entry-Preserves :
      (raw : RawItem) (got : Obtained m u) (known : KnownTitles) (vocab e : Text)
      → Preserves waits (entry raw got known vocab e)
  unfolding Service.process_entry
  entry-Preserves raw got known vocab e =
      bind-Preserves waits
        (on_l
          (Gateway.classify S entries number model max_attempts now_text raw.source (e ++ vocab)))
        (λ labels. acts known (Router.route u debug labels (Service.restored m u got.unmap e) raw))
        (λ s.
          classify-Preserves S L apart parked digest entries number model max_attempts now_text
            raw.source (e ++ vocab) s.link)
        (λ labels.
          act-Preserves known (Router.route u debug labels (Service.restored m u got.unmap e) raw))

  entries-Preserves :
      (raw : RawItem) (got : Obtained m u) (known : KnownTitles) (vocab : Text) (es : List Text)
      → Preserves waits (entries_of raw got known vocab es)
  unfolding Service.process_entries
  entries-Preserves raw got known vocab [] = λ s. refl
  entries-Preserves raw got known vocab (e ∷ es) =
      bind-Preserves waits (entry raw got known vocab e) (λ _. entries_of raw got known vocab es)
        (entry-Preserves raw got known vocab e) (λ _. entries-Preserves raw got known vocab es)

  some-Preserves :
      (raw : RawItem) (got : Obtained m u) (known : KnownTitles) (es : List Text)
      → Preserves waits (some_of raw got known es)
  unfolding Service.process_some
  some-Preserves raw got known [] = λ s. refl
  some-Preserves raw got known (e ∷ es) = λ s. entries-Preserves raw got known _ (e ∷ es) _

  obtain-Preserves :
      (raw : RawItem) (image : Option (List ℕ)) → Preserves waits (obtained raw image)
  unfolding Service.obtain
  obtain-Preserves raw none = λ s. refl
  obtain-Preserves raw (some image) =
      bind-Preserves waits
        (on_l
          (Gateway.vision_extract S entries number model max_attempts now_text raw.source image))
        _
        (λ s.
          vision_extract-Preserves S L apart parked digest entries number model max_attempts
            now_text raw.source image s.link)
        (λ masked s. refl)

  known_titles-Preserves : Preserves waits titles
  unfolding Service.known_titles
  known_titles-Preserves s = refl

  -- The pipeline of one item leaves the parked items alone, also where it fails.
  one-Preserves : (raw : RawItem) → Preserves waits (one raw)
  unfolding Service.process_one
  one-Preserves raw =
      bind-Preserves waits (obtained raw raw.image_png) _ (obtain-Preserves raw raw.image_png)
        (λ got. bind-Preserves waits titles _ known_titles-Preserves (λ known.
          bind-Preserves waits
            (on_l (
              Gateway.summarize S entries number model max_attempts now_text raw.source
                (Service.hinted got.masked known.hint)))
            _
            (λ s.
              summarize-Preserves S L apart parked digest entries number model max_attempts now_text
                raw.source _ s.link)
            (λ summary. some-Preserves raw got known _)))

  abbrev key_of : RawItem → Text
  key_of raw = pending_key S parked digest raw

  abbrev parks : RawItem → Io State (Unit {0})
  parks =
      Service.park m u S knowledge interview model entries parked digest number max_attempts online
        new_id now now_text debug

  -- The pipeline after the question for the connection.
  abbrev pub probed : State → State
  probed s = record s { probes = suc s.probes }

  -- The connection is there and the pipeline of the item succeeds.
  abbrev pub Done : RawItem → State → Type 0
  Done raw s = (online s.probes ≡ true) × ((one raw (probed s)).0 ≡ ok tt)

  -- An item of the same source and identity waits under the item's key.
  abbrev pub ParkedIn : State → RawItem → Type 0
  ParkedIn t raw = (p : PendingItem) × (waits t (key_of raw) ≡ some p) × (key_of p.raw ≡ key_of raw)

  -- Each item is done, in its turn, or waits at the end.
  abbrev pub Accounted : List RawItem → State → State → Type 0
  Accounted [] s t = Unit {0}
  Accounted (raw ∷ rest) s t = (ParkedIn t raw ⊎ Done raw s) × Accounted rest (each_item raw s).1 t

  -- What the parked items are after an item has been parked.
  abbrev Parks : RawItem → State → State → Type 0
  Parks raw s t =
      (key : Text)
      → waits t key ≡ (
          if text_eq (key_of raw) key
          then some (parked_as S L parked digest raw now_text (waits s (key_of raw)))
          else waits s key)

  parks-Parks : (raw : RawItem) (s : State) → (parks raw s).0 ≡ ok tt → Parks raw s (parks raw s).1
  unfolding Service.park
  parks-Parks raw s h key = push-parked_at S L parked digest raw now_text s.link.store h key

  Parks-same :
      (raw : RawItem) (s s' t : State)
      → ((key : Text) → waits s key ≡ waits s' key)
      → Parks raw s t
      → Parks raw s' t
  Parks-same raw s s' t same h key = h key ∙ rw (same key, same (key_of raw)) refl

  offline :
      (raw : RawItem) (s : State) → online s.probes ≡ false → each_item raw s ≡ parks raw (probed s)
  unfolding Service.process_item Service.is_online
  offline raw s e = rw e refl

  succeeds :
      (raw : RawItem) (s : State)
      → online s.probes ≡ true
      → (one raw (probed s)).0 ≡ ok tt
      → each_item raw s ≡ (ok tt, (one raw (probed s)).1)
  unfolding Service.process_item Service.is_online
  succeeds raw s e h = rw (e, h) refl

  fails :
      (raw : RawItem) (s : State) (x : AppError)
      → online s.probes ≡ true
      → (one raw (probed s)).0 ≡ err x
      → each_item raw s ≡ parks raw (one raw (probed s)).1
  unfolding Service.process_item Service.is_online
  fails raw s x e h = rw (e, h) refl

  Step : RawItem → State → State → Type 0
  Step raw s t = (Done raw s × ((key : Text) → waits t key ≡ waits s key)) ⊎ Parks raw s t

  item-Step :
      (raw : RawItem) (s : State) → (each_item raw s).0 ≡ ok tt → Step raw s (each_item raw s).1
  unfolding Step
  item-Step raw s h = elim (Bool-cases (online s.probes)) [
    | inr e ↦
        let step = offline raw s e in
        inr (λ key.
          ap (λ r. waits r.1 key) step
          ∙ parks-Parks raw (probed s) (ap (λ r. r.0) (sym step) ∙ h) key)
    | inl e ↦ elim (Result-cases (one raw (probed s)).0) [
      | inl (tt, good) ↦ inl (
        (e, good),
        λ key.
            ap (λ r. waits r.1 key) (succeeds raw s e good)
            ∙ ap (λ f. f key) (one-Preserves raw (probed s)),
      )
      | inr (x, bad) ↦
          let step = fails raw s x e bad in
          inr (
            Parks-same raw (one raw (probed s)).1 s (each_item raw s).1
              (λ key. ap (λ f. f key) (one-Preserves raw (probed s)))
              (λ key.
                ap (λ r. waits r.1 key) step
                ∙ parks-Parks raw (one raw (probed s)).1 (ap (λ r. r.0) (sym step) ∙ h) key))
    ]
  ]

  Step-accounts : (raw : RawItem) (s t : State) → Step raw s t → ParkedIn t raw ⊎ Done raw s
  unfolding Step
  Step-accounts raw s t (inl d) = inr d.0
  Step-accounts raw s t (inr p) = inl (
    parked_as S L parked digest raw now_text (waits s (key_of raw)),
    p (key_of raw) ∙ rw (text_eq_refl (key_of raw)) refl,
    refl,
  )

  Step-keeps :
      (raw other : RawItem) (s t : State) → Step raw s t → ParkedIn s other → ParkedIn t other
  unfolding Step
  Step-keeps raw other s t (inl d) (p, there, same) = (p, d.1 (key_of other) ∙ there, same)
  Step-keeps raw other s t (inr w) (p, there, same) =
      elim (Bool-cases (text_eq (key_of raw) (key_of other))) [
        | inl e ↦ (
          parked_as S L parked digest raw now_text (waits s (key_of raw)),
          w (key_of other) ∙ rw e refl,
          text_eq-eq (key_of raw) (key_of other) e,
        )
        | inr e ↦ (p, w (key_of other) ∙ rw e there, same)
      ]

  all-keep :
      (items : List RawItem) (other : RawItem) (s : State)
      → (all_items items s).0 ≡ ok tt
      → ParkedIn s other
      → ParkedIn (all_items items s).1 other
  unfolding Service.process_all
  all-keep [] other s h p = p
  all-keep (raw ∷ rest) other s h p =
      let (x, first, next) = bind-ok (each_item raw) (λ _. all_items rest) s tt h in
      subst (λ r. ParkedIn r.1 other) (sym next)
        (all-keep rest other (each_item raw s).1 (ap (λ r. r.0) (sym next) ∙ h)
          (Step-keeps raw other s (each_item raw s).1 (item-Step raw s first) p))

  -- No item is lost: where the run over the items succeeds, each item either went through the whole
  -- pipeline in its turn, or waits in the store at the end under its key.
  pub process_all-Accounted :
      (items : List RawItem) (s : State)
      → (all_items items s).0 ≡ ok tt
      → Accounted items s (all_items items s).1
  unfolding Service.process_all
  process_all-Accounted [] s h = tt
  process_all-Accounted (raw ∷ rest) s h =
      let (x, first, next) = bind-ok (each_item raw) (λ _. all_items rest) s tt h in
      let s1 = (each_item raw s).1 in
      let rest_ok = ap (λ r. r.0) (sym next) ∙ h in
      subst (λ r. Accounted (raw ∷ rest) s r.1) (sym next)
        (
          accounted (Step-accounts raw s s1 (item-Step raw s first)) rest_ok,
          process_all-Accounted rest s1 rest_ok,
        )
    where
      accounted :
          ParkedIn (each_item raw s).1 raw ⊎ Done raw s
          → (all_items rest (each_item raw s).1).0 ≡ ok tt
          → ParkedIn (all_items rest (each_item raw s).1).1 raw ⊎ Done raw s
      accounted (inl p) ok_rest = inl (all-keep rest raw (each_item raw s).1 ok_rest p)
      accounted (inr d) ok_rest = inr d
