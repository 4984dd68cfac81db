-- ===== src/Storage/Documents.antt =====
-- JSON documents in one namespace of the encrypted store, as `FactStore` of
-- src-tauri/src/knowledge/fact_store.rs and `QueueManager` of src-tauri/src/interview/queue_manager.rs
-- keep them, and as HistoryTracker of src-tauri/src/knowledge/history.rs reads and writes a log.
use knows_me.Base.{
  ◌≡◌, refl, sym, ap, ◌∙◌, false, Option, none, some, List, [], ◌∷◌, if◌then◌else◌, Bool-cases, inl,
  inr,
}
use knows_me.Base.Texts.{Text, text_eq, text_eq_refl}
use knows_me.Base.Results.{AppError, Result, ok, err, serde, Result-cases}
use knows_me.Io.{Io, pure, lift, continue, ◌>>=◌, bind-ok}
use knows_me.Storage.{Store, StoreLaws, Bytes, Codec}

module _ (S : Store) {A : Type 0} (codec : Codec A) (ns : Text) where
  abbrev pub parsed : Option A → Result AppError (Option A)
  parsed none = err serde
  parsed (some a) = ok (some a)

  abbrev pub read_document : Option Bytes → Result AppError (Option A)
  read_document none = ok none
  read_document (some b) = parsed (codec.decode b)

  unfoldable pub put : Text → A → Io S.State (Unit {0})
  put key a = S.put ns key (codec.encode a)

  unfoldable pub get : Text → Io S.State (Option A)
  get key = do found ← S.get ns key; lift (read_document found)

  abbrev pub pushed : Option A → List A → List A
  pushed none rest = rest
  pushed (some a) rest = a ∷ rest

  unfoldable pub load : List Text → Io S.State (List A)
  load [] = pure []
  load (key ∷ keys) = get key >>= λ a. load keys >>= λ rest. pure (pushed a rest)

  unfoldable pub load_all : Io S.State (List A)
  load_all = S.list ns >>= λ keys. load keys

  unfoldable pub delete : Text → Io S.State (Unit {0})
  delete key = S.delete ns key

  module _ (L : StoreLaws S) where
    abbrev pub decoded : Option Bytes → Option A
    decoded none = none
    decoded (some b) = codec.decode b

    -- The document that a reader finds.
    abbrev pub document : S.State → Text → Option A
    document s key = decoded (L.view s ns key)

    read_document-decoded :
        (o : Option Bytes) (a : Option A) → read_document o ≡ ok a → a ≡ decoded o
    read_document-decoded none a h = cc
    read_document-decoded (some b) a h = parsed-eq (codec.decode b) h
      where
        parsed-eq : (c : Option A) → parsed c ≡ ok a → a ≡ c
        parsed-eq none e = cc
        parsed-eq (some x) e = cc

    -- What is read is the document, and reading changes none.
    pub get_reads :
        (key : Text) (s : S.State) (a : Option A) → (get key s).0 ≡ ok a → a ≡ document s key
    unfolding get
    get_reads key s a h =
        let (o, got, rest) = bind-ok (S.get ns key) (λ found. lift (read_document found)) s a h in
        read_document-decoded o a (ap (λ p. p.0) (sym rest) ∙ h)
        ∙ ap decoded (L.get_reads ns key s o got)

    get-state : (key : Text) (s : S.State) → (get key s).1 ≡ (S.get ns key s).1
    unfolding get
    get-state key s = go (S.get ns key s).0
      where
        go :
            (r : Result AppError (Option Bytes))
            → (continue r (λ found. lift (read_document found)) (S.get ns key s).1).1
              ≡ (S.get ns key s).1
        go (ok o) = refl
        go (err e) = refl

    pub get_keeps :
        (key : Text) (s : S.State) (n j : Text) → L.view (get key s).1 n j ≡ L.view s n j
    get_keeps key s n j = rw (get-state key s) (L.get_keeps ns key s n j)

    -- A document that was written is there, and the others are as before.
    pub put_writes :
        (key : Text) (a : A) (s : S.State)
        → (put key a s).0 ≡ ok tt
        → (j : Text) → document (put key a s).1 j ≡ (if text_eq key j then some a else document s j)
    unfolding put
    put_writes key a s h j =
        rw (L.put_writes ns key (codec.encode a) s h ns j, text_eq_refl ns)
          (elim (Bool-cases (text_eq key j)) [
            | inl e ↦ rw e (codec.decode-encode a)
            | inr e ↦ rw e refl
          ])

    -- Writing here changes no other namespace.
    pub put_elsewhere :
        (key : Text) (a : A) (s : S.State)
        → (put key a s).0 ≡ ok tt
        → (n j : Text) → text_eq ns n ≡ false
        → L.view (put key a s).1 n j ≡ L.view s n j
    unfolding put
    put_elsewhere key a s h n j e = rw (L.put_writes ns key (codec.encode a) s h n j, e) refl

    -- Deleting a document removes it and no other.
    pub delete_removes :
        (key : Text) (s : S.State)
        → (delete key s).0 ≡ ok tt
        → (j : Text) → document (delete key s).1 j ≡ (if text_eq key j then none else document s j)
    unfolding delete
    delete_removes key s h j =
        rw (L.delete_removes ns key s h ns j, text_eq_refl ns)
          (elim (Bool-cases (text_eq key j)) [ inl e ↦ rw e refl | inr e ↦ rw e refl ])

    load-keeps :
        (keys : List Text) (s : S.State) (n j : Text) → L.view (load keys s).1 n j ≡ L.view s n j
    unfolding load
    load-keeps [] s n j = refl
    load-keeps (key ∷ keys) s n j = elim (Result-cases (get key s).0) [
      | inr (e, g) ↦ rw g (get_keeps key s n j)
      | inl (a, g) ↦ elim (Result-cases (load keys (get key s).1).0) [
        | inr (e, l) ↦ rw (g, l) (load-keeps keys (get key s).1 n j ∙ get_keeps key s n j)
        | inl (rest, l) ↦ rw (g, l) (load-keeps keys (get key s).1 n j ∙ get_keeps key s n j)
      ]
    ]

    -- Loading all the documents changes nothing.
    pub load_all_keeps : (s : S.State) (n j : Text) → L.view (load_all s).1 n j ≡ L.view s n j
    unfolding load_all
    load_all_keeps s n j = elim (Result-cases (S.list ns s).0) [
      | inr (e, l) ↦ rw l (L.list_keeps ns s n j)
      | inl (keys, l) ↦ rw l (load-keeps keys (S.list ns s).1 n j ∙ L.list_keeps ns s n j)
    ]
