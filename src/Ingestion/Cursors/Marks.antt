-- ===== src/Ingestion/Cursors/Marks.antt =====
-- What the operations of src-tauri/src/ingestion/cursor_store.rs read and leave in the store.
use knows_me.Base.{
  ◌≡◌, refl, sym, ap, ◌∙◌, Bool, true, Option, some, if◌then◌else◌, Bool-cases, inl, inr,
}
use knows_me.Base.Texts.{Text, text_eq, text_eq_refl}
use knows_me.Base.Results.{ok, Result-cases}
use knows_me.Io.{pure, bind-ok}
use knows_me.Domain.{SourceKind, source_tag}
use knows_me.Storage.{Store, StoreLaws, Codec}
use knows_me.Storage.Documents as Documents
use knows_me.Ingestion.Cursors.{
  Cursor, is_some, seen_ns, cursor_ns, seen_key, load_cursor, save_cursor, is_seen, mark_seen,
}

module _ (S : Store) (L : StoreLaws S) where
  -- Whether there is a mark under a key.
  abbrev pub marked : S.State → Text → Bool
  marked s key = is_some (L.view s seen_ns key)

  module _ (digest : Text → Text) where
    pub is_seen-reads :
        (source : SourceKind) (id : Text) (s : S.State) (b : Bool)
        → (is_seen S digest source id s).0 ≡ ok b
        → b ≡ marked s (seen_key digest source id)
    unfolding is_seen
    is_seen-reads source id s b h =
        let key = seen_key digest source id in
        let (found, got, rest) = bind-ok (S.get seen_ns key) (λ o. pure (is_some o)) s b h in
        let same : is_some found ≡ b = cc h in
        sym same ∙ ap is_some (L.get_reads seen_ns key s found got)

    pub is_seen-keeps :
        (source : SourceKind) (id : Text) (s : S.State) (key : Text)
        → marked (is_seen S digest source id s).1 key ≡ marked s key
    unfolding is_seen
    is_seen-keeps source id s key =
        elim (Result-cases (S.get seen_ns (seen_key digest source id) s).0) [
          | inl (o, e) ↦ rw (e, L.get_keeps seen_ns (seen_key digest source id) s seen_ns key) refl
          | inr (x, e) ↦ rw (e, L.get_keeps seen_ns (seen_key digest source id) s seen_ns key) refl
        ]

    pub mark_seen-marks :
        (utf8 : Codec Text) (source : SourceKind) (id at : Text) (s : S.State)
        → (mark_seen S digest utf8 source id at s).0 ≡ ok tt
        → (key : Text)
        → marked (mark_seen S digest utf8 source id at s).1 key
          ≡ (if text_eq (seen_key digest source id) key then true else marked s key)
    unfolding mark_seen Documents.put
    mark_seen-marks utf8 source id at s h key =
        rw (L.put_writes seen_ns (seen_key digest source id) (utf8.encode at) s h seen_ns key)
          (elim (Bool-cases (text_eq (seen_key digest source id) key)) [
            | inl e ↦ rw e refl
            | inr e ↦ rw e refl
          ])

  module _ (utf8 : Codec Text) where
    -- The cursor that a reader finds for a source.
    abbrev pub cursor_of : S.State → SourceKind → Option Cursor
    cursor_of s source = Documents.document S utf8 cursor_ns L s (source_tag source)

    pub load_cursor-reads :
        (source : SourceKind) (s : S.State) (o : Option Cursor)
        → (load_cursor S utf8 source s).0 ≡ ok o
        → o ≡ cursor_of s source
    unfolding load_cursor
    load_cursor-reads source s o h =
        Documents.get_reads S utf8 cursor_ns L (source_tag source) s o h

    pub load_cursor-keeps :
        (source : SourceKind) (s : S.State) (key : Text)
        → marked (load_cursor S utf8 source s).1 key ≡ marked s key
    unfolding load_cursor
    load_cursor-keeps source s key =
        ap is_some (Documents.get_keeps S utf8 cursor_ns L (source_tag source) s seen_ns key)

    -- A cursor that was saved is found, and no mark has changed.
    pub save_cursor-saves :
        (source : SourceKind) (next : Cursor) (s : S.State)
        → (save_cursor S utf8 source next s).0 ≡ ok tt
        → (cursor_of (save_cursor S utf8 source next s).1 source ≡ some next)
          × ((key : Text) → marked (save_cursor S utf8 source next s).1 key ≡ marked s key)
    unfolding save_cursor
    save_cursor-saves source next s h = (
      Documents.put_writes S utf8 cursor_ns L (source_tag source) next s h (source_tag source)
          ∙ rw (text_eq_refl (source_tag source)) refl,
      λ key. ap is_some (
          Documents.put_elsewhere S utf8 cursor_ns L (source_tag source) next s h seen_ns key refl),
    )
