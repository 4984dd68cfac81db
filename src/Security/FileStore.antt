-- ===== src/Security/FileStore.antt =====
-- `FileEncryptedStore` of src-tauri/src/security/store.rs, and its credential store.
-- The folder is a list of files, each with its directory and name. base64url, the cipher and the
-- nonces of OsRng are parameters, and so is which call of the file system fails: `fails_at n` says
-- it of the n-th, and `left_at n` what a failed write leaves in the file.
pub mod Contract
use knows_me.Base.{
  ℕ, suc, ◌+◌, ◌≡◌, Bool, true, false, Option, none, some, List, [], ◌∷◌, ◌++◌, ltb, length,
  if◌then◌else◌,
}
use knows_me.Base.Texts.{Text, codes, text_eq}
use knows_me.Base.Results.{AppError, Result, ok, err, invalid_input, io, serde}
use knows_me.Io.{Io, pure, raise, lift, continue, ◌>>=◌, ◌>>◌}
use knows_me.Storage.{Bytes, Store, Memory, Entry, find_entry, remove_entry, keys_of, Codec}
use knows_me.Domain.{SourceKind, session, notion, gmail, file, confluence, jira}
use knows_me.Security.Vault.{Aead, Key, encrypt, decrypt}
use knows_me.Security.Keys.{KeyManager, current_key}

pub record Disk : Type 0 where
  pub manager : KeyManager
  pub files : Memory
  pub ticks : ℕ

pub record Environment : Type 0 where
  pub b64url : Text → Text
  pub b64url_decode : Text → Option Text
  pub aead : Aead
  pub nonce_at : ℕ → Bytes
  pub fails_at : ℕ → Bool
  pub left_at : ℕ → Option Bytes

abbrev pub suffix : Text
suffix = codes ".bin"

abbrev pub max_file_name_bytes : ℕ
max_file_name_bytes = 255

-- `strip_suffix`.
unfoldable pub strip_suffix : Text → Text → Option Text
strip_suffix end [] = if text_eq [] end then some [] else none
strip_suffix end (c ∷ s) =
    let rest = strip_suffix end s in
    if text_eq (c ∷ s) end then some [] else elim rest [ none ↦ none | some t ↦ some (c ∷ t) ]

abbrev pub set_file : Text → Text → Bytes → Memory → Memory
set_file dir name blob files =
    record { ns = dir; key = name; bytes = blob } ∷ remove_entry dir name files

module _ (w : Environment) where
  abbrev pub ns_dir : Text → Text
  ns_dir ns = w.b64url ns

  abbrev pub file_name : Text → Text
  file_name key = w.b64url key ++ suffix

  unfoldable pub check_key : Text → Result AppError (Unit {0})
  check_key key =
      if ltb max_file_name_bytes (length (w.b64url key) + length suffix)
      then err invalid_input
      else ok tt

  -- One call of the file system that may fail and changes nothing.
  unfoldable pub tick : Io Disk (Unit {0})
  tick d = (if w.fails_at d.ticks then err io else ok tt, record d { ticks = suc d.ticks })

  abbrev pub torn : Text → Text → Option Bytes → Memory → Memory
  torn dir name none files = files
  torn dir name (some blob) files = set_file dir name blob files

  unfoldable pub write_file : Text → Text → Bytes → Io Disk (Unit {0})
  write_file dir name blob d =
      if w.fails_at d.ticks
      then (
        err io,
        record d { files = torn dir name (w.left_at d.ticks) d.files; ticks = suc d.ticks },
      )
      else (ok tt, record d { files = set_file dir name blob d.files; ticks = suc d.ticks })

  unfoldable pub unlocked_key : Io Disk Key
  unlocked_key d = (current_key d.manager, d)

  unfoldable pub sealed_value : Key → Bytes → Io Disk Bytes
  sealed_value key bytes d = (encrypt w.aead (w.nonce_at d.ticks) key bytes, d)

  unfoldable pub put : Text → Text → Bytes → Io Disk (Unit {0})
  unfolding check_key tick write_file unlocked_key sealed_value
  put ns key bytes = do
    lift (check_key key)
    handle ← unlocked_key
    blob ← sealed_value handle bytes
    tick
    write_file (ns_dir ns) (file_name key) blob

  unfoldable pub opened : Key → Option Bytes → Result AppError (Option Bytes)
  opened handle none = ok none
  opened handle (some blob) = elim (decrypt w.aead blob handle) [
    | ok b ↦ ok (some b)
    | err e ↦ err e
  ]

  unfoldable pub read_file : Text → Text → Key → Io Disk (Option Bytes)
  unfolding opened
  read_file ns key handle d = (opened handle (find_entry (ns_dir ns) (file_name key) d.files), d)

  unfoldable pub get : Text → Text → Io Disk (Option Bytes)
  unfolding check_key tick unlocked_key read_file
  get ns key = do lift (check_key key); handle ← unlocked_key; tick; read_file ns key handle

  -- The loop over the names of a directory.
  decode_name : Option Text → Result AppError (List Text) → Result AppError (List Text)
  decode_name none rest = rest
  decode_name (some stem) rest = elim (w.b64url_decode stem) [
    | none ↦ err serde
    | some key ↦ elim rest [ ok keys ↦ ok (key ∷ keys) | err e ↦ err e ]
  ]

  decode_names : List Text → Result AppError (List Text)
  decode_names [] = ok []
  decode_names (name ∷ names) = decode_name (strip_suffix suffix name) (decode_names names)

  unfoldable pub list : Text → Io Disk (List Text)
  unfolding tick unlocked_key decode_name decode_names strip_suffix
  list ns = do unlocked_key; tick; λ d. (decode_names (keys_of (ns_dir ns) d.files), d)

  -- Neither the length of the key nor the lock is looked at.
  unfoldable pub delete : Text → Text → Io Disk (Unit {0})
  unfolding tick
  delete ns key = do
    tick
    λ d. (ok tt, record d { files = remove_entry (ns_dir ns) (file_name key) d.files })

  abbrev pub file_store : Store
  file_store = record { State = Disk; put = put; get = get; list = list; delete = delete }

  source_key : SourceKind → Text
  source_key session = codes "Session"
  source_key notion = codes "Notion"
  source_key gmail = codes "Gmail"
  source_key file = codes "File"
  source_key confluence = codes "Confluence"
  source_key jira = codes "Jira"

  abbrev credentials_ns : Text
  credentials_ns = codes "credentials"

  module _ {C : Type 0} (codec : Codec C) where
    pub store_credential : SourceKind → C → Io Disk (Unit {0})
    unfolding source_key put
    store_credential source cred = put credentials_ns (source_key source) (codec.encode cred)

    read_credential : Option Bytes → Result AppError (Option C)
    read_credential none = ok none
    read_credential (some bytes) = elim (codec.decode bytes) [
      | none ↦ err serde
      | some c ↦ ok (some c)
    ]

    pub load_credential : SourceKind → Io Disk (Option C)
    unfolding source_key get read_credential
    load_credential source = do
      found ← get credentials_ns (source_key source)
      lift (read_credential found)

    pub delete_credential : SourceKind → Io Disk (Unit {0})
    unfolding source_key delete
    delete_credential source = delete credentials_ns (source_key source)
