-- ===== src/Security/Keys.antt =====
-- src-tauri/src/security/key_manager.rs: set-up, unlocking and locking.
-- Argon2id, base64 and the cipher are parameters; salt and nonce are arguments of `setup`, and so is
-- what the write of the keystore comes to.
pub mod Unlocking
use knows_me.Base.{
  ℕ, ◌≡◌, Bool, true, false, Option, none, some, List, [], ◌∷◌, if◌then◌else◌, length, ◌==◌,
}
use knows_me.Base.Texts.{Text, codes, text_eq}
use knows_me.Base.Lines.{is_empty}
use knows_me.Base.Results.{
  AppError, Result, ok, err, invalid_input, io, serde, crypto, locked, ◌>>=◌, ok_or,
}
use knows_me.Storage.{Bytes}
use knows_me.Security.Vault.{Aead, Key, encrypt, decrypt}

abbrev pub verifier_magic : Bytes
verifier_magic = codes "knows-me-vault-verifier-v1"

pub record KeyStoreFile : Type 0 where
  pub version : ℕ
  pub salt : Text
  pub verifier : Text

-- The file keystore.json: not there, not readable, not JSON of that shape, or there.
pub data Keystore : Type 0 where
  absent unreadable garbled : Keystore
  present : KeyStoreFile → Keystore

pub record KeyManager : Type 0 where
  pub keystore : Keystore
  pub current : Option Key

-- The external functions.
pub record Primitives : Type 0 where
  pub derive : Text → Bytes → Option Key
  pub b64_encode : Bytes → Text
  pub b64_decode : Text → Option Bytes
  pub aead : Aead

pub record PrimitiveLaws (p : Primitives) : Type 0 where
  pub b64_round : (b : Bytes) → p.b64_decode (p.b64_encode b) ≡ some b

-- What the write of the keystore comes to: done, or failed and leaving this behind.
pub data WriteOutcome : Type 0 where
  done : WriteOutcome
  failed : Keystore → WriteOutcome

unfoldable pub is_initialized : KeyManager → Bool
is_initialized m = elim m.keystore [ absent ↦ false | _ ↦ true ]

unfoldable pub current_key : KeyManager → Result AppError Key
current_key m = ok_or m.current locked

unfoldable pub is_unlocked : KeyManager → Bool
is_unlocked m = elim m.current [ none ↦ false | some k ↦ true ]

unfoldable pub lock : KeyManager → KeyManager
lock m = record m { current = none }

unfoldable pub read_keystore : Keystore → Result AppError KeyStoreFile
read_keystore absent = err invalid_input
read_keystore unreadable = err io
read_keystore garbled = err serde
read_keystore (present f) = ok f

module _ (p : Primitives) where
  unfoldable pub derive_key : Text → Bytes → Result AppError Key
  derive_key password salt = ok_or (p.derive password salt) crypto

  unfoldable pub write_keystore :
      KeyManager → KeyStoreFile → Key → WriteOutcome → Result AppError (Unit {0}) × KeyManager
  write_keystore m file key done = (ok tt, record { keystore = present file; current = some key })
  write_keystore m file key (failed left) = (err io, record m { keystore = left })

  -- From the derived key on.
  unfoldable pub seal_keystore :
      KeyManager
      → Bytes
      → Result AppError (Key × Bytes)
      → WriteOutcome
      → Result AppError (Unit {0}) × KeyManager
  unfolding write_keystore
  seal_keystore m salt (err e) outcome = (err e, m)
  seal_keystore m salt (ok (key, verifier)) outcome =
      write_keystore m
        (record { version = 1; salt = p.b64_encode salt; verifier = p.b64_encode verifier }) key
        outcome

  unfoldable pub sealed : Text → Bytes → Bytes → Result AppError (Key × Bytes)
  unfolding derive_key
  sealed password salt nonce = derive_key password salt >>= λ key.
      encrypt p.aead nonce key verifier_magic >>= λ verifier. ok (key, verifier)

  unfoldable pub setup :
      Text → Bytes → Bytes → WriteOutcome → KeyManager → Result AppError (Unit {0}) × KeyManager
  unfolding is_initialized seal_keystore sealed
  setup password salt nonce outcome m =
      if is_empty password
      then (err invalid_input, m)
      else if is_initialized m
      then (err invalid_input, m)
      else seal_keystore m salt (sealed password salt nonce) outcome

  -- The verifier must open to the magic.
  unfoldable pub verify : Key → Result AppError Bytes → Result AppError Key
  verify key (err e) = err invalid_input
  verify key (ok plain) = if text_eq plain verifier_magic then ok key else err invalid_input

  unfoldable pub check_password : Text → KeyStoreFile → Result AppError Key
  unfolding derive_key verify
  check_password password file = ok_or (p.b64_decode file.salt) serde >>= λ salt.
      ok_or (p.b64_decode file.verifier) serde >>= λ verifier.
      derive_key password salt >>= λ key. verify key (decrypt p.aead verifier key)

  unfoldable pub settle : KeyManager → Result AppError Key → Result AppError Key × KeyManager
  settle m (err e) = (err e, m)
  settle m (ok key) = (ok key, record m { current = some key })

  unfoldable pub unlock : Text → KeyManager → Result AppError Key × KeyManager
  unfolding read_keystore check_password settle
  unlock password m = settle m (read_keystore m.keystore >>= check_password password)
