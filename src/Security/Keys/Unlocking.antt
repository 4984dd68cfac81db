-- ===== src/Security/Keys/Unlocking.antt =====
-- Who can unlock the vault, and what a refused attempt leaves.
use knows_me.Base.{◌≡◌, ◌≢◌, refl, sym, ap, ◌∙◌, true, some, arith, length, Bool-cases, inl, inr}
use knows_me.Base.Texts.{Text}
use knows_me.Base.Results.{AppError, Result, ok, err, invalid_input, ◌>>=◌}
use knows_me.Base.Lines.{is_empty}
use knows_me.Storage.{Bytes}
use knows_me.Security.Vault.{AeadLaws, Key, encrypt, decrypt, decrypt-encrypt, decrypt-other_key}
use knows_me.Security.Keys.{
  Primitives, PrimitiveLaws, KeyManager, KeyStoreFile, present, absent, WriteOutcome, done, failed,
  verifier_magic, setup, unlock, lock, sealed, settle, seal_keystore, check_password, read_keystore,
  verify, is_initialized,
}

initialized : (m : KeyManager) → m.keystore ≢ absent → is_initialized m ≡ true
unfolding is_initialized
initialized m h = ground arith

module _ (p : Primitives) where
  settle_error :
      (m : KeyManager) (r : Result AppError Key) (e : AppError)
      → (settle p m r).0 ≡ err e
      → (settle p m r).1 ≡ m
  unfolding settle
  settle_error m (ok k) e h = cc
  settle_error m (err x) e h = refl

  -- An attempt that is refused changes nothing.
  pub unlock_error :
      (password : Text) (m : KeyManager) (e : AppError)
      → (unlock p password m).0 ≡ err e
      → (unlock p password m).1 ≡ m
  unfolding unlock
  unlock_error password m e h =
      settle_error m (read_keystore m.keystore >>= check_password p password) e h

  -- A vault that has a keystore, even a damaged one, is not set up again: the call is an error and
  -- changes nothing.
  pub setup_again :
      (password : Text) (salt nonce : Bytes) (outcome : WriteOutcome) (m : KeyManager)
      → m.keystore ≢ absent
      → setup p password salt nonce outcome m ≡ (err invalid_input, m)
  unfolding setup
  setup_again password salt nonce outcome m h = ground (arith, initialized m h)

  -- What a successful set-up has made.
  abbrev pub file_of : Bytes → Bytes → KeyStoreFile
  file_of salt verifier = record {
    version = 1;
    salt = p.b64_encode salt;
    verifier = p.b64_encode verifier;
  }

  abbrev Made : Text → Bytes → Bytes → KeyManager → Type 0
  Made password salt nonce m =
      (key : Key) × (verifier : Bytes) × (p.derive password salt ≡ some key)
      × (encrypt p.aead nonce key verifier_magic ≡ ok verifier)
      × (m ≡ record { keystore = present (file_of salt verifier); current = some key })

  sealed-ok :
      (password : Text) (salt nonce : Bytes) (key : Key) (verifier : Bytes)
      → sealed p password salt nonce ≡ ok (key, verifier)
      → (p.derive password salt ≡ some key)
        × (encrypt p.aead nonce key verifier_magic ≡ ok verifier)
  unfolding sealed
  sealed-ok password salt nonce key verifier h = ground arith

  seal_keystore-Made :
      (password : Text) (salt nonce : Bytes) (outcome : WriteOutcome) (m : KeyManager)
      (r : Result AppError (Key × Bytes))
      → sealed p password salt nonce ≡ r
      → (seal_keystore p m salt r outcome).0 ≡ ok tt
      → Made password salt nonce (seal_keystore p m salt r outcome).1
  unfolding seal_keystore
  seal_keystore-Made password salt nonce outcome m (err e) q h = cc
  seal_keystore-Made password salt nonce done m (ok (key, verifier)) q h =
      let s = sealed-ok password salt nonce key verifier q in (key, verifier, s.0, s.1, refl)
  seal_keystore-Made password salt nonce (failed left) m (ok (key, verifier)) q h = cc

  setup-Made :
      (password : Text) (salt nonce : Bytes) (outcome : WriteOutcome) (m : KeyManager)
      → (setup p password salt nonce outcome m).0 ≡ ok tt
      → Made password salt nonce (setup p password salt nonce outcome m).1
  unfolding setup
  setup-Made password salt nonce outcome m h = elim (Bool-cases (is_empty password)) [
    | inl e ↦ let k = rw e at h in cc k
    | inr e ↦ elim (Bool-cases (is_initialized m)) [
      | inl f ↦ let k = rw (e, f) at h in cc k
      | inr f ↦
          rw (e, f)
            (seal_keystore-Made password salt nonce outcome m (sealed p password salt nonce) refl
              (rw (e, f) at h))
    ]
  ]

  module _ (base64 : PrimitiveLaws p) where
    check-present :
        (password : Text) (salt verifier : Bytes) (key : Key)
        → p.derive password salt ≡ some key
        → check_password p password (file_of salt verifier)
          ≡ verify p key (decrypt p.aead verifier key)
    unfolding check_password
    check-present password salt verifier key h =
        rw (base64.b64_round salt, base64.b64_round verifier, h) refl

    module _ (cipher : AeadLaws p.aead) (nonce : Bytes) (sized : length nonce ≡ 12) where
      -- After a set-up that succeeded the vault is unlocked, and once locked it is unlocked by the
      -- same password, which gives the state of the set-up back.
      pub unlock-setup :
          (password : Text) (salt : Bytes) (outcome : WriteOutcome) (m : KeyManager)
          → (setup p password salt nonce outcome m).0 ≡ ok tt
          → let m' = (setup p password salt nonce outcome m).1 in
            (key : Key) × (m'.current ≡ some key) × (unlock p password (lock m') ≡ (ok key, m'))
      unfolding unlock lock
      unlock-setup password salt outcome m h =
          let (key, verifier, d, e, q) = setup-Made password salt nonce outcome m h in
          let opened = decrypt-encrypt p.aead cipher nonce sized key verifier_magic verifier e in
          let checked : check_password p password (file_of salt verifier) ≡ ok key =
            check-present password salt verifier key d ∙ rw opened (unfold verify in refl) in
          rw q (key, refl, ap (settle p _) checked)

      -- A password that derives another key is refused, and leaves the vault locked.
      pub unlock_wrong_password :
          (password other : Text) (salt : Bytes) (outcome : WriteOutcome) (m : KeyManager)
          (key' : Key)
          → (setup p password salt nonce outcome m).0 ≡ ok tt
          → p.derive other salt ≡ some key'
          → p.derive password salt ≢ some key'
          → let m' = lock (setup p password salt nonce outcome m).1 in
            unlock p other m' ≡ (err invalid_input, m')
      unfolding unlock lock
      unlock_wrong_password password other salt outcome m key' h d' n =
          let (key, verifier, d, e, q) = setup-Made password salt nonce outcome m h in
          let closed =
            decrypt-other_key p.aead cipher nonce sized key key' verifier_magic verifier e
              (λ s. n (d ∙ ap some (sym s))) in
          let checked : check_password p other (file_of salt verifier) ≡ err invalid_input =
            check-present other salt verifier key' d' ∙ rw closed (unfold verify in refl) in
          rw q (ap (settle p _) checked)
