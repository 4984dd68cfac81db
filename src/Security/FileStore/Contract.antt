-- ===== src/Security/FileStore/Contract.antt =====
-- What the store on disk promises: the contract of `EncryptedStore`, and what the lock does.
use knows_me.Base.{
  ℕ, suc, ◌≡◌, refl, ap, ◌∙◌, false, Option, none, some, ◌∷◌, length, Bool-cases, Option-cases, inl,
  inr,
}
use knows_me.Base.Texts.{Text, text_eq_refl}
use knows_me.Base.Results.{ok, err, locked, Result-cases}
use knows_me.Storage.{Bytes, find_entry, remove_entry, find-remove}
use knows_me.Security.Vault.{AeadLaws, Key, encrypt, decrypt-encrypt}
use knows_me.Security.Keys.{current_key}
use knows_me.Security.FileStore.{
  Disk, Environment, ns_dir, file_name, check_key, put, get, list, delete, opened,
}

module _ (w : Environment) where
  -- While the vault is locked, `put` and `get` under a key that is not too long, and `list`, are
  -- refused and touch nothing.
  pub locked_refuses :
      (ns key : Text) (bytes : Bytes) (d : Disk)
      → d.manager.current ≡ none
      → check_key w key ≡ ok tt
      → (put w ns key bytes d ≡ (err locked, d))
        × (get w ns key d ≡ (err locked, d))
        × (list w ns d ≡ (err locked, d))
  unfolding put get list current_key
  locked_refuses ns key bytes d h c = (rw (c, h) refl, rw (c, h) refl, rw h refl)

  -- `delete` looks at no key: locked or not, it removes the file unless the file system fails.
  pub delete_unguarded :
      (ns key : Text) (d : Disk)
      → w.fails_at d.ticks ≡ false
      → ((delete w ns key d).0 ≡ ok tt)
        × (find_entry (ns_dir w ns) (file_name w key) (delete w ns key d).1.files ≡ none)
  unfolding delete
  delete_unguarded ns key d h = (
    rw h refl,
    rw h (
        find-remove (ns_dir w ns) (file_name w key) (ns_dir w ns) (file_name w key) d.files
        ∙ rw (text_eq_refl (ns_dir w ns), text_eq_refl (file_name w key)) refl),
  )

  -- A `put` that succeeded: the key was there, and the file holds the sealed value.
  abbrev Written : Text → Text → Bytes → Disk → Disk → Type 0
  Written ns key bytes d d' =
      (handle : Key) × (blob : Bytes) × (d.manager.current ≡ some handle)
      × (check_key w key ≡ ok tt)
      × (encrypt w.aead (w.nonce_at d.ticks) handle bytes ≡ ok blob)
      × (d'.manager ≡ d.manager)
      × (d'.files
          ≡ record { ns = ns_dir w ns; key = file_name w key; bytes = blob }
            ∷ remove_entry (ns_dir w ns) (file_name w key) d.files)

  put-Written :
      (ns key : Text) (bytes : Bytes) (d : Disk)
      → (put w ns key bytes d).0 ≡ ok tt
      → Written ns key bytes d (put w ns key bytes d).1
  unfolding put current_key
  put-Written ns key bytes d h = elim (Result-cases (check_key w key)) [
    | inr (e, c) ↦ let k = rw c at h in cc k
    | inl (u, c) ↦ elim (Option-cases d.manager.current) [
      | inl m ↦ let k = rw (c, m) at h in cc k
      | inr (handle, m) ↦ elim (Result-cases (encrypt w.aead (w.nonce_at d.ticks) handle bytes)) [
        | inr (e, x) ↦ let k = rw (c, m, x) at h in cc k
        | inl (blob, x) ↦ elim (Bool-cases (w.fails_at d.ticks)) [
          | inl f ↦ let k = rw (c, m, x, f) at h in cc k
          | inr f ↦ elim (Bool-cases (w.fails_at (suc d.ticks))) [
            | inl g ↦ let k = rw (c, m, x, f, g) at h in cc k
            | inr g ↦ (handle, blob, m, c, x, rw (c, m, x, f, g) refl, rw (c, m, x, f, g) refl)
          ]
        ]
      ]
    ]
  ]

  get-found :
      (ns key : Text) (d : Disk) (handle : Key) (o : Option Bytes)
      → check_key w key ≡ ok tt
      → d.manager.current ≡ some handle
      → w.fails_at d.ticks ≡ false
      → find_entry (ns_dir w ns) (file_name w key) d.files ≡ o
      → (get w ns key d).0 ≡ opened w handle o
  unfolding get current_key
  get-found ns key d handle o c m f found = rw (c, m, f, found) refl

  module _ (laws : AeadLaws w.aead) (sized : (n : ℕ) → length (w.nonce_at n) ≡ 12) where
    opened-sealed :
        (n : ℕ) (handle : Key) (bytes blob : Bytes)
        → encrypt w.aead (w.nonce_at n) handle bytes ≡ ok blob
        → opened w handle (some blob) ≡ ok (some bytes)
    unfolding opened
    opened-sealed n handle bytes blob h =
        rw (opened, decrypt-encrypt w.aead laws (w.nonce_at n) (sized n) handle bytes blob h) refl

    -- After a `put` that succeeded, `get` with the same key gives the value back, unless the file
    -- system fails at that read.
    pub get-put :
        (ns key : Text) (bytes : Bytes) (d : Disk)
        → (put w ns key bytes d).0 ≡ ok tt
        → w.fails_at (put w ns key bytes d).1.ticks ≡ false
        → (get w ns key (put w ns key bytes d).1).0 ≡ ok (some bytes)
    get-put ns key bytes d h f =
        let (handle, blob, m, c, x, keeps, files) = put-Written ns key bytes d h in
        get-found ns key (put w ns key bytes d).1 handle (some blob) c
          (ap (λ k. k.current) keeps ∙ m) f
          (rw (files, text_eq_refl (ns_dir w ns), text_eq_refl (file_name w key)) refl)
        ∙ opened-sealed d.ticks handle bytes blob x
