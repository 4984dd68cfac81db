-- ===== src/Security/Vault.antt =====
-- src-tauri/src/security/vault.rs: `nonce || ciphertext || tag`. AES-256-GCM, of the crate
-- aes_gcm, is the record `Aead`; the nonce that OsRng gives is an argument.
use knows_me.Base.{
  ℕ, ◌≡◌, ◌≢◌, ◌∙◌, refl, ap, Option, none, some, [], ◌∷◌, ◌++◌, arith, ltb, length, length-append,
  take, drop, if◌then◌else◌,
}
use knows_me.Base.Results.{AppError, Result, ok, err, crypto}
use knows_me.Storage.{Bytes}

abbrev pub Key : Type 0
Key = Bytes

pub record Aead : Type 0 where
  pub seal : Key → Bytes → Bytes → Option Bytes
  pub unseal : Key → Bytes → Bytes → Option Bytes

-- What the cipher promises: its own key and nonce open what was sealed, another key does not.
pub record AeadLaws (a : Aead) : Type 0 where
  pub opens : (k n p c : Bytes) → a.seal k n p ≡ some c → a.unseal k n c ≡ some p
  pub authentic : (k k' n p c : Bytes) → a.seal k n p ≡ some c → k' ≢ k → a.unseal k' n c ≡ none

abbrev pub nonce_len : ℕ
nonce_len = 12

abbrev or_crypto : Option Bytes → Result AppError Bytes
or_crypto none = err crypto
or_crypto (some b) = ok b

abbrev pub framed : Bytes → Option Bytes → Result AppError Bytes
framed nonce none = err crypto
framed nonce (some ct) = ok (nonce ++ ct)

unfoldable pub encrypt : Aead → Bytes → Key → Bytes → Result AppError Bytes
encrypt a nonce key plaintext = framed nonce (a.seal key nonce plaintext)

unfoldable pub decrypt : Aead → Bytes → Key → Result AppError Bytes
decrypt a blob key =
    if ltb (length blob) nonce_len
    then err crypto
    else or_crypto (a.unseal key (take nonce_len blob) (drop nonce_len blob))

take-append : (n c : Bytes) (k : ℕ) → length n ≡ k → take k (n ++ c) ≡ n
take-append n c k h = rw (← h) (go n)
  where
    go : (m : Bytes) → take (length m) (m ++ c) ≡ m
    go [] = refl
    go (x ∷ m) = ap (◌∷◌ x) (go m)

drop-append : (n c : Bytes) (k : ℕ) → length n ≡ k → drop k (n ++ c) ≡ c
drop-append n c k h = rw (← h) (go n)
  where
    go : (m : Bytes) → drop (length m) (m ++ c) ≡ c
    go [] = refl
    go (x ∷ m) = go m

module _ (a : Aead) (laws : AeadLaws a) (nonce : Bytes) (sized : length nonce ≡ 12) where
  -- A blob in two parts: what `decrypt` hands to the cipher.
  decrypt-parts : (c : Bytes) (k : Key) → decrypt a (nonce ++ c) k ≡ or_crypto (a.unseal k nonce c)
  unfolding decrypt
  decrypt-parts c k =
      rw (take-append nonce c 12 sized, drop-append nonce c 12 sized)
        (ground (arith, length-append nonce c, sized))

  -- Decrypting with the key of the encryption gives the plaintext back.
  pub decrypt-encrypt :
      (k : Key) (p blob : Bytes) → encrypt a nonce k p ≡ ok blob → decrypt a blob k ≡ ok p
  decrypt-encrypt k p blob h = go (a.seal k nonce p) refl (unfold encrypt in h)
    where
      go :
          (o : Option Bytes)
          → a.seal k nonce p ≡ o
          → framed nonce o ≡ ok blob
          → decrypt a blob k ≡ ok p
      go none e f = cc
      go (some c) e f =
          let b : nonce ++ c ≡ blob = cc in
          rw (← b) (decrypt-parts c k ∙ rw (laws.opens k nonce p c e) refl)

  -- Decrypting with any other key is an error.
  pub decrypt-other_key :
      (k k' : Key) (p blob : Bytes)
      → encrypt a nonce k p ≡ ok blob
      → k' ≢ k
      → decrypt a blob k' ≡ err crypto
  decrypt-other_key k k' p blob h d = go (a.seal k nonce p) refl (unfold encrypt in h)
    where
      go :
          (o : Option Bytes)
          → a.seal k nonce p ≡ o
          → framed nonce o ≡ ok blob
          → decrypt a blob k' ≡ err crypto
      go none e f = cc
      go (some c) e f =
          let b : nonce ++ c ≡ blob = cc in
          rw (← b) (decrypt-parts c k' ∙ rw (laws.authentic k k' nonce p c e d) refl)
