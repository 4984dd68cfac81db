-- ===== src/Tests/Security.antt =====
-- The theorems of src-tauri/src/security with a toy cipher that writes the key in front of the text.
use knows_me.Base.{
  ◌≡◌, ◌≢◌, refl, sym, ap, true, false, Option, none, some, [], ◌∷◌, ◌++◌, if◌then◌else◌, inl, inr,
  Bool-cases,
}
use knows_me.Base.Texts.{Text, codes, text_eq, text_eq-eq, text_eq_refl}
use knows_me.Base.Results.{ok, err, invalid_input}
use knows_me.Storage.{Bytes}
use knows_me.Security.Vault.{Aead, AeadLaws, Key, encrypt, decrypt}
use knows_me.Security.Keys.{
  Primitives, PrimitiveLaws, KeyManager, absent, done, current_key, setup, lock, unlock,
  is_initialized, derive_key, seal_keystore, sealed, write_keystore, settle, read_keystore,
  check_password, verify,
}
use knows_me.Security.Keys.Unlocking.{unlock-setup, unlock_wrong_password}
use knows_me.Security.FileStore.{Disk, Environment, put, get, check_key}
use knows_me.Security.FileStore.Contract.{get-put}
use knows_me.Tests.Packs.{Parse, text}

abbrev unseal_read : Key → Parse Text → Option Bytes
unseal_read k none = none
unseal_read k (some (k', p)) = if text_eq k' k then some p else none

abbrev toy : Aead
toy = record {
  seal = λ k n p. some (text.write k p);
  unseal = λ k n c. unseal_read k (text.read c);
}

toy_opens : (k n p c : Bytes) → toy.seal k n p ≡ some c → toy.unseal k n c ≡ some p
toy_opens k n p c h =
    let same : text.write k p ≡ c = cc in rw (← same, text.round k p, text_eq_refl k) refl

toy_authentic : (k k' n p c : Bytes) → toy.seal k n p ≡ some c → k' ≢ k → toy.unseal k' n c ≡ none
toy_authentic k k' n p c h d =
    let same : text.write k p ≡ c = cc in
    rw (← same, text.round k p)
      (elim (Bool-cases (text_eq k k')) [
        | inl e ↦ absurd (d (sym (text_eq-eq k k' e)))
        | inr e ↦ rw e refl
      ])

toy_laws : AeadLaws toy
toy_laws = record { opens = toy_opens; authentic = toy_authentic }

abbrev nonce : Bytes
nonce = 0 ∷ 1 ∷ 2 ∷ 3 ∷ 4 ∷ 5 ∷ 6 ∷ 7 ∷ 8 ∷ 9 ∷ 10 ∷ 11 ∷ []

abbrev blob : Bytes
blob = nonce ++ text.write (codes "k") (codes "note")

sealed_ok : encrypt toy nonce (codes "k") (codes "note") ≡ ok blob
unfolding encrypt
sealed_ok = refl

other_key : codes "j" ≢ codes "k"
other_key h =
    let e : text_eq (codes "j") (codes "k") ≡ true = ap (λ t. text_eq t (codes "k")) h in
    absurd (cc e)

abbrev primitives : Primitives
primitives = record {
  derive = λ password salt. some (password ++ salt);
  b64_encode = λ b. b;
  b64_decode = λ t. some t;
  aead = toy;
}

base64 : PrimitiveLaws primitives
base64 = record { b64_round = λ b. refl }

abbrev fresh : KeyManager
fresh = record { keystore = absent; current = none }

setup_ok : (setup primitives (codes "pw") (codes "salt") nonce done fresh).0 ≡ ok tt
unfolding setup is_initialized sealed derive_key encrypt seal_keystore write_keystore
setup_ok = refl

abbrev made : KeyManager
made = (setup primitives (codes "pw") (codes "salt") nonce done fresh).1

unlock-setup_example :
    (key : Key) × (made.current ≡ some key)
    × (unlock primitives (codes "pw") (lock made) ≡ (ok key, made))
unlock-setup_example =
    unlock-setup primitives base64 toy_laws nonce refl (codes "pw") (codes "salt") done fresh
      setup_ok

locked_made : (unlock primitives (codes "no") (lock made)).0 ≡ err invalid_input
unfolding setup is_initialized sealed derive_key encrypt seal_keystore write_keystore unlock lock
    settle read_keystore check_password verify decrypt
locked_made = refl

other_password : primitives.derive (codes "pw") (codes "salt") ≢ some (codes "nosalt")
other_password h =
    absurd (cc (ap (λ o. elim o [ none ↦ false | some k ↦ text_eq k (codes "nosalt") ]) h))

unlock_wrong_password_example :
    unlock primitives (codes "no") (lock made) ≡ (err invalid_input, lock made)
unlock_wrong_password_example =
    unlock_wrong_password primitives base64 toy_laws nonce refl (codes "pw") (codes "no")
      (codes "salt") done fresh (codes "nosalt") setup_ok refl other_password

abbrev disk_of : Option Key → Disk
disk_of key = record {
  manager = record { keystore = absent; current = key };
  files = [];
  ticks = 0;
}

abbrev world : Environment
world = record {
  b64url = λ t. t;
  b64url_decode = λ t. some t;
  aead = toy;
  nonce_at = λ n. nonce;
  fails_at = λ n. false;
  left_at = λ n. none;
}

abbrev open_disk : Disk
open_disk = disk_of (some (codes "k"))

put_ok : (put world (codes "facts") (codes "1") (codes "note") open_disk).0 ≡ ok tt
unfolding put current_key encrypt
put_ok = refl

get-put_example :
    (get world
      (codes "facts")
      (codes "1")
      (put world (codes "facts") (codes "1") (codes "note") open_disk).1).0
    ≡ ok (some (codes "note"))
get-put_example =
    get-put world toy_laws (λ n. refl) (codes "facts") (codes "1") (codes "note") open_disk put_ok
      refl

key_fits : check_key world (codes "1") ≡ ok tt
unfolding check_key
key_fits = refl
