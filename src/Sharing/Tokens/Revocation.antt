-- ===== src/Sharing/Tokens/Revocation.antt =====
-- What issuing and revoking do to the tokens that a secret resolves to.
use knows_me.Base.{
  ◌≡◌, ◌≢◌, refl, sym, ap, ◌∙◌, subst, inl, inr, ◌⊎◌, Bool, true, false, not, ◌&&◌, ◌||◌, Option,
  none, some, List, [], ◌∷◌, arith, any, any-Member, if◌then◌else◌, Bool-cases, Option-cases,
}
use knows_me.Base.Texts.{Text, text_eq, text_eq-eq, text_eq-of-eq, text_eq_refl}
use knows_me.Base.Results.{
  AppError, Result, ok, err, locked, not_found, invalid_input, crypto, io, external, serde,
}
use knows_me.Domain.{CategoryName, Time}
use knows_me.Io.{pure, continue, bind-ok}
use knows_me.Storage.{Store, StoreLaws, Bytes, Codec}
use knows_me.Sharing.{Token, consumer}
use knows_me.Sharing.Tokens.{
  TokenRecord, IssuedToken, tokens_ns, issue, resolve, resolve_bytes, readable, read_record,
  write_revoked, revoke_record, revoke_step, revoke_loop, revoke,
}

-- The record after its owner's label was revoked.
abbrev pub with_revoked : Text → TokenRecord → TokenRecord
with_revoked id r = if text_eq r.id id then record r { revoked = true } else r

abbrev pub map_revoked : Text → Option TokenRecord → Option TokenRecord
map_revoked id none = none
map_revoked id (some r) = some (with_revoked id r)

map_revoked_idem :
    (id : Text) (o : Option TokenRecord) → map_revoked id (map_revoked id o) ≡ map_revoked id o
map_revoked_idem id none = refl
map_revoked_idem id (some r) = elim (Bool-cases (text_eq r.id id)) [
  | inl e ↦ rw (e, e)
  | inr e ↦ rw (e, e)
]

already_revoked : (r : TokenRecord) → r.revoked ≡ true → record r { revoked = true } ≡ r
already_revoked r e = λ i. record r { revoked = sym e i }

-- A key that is met twice is revoked once.
twice :
    (here later : Bool) (id : Text) (o p : Option TokenRecord)
    → p ≡ (if here then map_revoked id o else o)
    → (if later then map_revoked id p else p) ≡ (if here || later then map_revoked id o else o)
twice true true id o p e = rw e (map_revoked_idem id o)
twice true false id o p e = e
twice false true id o p e = ap (map_revoked id) e
twice false false id o p e = e

unchanged :
    (id : Text) (r : TokenRecord)
    → (text_eq r.id id && not r.revoked) ≡ false
    → with_revoked id r ≡ r
unchanged id r h = elim (Bool-cases (text_eq r.id id)) [
  | inl e ↦ rw e (already_revoked r (ground arith))
  | inr e ↦ rw e refl
]

-- The token that a record stands for.
abbrev pub token_of : Option TokenRecord → Option Token
token_of none = none
token_of (some r) = if r.revoked then none else some (consumer r.id r.granted)

revoked_stands_for_none :
    (id : Text) (t : Token) (o : Option TokenRecord)
    → some t ≡ token_of (map_revoked id o)
    → t.id ≢ id
revoked_stands_for_none id t none h e = cc
revoked_stands_for_none id t (some r) h e = elim (Bool-cases (text_eq r.id id)) [
  | inl m ↦ let k = rw m at h in cc k
  | inr m ↦ let k = rw m at h in ground (arith, k, e, text_eq-of-eq r.id id)
]

module _ (S : Store) (L : StoreLaws S) (codec : Codec TokenRecord) (key_for : Text → Text) where
  abbrev pub decoded : Option Bytes → Option TokenRecord
  decoded none = none
  decoded (some bytes) = codec.decode bytes

  -- The record under a storage key, as a reader finds it.
  abbrev pub record_at : S.State → Text → Option TokenRecord
  record_at s key = decoded (L.view s tokens_ns key)

  kept :
      (key : Text) (s : S.State) (j : Text) → record_at (S.get tokens_ns key s).1 j ≡ record_at s j
  kept key s j = ap decoded (L.get_keeps tokens_ns key s tokens_ns j)

  -- A stored record is the one read at its key.
  stored :
      (key : Text) (r : TokenRecord) (s : S.State)
      → (S.put tokens_ns key (codec.encode r) s).0 ≡ ok tt
      → (j : Text)
      → record_at (S.put tokens_ns key (codec.encode r) s).1 j
        ≡ (if text_eq key j then some r else record_at s j)
  stored key r s h j =
      ap decoded (L.put_writes tokens_ns key (codec.encode r) s h tokens_ns j)
      ∙ (elim (Bool-cases (text_eq key j)) [
        | inl e ↦ rw e (codec.decode-encode r)
        | inr e ↦ rw e refl
      ])

  stored_self :
      (key : Text) (r : TokenRecord) (s : S.State)
      → (S.put tokens_ns key (codec.encode r) s).0 ≡ ok tt
      → record_at (S.put tokens_ns key (codec.encode r) s).1 key ≡ some r
  stored_self key r s h = rw (stored key r s h key, text_eq_refl key) refl

  resolve_bytes-ok :
      (found : Option Bytes) (s : S.State) (o : Option Token)
      → (resolve_bytes S codec key_for found s).0 ≡ ok o
      → o ≡ token_of (decoded found)
  resolve_bytes-ok none s o h = cc
  resolve_bytes-ok (some bytes) s o h = ground arith

  -- A secret resolves to the token of the record stored under its digest.
  pub resolve_reads :
      (secret : Text) (s : S.State) (o : Option Token)
      → (resolve S codec key_for secret s).0 ≡ ok o
      → o ≡ token_of (record_at s (key_for secret))
  unfolding resolve
  resolve_reads secret s o h =
      let (found, got, e) =
        bind-ok (S.get tokens_ns (key_for secret)) (resolve_bytes S codec key_for) s o h in
      resolve_bytes-ok found (S.get tokens_ns (key_for secret) s).1 o (ap (λ t. t.0) (sym e) ∙ h)
      ∙ ap (λ b. token_of (decoded b)) (L.get_reads tokens_ns (key_for secret) s found got)

  -- A token that was issued resolves to its grants: if both calls succeed, the secret stands for a
  -- consumer with the label and the categories it was issued for.
  pub issue-resolve :
      (id : Text) (granted : List CategoryName) (secret : Text) (now : Time) (s : S.State)
      (t : IssuedToken) (o : Option Token)
      → (issue S codec key_for id granted secret now s).0 ≡ ok t
      → (resolve S codec key_for t.secret (issue S codec key_for id granted secret now s).1).0
        ≡ ok o
      → o ≡ some (consumer id granted)
  unfolding issue
  issue-resolve id granted secret now s t o h k =
      let r : TokenRecord = record {
        id = id;
        granted = granted;
        issued_at = now;
        revoked = false;
      } in
      let key = key_for secret in
      let issued : IssuedToken = record { id = id; secret = secret } in
      let (u, put, e) = bind-ok (S.put tokens_ns key (codec.encode r)) (λ _. pure issued) s t h in
      let same : issued ≡ t = cc in
      let k' =
        subst
          (λ (x : IssuedToken).
            (resolve S codec key_for x.secret (issue S codec key_for id granted secret now s).1).0
            ≡ ok o)
          (sym same) k in
      resolve_reads secret (issue S codec key_for id granted secret now s).1 o k'
      ∙ ap token_of (ap (λ x. record_at x.1 key) e ∙ stored_self key r s put)

  abbrev failed : Result AppError (Option Bytes) → Bool
  failed (ok found) = false
  failed (err e) = true

  readable-ok :
      (key : Text) (s : S.State) (g : Result AppError (Option Bytes)) (found : Option TokenRecord)
      → (S.get tokens_ns key s).0 ≡ g
      → failed g ≡ false
      → readable S codec key_for g ≡ ok found
      → record_at s key ≡ found
  readable-ok key s (ok none) found e r h = rw (← L.get_reads tokens_ns key s none e) (ground arith)
  readable-ok key s (ok (some bytes)) found e r h =
      rw (← L.get_reads tokens_ns key s (some bytes) e) (ground arith)
  readable-ok key s (err x) found e r h = cc

  read_record-reads :
      (key : Text) (s : S.State) (found : Option TokenRecord)
      → failed (S.get tokens_ns key s).0 ≡ false
      → (read_record S codec key_for key s).0 ≡ ok found
      → record_at s key ≡ found
  unfolding read_record
  read_record-reads key s found r h = readable-ok key s (S.get tokens_ns key s).0 found refl r h

  failed-none :
      (g : Result AppError (Option Bytes)) (found : Option TokenRecord)
      → failed g ≡ true
      → readable S codec key_for g ≡ ok found
      → found ≡ none
  failed-none (ok o) found f h = cc
  failed-none (err locked) found f h = cc
  failed-none (err not_found) found f h = cc
  failed-none (err invalid_input) found f h = cc
  failed-none (err crypto) found f h = cc
  failed-none (err io) found f h = cc
  failed-none (err external) found f h = cc
  failed-none (err serde) found f h = cc

  at_key :
      (key j : Text) (found : Option TokenRecord) (s : S.State)
      → text_eq key j ≡ true
      → record_at s key ≡ found
      → record_at s j ≡ found
  at_key key j found s same e = subst (λ k. record_at s k ≡ found) (text_eq-eq key j same) e

  write_revoked-writes :
      (id key : Text) (b : Bool) (r : TokenRecord) (s : S.State)
      → text_eq r.id id ≡ true
      → record_at s key ≡ some r
      → (write_revoked S codec key_for key r s).0 ≡ ok b
      → (j : Text)
      → record_at (write_revoked S codec key_for key r s).1 j
        ≡ (if text_eq key j then map_revoked id (record_at s j) else record_at s j)
  unfolding write_revoked
  write_revoked-writes id key b r s mine e h j =
      let r' : TokenRecord = record r { revoked = true } in
      let (u, put, step) = bind-ok (S.put tokens_ns key (codec.encode r')) (λ _. pure true) s b h in
      ap (λ x. record_at x.1 j) step ∙ stored key r' s put j ∙ (elim (Bool-cases (text_eq key j)) [
        | inl at ↦ rw at (rw (at_key key j (some r) s at e, mine) refl)
        | inr away ↦ rw away refl
      ])

  idle-writes :
      (id key : Text) (r : TokenRecord) (s : S.State)
      → (text_eq r.id id && not r.revoked) ≡ false
      → record_at s key ≡ some r
      → (j : Text)
      → record_at s j ≡ (if text_eq key j then map_revoked id (record_at s j) else record_at s j)
  idle-writes id key r s idle e j = elim (Bool-cases (text_eq key j)) [
    | inl at ↦ rw at (rw (at_key key j (some r) s at e) (ap some (sym (unchanged id r idle))))
    | inr away ↦ rw away refl
  ]

  read_record-keeps :
      (key : Text) (s : S.State) (j : Text)
      → record_at (read_record S codec key_for key s).1 j ≡ record_at s j
  unfolding read_record
  read_record-keeps key s j = kept key s j

  -- What the update of one record leaves under each key.
  revoke_record-writes :
      (id key : Text) (any' b : Bool) (found : Option TokenRecord) (s : S.State)
      → record_at s key ≡ found
      → (revoke_record S codec key_for id key any' found s).0 ≡ ok b
      → (j : Text)
      → record_at (revoke_record S codec key_for id key any' found s).1 j
        ≡ (if text_eq key j then map_revoked id (record_at s j) else record_at s j)
  unfolding revoke_record
  revoke_record-writes id key any' b none s e h j = elim (Bool-cases (text_eq key j)) [
    | inl at ↦ rw at (rw (at_key key j none s at e) refl)
    | inr away ↦ rw away refl
  ]
  revoke_record-writes id key any' b (some r) s e h j =
      elim (Bool-cases (text_eq r.id id && not r.revoked)) [
        | inl live ↦
            rw (live, revoke_record)
              (write_revoked-writes id key b r s (ground arith) e (rw (live, revoke_record) at h) j)
        | inr idle ↦ rw (idle, revoke_record) (idle-writes id key r s idle e j)
      ]

  missed_step :
      (id key : Text) (any' b : Bool) (s : S.State)
      → failed (S.get tokens_ns key s).0 ≡ true
      → (revoke_step S codec key_for id key any' s).0 ≡ ok b
      → (j : Text) → record_at (revoke_step S codec key_for id key any' s).1 j ≡ record_at s j
  unfolding revoke_step read_record revoke_record
  missed_step id key any' b s f h j =
      let t = (read_record S codec key_for key s).1 in
      let (found, got, step) =
        bind-ok (read_record S codec key_for key) (revoke_record S codec key_for id key any') s b
          h in
      let gone : found ≡ none = failed-none (S.get tokens_ns key s).0 found f got in
      ap (λ x. record_at x.1 j) step
      ∙ ap (λ o. record_at (revoke_record S codec key_for id key any' o t).1 j) gone
      ∙ read_record-keeps key s j

  read_step :
      (id key : Text) (any' b : Bool) (s : S.State)
      → failed (S.get tokens_ns key s).0 ≡ false
      → (revoke_step S codec key_for id key any' s).0 ≡ ok b
      → (j : Text)
      → record_at (revoke_step S codec key_for id key any' s).1 j
        ≡ (if text_eq key j then map_revoked id (record_at s j) else record_at s j)
  unfolding revoke_step
  read_step id key any' b s f h j =
      let t = (read_record S codec key_for key s).1 in
      let (found, got, step) =
        bind-ok (read_record S codec key_for key) (revoke_record S codec key_for id key any') s b
          h in
      let same : (i : Text) → record_at t i ≡ record_at s i = λ i. read_record-keeps key s i in
      ap (λ x. record_at x.1 j) step
      ∙ revoke_record-writes id key any' b found t (same key ∙ read_record-reads key s found f got)
          (ap (λ x. x.0) (sym step) ∙ h) j
      ∙ ap (λ o. if text_eq key j then map_revoked id o else o) (same j)

  -- The state after a step does not depend on what the steps before have found.
  revoke_step-state :
      (id key : Text) (a b : Bool) (s : S.State)
      → (revoke_step S codec key_for id key a s).1 ≡ (revoke_step S codec key_for id key b s).1
  unfolding revoke_step revoke_record
  revoke_step-state id key a b s = go (read_record S codec key_for key s).0
    where
      go :
          (r : Result AppError (Option TokenRecord))
          → (continue r
              (revoke_record S codec key_for id key a)
              (read_record S codec key_for key s).1).1
            ≡ (continue r
                (revoke_record S codec key_for id key b)
                (read_record S codec key_for key s).1).1
      go (err e) = refl
      go (ok none) = refl
      go (ok (some r)) = elim (Bool-cases (text_eq r.id id && not r.revoked)) [
        | inl e ↦ rw e refl
        | inr e ↦ rw e refl
      ]

  abbrev after_step : Text → Text → S.State → S.State
  after_step id key s = (revoke_step S codec key_for id key false s).1

  -- Of the keys of a scan, those whose reading failed in their turn, and the others.
  abbrev pub missed : Text → List Text → S.State → List Text
  missed id [] s = []
  missed id (key ∷ keys) s =
      let rest = missed id keys (after_step id key s) in
      if failed (S.get tokens_ns key s).0 then key ∷ rest else rest

  abbrev scanned : Text → List Text → S.State → List Text
  scanned id [] s = []
  scanned id (key ∷ keys) s =
      let rest = scanned id keys (after_step id key s) in
      if failed (S.get tokens_ns key s).0 then rest else key ∷ rest

  abbrev has_key : Text → List Text → Bool
  has_key j keys = any (λ k. text_eq k j) keys

  missed_or_scanned :
      (id j : Text) (keys : List Text) (s : S.State)
      → has_key j keys ≡ true
      → has_key j (scanned id keys s) ≡ false
      → has_key j (missed id keys s) ≡ true
  missed_or_scanned id j [] s h k = cc
  missed_or_scanned id j (key ∷ keys) s h k = elim (Bool-cases (failed (S.get tokens_ns key s).0)) [
    | inl f ↦ rw f (ground (arith, h, rw f at k, missed_or_scanned id j keys (after_step id key s)))
    | inr f ↦ rw f (ground (arith, h, rw f at k, missed_or_scanned id j keys (after_step id key s)))
  ]

  revoke_loop-writes :
      (id : Text) (keys : List Text) (any' b : Bool) (s : S.State)
      → (revoke_loop S codec key_for id keys any' s).0 ≡ ok b
      → (j : Text)
      → record_at (revoke_loop S codec key_for id keys any' s).1 j
        ≡ (if has_key j (scanned id keys s) then map_revoked id (record_at s j) else record_at s j)
  unfolding revoke_loop
  revoke_loop-writes id [] any' b s h j = refl
  revoke_loop-writes id (key ∷ keys) any' b s h j =
      let t = (revoke_step S codec key_for id key any' s).1 in
      let (b', done, step) =
        bind-ok (revoke_step S codec key_for id key any') (revoke_loop S codec key_for id keys) s b
          h in
      let same : t ≡ after_step id key s = revoke_step-state id key any' false s in
      let rest =
        ap (λ x. record_at x.1 j) step
        ∙ revoke_loop-writes id keys b' b t (ap (λ x. x.0) (sym step) ∙ h) j
        ∙ ap
            (λ x.
              if has_key j (scanned id keys x)
              then map_revoked id (record_at t j)
              else record_at t j)
            same in
      elim (Bool-cases (failed (S.get tokens_ns key s).0)) [
        | inl f ↦ rw f (
            rest
            ∙ ap
                (λ o.
                  if has_key j (scanned id keys (after_step id key s)) then map_revoked id o else o)
                (missed_step id key any' b' s f done j))
        | inr f ↦ rw f (
            rest
            ∙ twice (text_eq key j) (has_key j (scanned id keys (after_step id key s))) id
                (record_at s j) (record_at t j) (read_step id key any' b' s f done j))
      ]

  abbrev missed_in : Text → Result AppError (List Text) → S.State → List Text
  missed_in id (ok keys) s = missed id keys s
  missed_in id (err e) s = []

  -- The listed keys whose reading failed while a label was revoked.
  abbrev pub missed_by : Text → S.State → List Text
  missed_by id s = missed_in id (S.list tokens_ns s).0 (S.list tokens_ns s).1

  unlisted :
      (j : Text) (keys : List Text) (s : S.State)
      → (S.list tokens_ns s).0 ≡ ok keys
      → has_key j keys ≡ false
      → record_at s j ≡ none
  unlisted j keys s listed h = elim (Option-cases (L.view s tokens_ns j)) [
    | inl gone ↦ rw gone refl
    | inr (bytes, there) ↦
        let m = L.list_finds tokens_ns s keys listed j (λ gone. cc (gone, there)) in
        let k = any-Member (λ k. text_eq k j) keys j m (text_eq_refl j) in cc (h, k)
  ]

  -- What a revocation made of the record under a key.
  abbrev pub Revoked : Text → S.State → S.State → Text → Type 0
  Revoked id s s' j =
      (record_at s' j ≡ map_revoked id (record_at s j))
      ⊎ ((record_at s' j ≡ record_at s j) × (has_key j (missed_by id s) ≡ true))

  loop-Revoked :
      (id : Text) (keys : List Text) (b : Bool) (s : S.State)
      → (S.list tokens_ns s).0 ≡ ok keys
      → (revoke_loop S codec key_for id keys false (S.list tokens_ns s).1).0 ≡ ok b
      → (j : Text)
      → Revoked id s (revoke_loop S codec key_for id keys false (S.list tokens_ns s).1).1 j
  loop-Revoked id keys b s listed h j =
      let t = (S.list tokens_ns s).1 in
      let same : record_at t j ≡ record_at s j =
        ap decoded (L.list_keeps tokens_ns s tokens_ns j) in
      let wrote = revoke_loop-writes id keys false b t h j in
      elim (Bool-cases (has_key j (scanned id keys t))) [
        | inl e ↦ inl (rw e at wrote ∙ ap (map_revoked id) same)
        | inr e ↦ elim (Bool-cases (has_key j keys)) [
          | inl there ↦
              inr (rw e at wrote ∙ same, rw listed (missed_or_scanned id j keys t there e))
          | inr away ↦
              let gone = unlisted j keys s listed away in
              inl (rw e at wrote ∙ same ∙ gone ∙ ap (map_revoked id) (sym gone))
        ]
      ]

  -- A revocation that succeeds marks every record of the label and changes no other record, except
  -- under the listed keys whose reading failed in the scan: a record there may stay as it was.
  pub revoke-records :
      (id : Text) (b : Bool) (s : S.State)
      → (revoke S codec key_for id s).0 ≡ ok b
      → (j : Text) → Revoked id s (revoke S codec key_for id s).1 j
  unfolding revoke
  revoke-records id b s h j =
      let (keys, listed, step) =
        bind-ok (S.list tokens_ns) (λ ks. revoke_loop S codec key_for id ks false) s b h in
      subst (λ x. Revoked id s x.1 j) (sym step)
        (loop-Revoked id keys b s listed (ap (λ x. x.0) (sym step) ∙ h) j)

  -- After a label was revoked, and the call succeeded, a secret that resolves to a token resolves to
  -- one of another label, unless the key of its record is among those whose reading failed in the
  -- scan.
  pub revoke-resolve :
      (id secret : Text) (b : Bool) (s : S.State) (t : Token)
      → (revoke S codec key_for id s).0 ≡ ok b
      → (resolve S codec key_for secret (revoke S codec key_for id s).1).0 ≡ ok (some t)
      → (t.id ≢ id) ⊎ (has_key (key_for secret) (missed_by id s) ≡ true)
  revoke-resolve id secret b s t h k =
      let key = key_for secret in
      let after = resolve_reads secret (revoke S codec key_for id s).1 (some t) k in
      elim (revoke-records id b s h key) [
        | inl marked ↦
            inl (revoked_stands_for_none id t (record_at s key) (after ∙ ap token_of marked))
        | inr (kept, gone) ↦ inr gone
      ]
