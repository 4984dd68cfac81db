-- ===== src/Sharing/Mcp/Serving.antt =====
-- What the MCP server of src-tauri/src/sharing/mcp.rs serves, and to whom.
use knows_me.Base.{
  ◌≡◌, refl, sym, ap, ◌∙◌, Bool, true, false, ◌&&◌, Option, none, some, arith, ◌⊎◌, inl, inr,
  Bool-cases, Option-cases,
}
use knows_me.Base.Texts.{Text}
use knows_me.Base.Results.{AppError, Result, ok, err, Result-cases}
use knows_me.Io.{bind-ok}
use knows_me.Storage.{Store, Bytes, Codec}
use knows_me.Persona.LocalApi.{header_text, loopback_header}
use knows_me.Sharing.{Token}
use knows_me.Sharing.Tokens as Tokens
use knows_me.Sharing.Tokens.{TokenRecord, tokens_ns}
use knows_me.Sharing.Mcp.{Headers, secret_of, resolve_identity, resolved, identify, anonymous}

module _ (S : Store) (codec : Codec TokenRecord) (key_for : Text → Text) where
  resolve_bytes-consumer :
      (o : Option Bytes) (s : S.State) (t : Token)
      → (Tokens.resolve_bytes S codec key_for o s).0 ≡ ok (some t)
      → t.owner ≡ false
  resolve_bytes-consumer none s t h = cc
  resolve_bytes-consumer (some b) s t h = elim (Option-cases (codec.decode b)) [
    | inl e ↦ let k = rw (e, Tokens.resolve_bytes) at h in cc k
    | inr (r, e) ↦ live r (rw (e, Tokens.resolve_bytes) at h)
  ]
    where
      live :
          (r : TokenRecord)
          → ◌≡◌ {A = Result AppError (Option Token)}
              (ok (Tokens.identify S codec key_for r))
              (ok (some t))
          → t.owner ≡ false
      live r k = elim (Bool-cases r.revoked) [
        | inl e ↦ let l = rw e at k in cc l
        | inr e ↦ let l = rw e at k in cc l
      ]

  -- A secret resolves to consumers only.
  resolve-consumer :
      (secret : Text) (s : S.State) (t : Token)
      → (Tokens.resolve S codec key_for secret s).0 ≡ ok (some t)
      → t.owner ≡ false
  unfolding Tokens.resolve
  resolve-consumer secret s t h =
      let (o, got, rest) =
        bind-ok (S.get tokens_ns (key_for secret)) (Tokens.resolve_bytes S codec key_for) s (some t)
          h in
      resolve_bytes-consumer o (S.get tokens_ns (key_for secret) s).1 t
        (ap (λ r. r.0) (sym rest) ∙ h)

  identify-consumer :
      (secret : Option Text) (s : S.State) (t : Token)
      → (identify S codec key_for secret s).0 ≡ ok t
      → (x : Text) × (secret ≡ some x) × ((Tokens.resolve S codec key_for x s).0 ≡ ok (some t))
  identify-consumer none s t h = cc
  identify-consumer (some x) s t h = elim (Result-cases (Tokens.resolve S codec key_for x s).0) [
    | inl (none, e) ↦ let k = rw e at h in cc k
    | inl (some u, e) ↦
        let k = rw e at h in let same : u ≡ t = cc k in (x, refl, e ∙ ap (λ v. ok (some v)) same)
    | inr (y, e) ↦ absurd (failed y (rw e at h))
  ]
    where
      failed : (y : AppError) → resolved S codec key_for (err y) ≡ ok t → ⊥
      failed AppError.locked k = cc
      failed AppError.not_found k = cc
      failed AppError.invalid_input k = cc
      failed AppError.crypto k = cc
      failed AppError.io k = cc
      failed AppError.external k = cc
      failed AppError.serde k = cc

  -- Why a caller has an identity: as the owner, without an authorization and by the loopback, on a listener
  -- that allows it; or as the consumer to whom the secret of the authorization resolves.
  abbrev pub Admitted : Headers → Bool → S.State → Token → Type 0
  Admitted headers allow_owner s t =
      ((headers.authorization ≡ none)
        × (allow_owner ≡ true)
        × (loopback_header (header_text headers.host) ≡ true)
        × (t.owner ≡ true))
      ⊎ ((x : Text) × (secret_of (header_text headers.authorization) ≡ some x)
          × ((Tokens.resolve S codec key_for x s).0 ≡ ok (some t))
          × (t.owner ≡ false))

  -- A request gets an identity only so: the owner's without an authorization header, from a loopback host
  -- and on a listener that allows it; a consumer's by a secret that resolves to it.
  pub resolve_identity-Admitted :
      (headers : Headers) (allow_owner : Bool) (s : S.State) (t : Token)
      → (resolve_identity S codec key_for headers allow_owner s).0 ≡ ok t
      → Admitted headers allow_owner s t
  unfolding resolve_identity
  resolve_identity-Admitted headers allow_owner s t h = elim (Option-cases headers.authorization) [
    | inl e ↦ inl (owner e (rw e at h))
    | inr (v, e) ↦
        let (x, is, found) = identify-consumer (secret_of (header_text (some v))) s t (rw e at h) in
        inr (x, rw e is, found, resolve-consumer x s t found)
  ]
    where
      owner :
          headers.authorization ≡ none
          → anonymous S codec key_for allow_owner headers.host ≡ ok t
          → (headers.authorization ≡ none)
            × (allow_owner ≡ true)
            × (loopback_header (header_text headers.host) ≡ true)
            × (t.owner ≡ true)
      owner e k = elim (Bool-cases (allow_owner && loopback_header (header_text headers.host))) [
        | inl y ↦ let l = rw y at k in (e, ground (arith, y), ground (arith, y), cc l)
        | inr y ↦ let l = rw y at k in cc l
      ]
