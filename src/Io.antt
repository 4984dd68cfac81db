-- ===== src/Io.antt =====
-- Fallible operations on a state, `async fn(&self, ..) -> Result<T>`: what was written before an
-- error stays written, so the state comes back beside the error too.
use knows_me.Base.{◌≡◌, refl, ◌∙◌}
use knows_me.Base.Results.{AppError, Result, ok, err}

abbrev pub Io : Type 0 → Type 0 → Type 0
Io S A = S → Result AppError A × S

module _ {S A : Type 0} where
  abbrev pub pure : A → Io S A
  pure a s = (ok a, s)

  abbrev pub raise : AppError → Io S A
  raise e s = (err e, s)

  abbrev pub lift : Result AppError A → Io S A
  lift r s = (r, s)

module _ {S A B : Type 0} where
  abbrev pub continue : Result AppError A → (A → Io S B) → Io S B
  continue (ok a) f s = f a s
  continue (err e) f s = (err e, s)

  infixl 5 ◌>>=◌ ◌>>◌
  abbrev pub ◌>>=◌ : Io S A → (A → Io S B) → Io S B
  ◌>>=◌ m f s = continue (m s).0 f (m s).1

  abbrev pub ◌>>◌ : Io S A → Io S B → Io S B
  m >> n = m >>= λ _. n

  -- A block that succeeds has a first step that succeeds, and goes on from its state.
  pub bind-ok :
      (m : Io S A) (f : A → Io S B) (s : S) (b : B)
      → ((m >>= f) s).0 ≡ ok b
      → (a : A) × ((m s).0 ≡ ok a) × ((m >>= f) s ≡ f a (m s).1)
  bind-ok m f s b h = go (m s).0 refl h
    where
      go :
          (r : Result AppError A)
          → (m s).0 ≡ r
          → (continue r f (m s).1).0 ≡ ok b
          → (a : A) × ((m s).0 ≡ ok a) × ((m >>= f) s ≡ f a (m s).1)
      go (ok a) e k = (a, e, rw (e, continue))
      go (err x) e k = cc

-- What of the state an operation leaves alone, also where it fails.
module _ {S X : Type 0} (see : S → X) where
  abbrev pub Preserves : {A : Type 0} → Io S A → Type 0
  Preserves m = (s : S) → see (m s).1 ≡ see s

  pub bind-Preserves :
      {A B : Type 0} (m : Io S A) (f : A → Io S B)
      → Preserves m
      → ((a : A) → Preserves (f a))
      → Preserves (m >>= f)
  bind-Preserves {A} m f h k s = go (m s).0
    where
      go : (r : Result AppError A) → see (continue r f (m s).1).1 ≡ see s
      go (ok a) = k a (m s).1 ∙ h s
      go (err e) = h s
