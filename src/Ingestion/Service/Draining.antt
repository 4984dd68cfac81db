-- ===== src/Ingestion/Service/Draining.antt =====
-- How many passes a drain of src-tauri/src/ingestion/service.rs makes.
use knows_me.Base.{
  ℕ, zero, suc, ◌<◌, ◌≡◌, ◌≢◌, refl, sym, subst, Bool, true, false, List, arith, ◌⊎◌, inl, inr,
}
use knows_me.Base.Texts.{Text}
use knows_me.Base.Results.{AppError, Result, ok, err}
use knows_me.Io.{Io}
use knows_me.Domain.{SourceKind, RawItem}
use knows_me.Storage.{Store, Codec}
use knows_me.Ingestion.Service as Service
use knows_me.Ingestion.Service.{Registry, Run}

module _ (S : Store) {C K Config : Type 0} (registry : Registry C Config)
    (accept : List RawItem → Io K (Unit {0})) (utf8 : Codec Text) (digest : Text → Text)
    (now : Text) (source : SourceKind) where
  abbrev pub State : Type 0
  State = Run S.State C K

  abbrev inner : Io State Bool
  inner = Service.run_one_inner S registry accept utf8 digest now source

  -- The state after a number of passes.
  abbrev pub after : ℕ → State → State
  after zero s = s
  after (suc k) s = after k (inner s).1

  -- So many passes succeed, and each moves the cursor.
  abbrev pub AllMove : ℕ → State → Type 0
  AllMove zero s = Unit {0}
  AllMove (suc k) s = ((inner s).0 ≡ ok true) × AllMove k (inner s).1

  -- Either all passes moved the cursor, or the first that did not, or that failed, was the last.
  abbrev pub Outcome : ℕ → State → State → Type 0
  Outcome n s t =
      (AllMove n s × (t ≡ after n s))
      ⊎ ((k : ℕ) × (k < n)
          × AllMove k s
          × ((inner (after k s)).0 ≢ ok true)
          × (t ≡ Service.run_inner_contained S registry accept utf8 digest now source (after k s)))

  one_more :
      (n : ℕ) (s t : State) → (inner s).0 ≡ ok true → Outcome n (inner s).1 t → Outcome (suc n) s t
  one_more n s t h (inl (moves, e)) = inl ((h, moves), e)
  one_more n s t h (inr (k, lt, moves, stops, e)) = inr (suc k, omega arith, (h, moves), stops, e)

  answered :
      (r : Result AppError Bool)
      → (r ≡ ok true)
        ⊎ ((r ≢ ok true) × (Service.advances S registry accept utf8 digest now r ≡ false))
  answered (ok true) = inl refl
  answered (ok false) = inr (λ h. absurd (cc h), refl)
  answered (err e) = inr (λ h. absurd (cc h), refl)

  -- A drain with at most `n` passes ends: it makes passes as long as they succeed and move the cursor,
  -- `n` at most, and the first pass that fails or leaves the cursor where it was is the last; its error
  -- is in the report.
  pub run_until_done-Outcome :
      (n : ℕ) (s : State)
      → Outcome n s (Service.run_until_done S registry accept utf8 digest now source n s)
  unfolding Service.run_until_done
  run_until_done-Outcome zero s = inl (tt, refl)
  run_until_done-Outcome (suc n) s = elim (answered (inner s).0) [
    | inl e ↦
        let step : Service.run_until_done S registry accept utf8 digest now source (suc n) s
            ≡ Service.run_until_done S registry accept utf8 digest now source n (inner s).1 =
          rw e refl in
        subst (Outcome (suc n) s) (sym step) (
          one_more n s
            (Service.run_until_done S registry accept utf8 digest now source n (inner s).1) e
            (run_until_done-Outcome n (inner s).1))
    | inr (stops, e) ↦
        let step : Service.run_until_done S registry accept utf8 digest now source (suc n) s
            ≡ Service.run_inner_contained S registry accept utf8 digest now source s =
          rw e refl in
        inr (0, omega arith, tt, stops, step)
  ]
