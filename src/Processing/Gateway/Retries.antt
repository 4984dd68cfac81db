-- ===== src/Processing/Gateway/Retries.antt =====
-- How often the language model of src-tauri/src/processing/llm_gateway.rs is called.
use knows_me.Base.{
  ℕ, zero, suc, ◌+◌, ◌≡◌, ◌≢◌, refl, sym, ap, subst, ◌∙◌, Option, none, some, arith, ◌⊎◌, inl, inr,
  ◌<◌,
}
use knows_me.Base.Results.{
  AppError, Result, ok, err, locked, not_found, invalid_input, crypto, io, external, serde,
  Result-cases,
}
use knows_me.Io.{Io}
use knows_me.Processing.Gateway.{Link, again, attempt, with_retry, call, or_failed}

-- What a run of attempts comes to: the first call that succeeds, or that finds the vault locked, ends
-- it; else all calls were made and the last one's error is the answer.
abbrev pub Failing : {A : Type 0} → Result AppError A → Type 0
Failing r = (e : AppError) × (r ≡ err e) × (e ≢ locked)

-- All calls from the first on failed.
abbrev pub AllFail : {A : Type 0} → (ℕ → Result AppError A) → ℕ → ℕ → Type 0
AllFail answer first zero = Unit
AllFail answer first (suc n) = Failing (answer first) × AllFail answer (suc first) n

-- A success, or a locked vault.
abbrev pub Final : {A : Type 0} → Result AppError A → Type 0
Final (ok a) = Unit {0}
Final (err e) = e ≡ locked

-- `made` calls that failed, and then the answer: a success or a locked vault.
abbrev pub Settles : {A : Type 0} → (ℕ → Result AppError A) → ℕ → ℕ → Result AppError A → Type 0
Settles answer first zero r = (answer first ≡ r) × Final r
Settles answer first (suc made) r = Failing (answer first) × Settles answer (suc first) made r

-- The answer of the last of `n` calls, or `r` if there is none.
abbrev pub last_answer :
    {A : Type 0} → (ℕ → Result AppError A) → ℕ → ℕ → Result AppError A → Result AppError A
last_answer answer first zero r = r
last_answer answer first (suc n) r = last_answer answer (suc first) n (answer first)

other_error :
    {St A : Type 0} (e : AppError) (next : AppError → Io St A) (s : St)
    → (e ≡ locked) ⊎ ((e ≢ locked) × (again (err e) next s ≡ next e s))
other_error locked next s = inl refl
other_error not_found next s = inr (λ h. absurd (cc h), refl)
other_error invalid_input next s = inr (λ h. absurd (cc h), refl)
other_error crypto next s = inr (λ h. absurd (cc h), refl)
other_error io next s = inr (λ h. absurd (cc h), refl)
other_error external next s = inr (λ h. absurd (cc h), refl)
other_error serde next s = inr (λ h. absurd (cc h), refl)

module _ {A : Type 0} (answer : ℕ → Result AppError A) where
  -- The outcomes of `n` attempts from the call `first` on, where `r` is the answer of no attempt.
  abbrev pub Outcome : ℕ → ℕ → Result AppError A → Result AppError A → ℕ → Type 0
  Outcome n first r r' calls =
      ((made : ℕ) × (made < n) × Settles answer first made r' × (calls ≡ suc (made + first)))
      ⊎ (AllFail answer first n × (r' ≡ last_answer answer first n r) × (calls ≡ n + first))

  one_more :
      (n first : ℕ) (x : AppError) (r r' : Result AppError A) (calls : ℕ)
      → answer first ≡ err x
      → x ≢ locked
      → Outcome n (suc first) (err x) r' calls
      → Outcome (suc n) first r r' calls
  one_more n first x r r' calls e d (inl (made, lt, s, c)) =
      inl (suc made, omega arith, ((x, e, d), s), omega arith)
  one_more n first x r r' calls e d (inr (f, s, c)) =
      inr (((x, e, d), f), s ∙ ap (last_answer answer (suc first) n) (sym e), omega arith)

module _ {State A : Type 0} (answer : ℕ → Result AppError A) where
  attempt-Outcome :
      (n : ℕ) (last : Option AppError) (l : Link State)
      → Outcome answer n l.calls
          (err (or_failed last))
          (attempt (call answer) n last l).0
          (attempt (call answer) n last l).1.calls
        × ((attempt (call answer) n last l).1.store ≡ l.store)
  unfolding attempt
  attempt-Outcome zero last l = (inr (tt, refl, omega arith), refl)
  attempt-Outcome (suc n) last l = elim (Result-cases (answer l.calls)) [
    | inl (a, e) ↦ rw e (inl (0, omega arith, (e, tt), omega arith), refl)
    | inr (x, e) ↦
        let next : Link State = record l { calls = suc l.calls } in
        elim (other_error x (λ y. attempt (call answer) n (some y)) next) [
          | inl k ↦ rw (e, k) (inl (0, omega arith, (e ∙ ap err k, refl), omega arith), refl)
          | inr (d, k) ↦
              let (o, kept) = attempt-Outcome n (some x) next in
              let step : attempt (call answer) (suc n) last l
                  ≡ attempt (call answer) n (some x) next =
                rw e k in
              subst
                (λ p.
                  Outcome answer (suc n) l.calls (err (or_failed last)) p.0 p.1.calls
                  × (p.1.store ≡ l.store))
                (sym step) (one_more answer n l.calls x (err (or_failed last)) _ _ e d o, kept)
        ]
  ]

  -- The calls of `with_retry` with at most `n` attempts: the first call that succeeds, or that finds
  -- the vault locked, is the last and gives the answer; if there is none, all `n` calls are made, each
  -- fails, and the last error is the answer. The store is not touched.
  pub with_retry-Outcome :
      (n : ℕ) (l : Link State)
      → Outcome answer n l.calls
          (err external)
          (with_retry (call answer) n l).0
          (with_retry (call answer) n l).1.calls
        × ((with_retry (call answer) n l).1.store ≡ l.store)
  unfolding with_retry
  with_retry-Outcome n l = attempt-Outcome n none l
