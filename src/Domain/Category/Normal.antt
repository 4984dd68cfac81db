-- ===== src/Domain/Category/Normal.antt =====
-- The normal form that `Category::parse` gives, and that parsing it again changes nothing.
use knows_me.Base.{
  ℕ, ◌≤◌, ◌≡◌, refl, Bool, true, false, ◌&&◌, [], ◌∷◌, arith, length, All, All-map, ◌⊎◌, inl, inr,
  subst, sym,
}
use knows_me.Base.Texts.{
  Text, Unicode, is_whitespace, is_ascii_upper, trim, trim_start, trim_end, keep_end, trim_matches,
  trim-All, All-trim_start, All-trim_end, trim_end_idem, trim_start-Starts, trim_end-Starts,
  Starts-trim,
}
use knows_me.Base.Results.{ok}
use knows_me.Domain.Category.{
  Handling, is_dash, handling, dash, keep, discard, fold_separators, check_length, parse,
}

-- A character of a category: the dash, or one that the loop keeps; never a capital letter.
abbrev pub Allowed : ℕ → Type 0
Allowed c = (is_ascii_upper c ≡ false) × ((c ≡ b'-') ⊎ (handling c ≡ keep))

-- No two dashes in a row, and none at the front if the flag is set.
abbrev pub Single : Bool → Text → Type 0
Single prev [] = Unit
Single prev (c ∷ cs) = ((prev && is_dash c) ≡ false) × Single (is_dash c) cs

pub record IsNormal (t : Text) : Type 0 where
  pub allowed : All Allowed t
  pub single : Single false t
  pub trimmed : trim_matches is_dash t ≡ t
  pub nonempty : 1 ≤ length t
  pub short : length t ≤ 64

handling_dash : handling b'-' ≡ dash
unfolding handling is_whitespace
handling_dash = refl

keep_not_dash : (c : ℕ) → handling c ≡ keep → is_dash c ≡ false
unfolding handling
keep_not_dash c h = ground arith

Allowed-space : (c : ℕ) → Allowed c → is_whitespace c ≡ false
Allowed-space c (u, inl e) = rw e (unfold is_whitespace in refl)
Allowed-space c (u, inr k) = unfold handling in ground arith

handling-cases : (c : ℕ) → (handling c ≡ dash) ⊎ ((handling c ≡ keep) ⊎ (handling c ≡ discard))
handling-cases c = go (handling c)
  where
    go : (h : Handling) → (h ≡ dash) ⊎ ((h ≡ keep) ⊎ (h ≡ discard))
    go dash = inl refl
    go keep = inr (inl refl)
    go discard = inr (inr refl)

-- What the loop puts out.
fold-Allowed :
    (prev : Bool) (s : Text)
    → All (λ c. is_ascii_upper c ≡ false) s
    → All Allowed (fold_separators prev s)
unfolding fold_separators
fold-Allowed prev [] h = tt
fold-Allowed true (c ∷ cs) h = elim (handling-cases c) [
  | inl e ↦ rw (e, fold_separators) (fold-Allowed true cs h.1)
  | inr (inl e) ↦ rw (e, fold_separators) ((h.0, inr e), fold-Allowed false cs h.1)
  | inr (inr e) ↦ rw (e, fold_separators) (fold-Allowed true cs h.1)
]
fold-Allowed false (c ∷ cs) h = elim (handling-cases c) [
  | inl e ↦ rw (e, fold_separators) ((refl, inl refl), fold-Allowed true cs h.1)
  | inr (inl e) ↦ rw (e, fold_separators) ((h.0, inr e), fold-Allowed false cs h.1)
  | inr (inr e) ↦ rw (e, fold_separators) (fold-Allowed false cs h.1)
]

fold-Single : (prev : Bool) (s : Text) → Single prev (fold_separators prev s)
unfolding fold_separators
fold-Single prev [] = tt
fold-Single true (c ∷ cs) = elim (handling-cases c) [
  | inl e ↦ rw (e, fold_separators) (fold-Single true cs)
  | inr (inl e) ↦
      let n = keep_not_dash c e in
      rw (e, fold_separators)
        (n, subst (λ b. Single b (fold_separators false cs)) (sym n) (fold-Single false cs))
  | inr (inr e) ↦ rw (e, fold_separators) (fold-Single true cs)
]
fold-Single false (c ∷ cs) = elim (handling-cases c) [
  | inl e ↦ rw (e, fold_separators) (refl, fold-Single true cs)
  | inr (inl e) ↦
      let n = keep_not_dash c e in
      rw (e, fold_separators)
        (refl, subst (λ b. Single b (fold_separators false cs)) (sym n) (fold-Single false cs))
  | inr (inr e) ↦ rw (e, fold_separators) (fold-Single false cs)
]

Single-weaken : (s : Text) → Single true s → Single false s
Single-weaken [] h = tt
Single-weaken (c ∷ cs) h = (refl, h.1)

Single-false : (prev : Bool) (s : Text) → Single prev s → Single false s
Single-false true s h = Single-weaken s h
Single-false false s h = h

Single-trim_start : (s : Text) → Single false s → Single false (trim_start is_dash s)
Single-trim_start [] h = tt
Single-trim_start (c ∷ cs) h =
    ground (arith, Single-trim_start cs (Single-false (is_dash c) cs h.1))

Single-keep_end :
    (prev : Bool) (c : ℕ) (s : Text)
    → (prev && is_dash c) ≡ false
    → Single (is_dash c) s
    → Single prev (keep_end is_dash c s)
Single-keep_end prev c [] h k = ground arith
Single-keep_end prev c (d ∷ s) h k = (h, k)

Single-trim_end : (prev : Bool) (s : Text) → Single prev s → Single prev (trim_end is_dash s)
Single-trim_end prev [] h = tt
Single-trim_end prev (c ∷ cs) h =
    Single-keep_end prev c (trim_end is_dash cs) h.0 (Single-trim_end (is_dash c) cs h.1)

-- The loop leaves a text in normal form as it is.
fold_fixed : (prev : Bool) (s : Text) → All Allowed s → Single prev s → fold_separators prev s ≡ s
unfolding fold_separators
fold_fixed prev [] a h = refl
fold_fixed prev (c ∷ cs) ((u, inl e), a) h =
    let d : handling c ≡ dash = rw e handling_dash in
    let b : is_dash c ≡ true = ground arith in
    let rest = fold_fixed true cs a (subst (λ b. Single b cs) b h.1) in ground (arith, rest, h.0)
fold_fixed prev (c ∷ cs) ((u, inr k), a) h =
    let rest = fold_fixed false cs a (subst (λ b. Single b cs) (keep_not_dash c k) h.1) in
    ground (arith, rest)

-- The last step: a text in normal form is the result.
check_length-ok : (t c : Text) → check_length t ≡ ok c → (t ≡ c) × (1 ≤ length c) × (length c ≤ 64)
unfolding check_length
check_length-ok t c h = ground arith

check_length_of : (t : Text) → 1 ≤ length t → length t ≤ 64 → check_length t ≡ ok t
unfolding check_length
check_length_of t a b = ground arith

trim_matches_idem : (p : ℕ → Bool) (s : Text) → trim_matches p (trim_matches p s) ≡ trim_matches p s
trim_matches_idem p s =
    rw
      (Starts-trim p (trim_matches p s)
        (trim_end-Starts p (trim_start p s) (trim_start-Starts p s)))
      (trim_end_idem p (trim_start p s))

-- What the standard library documents of `to_lowercase`: it leaves no ASCII capital, and a text of
-- lower-case letters, digits and Hangul stays as it is.
pub record LowercaseLaws (u : Unicode) : Type 0 where
  pub no_upper : (t : Text) → All (λ c. is_ascii_upper c ≡ false) (u.to_lowercase t)
  pub fixes : (t : Text) → All Allowed t → u.to_lowercase t ≡ t

module _ (u : Unicode) (laws : LowercaseLaws u) where
  folded-IsNormal :
      (t c : Text)
      → check_length (trim_matches is_dash (fold_separators false (u.to_lowercase t))) ≡ ok c
      → IsNormal c
  folded-IsNormal t c h =
      let s = fold_separators false (u.to_lowercase t) in
      let fits = check_length-ok (trim_matches is_dash s) c h in
      let front =
        All-trim_start Allowed is_dash s
          (fold-Allowed false (u.to_lowercase t) (laws.no_upper t)) in
      record {
        allowed =
            subst (All Allowed) fits.0 (All-trim_end Allowed is_dash (trim_start is_dash s) front);
        single = subst (Single false) fits.0 (
            Single-trim_end false (trim_start is_dash s)
              (Single-trim_start s (fold-Single false (u.to_lowercase t))));
        trimmed = subst (λ x. trim_matches is_dash x ≡ x) fits.0 (trim_matches_idem is_dash s);
        nonempty = fits.1;
        short = fits.2;
      }

  -- Whatever `parse` accepts is in normal form: 1 to 64 characters, each a dash or one that the loop
  -- keeps and none an ASCII capital, no two dashes in a row, none at either end.
  pub parse-IsNormal : (raw c : Text) → parse u raw ≡ ok c → IsNormal c
  unfolding parse
  parse-IsNormal raw c h = folded-IsNormal (trim raw) c h

  -- A text in normal form is parsed to itself.
  pub parse_fixed : (c : Text) → IsNormal c → parse u c ≡ ok c
  unfolding parse
  parse_fixed c n =
      let spaces = All-map Allowed-space c n.allowed in
      rw
        (
          trim-All c spaces,
          laws.fixes c n.allowed,
          fold_fixed false c n.allowed n.single,
          n.trimmed,
        )
        (check_length_of c n.nonempty n.short)

  -- Parsing an accepted category again gives the same category.
  pub parse-parse : (raw c : Text) → parse u raw ≡ ok c → parse u c ≡ ok c
  parse-parse raw c h = parse_fixed c (parse-IsNormal raw c h)
