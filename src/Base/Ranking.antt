-- ===== src/Base/Ranking.antt =====
-- `slice::sort_by` and `Vec::dedup_by` on what carries a number as its key: what is kept, in which
-- order, and that the result does not depend on the order of the input.
use knows_me.Base.{
  ℕ, zero, suc, ◌≤◌, ◌<◌, ◌≡◌, ◌≢◌, refl, sym, ap, subst, ◌∙◌, Bool, true, false, List, [], ◌∷◌,
  arith, ◌⊎◌, inl, inr, All, All-map, All-Member, Member, take, length, if◌then◌else◌, Bool-cases,
  ◌==◌, ==_iff,
}
use knows_me.Base.Sort.{sort_by, insert_sorted}

module _ {A : Type 0} (same : A → A → Bool) where
  -- What `dedup_by` keeps after the element `prev`.
  abbrev pub keep_from : A → List A → List A
  keep_from prev [] = []
  keep_from prev (b ∷ xs) =
      let rest = keep_from (if same b prev then prev else b) xs in
      if same b prev then rest else b ∷ rest

  abbrev pub dedup_by : List A → List A
  dedup_by [] = []
  dedup_by (a ∷ xs) = a ∷ keep_from a xs

module _ {A : Type 0} (le : A → A → Bool) where
  -- Every element may come before all that follow it.
  abbrev pub Ordered : List A → Type 0
  Ordered [] = Unit {0}
  Ordered (a ∷ xs) = All (λ b. le a b ≡ true) xs × Ordered xs

  insert-All :
      (P : A → Type 0) (a : A) (xs : List A) → P a → All P xs → All P (insert_sorted le a xs)
  insert-All P a [] p h = (p, tt)
  insert-All P a (b ∷ xs) p h = elim (Bool-cases (le a b)) [
    | inl e ↦ rw e (p, h)
    | inr e ↦ rw e (h.0, insert-All P a xs p h.1)
  ]

  pub sort_by-All : (P : A → Type 0) (xs : List A) → All P xs → All P (sort_by le xs)
  sort_by-All P [] h = tt
  sort_by-All P (a ∷ xs) h = insert-All P a (sort_by le xs) h.0 (sort_by-All P xs h.1)

  insert-Member : (x a : A) (xs : List A) → Member x (a ∷ xs) → Member x (insert_sorted le a xs)
  insert-Member x a [] m = m
  insert-Member x a (b ∷ xs) m = elim (Bool-cases (le a b)) [
    | inl e ↦ rw e m
    | inr e ↦ rw e (next (insert-Member x a xs) m)
  ]
    where
      next :
          (Member x (a ∷ xs) → Member x (insert_sorted le a xs))
          → Member x (a ∷ b ∷ xs)
          → (x ≡ b) ⊎ Member x (insert_sorted le a xs)
      next below (inl h) = inr (below (inl h))
      next below (inr (inl h)) = inl h
      next below (inr (inr h)) = inr (below (inr h))

  pub sort_by-Member : (x : A) (xs : List A) → Member x xs → Member x (sort_by le xs)
  sort_by-Member x [] m = m
  sort_by-Member x (a ∷ xs) (inl e) = insert-Member x a (sort_by le xs) (inl e)
  sort_by-Member x (a ∷ xs) (inr m) =
      insert-Member x a (sort_by le xs) (inr (sort_by-Member x xs m))

  Member-insert : (x a : A) (xs : List A) → Member x (insert_sorted le a xs) → Member x (a ∷ xs)
  Member-insert x a [] m = m
  Member-insert x a (b ∷ xs) m = elim (Bool-cases (le a b)) [
    | inl e ↦ rw e at m
    | inr e ↦ next (Member-insert x a xs) (rw e at m)
  ]
    where
      next :
          (Member x (insert_sorted le a xs) → Member x (a ∷ xs))
          → (x ≡ b) ⊎ Member x (insert_sorted le a xs)
          → Member x (a ∷ b ∷ xs)
      next below (inl h) = inr (inl h)
      next below (inr h) = elim (below h) [ inl f ↦ inl f | inr f ↦ inr (inr f) ]

  pub Member-sort_by : (x : A) (xs : List A) → Member x (sort_by le xs) → Member x xs
  Member-sort_by x [] m = m
  Member-sort_by x (a ∷ xs) m = elim (Member-insert x a (sort_by le xs) m) [
    | inl e ↦ inl e
    | inr n ↦ inr (Member-sort_by x xs n)
  ]

  module _ (total : (a b : A) → le a b ≡ false → le b a ≡ true)
      (trans : (a b c : A) → le a b ≡ true → le b c ≡ true → le a c ≡ true) where
    insert-Ordered : (a : A) (xs : List A) → Ordered xs → Ordered (insert_sorted le a xs)
    insert-Ordered a [] h = (tt, tt)
    insert-Ordered a (b ∷ xs) h = elim (Bool-cases (le a b)) [
      | inl e ↦ rw e ((e, All-map (λ c. trans a b c e) xs h.0), h)
      | inr e ↦
          rw e (insert-All (λ c. le b c ≡ true) a xs (total a b e) h.0, insert-Ordered a xs h.1)
    ]

    pub sort_by-Ordered : (xs : List A) → Ordered (sort_by le xs)
    sort_by-Ordered [] = tt
    sort_by-Ordered (a ∷ xs) = insert-Ordered a (sort_by le xs) (sort_by-Ordered xs)

pub take-All : {A : Type 0} (P : A → Type 0) (n : ℕ) (xs : List A) → All P xs → All P (take n xs)
take-All P zero xs h = tt
take-All P (suc n) [] h = tt
take-All P (suc n) (x ∷ xs) h = (h.0, take-All P n xs h.1)

module _ {A : Type 0} (key : A → ℕ) where
  abbrev pub Weak : List A → Type 0
  Weak [] = Unit {0}
  Weak (a ∷ xs) = All (λ b. key a ≤ key b) xs × Weak xs

  -- Each key is less than all that follow.
  abbrev pub Ascending : List A → Type 0
  Ascending [] = Unit {0}
  Ascending (a ∷ xs) = All (λ b. key a < key b) xs × Ascending xs

  pub Ordered-Weak :
      (le : A → A → Bool)
      → ((a b : A) → le a b ≡ true → key a ≤ key b)
      → (xs : List A) → Ordered le xs
      → Weak xs
  Ordered-Weak le f [] h = tt
  Ordered-Weak le f (a ∷ xs) h = (All-map (f a) xs h.0, Ordered-Weak le f xs h.1)

  abbrev pub same_key : A → A → Bool
  same_key a b = key a == key b

  keep_from-Ascending :
      (prev : A) (xs : List A)
      → All (λ b. key prev ≤ key b) xs
      → Weak xs
      → All (λ b. key prev < key b) (keep_from same_key prev xs)
        × Ascending (keep_from same_key prev xs)
  keep_from-Ascending prev [] h w = (tt, tt)
  keep_from-Ascending prev (b ∷ xs) h w = elim (Bool-cases (same_key b prev)) [
    | inl e ↦ rw e (keep_from-Ascending prev xs h.1 w.1)
    | inr e ↦
        let rest = keep_from-Ascending b xs w.0 w.1 in
        let less : key prev < key b = ground (arith, e, h.0) in
        rw e
          ((less, All-map (λ c k. omega (arith, less, k)) (keep_from same_key b xs) rest.0), rest)
  ]

  pub dedup_by-Ascending : (xs : List A) → Weak xs → Ascending (dedup_by same_key xs)
  dedup_by-Ascending [] w = tt
  dedup_by-Ascending (a ∷ xs) w = keep_from-Ascending a xs w.0 w.1

  Member-keep_from :
      (x prev : A) (xs : List A) → Member x (keep_from same_key prev xs) → Member x xs
  Member-keep_from x prev [] m = m
  Member-keep_from x prev (b ∷ xs) m = elim (Bool-cases (same_key b prev)) [
    | inl e ↦ inr (Member-keep_from x prev xs (rw e at m))
    | inr e ↦ next (Member-keep_from x b xs) (rw e at m)
  ]
    where
      next :
          (Member x (keep_from same_key b xs) → Member x xs)
          → (x ≡ b) ⊎ Member x (keep_from same_key b xs)
          → Member x (b ∷ xs)
      next below (inl h) = inl h
      next below (inr h) = inr (below h)

  pub Member-dedup_by : (x : A) (xs : List A) → Member x (dedup_by same_key xs) → Member x xs
  Member-dedup_by x [] m = m
  Member-dedup_by x (a ∷ xs) (inl e) = inl e
  Member-dedup_by x (a ∷ xs) (inr m) = inr (Member-keep_from x a xs m)

  module _ (le : A → A → Bool) (le_refl : (a : A) → le a a ≡ true) where
    -- The element, or one of the same key that may come before it.
    abbrev pub Covers : A → List A → Type 0
    Covers y xs = (x : A) × Member x xs × (key x ≡ key y) × (le x y ≡ true)

    keep_from-Covers :
        (prev y : A) (xs : List A)
        → All (λ b. le prev b ≡ true) xs
        → Ordered le xs
        → Member y xs
        → ((key prev ≡ key y) × (le prev y ≡ true)) ⊎ Covers y (keep_from same_key prev xs)
    keep_from-Covers prev y [] h o m = absurd m
    keep_from-Covers prev y (b ∷ xs) h o m = elim (Bool-cases (same_key b prev)) [
      | inl e ↦ rw e (hit ((==_iff (key b) (key prev)).0 e) (keep_from-Covers prev y xs h.1 o.1) m)
      | inr e ↦ rw e (inr (miss (keep_from-Covers b y xs o.0 o.1) m))
    ]
      where
        hit :
            key b ≡ key prev
            → (Member y xs
                → ((key prev ≡ key y) × (le prev y ≡ true)) ⊎ Covers y (keep_from same_key prev xs))
            → Member y (b ∷ xs)
            → ((key prev ≡ key y) × (le prev y ≡ true)) ⊎ Covers y (keep_from same_key prev xs)
        hit same below (inl k) =
            inl (sym same ∙ ap key (sym k), subst (λ z. le prev z ≡ true) (sym k) h.0)
        hit same below (inr k) = below k

        miss :
            (Member y xs → ((key b ≡ key y) × (le b y ≡ true)) ⊎ Covers y (keep_from same_key b xs))
            → Member y (b ∷ xs)
            → Covers y (b ∷ keep_from same_key b xs)
        miss below (inl k) =
            (b, inl refl, ap key (sym k), subst (λ z. le b z ≡ true) (sym k) (le_refl b))
        miss below (inr k) = elim (below k) [
          | inl (same, first) ↦ (b, inl refl, same, first)
          | inr (x, there, same, first) ↦ (x, inr there, same, first)
        ]

    pub dedup_by-Covers :
        (y : A) (xs : List A) → Ordered le xs → Member y xs → Covers y (dedup_by same_key xs)
    dedup_by-Covers y [] o m = absurd m
    dedup_by-Covers y (a ∷ xs) o (inl k) =
        (a, inl refl, ap key (sym k), subst (λ z. le a z ≡ true) (sym k) (le_refl a))
    dedup_by-Covers y (a ∷ xs) o (inr m) = elim (keep_from-Covers a y xs o.0 o.1 m) [
      | inl (same, first) ↦ (a, inl refl, same, first)
      | inr (x, there, same, first) ↦ (x, inr there, same, first)
    ]

  pub Ascending-Member :
      (x y : A) (xs : List A) → Ascending xs → Member x xs → Member y xs → key x ≡ key y → x ≡ y
  Ascending-Member x y [] h m n e = absurd m
  Ascending-Member x y (a ∷ xs) h (inl k) (inl l) e = k ∙ sym l
  Ascending-Member x y (a ∷ xs) h (inl k) (inr n) e =
      let less = All-Member (λ c. key a < key c) xs y h.0 n in
      let same : key a ≡ key y = ap key (sym k) ∙ e in absurd (omega (arith, less, same))
  Ascending-Member x y (a ∷ xs) h (inr m) (inl l) e =
      let less = All-Member (λ c. key a < key c) xs x h.0 m in
      let same : key x ≡ key a = e ∙ ap key l in absurd (omega (arith, less, same))
  Ascending-Member x y (a ∷ xs) h (inr m) (inr n) e = Ascending-Member x y xs h.1 m n e

  -- Two lists in ascending order with the same elements are equal.
  pub Ascending-unique :
      (xs ys : List A)
      → Ascending xs
      → Ascending ys
      → ((a : A) → Member a xs → Member a ys)
      → ((a : A) → Member a ys → Member a xs)
      → xs ≡ ys
  Ascending-unique [] [] h k to back = refl
  Ascending-unique [] (b ∷ ys) h k to back = absurd (back b (inl refl))
  Ascending-unique (a ∷ xs) [] h k to back = absurd (to a (inl refl))
  Ascending-unique (a ∷ xs) (b ∷ ys) h k to back =
      let first = head (to a (inl refl)) (back b (inl refl)) in
      rw
        (
          first,
          Ascending-unique xs ys h.1 k.1 (λ c m. tail_to c first m (to c (inr m)))
              (λ c m. tail_back c first m (back c (inr m))),
        )
        refl
    where
      head : Member a (b ∷ ys) → Member b (a ∷ xs) → a ≡ b
      head (inl e) n = e
      head (inr m) (inl e) = sym e
      head (inr m) (inr n) =
          let less = All-Member (λ c. key b < key c) ys a k.0 m in
          let more = All-Member (λ c. key a < key c) xs b h.0 n in
          absurd (omega (arith, less, more))

      tail_to : (c : A) → a ≡ b → Member c xs → Member c (b ∷ ys) → Member c ys
      tail_to c first m (inr n) = n
      tail_to c first m (inl e) =
          let less = All-Member (λ d. key a < key d) xs c h.0 m in
          let same : key c ≡ key a = ap key (e ∙ sym first) in absurd (omega (arith, less, same))

      tail_back : (c : A) → a ≡ b → Member c ys → Member c (a ∷ xs) → Member c xs
      tail_back c first m (inr n) = n
      tail_back c first m (inl e) =
          let less = All-Member (λ d. key b < key d) ys c k.0 m in
          let same : key c ≡ key b = ap key (e ∙ first) in absurd (omega (arith, less, same))

-- Any two elements are in the relation.
abbrev pub Pairwise : {A : Type 0} → (A → A → Type 0) → List A → Type 0
Pairwise R [] = Unit {0}
Pairwise R (a ∷ xs) = All (R a) xs × Pairwise R xs

module _ {A : Type 0} (R : A → A → Type 0) where
  pub take-Pairwise : (n : ℕ) (xs : List A) → Pairwise R xs → Pairwise R (take n xs)
  take-Pairwise zero xs h = tt
  take-Pairwise (suc n) [] h = tt
  take-Pairwise (suc n) (x ∷ xs) h = (take-All (R x) n xs h.0, take-Pairwise n xs h.1)

  module _ (le : A → A → Bool) (swap : (a b : A) → R a b → R b a) where
    insert-Pairwise :
        (a : A) (xs : List A) → All (R a) xs → Pairwise R xs → Pairwise R (insert_sorted le a xs)
    insert-Pairwise a [] h p = (tt, tt)
    insert-Pairwise a (b ∷ xs) h p = elim (Bool-cases (le a b)) [
      | inl e ↦ rw e (h, p)
      | inr e ↦ rw e (insert-All le (R b) a xs (swap a b h.0) p.0, insert-Pairwise a xs h.1 p.1)
    ]

    pub sort_by-Pairwise : (xs : List A) → Pairwise R xs → Pairwise R (sort_by le xs)
    sort_by-Pairwise [] h = tt
    sort_by-Pairwise (a ∷ xs) h =
        insert-Pairwise a (sort_by le xs) (sort_by-All le (R a) xs h.0) (sort_by-Pairwise xs h.1)

pub Ascending-Pairwise :
    {A : Type 0} (key : A → ℕ) (xs : List A) → Ascending key xs → Pairwise (λ a b. key a ≢ key b) xs
Ascending-Pairwise key [] h = tt
Ascending-Pairwise key (a ∷ xs) h = (
  All-map (λ b less same. absurd (omega (arith, less, same))) xs h.0,
  Ascending-Pairwise key xs h.1,
)

-- What the first elements of an ordered list leave out comes after each of them.
pub take-Ordered :
    {A : Type 0} (le : A → A → Bool) (n : ℕ) (xs : List A) (x : A)
    → Ordered le xs
    → Member x xs
    → Member x (take n xs) ⊎ ((length (take n xs) ≡ n) × All (λ a. le a x ≡ true) (take n xs))
take-Ordered le zero xs x h m = inr (refl, tt)
take-Ordered le (suc n) [] x h m = absurd m
take-Ordered le (suc n) (y ∷ xs) x h (inl e) = inl (inl e)
take-Ordered le (suc n) (y ∷ xs) x h (inr m) = elim (take-Ordered le n xs x h.1 m) [
  | inl there ↦ inl (inr there)
  | inr (full, before) ↦ inr (ap suc full, (All-Member (λ b. le y b ≡ true) xs x h.0 m, before))
]
