-- ===== src/Base/Sets.antt =====
-- `HashSet` as a list without repetitions, over a Boolean equality: membership, insertion,
-- collecting, and the sizes of an intersection and a union.
use knows_me.Base.{
  ℕ, ◌+◌, ◌≤◌, ◌≡◌, refl, ◌↔◌, Bool, true, false, not, ◌||◌, List, [], ◌∷◌, ◌++◌, arith, length,
  filter, any, length-filter-le, if◌then◌else◌, Bool-cases, inl, inr, sym, ◌∙◌, subst,
}

module _ {A : Type 0} (eq : A → A → Bool) where
  abbrev pub contains : List A → A → Bool
  contains xs a = any (λ x. eq x a) xs

  -- `HashSet::insert`.
  abbrev pub insert : A → List A → List A
  insert a xs = if contains xs a then xs else a ∷ xs

  -- `collect` into a set.
  abbrev pub collect : List A → List A
  collect [] = []
  collect (x ∷ xs) = insert x (collect xs)

  -- `intersection(..).count()`.
  abbrev pub common : List A → List A → ℕ
  common xs ys = length (filter (contains ys) xs)

  -- `union(..).count()`.
  abbrev pub united : List A → List A → ℕ
  united xs ys = length xs + length (filter (λ y. not (contains xs y)) ys)

  -- No element occurs twice.
  abbrev pub Distinct : List A → Type 0
  Distinct [] = Unit
  Distinct (x ∷ xs) = (contains xs x ≡ false) × Distinct xs

  insert-Distinct : (a : A) (xs : List A) → Distinct xs → Distinct (insert a xs)
  insert-Distinct a xs h = elim (Bool-cases (contains xs a)) [
    | inl e ↦ rw e h
    | inr e ↦ rw e (e, h)
  ]

  pub collect-Distinct : (xs : List A) → Distinct (collect xs)
  collect-Distinct [] = tt
  collect-Distinct (x ∷ xs) = insert-Distinct x (collect xs) (collect-Distinct xs)

  pub none_common : (ys : List A) → length (filter (contains []) ys) ≡ 0
  none_common [] = refl
  none_common (y ∷ ys) = none_common ys

  pub common-le : (xs ys : List A) → common xs ys ≤ length xs
  common-le xs ys = length-filter-le (contains ys) xs

module _ {A : Type 0} (eq : A → A → Bool) (eq_iff : (a b : A) → (eq a b ≡ true) ↔ (a ≡ b)) where
  pub contains-insert :
      (x a : A) (xs : List A) → contains eq (insert eq x xs) a ≡ (eq x a || contains eq xs a)
  contains-insert x a xs = elim (Bool-cases (contains eq xs x)) [
    | inl e ↦ elim (Bool-cases (eq x a)) [
      | inl f ↦
          let g = subst (λ z. contains eq xs z ≡ true) ((eq_iff x a).0 f) e in ground (arith, g)
      | inr f ↦ ground arith
    ]
    | inr e ↦ ground arith
  ]

  pub contains-collect : (a : A) (xs : List A) → contains eq (collect eq xs) a ≡ contains eq xs a
  contains-collect a [] = refl
  contains-collect a (x ∷ xs) =
      ground (arith, contains-insert x a (collect eq xs), contains-collect a xs)

  pub contains-append :
      (xs ys : List A) (a : A) → contains eq (xs ++ ys) a ≡ (contains eq xs a || contains eq ys a)
  contains-append [] ys a = refl
  contains-append (x ∷ xs) ys a = ground (arith, contains-append xs ys a)

  pub eq_comm : (a b : A) → eq a b ≡ eq b a
  eq_comm a b = elim (Bool-cases (eq a b)) [
    | inl e ↦ e ∙ sym ((eq_iff b a).1 (sym ((eq_iff a b).0 e)))
    | inr e ↦ elim (Bool-cases (eq b a)) [
      | inl f ↦ (eq_iff a b).1 (sym ((eq_iff b a).0 f)) ∙ sym f
      | inr f ↦ e ∙ sym f
    ]
  ]

  -- In a set an element is met at most once.
  matches_absent :
      (a : A) (ys : List A) → contains eq ys a ≡ false → length (filter (λ y. eq y a) ys) ≡ 0
  matches_absent a [] h = refl
  matches_absent a (y ∷ ys) h = ground (arith, matches_absent a ys)

  matches :
      (a : A) (ys : List A)
      → Distinct eq ys
      → length (filter (λ y. eq y a) ys) ≡ (if contains eq ys a then 1 else 0)
  matches a [] d = refl
  matches a (y ∷ ys) d = elim (Bool-cases (eq y a)) [
    | inl e ↦
        let absent =
          matches_absent a ys (subst (λ z. contains eq ys z ≡ false) ((eq_iff y a).0 e) d.0) in
        ground (arith, absent)
    | inr e ↦ rw e (matches a ys d.1)
  ]

  -- The elements of a set that lie in `x ∷ xs` are those in `xs` and those equal to `x`.
  split_first :
      (x : A) (xs ys : List A)
      → contains eq xs x ≡ false
      → length (filter (contains eq (x ∷ xs)) ys)
        ≡ length (filter (λ y. eq y x) ys) + length (filter (contains eq xs) ys)
  split_first x xs [] h = refl
  split_first x xs (y ∷ ys) h = elim (Bool-cases (eq y x)) [
    | inl e ↦
        let absent = subst (λ z. contains eq xs z ≡ false) (sym ((eq_iff y x).0 e)) h in
        ground (arith, eq_comm x y, absent, split_first x xs ys h)
    | inr e ↦ ground (arith, eq_comm x y, split_first x xs ys h)
  ]

  pub common_comm :
      (xs ys : List A) → Distinct eq xs → Distinct eq ys → common eq xs ys ≡ common eq ys xs
  common_comm [] ys d e = sym (none_common eq ys)
  common_comm (x ∷ xs) ys d e =
      ground (arith, split_first x xs ys d.0, matches x ys e, common_comm xs ys d.1 e)

  -- A new element at the end keeps the elements distinct.
  pub Distinct-append :
      (xs : List A) (a : A)
      → Distinct eq xs
      → contains eq xs a ≡ false
      → Distinct eq (xs ++ (a ∷ []))
  Distinct-append [] a d h = (refl, tt)
  Distinct-append (x ∷ xs) a d h = (
    ground (arith, contains-append xs (a ∷ []) x, eq_comm x a, d.0),
    Distinct-append xs a d.1 (ground arith),
  )
