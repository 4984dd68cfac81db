-- ===== src/Similarity/Symmetry.antt =====
-- The near-duplicate test does not depend on the order of its two titles.
use knows_me.Base.{
  ◌+◌, ◌≤◌, ◌<◌, ◌≡◌, refl, ◌↔◌, Bool, true, not, List, [], ◌∷◌, arith, length, ap, filter,
}
use knows_me.Base.Texts.{Text, text_eq, text_eq-eq, text_eq_refl, Unicode}
use knows_me.Base.Sets.{
  contains, collect-Distinct, common, common_comm, common-le, united, Distinct,
}
use knows_me.Similarity.{
  Pair, pair_eq, windows, bigrams, overlap, similarity, normalize, is_near_duplicate,
}

pub pair_eq_iff : (a b : Pair) → (pair_eq a b ≡ true) ↔ (a ≡ b)
pair_eq_iff (a, b) (c, d) = (λ h. ground arith, λ h. ground arith)

pub text_eq_iff : (a b : Text) → (text_eq a b ≡ true) ↔ (a ≡ b)
text_eq_iff a b = (text_eq-eq a b, λ e. rw e (text_eq_refl b))

text_eq_comm : (a b : Text) → text_eq a b ≡ text_eq b a
text_eq_comm [] [] = refl
text_eq_comm [] (b ∷ bs) = refl
text_eq_comm (a ∷ as') [] = refl
text_eq_comm (a ∷ as') (b ∷ bs) = ground (arith, text_eq_comm as' bs)

text_eq-length : (a b : Text) → text_eq a b ≡ true → length a ≡ length b
text_eq-length a b h = ap length (text_eq-eq a b h)

-- The elements of one set, split by membership in another.
split_count :
    (p : Pair → Bool) (ys : List Pair)
    → length (filter p ys) + length (filter (λ y. not (p y)) ys) ≡ length ys
split_count p [] = refl
split_count p (y ∷ ys) = ground (arith, split_count p ys)

united_lem :
    (xs ys : List Pair) → united pair_eq xs ys + common pair_eq ys xs ≡ length xs + length ys
united_lem xs ys = omega (arith, split_count (contains pair_eq xs) ys)

module _ (xs ys : List Pair) (d : Distinct pair_eq xs) (e : Distinct pair_eq ys) where
  overlap_comm : overlap xs ys ≡ overlap ys xs
  unfolding overlap
  overlap_comm =
      ground (arith, common_comm pair_eq pair_eq_iff xs ys d e, united_lem xs ys, united_lem ys xs)

  overlap_bounds : ((overlap xs ys).0 ≤ (overlap xs ys).1) × (0 < (overlap xs ys).1)
  unfolding overlap
  overlap_bounds = ground (
    arith,
    common_comm pair_eq pair_eq_iff xs ys d e,
    common-le pair_eq xs ys,
    common-le pair_eq ys xs,
    united_lem xs ys,
  )

module _ (u : Unicode) (a b : Text) where
  pub similarity_comm : similarity u a b ≡ similarity u b a
  unfolding similarity bigrams
  similarity_comm =
      overlap_comm (bigrams (normalize u a)) (bigrams (normalize u b))
        (collect-Distinct pair_eq (windows (normalize u a)))
        (collect-Distinct pair_eq (windows (normalize u b)))

  -- The overlap is a fraction between 0 and 1, its denominator positive.
  pub similarity_bounds : ((similarity u a b).0 ≤ (similarity u a b).1) × (0 < (similarity u a b).1)
  unfolding similarity bigrams
  similarity_bounds =
      overlap_bounds (bigrams (normalize u a)) (bigrams (normalize u b))
        (collect-Distinct pair_eq (windows (normalize u a)))
        (collect-Distinct pair_eq (windows (normalize u b)))

  -- Asked in either order, the near-duplicate test has the same answer.
  pub is_near_duplicate_comm : is_near_duplicate u a b ≡ is_near_duplicate u b a
  unfolding is_near_duplicate
  is_near_duplicate_comm = ground (
    arith,
    similarity_comm,
    text_eq_comm (normalize u a) (normalize u b),
    text_eq-length (normalize u a) (normalize u b),
  )
