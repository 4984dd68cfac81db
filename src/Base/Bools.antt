-- ===== src/Base/Bools.antt =====
-- Tests that walk a list: `iter().filter`, `any`, `all`, `find`, each by a Boolean test.
use Prim.Native.Nat.{◌≤◌}
use mathlib.Core.Path.{◌≡◌, refl}
use mathlib.Core.Bool.{Bool, true, false, ◌&&◌, ◌||◌}
use mathlib.Core.Option.{Option, none, some}
use mathlib.Core.List.{List, [], ◌∷◌}
use native.Mathlib.Omega.{arith}
use knows_me.Base.Tests.{if◌then◌else◌}
use knows_me.Base.Lists.{length, All, Member}

module _ {ℓ} {A : Type ℓ} where
  abbrev pub filter : (A → Bool) → List A → List A
  filter p [] = []
  filter p (x ∷ xs) = let rest = filter p xs in if p x then x ∷ rest else rest

  abbrev pub any : (A → Bool) → List A → Bool
  any p [] = false
  any p (x ∷ xs) = p x || any p xs

  abbrev pub all : (A → Bool) → List A → Bool
  all p [] = true
  all p (x ∷ xs) = p x && all p xs

  abbrev pub find? : (A → Bool) → List A → Option A
  find? p [] = none
  find? p (x ∷ xs) = if p x then some x else find? p xs

  pub length-filter-le : (p : A → Bool) (xs : List A) → length (filter p xs) ≤ length xs
  length-filter-le p [] = omega arith
  length-filter-le p (x ∷ xs) = ground (arith, length-filter-le p xs)

  pub filter-All : (p : A → Bool) (xs : List A) → All (λ x. p x ≡ true) (filter p xs)
  filter-All p [] = tt
  filter-All p (x ∷ xs) = ground (arith, filter-All p xs)

  pub filter-All_of {κ} :
      (P : A → Type κ) (p : A → Bool) (xs : List A) → All P xs → All P (filter p xs)
  filter-All_of P p [] h = tt
  filter-All_of P p (x ∷ xs) h = ground (arith, filter-All_of P p xs h.1)

  pub filter-filter : (p : A → Bool) (xs : List A) → filter p (filter p xs) ≡ filter p xs
  filter-filter p [] = refl
  filter-filter p (x ∷ xs) = ground (arith, filter-filter p xs)

  pub any_congr : (p q : A → Bool) (xs : List A) → ((a : A) → p a ≡ q a) → any p xs ≡ any q xs
  any_congr p q [] h = refl
  any_congr p q (x ∷ xs) h = ground (arith, h x, any_congr p q xs h)

pub Member-filter :
    {A : Type 0} (p : A → Bool) (xs : List A) (a : A)
    → Member a (filter p xs)
    → Member a xs × (p a ≡ true)
Member-filter p [] a m = absurd m
Member-filter p (x ∷ xs) a m = ground (arith, Member-filter p xs a)

pub filter-Member :
    {A : Type 0} (p : A → Bool) (xs : List A) (a : A)
    → Member a xs
    → p a ≡ true
    → Member a (filter p xs)
filter-Member p [] a m e = m
filter-Member p (x ∷ xs) a m e = ground (arith, filter-Member p xs a)

-- Where `any` finds nothing, no element passes.
pub any_none :
    {A : Type 0} (p : A → Bool) (xs : List A) → any p xs ≡ false → All (λ x. p x ≡ false) xs
any_none p [] h = tt
any_none p (x ∷ xs) h = ground (arith, any_none p xs)

pub any-Member :
    {A : Type 0} (p : A → Bool) (xs : List A) (a : A) → Member a xs → p a ≡ true → any p xs ≡ true
any-Member p [] a m e = absurd m
any-Member p (x ∷ xs) a m e = ground (arith, any-Member p xs a)

pub find?-Member :
    {A : Type 0} (p : A → Bool) (xs : List A) {a : A}
    → find? p xs ≡ some a
    → Member a xs × (p a ≡ true)
find?-Member p [] h = cc
find?-Member p (x ∷ xs) {a} h = ground (arith, find?-Member p xs {a = a})
