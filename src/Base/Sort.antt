-- ===== src/Base/Sort.antt =====
-- `slice::sort_by`: the stable sort, as an insertion sort by a test "not greater".
use knows_me.Base.{Bool, List, [], ◌∷◌, if◌then◌else◌}

module _ {A : Type 0} (le : A → A → Bool) where
  abbrev pub insert_sorted : A → List A → List A
  insert_sorted a [] = a ∷ []
  insert_sorted a (x ∷ xs) = if le a x then a ∷ x ∷ xs else x ∷ insert_sorted a xs

  abbrev pub sort_by : List A → List A
  sort_by [] = []
  sort_by (x ∷ xs) = insert_sorted x (sort_by xs)
