-- ===== src/Interview/Queue/Orders.antt =====
-- The order in which the queue is shown.
use knows_me.Base.{◌≡◌, true, false, List, [], ◌∷◌, arith, All, All-map, Bool-cases, inl, inr}
use knows_me.Base.Sort.{sort_by, insert_sorted}
use knows_me.Domain.{QueueItem, QueueSort, priority_desc, newest_first}
use knows_me.Interview.Queue.{shown_first, sort_queue}

-- Every item may be shown before all that come after it.
abbrev pub Shown : QueueSort → List QueueItem → Type 0
Shown sort [] = Unit
Shown sort (a ∷ xs) = All (λ b. shown_first sort a b ≡ true) xs × Shown sort xs

shown_total :
    (sort : QueueSort) (a b : QueueItem)
    → shown_first sort a b ≡ false
    → shown_first sort b a ≡ true
shown_total priority_desc a b h = ground arith
shown_total newest_first a b h = ground arith

shown_trans :
    (sort : QueueSort) (a b c : QueueItem)
    → shown_first sort a b ≡ true
    → shown_first sort b c ≡ true
    → shown_first sort a c ≡ true
shown_trans priority_desc a b c h k = ground arith
shown_trans newest_first a b c h k = ground arith

insert-All :
    (sort : QueueSort) (P : QueueItem → Type 0) (a : QueueItem) (xs : List QueueItem)
    → P a
    → All P xs
    → All P (insert_sorted (shown_first sort) a xs)
insert-All sort P a [] p h = (p, tt)
insert-All sort P a (b ∷ xs) p h = elim (Bool-cases (shown_first sort a b)) [
  | inl e ↦ rw e (p, h)
  | inr e ↦ rw e (h.0, insert-All sort P a xs p h.1)
]

insert-Shown :
    (sort : QueueSort) (a : QueueItem) (xs : List QueueItem)
    → Shown sort xs
    → Shown sort (insert_sorted (shown_first sort) a xs)
insert-Shown sort a [] h = (tt, tt)
insert-Shown sort a (b ∷ xs) h = elim (Bool-cases (shown_first sort a b)) [
  | inl e ↦ rw e ((e, All-map (λ c. shown_trans sort a b c e) xs h.0), h)
  | inr e ↦ rw e (insert-All sort _ a xs (shown_total sort a b e) h.0, insert-Shown sort a xs h.1)
]

pub sort_queue-Shown :
    (sort : QueueSort) (items : List QueueItem) → Shown sort (sort_queue sort items)
unfolding sort_queue
sort_queue-Shown sort [] = tt
sort_queue-Shown sort (a ∷ xs) =
    insert-Shown sort a (sort_by (shown_first sort) xs) (sort_queue-Shown sort xs)

pub sort_queue-All :
    (sort : QueueSort) (P : QueueItem → Type 0) (items : List QueueItem)
    → All P items
    → All P (sort_queue sort items)
unfolding sort_queue
sort_queue-All sort P [] h = tt
sort_queue-All sort P (a ∷ xs) h =
    insert-All sort P a (sort_by (shown_first sort) xs) h.0 (sort_queue-All sort P xs h.1)
