-- ===== src/Interview/Service/Suppression.antt =====
-- The second pass of `expire` of src-tauri/src/interview/service.rs, which drops near duplicates.
use knows_me.Base.{
  ℕ, ◌+◌, ◌≡◌, ◌∙◌, Bool, List, [], ◌∷◌, ◌++◌, arith, ltb, if◌then◌else◌, Bool-cases, inl, inr,
}
use knows_me.Base.Texts.{Text, Unicode}
use knows_me.Domain.{QueueItem, QueueItemId}
use knows_me.Storage.{Store, Codec}
use knows_me.Interview.Queue.{is_near_duplicate}
use knows_me.Interview.Service.{place, suppress}

-- How many of the identities pass a test.
abbrev pub tally : (QueueItemId → Bool) → List QueueItemId → ℕ
tally p [] = 0
tally p (x ∷ xs) = (if p x then 1 else 0) + tally p xs

abbrev pub ids : List QueueItem → List QueueItemId
ids [] = []
ids (i ∷ is) = i.id ∷ ids is

tally-append :
    (p : QueueItemId → Bool) (xs ys : List QueueItemId)
    → tally p (xs ++ ys) ≡ tally p xs + tally p ys
tally-append p [] ys = omega arith
tally-append p (x ∷ xs) ys = omega (arith, tally-append p xs ys)

module _ (u : Unicode) (S : Store) (items : Codec QueueItem) (id_text : QueueItemId → Text) where
  place-tally :
      (p : QueueItemId → Bool) (i : QueueItem) (kept : List QueueItem)
      → tally p (ids (place u S items id_text i kept).kept)
          + tally p (place u S items id_text i kept).dropped
        ≡ (if p i.id then 1 else 0) + tally p (ids kept)
  unfolding place
  place-tally p i [] = omega arith
  place-tally p i (k ∷ ks) = elim (Bool-cases (is_near_duplicate u k.kind i.kind)) [
    | inl e ↦ elim (Bool-cases (ltb k.priority i.priority)) [
      | inl f ↦ rw (e, f) (omega arith)
      | inr f ↦ rw (e, f) (omega arith)
    ]
    | inr e ↦ rw e (omega (arith, place-tally p i ks))
  ]

  suppress-step :
      (p : QueueItemId → Bool) (alive kept : List QueueItem) (dropped : List QueueItemId)
      → tally p (ids (suppress u S items id_text alive kept dropped).kept)
          + tally p (suppress u S items id_text alive kept dropped).dropped
        ≡ tally p (ids alive) + (tally p (ids kept) + tally p dropped)
  unfolding suppress
  suppress-step p [] kept dropped = omega arith
  suppress-step p (i ∷ is) kept dropped =
      let next = place u S items id_text i kept in
      omega (
        arith,
        suppress-step p is next.kept (dropped ++ next.dropped),
        tally-append p dropped next.dropped,
        place-tally p i kept,
      )

  -- The pass loses no item and drops none twice: whatever the test, as many identities pass it among
  -- the kept and the dropped together as among the live items.
  pub suppress-tally :
      (p : QueueItemId → Bool) (alive : List QueueItem)
      → tally p (ids (suppress u S items id_text alive [] []).kept)
          + tally p (suppress u S items id_text alive [] []).dropped
        ≡ tally p (ids alive)
  suppress-tally p alive = suppress-step p alive [] [] ∙ omega arith
