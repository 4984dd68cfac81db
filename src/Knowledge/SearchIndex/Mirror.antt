-- ===== src/Knowledge/SearchIndex/Mirror.antt =====
-- The index mirrors a map of facts: each operation of search_index.rs refines one on the map, and a
-- search answers from the map alone.
use knows_me.Base.{
  ◌≡◌, refl, ◌∙◌, ==_iff, Bool, false, not, ◌&&◌, ◌||◌, Option, none, some, List, [], ◌∷◌, arith,
  if◌then◌else◌, filter, Bool-cases, inl, inr, ◌==◌,
}
use knows_me.Base.Texts.{Text, text_eq, Unicode}
use knows_me.Base.Sets.{contains-insert}
use knows_me.Domain.{FactId, Fact}
use knows_me.Knowledge.SearchIndex.{
  SearchIndex, Postings, MetaLite, MetaEntry, has_id, has_token, tokens_of, meta_of, posted_ids,
  add_posting, add_postings, without, or_gone, drop_posting, drop_postings, find_meta, remove_meta,
  unposted, remove, upsert, clear,
}

abbrev pub Facts : Type 0
Facts = FactId → Option Fact

abbrev pub set_fact : Facts → Fact → Facts
set_fact m f j = if j == f.id then some f else m j

abbrev pub unset_fact : Facts → FactId → Facts
unset_fact m id j = if j == id then none else m j

-- Whether the token leads to the fact.
abbrev pub posted : Postings → Text → FactId → Bool
posted p t j = has_id (posted_ids (p t)) j

abbrev pub among : Option (List Text) → Text → Bool
among none t = false
among (some ts) t = has_token ts t

filter-has :
    (id j : FactId) (s : List FactId)
    → has_id (filter (λ k. not (k == id)) s) j ≡ (has_id s j && not (j == id))
filter-has id j [] = refl
filter-has id j (k ∷ s) = ground (arith, filter-has id j s)

or_gone-has : (j : FactId) (s : List FactId) → has_id (posted_ids (or_gone s)) j ≡ has_id s j
or_gone-has j [] = refl
or_gone-has j (k ∷ s) = refl

without-has :
    (id j : FactId) (o : Option (List FactId))
    → has_id (posted_ids (without id o)) j ≡ (has_id (posted_ids o) j && not (j == id))
without-has id j none = refl
without-has id j (some s) = or_gone-has j (filter (λ k. not (k == id)) s) ∙ filter-has id j s

drop_posting-posted :
    (id : FactId) (t : Text) (p : Postings) (v : Text) (j : FactId)
    → posted (drop_posting id t p) v j ≡ (posted p v j && not (text_eq t v && j == id))
unfolding drop_posting
drop_posting-posted id t p v j = elim (Bool-cases (text_eq t v)) [
  | inl e ↦ rw e (without-has id j (p v))
  | inr e ↦ rw e (ground arith)
]

drop_postings-posted :
    (id : FactId) (ts : List Text) (p : Postings) (v : Text) (j : FactId)
    → posted (drop_postings id ts p) v j ≡ (posted p v j && not (has_token ts v && j == id))
unfolding drop_postings
drop_postings-posted id [] p v j = ground arith
drop_postings-posted id (t ∷ ts) p v j =
    ground
      (arith, drop_postings-posted id ts (drop_posting id t p) v j, drop_posting-posted id t p v j)

add_posting-posted :
    (id : FactId) (t : Text) (p : Postings) (v : Text) (j : FactId)
    → posted (add_posting id t p) v j ≡ (posted p v j || text_eq t v && j == id)
unfolding add_posting
add_posting-posted id t p v j = elim (Bool-cases (text_eq t v)) [
  | inl e ↦ rw e (ground (arith, contains-insert ◌==◌ ==_iff id j (posted_ids (p v))))
  | inr e ↦ rw e (ground arith)
]

add_postings-posted :
    (id : FactId) (ts : List Text) (p : Postings) (v : Text) (j : FactId)
    → posted (add_postings id ts p) v j ≡ (posted p v j || has_token ts v && j == id)
unfolding add_postings
add_postings-posted id [] p v j = ground arith
add_postings-posted id (t ∷ ts) p v j =
    ground
      (arith, add_postings-posted id ts (add_posting id t p) v j, add_posting-posted id t p v j)

find-remove_meta :
    (id j : FactId) (m : List MetaEntry)
    → find_meta j (remove_meta id m) ≡ (if j == id then none else find_meta j m)
find-remove_meta id j [] = ground arith
find-remove_meta id j (e ∷ m) = ground (arith, find-remove_meta id j m)

module _ (u : Unicode) where
  abbrev pub known_tokens : Option Fact → Option (List Text)
  known_tokens none = none
  known_tokens (some f) = some (tokens_of u f)

  abbrev pub known_meta : Option Fact → Option MetaLite
  known_meta none = none
  known_meta (some f) = some (meta_of f)

  -- The index holds the facts of the map and no other: their tokens, their postings and their data.
  pub record Mirrors (m : Facts) (x : SearchIndex) : Type 0 where
    pub tokens_agree : (j : FactId) → x.tokens j ≡ known_tokens (m j)
    pub meta_agree : (j : FactId) → find_meta j x.meta ≡ known_meta (m j)
    pub postings_agree : (t : Text) (j : FactId) → posted x.postings t j ≡ among (x.tokens j) t

  pub clear-Mirrors : (x : SearchIndex) → Mirrors (λ j. none) (clear x)
  unfolding clear
  clear-Mirrors x = record {
    tokens_agree = λ j. refl;
    meta_agree = λ j. refl;
    postings_agree = λ t j. refl;
  }

  unposted-posted :
      (id : FactId) (o : Option (List Text)) (p : Postings) (t : Text) (j : FactId)
      → posted (unposted id o p) t j ≡ (posted p t j && not (among o t && j == id))
  unposted-posted id none p t j = ground arith
  unposted-posted id (some ts) p t j = drop_postings-posted id ts p t j

  -- Removing a fact, known or not, leaves the index of the map without it.
  pub remove-Mirrors :
      (m : Facts) (id : FactId) (x : SearchIndex)
      → Mirrors m x
      → Mirrors (unset_fact m id) (remove id x)
  unfolding remove
  remove-Mirrors m id x h = record {
    tokens_agree = λ j. ground (arith, h.tokens_agree j);
    meta_agree = λ j. ground (arith, find-remove_meta id j x.meta, h.meta_agree j);
    postings_agree =
        λ t j. unposted-posted id (x.tokens id) x.postings t j ∙ settled t j (h.postings_agree t j);
  }
    where
      settled :
          (t : Text) (j : FactId)
          → posted x.postings t j ≡ among (x.tokens j) t
          → (posted x.postings t j && not (among (x.tokens id) t && j == id))
            ≡ among (if j == id then none else x.tokens j) t
      settled t j e = elim (Bool-cases (j == id)) [
        | inl f ↦ rw (e, (==_iff j id).0 f) (ground arith)
        | inr f ↦ rw (f, e) (ground arith)
      ]

  -- Indexing a fact, new or known, gives the index of the map that has it.
  pub upsert-Mirrors :
      (m : Facts) (f : Fact) (x : SearchIndex) → Mirrors m x → Mirrors (set_fact m f) (upsert u f x)
  unfolding upsert
  upsert-Mirrors m f x h =
      let old = remove-Mirrors m f.id x h in
      record {
        tokens_agree = λ j. ground (arith, old.tokens_agree j);
        meta_agree = λ j. ground (arith, (==_iff j f.id), old.meta_agree j);
        postings_agree = λ t j.
            add_postings-posted f.id (tokens_of u f) (remove f.id x).postings t j
            ∙ settled t j (old.tokens_agree j) (old.postings_agree t j);
      }
    where
      settled :
          (t : Text) (j : FactId)
          → (remove f.id x).tokens j ≡ known_tokens (unset_fact m f.id j)
          → posted (remove f.id x).postings t j ≡ among ((remove f.id x).tokens j) t
          → (posted (remove f.id x).postings t j || has_token (tokens_of u f) t && j == f.id)
            ≡ among (if j == f.id then some (tokens_of u f) else (remove f.id x).tokens j) t
      settled t j e g = elim (Bool-cases (j == f.id)) [
        | inl k ↦ rw (g, e, k) (ground arith)
        | inr k ↦ rw (g, k) (ground arith)
      ]
