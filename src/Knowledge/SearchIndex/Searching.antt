-- ===== src/Knowledge/SearchIndex/Searching.antt =====
-- What `search` of search_index.rs answers, told from the facts alone.
use knows_me.Base.{
  ◌≡◌, ◌≢◌, refl, ◌∙◌, ap, ==_iff, Bool, true, false, ◌&&◌, Option, none, some, List, [], ◌∷◌,
  arith, if◌then◌else◌, filter, any, all, All, Bool-cases, Option-cases, inl, inr, ◌==◌,
}
use knows_me.Base.Texts.{Text, Unicode, trim}
use knows_me.Base.Lines.{is_empty}
use knows_me.Base.Sort.{sort_by, insert_sorted}
use knows_me.Domain.{FactId, Fact, Scope, FactSummary}
use knows_me.Knowledge.SearchIndex.{
  SearchIndex, Postings, MetaLite, MetaEntry, has_id, has_token, tokens_of, meta_of, posted_ids,
  find_meta, tokenize, sets_for, add_set, intersect, by_size, intersected, for_tokens, ids_of,
  candidates, summary, scope_wanted, summarised, summaries, search,
}
use knows_me.Knowledge.SearchIndex.Mirror.{Facts, posted, among, known_tokens, Mirrors}

-- All the sets have the fact.
abbrev in_all : List (List FactId) → FactId → Bool
in_all ss j = all (λ s. has_id s j) ss

insert_sorted-all :
    (le : List FactId → List FactId → Bool) (s : List FactId) (ss : List (List FactId)) (j : FactId)
    → in_all (insert_sorted le s ss) j ≡ (has_id s j && in_all ss j)
insert_sorted-all le s [] j = refl
insert_sorted-all le s (r ∷ ss) j = ground (arith, insert_sorted-all le s ss j)

sort_by-all :
    (le : List FactId → List FactId → Bool) (ss : List (List FactId)) (j : FactId)
    → in_all (sort_by le ss) j ≡ in_all ss j
sort_by-all le [] j = refl
sort_by-all le (s ∷ ss) j = insert_sorted-all le s (sort_by le ss) j ∙ rw (sort_by-all le ss j) refl

filter-has_id :
    (p : FactId → Bool) (s : List FactId) (j : FactId) → has_id (filter p s) j ≡ (has_id s j && p j)
filter-has_id p [] j = refl
filter-has_id p (k ∷ s) j = elim (Bool-cases (k == j)) [
  | inl e ↦ let same = (==_iff k j).0 e in rw same (ground (arith, filter-has_id p s j))
  | inr e ↦ ground (arith, filter-has_id p s j)
]

intersect-has :
    (s : List FactId) (ss : List (List FactId)) (j : FactId)
    → has_id (intersect (s ∷ ss)) j ≡ (has_id s j && in_all ss j)
intersect-has s ss j = filter-has_id (λ id. all (λ r. has_id r id) ss) s j

-- The tokens all lead to the fact.
abbrev leads : Postings → List Text → FactId → Bool
leads p ts j = all (λ t. posted p t j) ts

abbrev sets_have : Option (List (List FactId)) → FactId → Bool
sets_have none j = false
sets_have (some ss) j = in_all ss j

add_set-has :
    (o : Option (List FactId)) (r : Option (List (List FactId))) (j : FactId)
    → sets_have (add_set o r) j ≡ (has_id (posted_ids o) j && sets_have r j)
add_set-has none r j = refl
add_set-has (some s) none j = ground arith
add_set-has (some s) (some ss) j = refl

sets_for-leads :
    (p : Postings) (ts : List Text) (j : FactId) → sets_have (sets_for p ts) j ≡ leads p ts j
unfolding sets_for
sets_for-leads p [] j = refl
sets_for-leads p (t ∷ ts) j = add_set-has (p t) (sets_for p ts) j ∙ rw (sets_for-leads p ts j) refl

intersect-sets :
    (ss : List (List FactId)) (j : FactId) → ss ≢ [] → has_id (intersect ss) j ≡ in_all ss j
intersect-sets [] j h = absurd (h refl)
intersect-sets (s ∷ ss) j h = intersect-has s ss j

insert_sorted-ne_nil :
    (le : List FactId → List FactId → Bool) (s : List FactId) (ss : List (List FactId))
    → insert_sorted le s ss ≢ []
insert_sorted-ne_nil le s [] h = cc
insert_sorted-ne_nil le s (r ∷ ss) h = ground (arith, h)

add_set-intersected :
    (o : Option (List FactId)) (r : Option (List (List FactId))) (j : FactId)
    → has_id (intersected (add_set o r)) j ≡ sets_have (add_set o r) j
add_set-intersected none r j = refl
add_set-intersected (some s) none j = refl
add_set-intersected (some s) (some ss) j =
    intersect-sets (sort_by by_size (s ∷ ss)) j
      (insert_sorted-ne_nil by_size s (sort_by by_size ss))
    ∙ sort_by-all by_size (s ∷ ss) j

for_tokens-leads :
    (p : Postings) (t : Text) (ts : List Text) (j : FactId)
    → has_id (for_tokens p (t ∷ ts)) j ≡ leads p (t ∷ ts) j
unfolding sets_for
for_tokens-leads p t ts j =
    add_set-intersected (p t) (sets_for p ts) j ∙ sets_for-leads p (t ∷ ts) j

module _ (u : Unicode) where
  -- What a query asks of the tokens of a fact.
  abbrev pub asks : Text → List Text → Bool
  asks query ts =
      if is_empty (trim query)
      then true
      else elim (tokenize u query) [ [] ↦ false | t ∷ q ↦ all (has_token ts) (t ∷ q) ]

  -- Whether a fact is an answer.
  abbrev pub answers : Text → Option Scope → Option Fact → Bool
  answers query scope none = false
  answers query scope (some f) = scope_wanted scope (meta_of f) && asks query (tokens_of u f)

  -- A fact is among the summaries.
  abbrev pub listed : FactId → List FactSummary → Bool
  listed j ss = any (λ s. s.id == j) ss

  abbrev wanted : Option Scope → Option MetaLite → Bool
  wanted scope none = false
  wanted scope (some m) = scope_wanted scope m

  summaries-listed :
      (x : SearchIndex) (scope : Option Scope) (ids : List FactId) (j : FactId)
      → listed j (summaries x scope ids) ≡ (has_id ids j && wanted scope (find_meta j x.meta))
  unfolding summaries
  summaries-listed x scope [] j = refl
  summaries-listed x scope (k ∷ ids) j = elim (Option-cases (find_meta k x.meta)) [
    | inl e ↦ rw e (ground (arith, hit k e, summaries-listed x scope ids j))
    | inr (m, e) ↦ rw e (ground (arith, hit k e, summaries-listed x scope ids j))
  ]
    where
      hit :
          (k : FactId) {o : Option MetaLite}
          → find_meta k x.meta ≡ o
          → (k == j) ≡ true
          → find_meta j x.meta ≡ o
      hit k e h = rw (← (==_iff k j).0 h) e

  -- A summary tells of the fact of that identity.
  abbrev pub Tells : Facts → FactSummary → Type 0
  Tells m s = (f : Fact) × (m s.id ≡ some f) × (s ≡ summary s.id (meta_of f))

  ids_of-has :
      (scope : Option Scope) (ms : List MetaEntry) (j : FactId)
      → (has_id (ids_of ms) j && wanted scope (find_meta j ms)) ≡ wanted scope (find_meta j ms)
  ids_of-has scope [] j = refl
  ids_of-has scope (e ∷ ms) j = ground (arith, ids_of-has scope ms j)

  module _ (m : Facts) (x : SearchIndex) (h : Mirrors u m x) where
    leads-all :
        (ts : List Text) (j : FactId) (f : Fact)
        → m j ≡ some f
        → leads x.postings ts j ≡ all (has_token (tokens_of u f)) ts
    leads-all [] j f e = refl
    leads-all (t ∷ ts) j f e =
        let here : posted x.postings t j ≡ has_token (tokens_of u f) t =
          h.postings_agree t j ∙ ap (λ o. among o t) (h.tokens_agree j ∙ ap (known_tokens u) e) in
        rw (here, leads-all ts j f e) refl

    asked :
        (query : Text) (ts : List Text) (j : FactId) (f : Fact)
        → m j ≡ some f
        → has_id (for_tokens x.postings ts) j
          ≡ elim ts [ [] ↦ false | t ∷ q ↦ all (has_token (tokens_of u f)) (t ∷ q) ]
    asked query [] j f e = refl
    asked query (t ∷ ts) j f e = for_tokens-leads x.postings t ts j ∙ leads-all (t ∷ ts) j f e

    candidates-answers :
        (query : Text) (scope : Option Scope) (j : FactId)
        → (has_id (candidates u x query) j && wanted scope (find_meta j x.meta))
          ≡ answers query scope (m j)
    unfolding candidates
    candidates-answers query scope j = elim (Option-cases (m j)) [
      | inl e ↦ rw (h.meta_agree j, e) (ground arith)
      | inr (f, e) ↦ elim (Bool-cases (is_empty (trim query))) [
        | inl b ↦ rw (b, ids_of-has scope x.meta j, h.meta_agree j, e) (ground arith)
        | inr b ↦ rw (b, h.meta_agree j, e, asked query (tokenize u query) j f e) (ground arith)
      ]
    ]

    -- With an index that mirrors the facts, a search lists exactly the facts that answer it: those of
    -- the wanted scope that have every token of the query, all of that scope for a blank query, and
    -- none for a query that is not blank and has no token.
    pub search-answers :
        (query : Text) (scope : Option Scope) (j : FactId)
        → listed j (search u x query scope) ≡ answers query scope (m j)
    unfolding search
    search-answers query scope j =
        summaries-listed x scope (candidates u x query) j ∙ candidates-answers query scope j

    summarised-Tells :
        (scope : Option Scope) (k : FactId) (rest : List FactSummary)
        → All (Tells m) rest
        → All (Tells m) (summarised scope k (find_meta k x.meta) rest)
    summarised-Tells scope k rest a = elim (Option-cases (m k)) [
      | inl e ↦ rw (h.meta_agree k, e) a
      | inr (f, e) ↦
          rw (h.meta_agree k, e)
            (elim (Bool-cases (scope_wanted scope (meta_of f))) [
              | inl b ↦ rw b ((f, e, refl), a)
              | inr b ↦ rw b a
            ])
    ]

    -- What the search tells of a fact is what the fact holds.
    pub summaries-Tells :
        (scope : Option Scope) (ids : List FactId) → All (Tells m) (summaries x scope ids)
    unfolding summaries
    summaries-Tells scope [] = tt
    summaries-Tells scope (k ∷ ids) =
        summarised-Tells scope k (summaries x scope ids) (summaries-Tells scope ids)
