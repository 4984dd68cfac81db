-- ===== src/Knowledge/SearchIndex/Topics/Pages.antt =====
-- What stands on the pages of `topic_pages` of src-tauri/src/knowledge/search_index.rs.
use knows_me.Base.{
  suc, ◌≡◌, refl, sym, ap, ◌∙◌, Bool, true, false, Option, List, [], ◌∷◌, map, filter, length, ltb,
  not, ◌&&◌, ◌||◌, ◌==◌, arith, inl, inr, All, All-map, All-append, Member, Bool-cases,
}
use knows_me.Base.Texts.{Text, text_eq, text_eq-eq, Unicode}
use knows_me.Base.Lines.{is_empty}
use knows_me.Base.Order.{text_le}
use knows_me.Base.Sort.{sort_by, insert_sorted}
use knows_me.Base.Ranking.{sort_by-All, dedup_by, keep_from}
use knows_me.Domain.{FactId, Time, FactSummary, TopicPage}
use knows_me.Knowledge.SearchIndex.Graph.{Surface, count_surface, best, better, topic_key}
use knows_me.Knowledge.SearchIndex.Topics as Topics
use knows_me.Knowledge.SearchIndex.Topics.{
  Group, join_group, new_group, grown, page_name, distinct, by_id, same_id, is_concern, newer_fact,
  page, page_of, page_order,
}

module _ {A : Type 0} (le : A → A → Bool) where
  insert-length : (a : A) (xs : List A) → length (insert_sorted le a xs) ≡ suc (length xs)
  insert-length a [] = refl
  insert-length a (b ∷ xs) = ground (arith, insert-length a xs)

  sort_by-length : (xs : List A) → length (sort_by le xs) ≡ length xs
  sort_by-length [] = refl
  sort_by-length (a ∷ xs) = insert-length a (sort_by le xs) ∙ ap suc (sort_by-length xs)

  insert-count :
      (p : A → Bool) (a : A) (xs : List A)
      → length (filter p (insert_sorted le a xs)) ≡ length (filter p (a ∷ xs))
  insert-count p a [] = refl
  insert-count p a (b ∷ xs) = ground (arith, insert-count p a xs)

  sort_by-count :
      (p : A → Bool) (xs : List A) → length (filter p (sort_by le xs)) ≡ length (filter p xs)
  sort_by-count p [] = refl
  sort_by-count p (a ∷ xs) = ground (arith, insert-count p a (sort_by le xs), sort_by-count p xs)

module _ {A : Type 0} (same : A → A → Bool) (P : A → Type 0) where
  keep_from-All : (prev : A) (xs : List A) → All P xs → All P (keep_from same prev xs)
  keep_from-All prev [] h = tt
  keep_from-All prev (b ∷ xs) h = elim (Bool-cases (same b prev)) [
    | inl e ↦ rw e (keep_from-All prev xs h.1)
    | inr e ↦ rw e (h.0, keep_from-All b xs h.1)
  ]

  dedup_by-All : (xs : List A) → All P xs → All P (dedup_by same xs)
  dedup_by-All [] h = tt
  dedup_by-All (a ∷ xs) h = (h.0, keep_from-All a xs h.1)

module _ (u : Unicode) (facts : List FactSummary) where
  -- The fact is one of those given and carries a spelling with the key.
  abbrev pub Carries : Text → FactSummary → Type 0
  Carries key f = Member f facts × ((t : Text) × Member t f.topics × (topic_key u t ≡ key))

  -- The page is of facts that carry its topic, in some spelling, and counts them.
  abbrev pub Tells : TopicPage → Type 0
  Tells p =
      All (Carries (topic_key u p.topic)) p.facts
      × (p.mentions ≡ length p.facts)
      × (p.concerns ≡ length (filter is_concern p.facts))

  abbrev Spells : Text → Surface → Type 0
  Spells key s = topic_key u s.name ≡ key

  abbrev NonEmpty : List Surface → Type 0
  NonEmpty [] = Path Bool true false
  NonEmpty (s ∷ ss) = Unit {0}

  abbrev Keyed : Group → Type 0
  Keyed g = NonEmpty g.surfaces × All (Spells g.key) g.surfaces × All (Carries g.key) g.members

  count_surface-Spells :
      (key name : Text) (ss : List Surface)
      → topic_key u name ≡ key
      → All (Spells key) ss
      → All (Spells key) (count_surface name ss)
  count_surface-Spells key name [] e h = (e, tt)
  count_surface-Spells key name (s ∷ ss) e h = elim (Bool-cases (text_eq s.name name)) [
    | inl a ↦ rw a (h.0, h.1)
    | inr a ↦ elim (Bool-cases (text_le name s.name)) [
      | inl b ↦ rw (a, b) (e, h)
      | inr b ↦ rw (a, b) (h.0, count_surface-Spells key name ss e h.1)
    ]
  ]

  count_surface-NonEmpty : (name : Text) (ss : List Surface) → NonEmpty (count_surface name ss)
  count_surface-NonEmpty name [] = tt
  count_surface-NonEmpty name (s ∷ ss) = elim (Bool-cases (text_eq s.name name)) [
    | inl a ↦ rw a tt
    | inr a ↦ elim (Bool-cases (text_le name s.name)) [
      | inl b ↦ rw (a, b) tt
      | inr b ↦ rw (a, b) tt
    ]
  ]

  join_group-Keyed :
      (name : Text) (f : FactSummary) (gs : List Group)
      → Carries (topic_key u name) f
      → All Keyed gs
      → All Keyed (join_group (topic_key u name) name f gs)
  unfolding join_group
  join_group-Keyed name f [] c h = ((tt, (refl, tt), (c, tt)), tt)
  join_group-Keyed name f (g ∷ gs) c h = elim (Bool-cases (text_eq g.key (topic_key u name))) [
    | inl a ↦ rw a (grow (sym (text_eq-eq g.key (topic_key u name) a)), h.1)
    | inr a ↦ elim (Bool-cases (text_le (topic_key u name) g.key)) [
      | inl b ↦ rw (a, b) ((tt, (refl, tt), (c, tt)), h)
      | inr b ↦ rw (a, b) (h.0, join_group-Keyed name f gs c h.1)
    ]
  ]
    where
      grow : topic_key u name ≡ g.key → Keyed (grown name f g)
      grow e =
          let (m, (t, k, q)) = c in
          (
            count_surface-NonEmpty name g.surfaces,
            count_surface-Spells g.key name g.surfaces e h.0.1,
            All-append (Carries g.key) g.members (f ∷ []) h.0.2 ((m, (t, k, q ∙ e)), tt),
          )

  group_topics-Keyed :
      (f : FactSummary) (ts : List Text) (gs : List Group)
      → Member f facts
      → All (λ t. Member t f.topics) ts
      → All Keyed gs
      → All Keyed (Topics.group_topics u f ts gs)
  unfolding Topics.group_topics
  group_topics-Keyed f [] gs m k h = h
  group_topics-Keyed f (t ∷ ts) gs m k h = elim (Bool-cases (is_empty (topic_key u t))) [
    | inl e ↦ rw e (group_topics-Keyed f ts gs m k.1 h)
    | inr e ↦ rw e (
        group_topics-Keyed f ts (join_group (topic_key u t) t f gs) m k.1
          (join_group-Keyed t f gs (m, (t, k.0, refl)) h))
  ]

  All-self : {A : Type 0} (xs : List A) → All (λ x. Member x xs) xs
  All-self [] = tt
  All-self (x ∷ xs) = (inl refl, All-map (λ y m. inr m) xs (All-self xs))

  group_all-Keyed :
      (fs : List FactSummary) (gs : List Group)
      → All (λ f. Member f facts) fs
      → All Keyed gs
      → All Keyed (Topics.group_all u fs gs)
  unfolding Topics.group_all
  group_all-Keyed [] gs m h = h
  group_all-Keyed (f ∷ fs) gs m h =
      group_all-Keyed fs (Topics.group_topics u f f.topics gs) m.1
        (group_topics-Keyed f f.topics gs m.0 (All-self f.topics) h)

  better-Spells :
      (key : Text) (a b : Surface) → Spells key a → Spells key b → Spells key (better a b)
  better-Spells key a b e f =
      elim (Bool-cases (ltb a.count b.count || a.count == b.count && not (text_le a.name b.name))) [
        | inl c ↦ rw c f
        | inr c ↦ rw c e
      ]

  best-Spells :
      (key : Text) (s : Surface) (ss : List Surface)
      → Spells key s
      → All (Spells key) ss
      → Spells key (best s ss)
  best-Spells key s [] e h = e
  best-Spells key s (r ∷ ss) e h = best-Spells key (better s r) ss (better-Spells key s r e h.0) h.1

  page_name-Spells :
      (key : Text) (ss : List Surface)
      → NonEmpty ss
      → All (Spells key) ss
      → topic_key u (page_name ss) ≡ key
  page_name-Spells key [] n h = cc
  page_name-Spells key (s ∷ ss) n h = best-Spells key s ss h.0 h.1

  page_of-Tells : (seen_at : FactId → Option Time) (g : Group) → Keyed g → Tells (page_of seen_at g)
  unfolding page_of page distinct
  page_of-Tells seen_at g h =
      let order = newer_fact seen_at in
      let members =
        dedup_by-All same_id (Carries g.key) (sort_by by_id g.members)
          (sort_by-All by_id (Carries g.key) g.members h.2) in
      (
        rw (page_name-Spells g.key g.surfaces h.0 h.1)
            (sort_by-All order (Carries g.key) (distinct g.members) members),
        sym (sort_by-length order (distinct g.members)),
        sym (sort_by-count order is_concern (distinct g.members)),
      )

  pages-Tell :
      (seen_at : FactId → Option Time) (gs : List Group)
      → All Keyed gs
      → All Tells (map (page_of seen_at) gs)
  pages-Tell seen_at [] h = tt
  pages-Tell seen_at (g ∷ gs) h = (page_of-Tells seen_at g h.0, pages-Tell seen_at gs h.1)

  -- Each page holds given facts that carry its topic, in one spelling or another, and its counts of
  -- mentions and of concerns are those of the facts that it holds.
  pub topic_pages-Tell :
      (seen_at : FactId → Option Time) → All Tells (Topics.topic_pages u facts seen_at)
  unfolding Topics.topic_pages
  topic_pages-Tell seen_at =
      sort_by-All page_order Tells (map (page_of seen_at) (Topics.group_all u facts [])) (
        pages-Tell seen_at (Topics.group_all u facts [])
          (group_all-Keyed facts [] (All-self facts) tt))
