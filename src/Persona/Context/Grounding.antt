-- ===== src/Persona/Context/Grounding.antt =====
-- What grounds an answer: `select_context` of src-tauri/src/persona/context.rs.
use knows_me.Base.{
  ℕ, ◌≤◌, ◌≡◌, ◌≢◌, ◌↔◌, refl, sym, ap, ◌∙◌, subst, true, List, map, arith, ◌⊎◌, inl, inr, All,
  Member, Member-filter, filter-Member, filter, take, length, length-take,
}
use knows_me.Base.Texts.{Text, Unicode}
use knows_me.Base.Sort.{sort_by}
use knows_me.Base.Ranking.{
  Ordered, sort_by-Ordered, sort_by-Member, Member-sort_by, sort_by-Pairwise, take-All,
  take-Pairwise, take-Ordered, Ascending, Ordered-Weak, dedup_by, dedup_by-Ascending,
  dedup_by-Covers, Ascending-Member, Member-dedup_by, Ascending-unique, Ascending-Pairwise,
  Pairwise,
}
use knows_me.Domain.{Fact}
use knows_me.Persona.{ContextEntry, ContextSelection}
use knows_me.Persona.Context.{
  Ranked, ranked, in_scope, eligible, by_id, by_relevance, same_id, select_context,
}
use knows_me.Persona.Context.Orders.{
  key, by_id_total, by_id_trans, by_id-le, by_relevance_total, by_relevance_trans, by_relevance-le,
  map-Member, Member-map, entries_of-All, entries_of-Pairwise, entries_of-length, entries_of-Member,
  Ordered-Pairwise, All-of, both,
}

module _ (u : Unicode) (query : Text) (sel : ContextSelection) where
  abbrev candidates : List Fact → List Ranked
  candidates facts = map (ranked u query) (filter (eligible sel) facts)

  abbrev once : List Fact → List Ranked
  once facts = dedup_by same_id (sort_by by_id (candidates facts))

  abbrev chosen : List Fact → List Ranked
  chosen facts = take sel.max_facts (sort_by by_relevance (once facts))

  -- The entry of a confirmed fact of the list, in the wanted scope.
  abbrev pub Grounds : List Fact → ContextEntry → Type 0
  Grounds facts e =
      (f : Fact) × Member f facts
      × (f.metadata.confirmed ≡ true)
      × (in_scope sel.scope f ≡ true)
      × (e ≡ (ranked u query f).entry)

  candidate-Grounds :
      (facts : List Fact) (r : Ranked) → Member r (candidates facts) → Grounds facts r.entry
  candidate-Grounds facts r m =
      let (f, n, e) = Member-map (ranked u query) r (filter (eligible sel) facts) m in
      let (there, fits) = Member-filter (eligible sel) facts f n in
      (f, there, ground (arith, fits), ground (arith, fits), ap (λ x. x.entry) e)

  once-Member :
      (facts : List Fact) (r : Ranked) → Member r (once facts) → Member r (candidates facts)
  once-Member facts r m =
      Member-sort_by by_id r (candidates facts)
        (Member-dedup_by key r (sort_by by_id (candidates facts)) m)

  once-Ascending : (facts : List Fact) → Ascending key (once facts)
  once-Ascending facts = dedup_by-Ascending key (sort_by by_id (candidates facts)) (
      Ordered-Weak key by_id by_id-le (sort_by by_id (candidates facts))
        (sort_by-Ordered by_id by_id_total by_id_trans (candidates facts)))

  sorted-Ordered : (facts : List Fact) → Ordered by_relevance (sort_by by_relevance (once facts))
  sorted-Ordered facts =
      sort_by-Ordered by_relevance by_relevance_total by_relevance_trans (once facts)

  -- The context that grounds an answer: at most `max_facts` entries, each of a confirmed fact in the
  -- wanted scope, no two of the same fact, and none before one of higher relevance.
  pub select_context-Grounded :
      (facts : List Fact) (total : ℕ)
      → (length (select_context u facts query sel total).entries ≤ sel.max_facts)
        × All (Grounds facts) (select_context u facts query sel total).entries
        × Pairwise (λ a b. a.id ≢ b.id) (select_context u facts query sel total).entries
        × Pairwise
            (λ a b. b.relevance ≤ a.relevance)
            (select_context u facts query sel total).entries
  unfolding select_context
  select_context-Grounded facts total =
      let sorted = sort_by by_relevance (once facts) in
      (
        omega (arith, entries_of-length (chosen facts), length-take sel.max_facts sorted),
        entries_of-All (λ r. Grounds facts r.entry) (Grounds facts) (chosen facts) (λ r g. g)
            (take-All (λ r. Grounds facts r.entry) sel.max_facts sorted
              (All-of (λ r. Grounds facts r.entry) sorted
                (λ r m.
                  candidate-Grounds facts r
                    (once-Member facts r (Member-sort_by by_relevance r (once facts) m))))),
        entries_of-Pairwise (λ a b. key a ≢ key b) (λ a b. a.id ≢ b.id) (chosen facts) (λ r s d. d)
            (take-Pairwise (λ a b. key a ≢ key b) sel.max_facts sorted
              (sort_by-Pairwise (λ a b. key a ≢ key b) by_relevance (λ a b d e. d (sym e))
                (once facts) (Ascending-Pairwise key (once facts) (once-Ascending facts)))),
        entries_of-Pairwise (λ a b. by_relevance a b ≡ true) (λ a b. b.relevance ≤ a.relevance)
            (chosen facts) by_relevance-le
            (take-Pairwise (λ a b. by_relevance a b ≡ true) sel.max_facts sorted
              (Ordered-Pairwise by_relevance sorted (sorted-Ordered facts))),
      )

  abbrev relevance_of : Fact → ℕ
  relevance_of f = (ranked u query f).entry.relevance

  -- Every fact of the list with the identity of this one is this one, or of less relevance.
  abbrev pub Leads : List Fact → Fact → Type 0
  Leads facts f =
      (g : Fact) → Member g facts → g.id ≡ f.id → relevance_of f ≤ relevance_of g → g ≡ f

  -- No two different facts of the list have the same identity and the same relevance.
  abbrev pub Agree : List Fact → Type 0
  Agree facts =
      (f g : Fact)
      → Member f facts
      → Member g facts
      → f.id ≡ g.id
      → relevance_of f ≡ relevance_of g
      → f ≡ g

  by_id_refl : (r : Ranked) → by_id r r ≡ true
  by_id_refl r = ground (arith)

  by_id-relevance :
      (r s : Ranked) → by_id r s ≡ true → key r ≡ key s → s.entry.relevance ≤ r.entry.relevance
  by_id-relevance r s h e = ground (arith, h, e)

  -- A candidate has one of its identity, and of its relevance or more, among those that are kept.
  once-Covers :
      (facts : List Fact) (r : Ranked)
      → Member r (candidates facts)
      → (s : Ranked) × Member s (once facts)
        × (key s ≡ key r)
        × (r.entry.relevance ≤ s.entry.relevance)
  once-Covers facts r m =
      let sorted = sort_by by_id (candidates facts) in
      let (s, there, same, first) =
        dedup_by-Covers key by_id by_id_refl r sorted
          (sort_by-Ordered by_id by_id_total by_id_trans (candidates facts))
          (sort_by-Member by_id r (candidates facts) m) in
      (s, there, same, by_id-relevance s r first same)

  -- A candidate is that of a fact of the list that is eligible.
  candidate-fact :
      (facts : List Fact) (r : Ranked)
      → Member r (candidates facts)
      → (f : Fact) × Member f facts × (eligible sel f ≡ true) × (r ≡ ranked u query f)
  candidate-fact facts r m =
      let (f, n, e) = Member-map (ranked u query) r (filter (eligible sel) facts) m in
      let (there, fits) = Member-filter (eligible sel) facts f n in (f, there, fits, e)

  candidate-Member :
      (facts : List Fact) (f : Fact)
      → Member f facts
      → eligible sel f ≡ true
      → Member (ranked u query f) (candidates facts)
  candidate-Member facts f m e =
      map-Member (ranked u query) f (filter (eligible sel) facts)
        (filter-Member (eligible sel) facts f m e)

  eligible-once :
      (facts : List Fact) (f : Fact)
      → Leads facts f
      → Member f facts
      → eligible sel f ≡ true
      → Member (ranked u query f) (once facts)
  eligible-once facts f a m e =
      let (s, there, same, more) =
        once-Covers facts (ranked u query f) (candidate-Member facts f m e) in
      let (g, mg, eg, is) = candidate-fact facts s (once-Member facts s there) in
      let one : g ≡ f =
        a g mg (ap key (sym is) ∙ same) (subst (λ z. relevance_of f ≤ z.entry.relevance) is more) in
      subst (λ z. Member z (once facts)) (is ∙ ap (ranked u query) one) there

  -- A confirmed fact in the wanted scope, where the other given facts with its identity are of less
  -- relevance, is left out only of a full context whose entries all have its relevance or more.
  pub select_context-best :
      (facts : List Fact) (total : ℕ) (f : Fact)
      → Leads facts f
      → Member f facts
      → f.metadata.confirmed ≡ true
      → in_scope sel.scope f ≡ true
      → Member (ranked u query f).entry (select_context u facts query sel total).entries
        ⊎ ((length (select_context u facts query sel total).entries ≡ sel.max_facts)
            × All
                (λ e. (ranked u query f).entry.relevance ≤ e.relevance)
                (select_context u facts query sel total).entries)
  unfolding select_context
  select_context-best facts total f a m c s =
      let there =
        sort_by-Member by_relevance (ranked u query f) (once facts)
          (eligible-once facts f a m (both f.metadata.confirmed (in_scope sel.scope f) c s)) in
      elim (take-Ordered by_relevance sel.max_facts (sort_by by_relevance (once facts))
        (ranked u query f) (sorted-Ordered facts) there) [
          | inl kept ↦ inl (entries_of-Member (ranked u query f) (chosen facts) kept)
          | inr (full, before) ↦ inr (
            entries_of-length (chosen facts) ∙ full,
            entries_of-All (λ r. by_relevance r (ranked u query f) ≡ true)
                (λ e. (ranked u query f).entry.relevance ≤ e.relevance) (chosen facts)
                (λ r h. by_relevance-le r (ranked u query f) h) before,
          )
        ]

  candidates-same :
      (facts facts' : List Fact)
      → ((f : Fact) → Member f facts → Member f facts')
      → (r : Ranked) → Member r (candidates facts)
      → Member r (candidates facts')
  candidates-same facts facts' sub r m =
      let (f, there, fits, e) = candidate-fact facts r m in
      subst (λ x. Member x (candidates facts')) (sym e)
        (candidate-Member facts' f (sub f there) fits)

  candidate-same :
      (facts : List Fact) (r s : Ranked)
      → Agree facts
      → Member r (candidates facts)
      → Member s (candidates facts)
      → key r ≡ key s
      → r.entry.relevance ≡ s.entry.relevance
      → r ≡ s
  candidate-same facts r s a m n e same =
      let (f, mf, ff, ef) = candidate-fact facts r m in
      let (g, mg, fg, eg) = candidate-fact facts s n in
      let one : f ≡ g =
        a f g mf mg (ap key (sym ef) ∙ e ∙ ap key eg)
          (ap (λ x. x.entry.relevance) (sym ef) ∙ same ∙ ap (λ x. x.entry.relevance) eg) in
      ef ∙ ap (ranked u query) one ∙ sym eg

  once-same :
      (facts facts' all : List Fact)
      → Agree all
      → ((f : Fact) → Member f facts → Member f all)
      → ((f : Fact) → Member f facts → Member f facts')
      → ((f : Fact) → Member f facts' → Member f facts)
      → (r : Ranked) → Member r (once facts)
      → Member r (once facts')
  once-same facts facts' all a whole to back r m =
      let here = once-Member facts r m in
      let (s, there, same, more) = once-Covers facts' r (candidates-same facts facts' to r here) in
      let home = candidates-same facts' facts back s (once-Member facts' s there) in
      let (q, again, same', more') = once-Covers facts s home in
      let loop : q ≡ r =
        Ascending-Member key q r (once facts) (once-Ascending facts) again m (same' ∙ same) in
      let less : s.entry.relevance ≤ r.entry.relevance =
        subst (λ z. s.entry.relevance ≤ z.entry.relevance) loop more' in
      let one : s ≡ r =
        candidate-same all s r a (candidates-same facts all whole s home)
          (candidates-same facts all whole r here) same (omega (arith, less, more)) in
      subst (λ z. Member z (once facts')) one there

  -- Where no two different facts of a list have the same identity and the same relevance, the context
  -- does not depend on the order of the list, nor on how often each fact occurs in it.
  pub select_context-order :
      (facts facts' : List Fact) (total : ℕ)
      → Agree facts
      → ((f : Fact) → Member f facts ↔ Member f facts')
      → select_context u facts query sel total ≡ select_context u facts' query sel total
  unfolding select_context
  select_context-order facts facts' total a same =
      let to : (f : Fact) → Member f facts → Member f facts' = λ f. (same f).0 in
      let back : (f : Fact) → Member f facts' → Member f facts = λ f. (same f).1 in
      let one : once facts ≡ once facts' =
        Ascending-unique key (once facts) (once facts') (once-Ascending facts)
          (once-Ascending facts') (once-same facts facts' facts a (λ f m. m) to back)
          (once-same facts' facts facts a back back to) in
      rw one refl
