-- ===== src/Interview/Service/Answers.antt =====
-- What the queue of src-tauri/src/interview/service.rs shows, and what an answer does to it.
use knows_me.Base.{
  ℕ, ◌≤◌, ◌<◌, ◌≡◌, refl, sym, ap, subst, ◌∙◌, Bool, true, false, not, ◌||◌, ◌&&◌, Option, none,
  some, List, [], ◌∷◌, arith, leb, ltb, any, Member, Member-filter, filter-Member, filter,
  filter-All, All, All-map, if◌then◌else◌, Bool-cases, Option-cases, inl, inr, ◌⊎◌,
}
use knows_me.Base.Texts.{Text, text_eq, text_eq_refl, Unicode}
use knows_me.Base.Results.{ok, err, invalid_input, Result-cases}
use knows_me.Io.{Io, pure, ◌>>=◌, ◌>>◌, bind-ok}
use knows_me.Domain.{FactId, Time, QueueItem, QueueItemId, QueueSort, AnswerInput, AnswerResult}
use knows_me.Storage.{Store, StoreLaws, Codec}
use knows_me.Storage.Documents as Documents
use knows_me.Interview.Queue.{queue_ns, is_expired, is_near_duplicate, sort_queue}
use knows_me.Interview.Queue.Orders.{Shown, sort_queue-Shown, sort_queue-All}
use knows_me.Interview.Intake.{Assistant}
use knows_me.Interview.Service.{
  Upserts, Interview, list, load_queue, remove, remove_all, enqueue_final, duplicates, loses,
  best_of, settle, get_item, answer, answer_found, answer_item, on_queue, is_skip, blank_answer,
}

All-self : {A : Type 0} (P : A → Type 0) (xs : List A) → ((x : A) → Member x xs → P x) → All P xs
All-self P [] h = tt
All-self P (x ∷ xs) h = (h x (inl refl), All-self P xs (λ y m. h y (inr m)))

best_of-none : (dups : List QueueItem) → best_of dups ≡ none → dups ≡ []
unfolding best_of
best_of-none [] h = refl
best_of-none (d ∷ ds) h = cc

-- The best of some items is one of them, of the highest priority.
best_of-Member :
    (dups : List QueueItem) (best : QueueItem)
    → best_of dups ≡ some best
    → Member best dups × All (λ d. d.priority ≤ best.priority) dups
unfolding best_of
best_of-Member [] best h = cc
best_of-Member (d ∷ ds) best h = elim (Option-cases (best_of ds)) [
  | inl e ↦
      let k = rw e at h in
      let none_left = best_of-none ds e in
      subst tops (cc k) (inl refl, (omega arith, subst (All _) (sym none_left) tt))
  | inr (b, e) ↦
      let (there, most) = best_of-Member ds b e in
      let k = rw e at h in
      elim (Bool-cases (ltb b.priority d.priority)) [
        | inl l ↦
            subst tops (let m = rw l at k in cc m)
              (inl refl, (omega arith, All-map (λ x y. ground (arith, l, y)) ds most))
        | inr l ↦ subst tops (let m = rw l at k in cc m) (inr there, (ground (arith, l), most))
      ]
]
  where
    tops : QueueItem → Type 0
    tops z = Member z (d ∷ ds) × All (λ x. x.priority ≤ z.priority) (d ∷ ds)

module _ (u : Unicode) (S : Store) (items : Codec QueueItem) (id_text : QueueItemId → Text) where
  -- The list of the queue is in the order asked for and holds no expired item.
  pub list-Shown :
      (sort : QueueSort) (now : Time) (s : S.State) (shown : List QueueItem)
      → (list u S items id_text sort now s).0 ≡ ok shown
      → Shown sort shown × All (λ i. is_expired i now ≡ false) shown
  unfolding list
  list-Shown sort now s shown h =
      let (existing, got, rest) =
        bind-ok (load_queue u S items id_text)
          (λ es. pure (sort_queue sort (filter (λ i. not (is_expired i now)) es))) s shown h in
      let alive = filter (λ i. not (is_expired i now)) existing in
      let e : sort_queue sort alive ≡ shown = let k = ap (λ p. p.0) (sym rest) ∙ h in cc in
      rw (← e) (
        sort_queue-Shown sort alive,
        sort_queue-All sort _ alive
            (All-map (λ i k. ground (arith, k)) alive (filter-All _ existing)),
      )

  module _ (L : StoreLaws S) where
    -- The item that a reader finds in the queue.
    abbrev pub item_at : S.State → QueueItemId → Option QueueItem
    item_at s id = Documents.document S items queue_ns L s (id_text id)

    abbrev here : List QueueItem → QueueItemId → Bool
    here dups j = any (λ d. text_eq (id_text d.id) (id_text j)) dups

    -- What a reader finds once the items are removed.
    remove_all-writes :
        (dups : List QueueItem) (s : S.State)
        → (remove_all u S items id_text dups s).0 ≡ ok tt
        → (j : QueueItemId)
        → item_at (remove_all u S items id_text dups s).1 j
          ≡ (if here dups j then none else item_at s j)
    unfolding remove_all remove
    remove_all-writes [] s h j = refl
    remove_all-writes (d ∷ ds) s h j =
        let s1 = (Documents.delete S items queue_ns (id_text d.id) s).1 in
        let (x, gone, rest) =
          bind-ok (Documents.delete S items queue_ns (id_text d.id))
            (λ _. remove_all u S items id_text ds) s tt h in
        let later = remove_all-writes ds s1 (ap (λ p. p.0) (sym rest) ∙ h) j in
        let first = Documents.delete_removes S items queue_ns L (id_text d.id) s gone (id_text j) in
        ap (λ p. item_at p.1 j) rest ∙ later ∙ (elim (Bool-cases (here ds j)) [
          | inl a ↦ elim (Bool-cases (text_eq (id_text d.id) (id_text j))) [
            | inl e ↦ rw (a, e) refl
            | inr e ↦ rw (a, e) refl
          ]
          | inr a ↦ elim (Bool-cases (text_eq (id_text d.id) (id_text j))) [
            | inl e ↦ rw (a, e) (rw e at first)
            | inr e ↦ rw (a, e) (rw e at first)
          ]
        ])

    -- The queue after an item took the place of its duplicates.
    abbrev pub Replaced : QueueItem → List QueueItem → S.State → S.State → Type 0
    Replaced item dups s s' =
        (j : QueueItemId)
        → item_at s' j ≡ (
            if text_eq (id_text item.id) (id_text j)
            then some item
            else if here dups j
            then none
            else item_at s j)

    settle-Replaced :
        (item : QueueItem) (dups : List QueueItem) (s : S.State) (id : QueueItemId)
        → (settle u S items id_text item dups none s).0 ≡ ok id
        → (id ≡ item.id) × Replaced item dups s (settle u S items id_text item dups none s).1
    unfolding settle
    settle-Replaced item dups s id h =
        let (x, got, rest) =
          bind-ok
            (remove_all u S items id_text dups
              >> Documents.put S items queue_ns (id_text item.id) item)
            (λ _. pure item.id) s id h in
        let (y, gone, put) =
          bind-ok (remove_all u S items id_text dups)
            (λ _. Documents.put S items queue_ns (id_text item.id) item) s tt got in
        let s1 = (remove_all u S items id_text dups s).1 in
        let same : item.id ≡ id = let k = ap (λ p. p.0) (sym rest) ∙ h in cc in
        (
          sym same,
          λ j.
              ap (λ p. item_at p.1 j) (rest ∙ ap (λ p. (ok item.id, p.1)) put)
              ∙ Documents.put_writes S items queue_ns L (id_text item.id) item s1
                  (ap (λ p. p.0) (sym put) ∙ got) (id_text j)
              ∙ ap (λ o. if text_eq (id_text item.id) (id_text j) then some item else o)
                  (remove_all-writes dups s gone j),
        )

    get_item-state :
        (id : QueueItemId) (s : S.State)
        → (get_item u S items id_text id s).1 ≡ (Documents.get S items queue_ns (id_text id) s).1
    unfolding get_item
    get_item-state id s = elim (Result-cases (Documents.get S items queue_ns (id_text id) s).0) [
      | inl (o, e) ↦ rw e refl
      | inr (x, e) ↦ rw e refl
    ]

    get_item_keeps :
        (id : QueueItemId) (s : S.State) (j : QueueItemId)
        → item_at (get_item u S items id_text id s).1 j ≡ item_at s j
    get_item_keeps id s j = rw (get_item-state id s) (
        ap (Documents.decoded S items queue_ns L)
          (Documents.get_keeps S items queue_ns L (id_text id) s queue_ns (id_text j)))

    load_queue_keeps :
        (s : S.State) (j : QueueItemId) → item_at (load_queue u S items id_text s).1 j ≡ item_at s j
    unfolding load_queue
    load_queue_keeps s j =
        ap (Documents.decoded S items queue_ns L)
          (Documents.load_all_keeps S items queue_ns L s queue_ns (id_text j))

    -- The item is alive and asks nearly the same.
    abbrev Rival : QueueItem → Time → QueueItem → Type 0
    Rival item now d = (is_expired d now ≡ false) × (is_near_duplicate u d.kind item.kind ≡ true)

    -- The rivals are live near duplicates that are in the queue, and every other item of it is expired
    -- or no near duplicate.
    abbrev pub Rivals : QueueItem → Time → List QueueItem → List QueueItem → Type 0
    Rivals item now existing dups =
        All (λ d. Member d existing × Rival item now d) dups
        × All
            (λ e.
              Member e dups
              ⊎ ((is_expired e now ≡ true) ⊎ (is_near_duplicate u e.kind item.kind ≡ false)))
            existing

    abbrev rival : QueueItem → Time → QueueItem → Bool
    rival item now e = not (is_expired e now) && is_near_duplicate u e.kind item.kind

    abbrev RivalHere : QueueItem → Time → List QueueItem → QueueItem → Type 0
    RivalHere item now existing d = Member d existing × Rival item now d

    abbrev SortedOut : QueueItem → Time → List QueueItem → QueueItem → Type 0
    SortedOut item now existing e =
        Member e (filter (rival item now) existing)
        ⊎ ((is_expired e now ≡ true) ⊎ (is_near_duplicate u e.kind item.kind ≡ false))

    duplicates-Rivals :
        (item : QueueItem) (now : Time) (existing : List QueueItem)
        → Rivals item now existing (duplicates u S items id_text item now existing)
    unfolding duplicates
    duplicates-Rivals item now existing = (
      All-self (RivalHere item now existing) (filter (rival item now) existing) (λ d m.
          let (there, fits) = Member-filter (rival item now) existing d m in
          (there, (ground (arith, fits), ground (arith, fits)))),
      All-self (SortedOut item now existing) existing (λ e m. elim (Bool-cases (rival item now e)) [
        | inl hit ↦ inl (filter-Member (rival item now) existing e m hit)
        | inr miss ↦ inr (elim (Bool-cases (is_expired e now)) [
          | inl gone ↦ inl gone
          | inr live ↦ inr (ground (arith, miss, live))
        ])
      ]),
    )

    -- The outcomes of putting a question in the queue where it has the rivals.
    abbrev pub Settled : QueueItem → List QueueItem → S.State → S.State → QueueItemId → Type 0
    Settled item dups s s' id =
        ((best : QueueItem) × Member best dups
          × All (λ d. d.priority ≤ best.priority) dups
          × (item.priority ≤ best.priority)
          × (id ≡ best.id)
          × ((j : QueueItemId) → item_at s' j ≡ item_at s j))
        ⊎ (All (λ d. d.priority < item.priority) dups × (id ≡ item.id) × Replaced item dups s s')

    settled :
        (item : QueueItem) (s : S.State) (id : QueueItemId) (dups : List QueueItem) (s1 : S.State)
        → ((j : QueueItemId) → item_at s1 j ≡ item_at s j)
        → (settle u S items id_text item dups (loses item (best_of dups)) s1).0 ≡ ok id
        → Settled item dups s
            (settle u S items id_text item dups (loses item (best_of dups)) s1).1
            id
    unfolding settle
    settled item s id dups s1 keeps h = elim (Option-cases (best_of dups)) [
      | inl b ↦
          let (same, wrote) = settle-Replaced item dups s1 id (rw b at h) in
          rw b (inr (rw (best_of-none dups b) tt, same, λ j. wrote j ∙ kept_before dups j))
      | inr (best, b) ↦
          let (there, most) = best_of-Member dups best b in
          elim (Bool-cases (leb item.priority best.priority)) [
            | inl l ↦
                let same : best.id ≡ id = let k = rw (b, l) at h in cc k in
                rw (b, l) (inl (best, there, most, ground (arith, l), sym same, keeps))
            | inr l ↦
                let (same, wrote) = settle-Replaced item dups s1 id (rw (b, l) at h) in
                rw (b, l)
                  (inr (
                    All-map (λ d k. ground (arith, l, k)) dups most,
                    same,
                    λ j. wrote j ∙ kept_before dups j,
                  ))
          ]
    ]
      where
        kept_before :
            (dups : List QueueItem) (j : QueueItemId)
            → (if text_eq (id_text item.id) (id_text j)
                then some item
                else if here dups j
                then none
                else item_at s1 j)
              ≡ (if text_eq (id_text item.id) (id_text j)
                  then some item
                  else if here dups j
                  then none
                  else item_at s j)
        kept_before dups j = rw (keeps j) refl

    -- Putting a question in the queue, when it succeeds, has one of two outcomes. If a live near
    -- duplicate in the queue is of equal or higher priority, the identity of one of the highest priority
    -- is the answer and nothing changes. Else all of them are of lower priority and leave the queue, the
    -- question itself is then in it, and the other items are as before.
    pub enqueue_final-Settled :
        (item : QueueItem) (now : Time) (s : S.State) (id : QueueItemId)
        → (enqueue_final u S items id_text item now s).0 ≡ ok id
        → (existing : List QueueItem) × (dups : List QueueItem) × ((load_queue u S items id_text
              s).0
            ≡ ok existing)
          × Rivals item now existing dups
          × Settled item dups s (enqueue_final u S items id_text item now s).1 id
    unfolding enqueue_final
    enqueue_final-Settled item now s id h =
        let (existing, got, rest) =
          bind-ok (load_queue u S items id_text)
            (λ es.
              settle u S items id_text item (duplicates u S items id_text item now es)
                (loses item (best_of (duplicates u S items id_text item now es))))
            s id h in
        (
          existing,
          duplicates u S items id_text item now existing,
          got,
          duplicates-Rivals item now existing,
          rw rest (
              settled item s id (duplicates u S items id_text item now existing)
                (load_queue u S items id_text s).1 (load_queue_keeps s)
                (ap (λ p. p.0) (sym rest) ∙ h)),
        )

    module _ {K : Type 0} (api : Upserts K) (assistant : Assistant) where
      -- Skipping a question gives no fact and no follow-up, and a blank answer is refused; neither
      -- changes the queue or the knowledge.
      pub answer_withheld :
          (fact_id : FactId) (new_id : ℕ → QueueItemId) (now : Time) (id : QueueItemId)
          (input : AnswerInput) (s : Interview S.State K) (item : QueueItem)
          → (get_item u S items id_text id s.queue).0 ≡ ok item
          → (is_skip input || blank_answer input) ≡ true
          → ((answer u S items id_text api assistant fact_id new_id now id input s).0 ≡ (
              if is_skip input
              then ok (record { confirmed_fact = none; follow_ups = [] })
              else err invalid_input))
            × ((answer u S items id_text api assistant fact_id new_id now id input s).1.knowledge
                ≡ s.knowledge)
            × ((j : QueueItemId)
                → item_at
                    (answer u S items id_text api assistant fact_id new_id now id input s).1.queue
                    j
                  ≡ item_at s.queue j)
      unfolding answer answer_found
      answer_withheld fact_id new_id now id input s item found h =
          elim (Bool-cases (is_skip input)) [
            | inl e ↦ rw (found, e) (refl, refl, get_item_keeps id s.queue)
            | inr e ↦
                let b : blank_answer input ≡ true = rw e at h in
                rw (found, e, b) (refl, refl, get_item_keeps id s.queue)
          ]

      abbrev finish :
          FactId
          → (ℕ → QueueItemId)
          → Time
          → QueueItemId
          → AnswerInput
          → QueueItem
          → Io (Interview S.State K) AnswerResult
      finish fact_id new_id now id input item =
          answer_item u S items id_text api assistant fact_id new_id now item.kind input >>= λ a.
          on_queue u S items id_text api assistant (remove u S items id_text id) >>= λ _. pure a

      finished :
          (fact_id : FactId) (new_id : ℕ → QueueItemId) (now : Time) (id : QueueItemId)
          (input : AnswerInput) (s : Interview S.State K) (item : QueueItem) (r : AnswerResult)
          → (finish fact_id new_id now id input item s).0 ≡ ok r
          → item_at (finish fact_id new_id now id input item s).1.queue id ≡ none
      unfolding remove
      finished fact_id new_id now id input s item r h =
          let (a, got, rest) =
            bind-ok (answer_item u S items id_text api assistant fact_id new_id now item.kind input)
              (λ a. on_queue u S items id_text api assistant (remove u S items id_text id) >>= λ _.
                pure a)
              s r h in
          let s1 =
            (answer_item u S items id_text api assistant fact_id new_id now item.kind input s).1 in
          let (x, gone, last) =
            bind-ok (on_queue u S items id_text api assistant (remove u S items id_text id))
              (λ _. pure a) s1 r (ap (λ p. p.0) (sym rest) ∙ h) in
          rw (rest, last)
            (Documents.delete_removes S items queue_ns L (id_text id) s1.queue gone (id_text id)
              ∙ rw (text_eq_refl (id_text id)) refl)

      -- An answer that is accepted, and is not a skip, takes its item out of the queue.
      pub answer-removes :
          (fact_id : FactId) (new_id : ℕ → QueueItemId) (now : Time) (id : QueueItemId)
          (input : AnswerInput) (s : Interview S.State K) (r : AnswerResult)
          → is_skip input ≡ false
          → (answer u S items id_text api assistant fact_id new_id now id input s).0 ≡ ok r
          → item_at
              (answer u S items id_text api assistant fact_id new_id now id input s).1.queue
              id
            ≡ none
      unfolding answer answer_found
      answer-removes fact_id new_id now id input s r e h =
          elim (Result-cases (get_item u S items id_text id s.queue).0) [
            | inr (x, g) ↦ let k = rw g at h in cc k
            | inl (item, g) ↦ elim (Bool-cases (blank_answer input)) [
              | inl b ↦ let k = rw (g, e, b) at h in cc k
              | inr b ↦
                  let s1 : Interview S.State K = record s {
                    queue = (get_item u S items id_text id s.queue).1;
                  } in
                  rw (g, e, b) (finished fact_id new_id now id input s1 item r (rw (g, e, b) at h))
            ]
          ]
