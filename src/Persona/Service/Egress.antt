-- ===== src/Persona/Service/Egress.antt =====
-- What leaves the device: the calls of the language model by src-tauri/src/persona/service.rs.
use knows_me.Base.{
  ℕ, ◌≤◌, ◌≡◌, ◌≢◌, refl, sym, ap, ◌∙◌, subst, Bool, true, false, ◌||◌, Option, List, [], ◌∷◌, ◌++◌,
  ◌⊎◌, inl, inr, All, All-map, Member, ltb, length, Bool-cases,
}
use knows_me.Base.Texts.{Text, Unicode, trim}
use knows_me.Base.Lines.{is_empty}
use knows_me.Base.Ranking.{Pairwise}
use knows_me.Base.Results.{AppError, Result, ok, err, invalid_input, Result-cases}
use knows_me.Io.{Io, pure, ◌>>=◌, bind-ok}
use knows_me.Domain.{Fact, FactId, FactSummary, Time}
use knows_me.Processing.Service.{Masker}
use knows_me.Persona.{
  ChatTurn, FactRef, DraftKind, ContextEntry, PersonaContext, ContextSelection, max_prompt_chars,
  no_context_reply,
}
use knows_me.Persona.Context.{select_context, render_prompt, ranked, in_scope}
use knows_me.Persona.Context.Grounding.{select_context-Grounded}
use knows_me.Persona.Service as Service
use knows_me.Persona.Service.{KnowledgeReader, Chat, Talk, refs_of, intent_of}

module _ (number : ℕ → Text) (day : Time → Text) (u : Unicode) (m : Masker) {K : Type 0}
    (R : KnowledgeReader K) (llm : Chat) (sel : ContextSelection) (fetch_cap : ℕ) where
  abbrev pub State : Type 0
  State = Talk K

  abbrev pub asked : Text → Option DraftKind → List ChatTurn → Io State (Text × List FactRef)
  asked = Service.ground_and_ask number day u m R llm sel fetch_cap

  abbrev pub context : Text → Option DraftKind → List ChatTurn → Io K PersonaContext
  context input kind history =
      Service.context_for number day u m R llm sel fetch_cap (intent_of u kind input) input history

  abbrev pub refused : Text → Bool
  refused input = is_empty (trim input) || ltb max_prompt_chars (length input)

  abbrev pub settled :
      m.UnmaskMap → List FactRef → Result AppError Text → Result AppError (Text × List FactRef)
  settled map sources (ok raw) = ok (m.unmask raw map, sources)
  settled map sources (err e) = err e

  -- The document of a prompt, masked.
  abbrev pub masked : Text → Option DraftKind → List ChatTurn → PersonaContext → Text × m.UnmaskMap
  masked input kind history ctx = m.mask (render_prompt ctx input kind history).user_document

  abbrev pub message : Text → Option DraftKind → List ChatTurn → PersonaContext → Text × Text
  message input kind history ctx =
      ((render_prompt ctx input kind history).system, (masked input kind history ctx).0)

  -- The state after knowledge was asked for the context.
  abbrev pub grounded : Text → Option DraftKind → List ChatTurn → State → State
  grounded input kind history s = record s {
    knowledge = (context input kind history s.knowledge).1;
  }

  -- The four ways in which a question ends.
  abbrev pub Outcome :
      Text
      → Option DraftKind
      → List ChatTurn
      → State
      → Result AppError (Text × List FactRef) × State
      → Type 0
  Outcome input kind history s r =
      ((refused input ≡ true) × (r ≡ (err invalid_input, s)))
      ⊎ ((e : AppError) × ((context input kind history s.knowledge).0 ≡ err e)
          × (r ≡ (err e, grounded input kind history s)))
      ⊎ ((ctx : PersonaContext) × ((context input kind history s.knowledge).0 ≡ ok ctx)
          × (ctx.entries ≡ [])
          × (r ≡ (ok (no_context_reply, []), grounded input kind history s)))
      ⊎ ((ctx : PersonaContext) × ((context input kind history s.knowledge).0 ≡ ok ctx)
          × (ctx.entries ≢ [])
          × (r.0
              ≡ settled (masked input kind history ctx).1 (refs_of ctx.entries) (
                  llm s.sent (message input kind history ctx).0 (message input kind history ctx).1))
          × (r.1 ≡ record (grounded input kind history s) {
            sent = s.sent ++ (message input kind history ctx ∷ []);
          }))

  converse-Outcome :
      (input : Text) (kind : Option DraftKind) (history : List ChatTurn) (ctx : PersonaContext)
      (s : State)
      → ((Service.converse number day u m R llm sel fetch_cap input kind history ctx s).0
          ≡ settled
              (masked input kind history ctx).1
              (refs_of ctx.entries)
              (llm s.sent (message input kind history ctx).0 (message input kind history ctx).1))
        × ((Service.converse number day u m R llm sel fetch_cap input kind history ctx s).1
            ≡ record s { sent = s.sent ++ (message input kind history ctx ∷ []) })
  unfolding Service.converse Service.ask
  converse-Outcome input kind history ctx s =
      elim (Result-cases
        (llm s.sent (message input kind history ctx).0 (message input kind history ctx).1)) [
          | inl (a, e) ↦ rw e (refl, refl)
          | inr (x, e) ↦ rw e (refl, refl)
        ]

  answer-Outcome :
      (input : Text) (kind : Option DraftKind) (history : List ChatTurn) (ctx : PersonaContext)
      (s : State)
      → (es : List ContextEntry) → ctx.entries ≡ es
      → ((es ≡ [])
          × (Service.answer number day u m R llm sel fetch_cap input kind history ctx es s
              ≡ (ok (no_context_reply, []), s)))
        ⊎ ((es ≢ [])
            × (Service.answer number day u m R llm sel fetch_cap input kind history ctx es s
                ≡ Service.converse number day u m R llm sel fetch_cap input kind history ctx s))
  answer-Outcome input kind history ctx s [] e = inl (refl, refl)
  answer-Outcome input kind history ctx s (x ∷ es) e = inr (λ h. absurd (cc h), refl)

  accepted :
      (input : Text) (kind : Option DraftKind) (history : List ChatTurn) (s : State)
      → refused input ≡ false
      → asked input kind history s
        ≡ (Service.on_knowledge number day u m R llm sel fetch_cap (context input kind history)
              >>= λ ctx.
                  Service.answer number day u m R llm sel fetch_cap input kind history ctx
                    ctx.entries)
            s
  unfolding Service.ground_and_ask
  accepted input kind history s h = elim (Bool-cases (is_empty (trim input))) [
    | inl e ↦ absurd (let k = rw e at h in cc k)
    | inr e ↦ rw (e, (let k = rw e at h in k)) refl
  ]

  rejected :
      (input : Text) (kind : Option DraftKind) (history : List ChatTurn) (s : State)
      → refused input ≡ true
      → asked input kind history s ≡ (err invalid_input, s)
  unfolding Service.ground_and_ask
  rejected input kind history s h = elim (Bool-cases (is_empty (trim input))) [
    | inl e ↦ rw e refl
    | inr e ↦ rw (e, (let k = rw e at h in k)) refl
  ]

  -- A question that is blank or too long is refused, and nothing happens. Otherwise knowledge is asked
  -- for the context: if that fails, or gives nothing, no text is sent to the model. If it gives entries,
  -- one pair of texts is sent, the instructions and the masked document; the answer is the model's, with
  -- the identifiers put back, beside the facts of the context.
  pub ground_and_ask-Outcome :
      (input : Text) (kind : Option DraftKind) (history : List ChatTurn) (s : State)
      → Outcome input kind history s (asked input kind history s)
  ground_and_ask-Outcome input kind history s = elim (Bool-cases (refused input)) [
    | inl h ↦ inl (h, rejected input kind history s h)
    | inr h ↦
        subst (Outcome input kind history s) (sym (accepted input kind history s h))
          (elim (Result-cases (context input kind history s.knowledge).0) [
            | inr (e, bad) ↦ inr (inl (e, bad, rw bad refl))
            | inl (ctx, good) ↦
                elim (answer-Outcome input kind history ctx (grounded input kind history s)
                  ctx.entries refl) [
                    | inl (empty, same) ↦ inr (inr (inl (ctx, good, empty, rw good same)))
                    | inr (entries, same) ↦
                        let (result, state) =
                          converse-Outcome input kind history ctx (grounded input kind history s) in
                        inr (
                          inr (
                            inr (
                              ctx,
                              good,
                              entries,
                              rw good (ap (λ r. r.0) same ∙ result),
                              rw good (ap (λ r. r.1) same ∙ state),
                            )))
                  ]
          ])
  ]

  -- A fact that knowledge gave when it was asked for one.
  abbrev pub Read : Fact → Type 0
  Read f = (id : FactId) × (k : K) × ((R.get id k).0 ≡ ok f)

  fetch-Read :
      (ss : List FactSummary) (k : K) (fs : List Fact)
      → (Service.fetch number day u m R llm sel fetch_cap ss k).0 ≡ ok fs
      → (f : Fact) → Member f fs
      → Read f
  unfolding Service.fetch
  fetch-Read [] k fs h f x = let same : [] ≡ fs = cc h in absurd (subst (Member f) (sym same) x)
  fetch-Read (s ∷ ss) k fs h f x =
      elim (Result-cases (Service.fetch number day u m R llm sel fetch_cap ss (R.get s.id k).1).0) [
        | inr (e, bad) ↦ absurd (let g = rw bad at h in cc g)
        | inl (rest, good) ↦
            let g = rw good at h in
            pick (R.get s.id k).0 refl rest (fetch-Read ss (R.get s.id k).1 rest good f) g
      ]
    where
      pick :
          (r : Result AppError Fact)
          → (R.get s.id k).0 ≡ r
          → (rest : List Fact) → (Member f rest → Read f)
          → ◌≡◌ {A = Result AppError (List Fact)} (ok (Service.with_fact r rest)) (ok fs)
          → Read f
      pick (err e) is rest below same =
          let eq : rest ≡ fs = cc same in below (subst (Member f) (sym eq) x)
      pick (ok a) is rest below same =
          let eq : a ∷ rest ≡ fs = cc same in
          elim (subst (Member f) (sym eq) x) [
            | inl here ↦ (s.id, k, is ∙ ap ok (sym here))
            | inr later ↦ below later
          ]

  -- The context of a question is at most as large as the policy allows, and each of its entries is of a
  -- confirmed fact in the wanted scope that was read from knowledge, no two of the same fact.
  pub build_context-Grounded :
      (prompt : Text) (k : K) (ctx : PersonaContext)
      → (Service.build_context number day u m R llm sel fetch_cap prompt k).0 ≡ ok ctx
      → (length ctx.entries ≤ sel.max_facts)
        × All
            (λ e.
              (f : Fact) × Read f
              × (f.metadata.confirmed ≡ true)
              × (in_scope sel.scope f ≡ true)
              × (e ≡ (ranked u prompt f).entry))
            ctx.entries
        × Pairwise (λ a b. a.id ≢ b.id) ctx.entries
  unfolding Service.build_context
  build_context-Grounded prompt k ctx h =
      let (hits, found, go1) =
        bind-ok (R.search prompt sel.scope)
          (λ hs. R.search [] sel.scope >>= λ ps.
            Service.fetch number day u m R llm sel fetch_cap (listed hs ps) >>= λ fs.
            pure (chosen fs ps))
          k ctx h in
      let k1 = (R.search prompt sel.scope k).1 in
      let (every, found', go2) =
        bind-ok (R.search [] sel.scope)
          (λ ps. Service.fetch number day u m R llm sel fetch_cap (listed hits ps) >>= λ fs.
            pure (chosen fs ps))
          k1 ctx (ap (λ r. r.0) (sym go1) ∙ h) in
      let k2 = (R.search [] sel.scope k1).1 in
      let (facts, fetched, go3) =
        bind-ok (Service.fetch number day u m R llm sel fetch_cap (listed hits every))
          (λ fs. pure (chosen fs every)) k2 ctx (ap (λ r. r.0) (sym (go1 ∙ go2)) ∙ h) in
      let is : chosen facts every ≡ ctx =
        let g = ap (λ r. r.0) (sym (go1 ∙ go2 ∙ go3)) ∙ h in cc g in
      let (small, grounds, apart, order) =
        select_context-Grounded u prompt sel facts (length (Service.confirmed_only every)) in
      subst
        (λ c.
          (length c.entries ≤ sel.max_facts)
          × All
              (λ e.
                (f : Fact) × Read f
                × (f.metadata.confirmed ≡ true)
                × (in_scope sel.scope f ≡ true)
                × (e ≡ (ranked u prompt f).entry))
              c.entries
          × Pairwise (λ a b. a.id ≢ b.id) c.entries)
        is
        (
          small,
          All-map
              (λ e g.
                let (f, there, sure, fits, same) = g in
                (f, fetch-Read (listed hits every) k2 facts fetched f there, sure, fits, same))
              (chosen facts every).entries grounds,
          apart,
        )
    where
      listed : List FactSummary → List FactSummary → List FactSummary
      listed hs ps = Service.shortlist number day u m R llm sel fetch_cap prompt (
          Service.widened number day u m R llm sel fetch_cap (Service.confirmed_only hs)
            (Service.confirmed_only ps))

      chosen : List Fact → List FactSummary → PersonaContext
      chosen fs ps = select_context u fs prompt sel (length (Service.confirmed_only ps))
