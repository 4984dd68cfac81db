-- ===== src/Sharing/Mcp/Answers.antt =====
-- What the tools of src-tauri/src/sharing/mcp.rs answer, and which requests reach them.
use knows_me.Base.{
  ℕ, suc, ◌≤◌, ◌≡◌, refl, sym, ap, ◌∙◌, append_assoc, append-nil, subst, Bool, Option, none, some,
  List, [], ◌∷◌, ◌++◌, map, take, length, length-take, arith, ◌⊎◌, inl, inr, All, Bool-cases,
  Option-cases, ltb,
}
use knows_me.Base.Sort.{sort_by}
use knows_me.Base.Texts.{Text, codes, Unicode}
use knows_me.Base.Results.{
  AppError, Result, ok, err, locked, not_found, invalid_input, crypto, io, external, serde,
  Result-cases,
}
use knows_me.Domain.{Fact, FactId, FactSummary}
use knows_me.Storage.{Store, Bytes, Codec}
use knows_me.Sharing.{Token}
use knows_me.Sharing.Envelope.{envelope, sanitize_field}
use knows_me.Sharing.Knowledge as Knowledge
use knows_me.Sharing.Knowledge.{Reads, may_read, page_of, summary_le, to_access_error}
use knows_me.Sharing.Knowledge.Reading.{
  Allowed, kept, readable, readable-Allowed, answers, ids_of, Found, search_visible-Found,
}
use knows_me.Sharing.Tokens.{TokenRecord}
use knows_me.Sharing.Mcp.{
  Json, null, natural, get, as_str, SearchOut, LinkOut, PageOut, ToolOutput, search_out, page_out,
  ToolError, search_hit, Headers, resolve_identity,
}
use knows_me.Sharing.Mcp.Serving.{Admitted, resolve_identity-Admitted}
use knows_me.Sharing.Mcp.Tools as Tools
use knows_me.Sharing.Mcp.Tools.{limit_of, is_bad_query}
use knows_me.Sharing.Mcp.Server as Server
use knows_me.Sharing.Mcp.Server.{RpcRequest, Response, Served, auth_rejection}

limit_of-le : (o : Option Json) (n : ℕ) → limit_of o ≡ some n → n ≤ 50
limit_of-le none n h = let same : 10 ≡ n = cc h in omega (arith, same)
limit_of-le (some null) n h = let same : 10 ≡ n = cc h in omega (arith, same)
limit_of-le (some (natural k)) n h = ground (arith, h)
limit_of-le (some Json.other_number) n h = cc
limit_of-le (some (Json.boolean b)) n h = cc
limit_of-le (some (Json.string s)) n h = cc
limit_of-le (some (Json.array xs)) n h = cc
limit_of-le (some (Json.object fs)) n h = cc

map-append : {A B : Type 0} (f : A → B) (xs ys : List A) → map f (xs ++ ys) ≡ map f xs ++ map f ys
map-append f [] ys = refl
map-append f (x ∷ xs) ys = ap (λ l. f x ∷ l) (map-append f xs ys)

length-map : {A B : Type 0} (f : A → B) (xs : List A) → length (map f xs) ≡ length xs
length-map f [] = refl
length-map f (x ∷ xs) = ap suc (length-map f xs)

module _ (u : Unicode) (parse_uuid : Text → Option FactId) {K : Type 0} (R : Reads K)
    (t : Token) where
  -- The hits of a search: of the facts found, by a limit one above the one asked for, the first ones,
  -- and whether there is one more.
  abbrev pub Searched : Json → K → SearchOut → Type 0
  Searched args k r =
      (query : Text) × (n : ℕ) × (hits : List FactSummary) × (fs : List Fact) × (as_str
          (get (codes "query") args)
        ≡ some query)
      × (limit_of (get (codes "limit") args) ≡ some n)
      × (n ≤ 50)
      × ((R.search query none k).0 ≡ ok hits)
      × Found R t (suc n) (ids_of (sort_by summary_le hits)) (R.search query none k).1 fs
      × All (Allowed t) fs
      × (r ≡ record { results = map search_hit (take n fs); truncated = ltb n (length fs) })

  search_limited-Found :
      (args : Json) (query : Text) (limit : Option ℕ) (k : K) (r : SearchOut)
      → as_str (get (codes "query") args) ≡ some query
      → limit_of (get (codes "limit") args) ≡ limit
      → (Tools.search_limited u parse_uuid R t query limit k).0 ≡ ok (search_out r)
      → Searched args k r
  search_limited-Found args query none k r asked given h = cc
  search_limited-Found args query (some n) k r asked given h =
      elim (Result-cases (Knowledge.search_visible R t query (suc n) k).0) [
        | inr (e, bad) ↦ let g = rw bad at h in cc g
        | inl (fs, good) ↦
            let (hits, listed, found, allowed) = search_visible-Found R t query (suc n) k fs good in
            let small = limit_of-le (get (codes "limit") args) n given in
            (
              query,
              n,
              hits,
              fs,
              asked,
              given,
              small,
              listed,
              found,
              allowed,
              answered fs (rw good at h),
            )
      ]
    where
      answered :
          (fs : List Fact)
          → ◌≡◌ {A = Result ToolError ToolOutput} (ok (Tools.found_out n fs)) (ok (search_out r))
          → r ≡ record { results = map search_hit (take n fs); truncated = ltb n (length fs) }
      answered fs g = cc g

  Searched-length :
      (args : Json) (k : K) (r : SearchOut) → Searched args k r → length r.results ≤ 50
  Searched-length args k r (query, n, hits, fs, a, b, small, c, d, e, same) =
      rw same (omega (arith, length-map search_hit (take n fs), length-take n fs, small))

  -- A search that succeeds gives at most 50 hits. They are of the facts that the token may read among
  -- those the service finds for the query, read in order until the hits are used up or one more than
  -- the limit asked for is found: the hit of each up to the limit, and whether there was one more.
  pub handle_search-Visible :
      (args : Json) (k : K) (r : SearchOut)
      → (Tools.handle_search u parse_uuid R t args k).0 ≡ ok (search_out r)
      → (length r.results ≤ 50) × Searched args k r
  unfolding Tools.handle_search
  handle_search-Visible args k r h = elim (Option-cases (as_str (get (codes "query") args))) [
    | inl e ↦ let g = rw e at h in cc g
    | inr (query, e) ↦ elim (Bool-cases (is_bad_query query)) [
      | inl wrong ↦ let g = rw (e, wrong) at h in cc g
      | inr fine ↦
          let searched =
            search_limited-Found args query (limit_of (get (codes "limit") args)) k r e refl
              (rw (e, fine) at h) in
          (Searched-length args k r searched, searched)
    ]
  ]

  abbrev pub link_of : Fact → LinkOut
  link_of f = record { id = f.id; title = sanitize_field f.title }

  page_of-kept :
      (r : Result AppError Fact) (f : Fact) → page_of t r ≡ ok f → (r ≡ ok f) × (kept t r ≡ f ∷ [])
  page_of-kept (err e) f h = cc
  page_of-kept (ok g) f h = elim (Bool-cases (may_read t g)) [
    | inl e ↦
        let k = rw e at h in
        let same : g ≡ f = cc k in (ap (λ x. ok x) same, rw e (ap (λ x. x ∷ []) same))
    | inr e ↦ let k = rw e at h in cc k
  ]

  linked-kept :
      (r : Result AppError Fact) (out more : List LinkOut)
      → Tools.linked u parse_uuid R t (page_of t r) out ≡ ok more
      → more ≡ out ++ map link_of (kept t r)
  unfolding to_access_error
  linked-kept (ok f) out more h = elim (Bool-cases (may_read t f)) [
    | inl e ↦ let k = rw e at h in rw e (cc k)
    | inr e ↦
        let k = rw e at h in let same : more ≡ out = cc k in rw e (same ∙ sym (append-nil out))
  ]
  linked-kept (err not_found) out more h =
      let same : more ≡ out = cc h in same ∙ sym (append-nil out)
  linked-kept (err locked) out more h = cc
  linked-kept (err invalid_input) out more h = cc
  linked-kept (err crypto) out more h = cc
  linked-kept (err io) out more h = cc
  linked-kept (err external) out more h = cc
  linked-kept (err serde) out more h = cc

  collect_links-readable :
      (ids : List FactId) (out links : List LinkOut) (k : K)
      → (Tools.collect_links u parse_uuid R t ids out k).0 ≡ ok links
      → links ≡ out ++ map link_of (readable t (answers R ids k))
  unfolding Tools.collect_links Knowledge.get_page
  collect_links-readable [] out links k h =
      let same : links ≡ out = cc h in same ∙ sym (append-nil out)
  collect_links-readable (id ∷ ids) out links k h =
      elim (Result-cases (Tools.linked u parse_uuid R t (page_of t (R.get id k).0) out)) [
        | inr (e, bad) ↦ let g = rw bad at h in cc g
        | inl (more, good) ↦
            let tail = map link_of (readable t (answers R ids (R.get id k).1)) in
            let first = linked-kept (R.get id k).0 out more good in
            collect_links-readable ids more links (R.get id k).1 (rw good at h)
            ∙ ap (λ l. l ++ tail) first
            ∙ append_assoc out (map link_of (kept t (R.get id k).0)) tail
            ∙ ap (λ l. out ++ l)
                (sym (
                  map-append link_of (kept t (R.get id k).0)
                    (readable t (answers R ids (R.get id k).1))))
      ]

  -- The page of the fact that the service has under the identity asked for, and that the token may
  -- read; its links are to those facts it links to that the token may read, all of them.
  abbrev pub VisiblePage : Json → K → PageOut → Type 0
  VisiblePage args k p =
      (id : FactId) × (f : Fact) × (Tools.parse_fact_id u parse_uuid R t args ≡ some id)
      × ((R.get id k).0 ≡ ok f)
      × Allowed t f
      × (p.id ≡ f.id)
      × (p.title ≡ sanitize_field f.title)
      × (p.body ≡ envelope f.body)
      × (p.links ≡ map link_of (readable t (answers R f.links (R.get id k).1)))
      × All (Allowed t) (readable t (answers R f.links (R.get id k).1))

  page_with-links :
      (f : Fact) (k : K) (p : PageOut)
      → (Tools.page_with u parse_uuid R t f k).0 ≡ ok (page_out p)
      → p ≡ Tools.page_from u parse_uuid R t f (map link_of (readable t (answers R f.links k)))
  page_with-links f k p h =
      elim (Result-cases (Tools.collect_links u parse_uuid R t f.links [] k).0) [
        | inr (e, bad) ↦ let g = rw bad at h in cc g
        | inl (links, good) ↦
            let g = rw good at h in
            let same : p ≡ Tools.page_from u parse_uuid R t f links = cc g in
            same
            ∙ ap (Tools.page_from u parse_uuid R t f)
                (collect_links-readable f.links [] links k good)
      ]

  visible_page :
      (args : Json) (id : FactId) (f : Fact) (k : K) (p : PageOut)
      → Tools.parse_fact_id u parse_uuid R t args ≡ some id
      → page_of t (R.get id k).0 ≡ ok f
      → (Tools.page_with u parse_uuid R t f (R.get id k).1).0 ≡ ok (page_out p)
      → VisiblePage args k p
  visible_page args id f k p asked shown h =
      let (there, one) = page_of-kept (R.get id k).0 f shown in
      let same = page_with-links f (R.get id k).1 p h in
      let allowed : All (Allowed t) (f ∷ []) =
        subst (All (Allowed t)) (append-nil (kept t (R.get id k).0) ∙ one)
          (readable-Allowed t ((R.get id k).0 ∷ [])) in
      (
        id,
        f,
        asked,
        there,
        allowed.0,
        ap (λ x. x.id) same,
        ap (λ x. x.title) same,
        ap (λ x. x.body) same,
        ap (λ x. x.links) same,
        readable-Allowed t (answers R f.links (R.get id k).1),
      )

  -- A page that is given is of the fact that the service has under the identity asked for; the token
  -- may read it, its body is in the frame, and its links are to exactly those facts among the linked
  -- ones that the service has and the token may read.
  pub handle_get_page-Visible :
      (args : Json) (k : K) (p : PageOut)
      → (Tools.handle_get_page u parse_uuid R t args k).0 ≡ ok (page_out p)
      → VisiblePage args k p
  unfolding Tools.handle_get_page Knowledge.get_page
  handle_get_page-Visible args k p h =
      elim (Option-cases (Tools.parse_fact_id u parse_uuid R t args)) [
        | inl e ↦ let g = rw e at h in cc g
        | inr (id, e) ↦ elim (Result-cases (page_of t (R.get id k).0)) [
          | inr (x, bad) ↦ let g = rw (e, bad) at h in cc g
          | inl (f, good) ↦ visible_page args id f k p e good (rw (e, good) at h)
        ]
      ]

module _ (u : Unicode) (parse_uuid : Text → Option FactId) (write : ToolOutput → Text)
    (version : Text) {K : Type 0} (R : Reads K) (S : Store) (codec : Codec TokenRecord)
    (key_for : Text → Text) (parse_request : Bytes → Option RpcRequest) (allow_owner : Bool) where
  abbrev pub posted : Headers → Bytes → Served S.State K → Response × Served S.State K
  posted = Server.mcp_post u parse_uuid write version R S codec key_for parse_request allow_owner

  abbrev pub served : Token → Bytes → K → Response × K
  served t body k =
      Server.serve u parse_uuid write version R S codec key_for parse_request allow_owner t
        (parse_request body) k

  -- A request is refused, and knowledge is not touched, or it is served to a caller who was admitted: the
  -- owner on a listener that allows it, by the loopback and without an authorization, or the consumer to
  -- whom the secret of the authorization resolves.
  pub mcp_post-Admitted :
      (headers : Headers) (body : Bytes) (s : Served S.State K)
      → ((e : ToolError) × ((posted headers body s).0 ≡ auth_rejection e)
          × ((posted headers body s).1.knowledge ≡ s.knowledge))
        ⊎ ((t : Token) × Admitted S codec key_for headers allow_owner s.tokens t
            × ((posted headers body s).0 ≡ (served t body s.knowledge).0)
            × ((posted headers body s).1.knowledge ≡ (served t body s.knowledge).1))
  unfolding Server.mcp_post
  mcp_post-Admitted headers body s =
      elim (Result-cases (resolve_identity S codec key_for headers allow_owner s.tokens).0) [
        | inr (e, bad) ↦ inl (e, rw bad refl, rw bad refl)
        | inl (t, good) ↦ inr (
          t,
          resolve_identity-Admitted S codec key_for headers allow_owner s.tokens t good,
          rw good refl,
          rw good refl,
        )
      ]
