-- ===== src/Sharing/Knowledge/Reading.antt =====
-- The facts that a search of src-tauri/src/sharing/knowledge.rs reads, and those that it gives.
use knows_me.Base.{
  ℕ, ◌≤◌, ◌≡◌, refl, sym, ap, ◌∙◌, true, false, Option, none, some, List, [], ◌∷◌, ◌++◌, arith, leb,
  length, length-append, append-nil, append_assoc, All, All-append, Member, if◌then◌else◌,
  Bool-cases, inl, inr, ◌⊎◌,
}
use knows_me.Base.Texts.{Text, text_eq, text_eq-eq}
use knows_me.Base.Sets.{contains}
use knows_me.Base.Sort.{sort_by}
use knows_me.Base.Results.{
  AppError, Result, ok, err, locked, not_found, invalid_input, crypto, io, external, serde,
  Result-cases,
}
use knows_me.Domain.{FactId, Fact, FactSummary, CategoryName, Visibility, shared, private}
use knows_me.Sharing.{Token, can_access}
use knows_me.Sharing.Knowledge.{
  Reads, may_read, collected, collect_hits, search_visible, summary_le,
}

-- The token is the owner's, or the fact is shared and in a category that the token was granted.
abbrev pub Allowed : Token → Fact → Type 0
Allowed t f =
    (t.owner ≡ true)
    ⊎ ((f.metadata.visibility ≡ shared)
        × ((c : CategoryName) × (f.metadata.category ≡ some c) × Member c t.granted))

contains-Member :
    (granted : List CategoryName) (c : CategoryName)
    → contains text_eq granted c ≡ true
    → Member c granted
contains-Member [] c h = cc
contains-Member (x ∷ xs) c h = elim (Bool-cases (text_eq x c)) [
  | inl e ↦ inl (sym (text_eq-eq x c e))
  | inr e ↦ inr (contains-Member xs c (rw e at h))
]

can_access-granted :
    (t : Token) (v : Visibility) (category : Option CategoryName)
    → can_access t v category ≡ true
    → (t.owner ≡ true)
      ⊎ ((v ≡ shared) × ((c : CategoryName) × (category ≡ some c) × Member c t.granted))
unfolding can_access
can_access-granted t v category h = elim (Bool-cases t.owner) [
  | inl e ↦ inl e
  | inr e ↦ inr (by_grant v category (rw e at h))
]
  where
    by_grant :
        (v : Visibility) (category : Option CategoryName)
        → can_access (record t { owner = false }) v category ≡ true
        → (v ≡ shared) × ((c : CategoryName) × (category ≡ some c) × Member c t.granted)
    by_grant private category k = cc
    by_grant shared none k = cc
    by_grant shared (some c) k = (refl, (c, refl, contains-Member t.granted c k))

may_read-Allowed : (t : Token) (f : Fact) → may_read t f ≡ true → Allowed t f
may_read-Allowed t f h = can_access-granted t f.metadata.visibility f.metadata.category h

-- Of the answer about one fact, the fact if the token may read it.
abbrev pub kept : Token → Result AppError Fact → List Fact
kept t (err e) = []
kept t (ok f) = if may_read t f then f ∷ [] else []

abbrev pub readable : Token → List (Result AppError Fact) → List Fact
readable t [] = []
readable t (r ∷ rs) = kept t r ++ readable t rs

kept-Allowed : (t : Token) (r : Result AppError Fact) → All (Allowed t) (kept t r)
kept-Allowed t (err e) = tt
kept-Allowed t (ok f) = elim (Bool-cases (may_read t f)) [
  | inl e ↦ rw e (may_read-Allowed t f e, tt)
  | inr e ↦ rw e tt
]

pub readable-Allowed :
    (t : Token) (rs : List (Result AppError Fact)) → All (Allowed t) (readable t rs)
readable-Allowed t [] = tt
readable-Allowed t (r ∷ rs) =
    All-append (Allowed t) (kept t r) (readable t rs) (kept-Allowed t r) (readable-Allowed t rs)

kept-length : (t : Token) (r : Result AppError Fact) → length (kept t r) ≤ 1
kept-length t (err e) = omega arith
kept-length t (ok f) = ground (arith)

collected-kept :
    (t : Token) (out : List Fact) (r : Result AppError Fact) (next : List Fact)
    → collected t out r ≡ ok next
    → next ≡ out ++ kept t r
collected-kept t out (ok f) next h = elim (Bool-cases (may_read t f)) [
  | inl e ↦ let k = rw e at h in rw e (cc k)
  | inr e ↦ let k = rw e at h in let same : next ≡ out = cc k in rw e (same ∙ sym (append-nil out))
]
collected-kept t out (err not_found) next h =
    let same : next ≡ out = cc in same ∙ sym (append-nil out)
collected-kept t out (err locked) next h = cc
collected-kept t out (err invalid_input) next h = cc
collected-kept t out (err crypto) next h = cc
collected-kept t out (err io) next h = cc
collected-kept t out (err external) next h = cc
collected-kept t out (err serde) next h = cc

abbrev pub ids_of : List FactSummary → List FactId
ids_of [] = []
ids_of (h ∷ hs) = h.id ∷ ids_of hs

module _ {K : Type 0} (R : Reads K) where
  -- What the service answers about the facts, asked for one after the other.
  abbrev pub answers : List FactId → K → List (Result AppError Fact)
  answers [] k = []
  answers (id ∷ ids) k = (R.get id k).0 ∷ answers ids (R.get id k).1

  module _ (t : Token) where
    -- The facts that the token may read among the first of those asked for: among all of them, or as
    -- many as the limit allows.
    abbrev pub Found : ℕ → List FactId → K → List Fact → Type 0
    Found limit ids k fs =
        (asked : List FactId) × (rest : List FactId) × (asked ++ rest ≡ ids)
        × (fs ≡ readable t (answers asked k))
        × (length fs ≤ limit)
        × ((rest ≡ []) ⊎ (length fs ≡ limit))

    collect_hits-Found :
        (limit : ℕ) (hs : List FactSummary) (out fs : List Fact) (k : K)
        → length out ≤ limit
        → (collect_hits R t limit hs out k).0 ≡ ok fs
        → (asked : List FactId) × (rest : List FactId) × (asked ++ rest ≡ ids_of hs)
          × (fs ≡ out ++ readable t (answers asked k))
          × (length fs ≤ limit)
          × ((rest ≡ []) ⊎ (length fs ≡ limit))
    unfolding collect_hits
    collect_hits-Found limit [] out fs k room h =
        let same : fs ≡ out = cc h in
        ([], [], refl, same ∙ sym (append-nil out), rw same room, inl refl)
    collect_hits-Found limit (s ∷ hs) out fs k room h = elim (Bool-cases (leb limit (length out))) [
      | inl e ↦
          let g = rw e at h in
          let same : fs ≡ out = cc g in
          (
            [],
            ids_of (s ∷ hs),
            refl,
            same ∙ sym (append-nil out),
            rw same room,
            inr (rw same (ground (arith, e, room))),
          )
      | inr e ↦ elim (Result-cases (collected t out (R.get s.id k).0)) [
        | inr (x, c) ↦ let y = rw (e, c) at h in cc y
        | inl (next, c) ↦
            let grown = collected-kept t out (R.get s.id k).0 next c in
            let fits : length next ≤ limit = rw grown (
              ground (
                arith,
                length-append out (kept t (R.get s.id k).0),
                kept-length t (R.get s.id k).0,
                e,
              )) in
            let (asked, rest, split, all, small, full) =
              collect_hits-Found limit hs next fs (R.get s.id k).1 fits (rw (e, c) at h) in
            (
              s.id ∷ asked,
              rest,
              ap (λ l. s.id ∷ l) split,
              all
                  ∙ ap (λ l. l ++ readable t (answers asked (R.get s.id k).1)) grown
                  ∙ append_assoc out (kept t (R.get s.id k).0)
                      (readable t (answers asked (R.get s.id k).1)),
              small,
              full,
            )
      ]
    ]

    -- A search that succeeds reads its hits in order, by title and identity, and gives just those that
    -- the token may read, until the hits are used up or as many are found as the limit allows: a hit
    -- that is hidden or gone takes no place.
    pub search_visible-Found :
        (query : Text) (limit : ℕ) (k : K) (fs : List Fact)
        → (search_visible R t query limit k).0 ≡ ok fs
        → (hits : List FactSummary) × ((R.search query none k).0 ≡ ok hits)
          × Found limit (ids_of (sort_by summary_le hits)) (R.search query none k).1 fs
          × All (Allowed t) fs
    unfolding search_visible
    search_visible-Found query limit k fs h = elim (Result-cases (R.search query none k).0) [
      | inr (x, e) ↦ let y = rw e at h in cc y
      | inl (hits, e) ↦
          let (asked, rest, split, all, small, full) =
            collect_hits-Found limit (sort_by summary_le hits) [] fs (R.search query none k).1
              (omega arith) (rw e at h) in
          (
            hits,
            e,
            (asked, rest, split, all, small, full),
            rw all (readable-Allowed t (answers asked (R.search query none k).1)),
          )
    ]
