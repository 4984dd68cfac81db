-- ===== src/Sharing/Knowledge/Censorship.antt =====
-- What the tools of src-tauri/src/sharing/knowledge.rs keep from a token.
use knows_me.Base.{◌≡◌, refl, List, [], filter, filter-filter, if◌then◌else◌, Bool-cases, inl, inr}
use knows_me.Base.Order.{text_le}
use knows_me.Base.Sort.{sort_by}
use knows_me.Base.Results.{AppError, Result, ok, err, not_found}
use knows_me.Domain.{FactId, Fact, CategoryName}
use knows_me.Sharing.{AccessError, Token}
use knows_me.Sharing.Knowledge.{
  Reads, to_access_error, may_read, accessible, counted, names_of, is_category, page_of, go_on,
  category_counts, guide_pages, list_categories, get_page, get_guide, guide_text, pages_or_absent,
}

-- A fact that the token may not read, taken away.
abbrev pub hide : Token → Result AppError Fact → Result AppError Fact
hide t (ok f) = if may_read t f then ok f else err not_found
hide t (err e) = err e

abbrev pub hide_all : Token → Result AppError (List Fact) → Result AppError (List Fact)
hide_all t (ok fs) = ok (filter (may_read t) fs)
hide_all t (err e) = err e

-- The service without the facts that the token may not read, for the tools that list facts or look
-- one up. None of these uses `search`, which is left as it is.
abbrev pub censored : {K : Type 0} → Token → Reads K → Reads K
censored t R = record {
  search = R.search;
  get = λ id k. (hide t (R.get id k).0, (R.get id k).1);
  all_facts = λ k. (hide_all t (R.all_facts k).0, (R.all_facts k).1);
}

accessible_twice :
    (t : Token) (fs : List Fact) → accessible t (filter (may_read t) fs) ≡ accessible t fs
unfolding accessible
accessible_twice t fs = filter-filter (may_read t) fs

hide-page : (t : Token) (r : Result AppError Fact) → page_of t (hide t r) ≡ page_of t r
unfolding to_access_error
hide-page t (err e) = refl
hide-page t (ok f) = elim (Bool-cases (may_read t f)) [ inl e ↦ rw (e, e) refl | inr e ↦ rw e refl ]

-- A tool that asks only for the accessible facts.
reading-accessible :
    {K B : Type 0} (t : Token) (r : Result AppError (List Fact))
    (g : List Fact → Result AccessError B) (k : K)
    → go_on (hide_all t r) (λ fs k'. (g (accessible t fs), k')) k
      ≡ go_on r (λ fs k'. (g (accessible t fs), k')) k
reading-accessible t (ok fs) g k = rw (accessible_twice t fs) refl
reading-accessible t (err e) g k = refl

module _ {K : Type 0} (R : Reads K) (t : Token) where
  abbrev in_category : CategoryName → List Fact → Result AccessError (List Fact)
  in_category c fs = pages_or_absent (filter (λ f. is_category f.metadata.category c) fs)

  guide_pages-censored :
      (c : CategoryName) (k : K) → guide_pages (censored t R) t c k ≡ guide_pages R t c k
  unfolding guide_pages
  guide_pages-censored c k =
      rw (reading-accessible t (R.all_facts k).0 (in_category c) (R.all_facts k).1) refl

  get_guide-censored :
      (c : CategoryName) (k : K) → get_guide (censored t R) t c k ≡ get_guide R t c k
  unfolding get_guide
  get_guide-censored c k =
      rw
        (reading-accessible t (R.all_facts k).0 (λ fs. guide_text R (in_category c fs))
          (R.all_facts k).1)
        refl

  category_counts-censored : (k : K) → category_counts (censored t R) t k ≡ category_counts R t k
  unfolding category_counts
  category_counts-censored k =
      reading-accessible t (R.all_facts k).0 (λ fs. ok (counted fs [])) (R.all_facts k).1

  list_categories-censored : (k : K) → list_categories (censored t R) t k ≡ list_categories R t k
  unfolding list_categories
  list_categories-censored k =
      reading-accessible t (R.all_facts k).0 (λ fs. ok (sort_by text_le (names_of fs)))
        (R.all_facts k).1

  get_page-censored : (id : FactId) (k : K) → get_page (censored t R) t id k ≡ get_page R t id k
  unfolding get_page
  get_page-censored id k = rw (hide-page t (R.get id k).0) refl

  -- The categories, their counts, the guides and a page by its identity are for a token the same as
  -- over the service without the facts that the token may not read, the states after them too.
  pub censored-answers :
      (c : CategoryName) (id : FactId) (k : K)
      → (list_categories (censored t R) t k ≡ list_categories R t k)
        × (category_counts (censored t R) t k ≡ category_counts R t k)
        × (guide_pages (censored t R) t c k ≡ guide_pages R t c k)
        × (get_guide (censored t R) t c k ≡ get_guide R t c k)
        × (get_page (censored t R) t id k ≡ get_page R t id k)
  censored-answers c id k = (
    list_categories-censored k,
    category_counts-censored k,
    guide_pages-censored c k,
    get_guide-censored c k,
    get_page-censored id k,
  )
