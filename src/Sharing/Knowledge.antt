-- ===== src/Sharing/Knowledge.antt =====
-- `KnowledgeSharing` of src-tauri/src/sharing/knowledge.rs: the tools of a token over the store's facts.
-- The service that it reads is the interface `Reads`, which KnowledgeService fills.
pub mod Censorship
pub mod Reading
pub mod Withdrawal
use knows_me.Base.{
  ℕ, suc, ◌+◌, ◌≡◌, Bool, true, false, not, ◌&&◌, ◌||◌, Option, none, some, List, [], ◌∷◌, ◌++◌,
  leb, ◌==◌, length, filter, if◌then◌else◌,
}
use knows_me.Base.Texts.{Text, codes, text_eq}
use knows_me.Base.Lines.{is_empty}
use knows_me.Base.Order.{text_le}
use knows_me.Base.Sets.{insert, contains}
use knows_me.Base.Sort.{sort_by}
use knows_me.Base.Results.{
  AppError, Result, ok, err, locked, not_found, invalid_input, crypto, io, external, serde, map_err,
}
use knows_me.Io.{Io}
use knows_me.Domain.{FactId, Fact, FactSummary, CategoryName, Scope}
use knows_me.Sharing.{AccessError, Token, can_access, grants}

-- What the tools read of `KnowledgeService`.
pub record Reads (K : Type 0) : Type 0 where
  pub search : Text → Option Scope → Io K (List FactSummary)
  pub get : FactId → Io K Fact
  pub all_facts : Io K (List Fact)

unfoldable pub to_access_error : AppError → AccessError
to_access_error locked = AccessError.locked
to_access_error not_found = AccessError.not_found
to_access_error invalid_input = AccessError.invalid_input
to_access_error crypto = AccessError.unavailable
to_access_error io = AccessError.unavailable
to_access_error external = AccessError.unavailable
to_access_error serde = AccessError.unavailable

abbrev pub may_read : Token → Fact → Bool
may_read t f = can_access t f.metadata.visibility f.metadata.category

unfoldable pub accessible : Token → List Fact → List Fact
accessible t facts = filter (may_read t) facts

-- Title first, then identity.
abbrev pub page_le : Text → FactId → Text → FactId → Bool
page_le a i b j = if text_eq a b then leb i j else text_le a b

abbrev pub fact_le : Fact → Fact → Bool
fact_le f g = page_le f.title f.id g.title g.id

abbrev pub summary_le : FactSummary → FactSummary → Bool
summary_le f g = page_le f.title f.id g.title g.id

-- The names of the categories, in a BTreeSet or as the keys of a BTreeMap.
pub record Count : Type 0 where
  pub name : CategoryName
  pub pages : ℕ

abbrev pub count_one : CategoryName → List Count → List Count
count_one c [] = record { name = c; pages = 1 } ∷ []
count_one c (n ∷ ns) =
    let rest = count_one c ns in
    if text_eq n.name c
    then record { name = n.name; pages = suc n.pages } ∷ ns
    else if text_le c n.name
    then record { name = c; pages = 1 } ∷ n ∷ ns
    else n ∷ rest

abbrev pub count_category : Option CategoryName → List Count → List Count
count_category none ns = ns
count_category (some c) ns = count_one c ns

unfoldable pub counted : List Fact → List Count → List Count
counted [] ns = ns
counted (f ∷ fs) ns = counted fs (count_category f.metadata.category ns)

abbrev pub add_name : Option CategoryName → List CategoryName → List CategoryName
add_name none names = names
add_name (some c) names = insert text_eq c names

abbrev pub names_of : List Fact → List CategoryName
names_of [] = []
names_of (f ∷ fs) = add_name f.metadata.category (names_of fs)

abbrev pub is_category : Option CategoryName → CategoryName → Bool
is_category none c = false
is_category (some d) c = text_eq d c

-- A guide of no page is an error.
abbrev pub pages_or_absent : List Fact → Result AccessError (List Fact)
pages_or_absent [] = err AccessError.not_found
pages_or_absent (f ∷ fs) = ok (sort_by fact_le (f ∷ fs))

abbrev pub pages_in : Token → CategoryName → List Fact → Result AccessError (List Fact)
pages_in t c facts =
    pages_or_absent (filter (λ f. is_category f.metadata.category c) (accessible t facts))

unfoldable pub write_guide : List Fact → Text → Text
write_guide [] guide = guide
write_guide (f ∷ fs) guide = write_guide fs (
    (if is_empty guide then guide else guide ++ (10 ∷ 10 ∷ []))
    ++ (codes "## " ++ (f.title ++ (10 ∷ f.body))))

-- The answer about one fact that was looked up.
abbrev pub page_of : Token → Result AppError Fact → Result AccessError Fact
page_of t (ok f) = if may_read t f then ok f else err AccessError.not_found
page_of t (err e) = err (to_access_error e)

-- A hit of the search: collected, skipped, or the end of the search.
abbrev pub collected : Token → List Fact → Result AppError Fact → Result AccessError (List Fact)
collected t out (ok f) = if may_read t f then ok (out ++ (f ∷ [])) else ok out
collected t out (err not_found) = ok out
collected t out (err e) = err (to_access_error e)

abbrev pub lossy : Fact → FactSummary
lossy f = record {
  id = f.id;
  title = f.title;
  scope = f.metadata.scope;
  kind = f.metadata.kind;
  topics = f.metadata.topics;
  visibility = f.metadata.visibility;
  confirmed = f.metadata.confirmed;
}

abbrev pub lossy_all : List Fact → List FactSummary
lossy_all [] = []
lossy_all (f ∷ fs) = lossy f ∷ lossy_all fs

-- A tool's answer, and the service after it.
abbrev pub Access : Type 0 → Type 0 → Type 0
Access K A = K → Result AccessError A × K

module _ {K A B : Type 0} where
  -- `map_err(to_access_error)?`.
  abbrev pub go_on : Result AppError A → (A → Access K B) → Access K B
  go_on (err e) f k = (err (to_access_error e), k)
  go_on (ok a) f k = f a k

  abbrev pub reading : Io K A → (A → Access K B) → Access K B
  reading m f k = go_on (m k).0 f (m k).1

module _ {K : Type 0} (R : Reads K) where
  unfoldable pub collect_hits : Token → ℕ → List FactSummary → List Fact → Access K (List Fact)
  collect_hits t limit [] out k = (ok out, k)
  collect_hits t limit (h ∷ hs) out k =
      if leb limit (length out) then (ok out, k) else elim (collected t out (R.get h.id k).0) [
        | err e ↦ (err e, (R.get h.id k).1)
        | ok next ↦ collect_hits t limit hs next (R.get h.id k).1
      ]

  unfoldable pub search_visible : Token → Text → ℕ → Access K (List Fact)
  search_visible t query limit =
      reading (R.search query none) λ hits. collect_hits t limit (sort_by summary_le hits) []

  unfoldable pub category_counts : Token → Access K (List Count)
  category_counts t = reading R.all_facts λ facts k. (ok (counted (accessible t facts) []), k)

  unfoldable pub guide_pages : Token → CategoryName → Access K (List Fact)
  guide_pages t c k =
      if not (grants t c)
      then (err AccessError.not_found, k)
      else reading R.all_facts (λ facts k'. (pages_in t c facts, k')) k

  unfoldable pub list_categories : Token → Access K (List CategoryName)
  list_categories t =
      reading R.all_facts λ facts k. (ok (sort_by text_le (names_of (accessible t facts))), k)

  unfoldable pub search_knowledge : Token → Text → ℕ → Access K (List FactSummary)
  search_knowledge t query limit k = (
    elim (search_visible t query limit k).0 [ ok fs ↦ ok (lossy_all fs) | err e ↦ err e ],
    (search_visible t query limit k).1,
  )

  unfoldable pub get_page : Token → FactId → Access K Fact
  get_page t id k = (page_of t (R.get id k).0, (R.get id k).1)

  abbrev pub guide_text : Result AccessError (List Fact) → Result AccessError Text
  guide_text (ok pages) = ok (write_guide pages [])
  guide_text (err e) = err e

  unfoldable pub get_guide : Token → CategoryName → Access K Text
  get_guide t c k =
      if not (grants t c)
      then (err AccessError.not_found, k)
      else reading R.all_facts (λ facts k'. (guide_text (pages_in t c facts), k')) k
