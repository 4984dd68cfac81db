-- ===== src/Knowledge/SearchIndex.antt =====
-- src-tauri/src/knowledge/search_index.rs: the index of the confirmed facts.
-- The maps `postings` and `tokens` are functions, `meta`, whose keys are listed, is an association
-- list; a HashSet is a list without order. The classes of Unicode are a parameter.
pub mod Mirror
pub mod Graph
pub mod Topics
pub mod Searching
use knows_me.Base.{
  ℕ, ◌+◌, ◌≡◌, Bool, true, false, not, ◌&&◌, ◌||◌, Option, none, some, List, [], ◌∷◌, ◌++◌, ltb,
  leb, ◌==◌, length, take, if◌then◌else◌, filter, all,
}
use knows_me.Base.Texts.{Text, codes, text_eq, Unicode, trim, is_whitespace}
use knows_me.Base.Lines.{is_empty}
use knows_me.Base.Sets.{contains, insert}
use knows_me.Base.Sort.{sort_by}
use knows_me.Domain.{FactId, Time, Fact, FactKind, FactSummary, Scope, scope_eq, Visibility}

pub record MetaLite : Type 0 where
  pub title : Text
  pub scope : Scope
  pub confirmed : Bool
  pub confirmed_at : Option Time
  pub links : List FactId
  pub kind : FactKind
  pub topics : List Text
  pub visibility : Visibility

pub record MetaEntry : Type 0 where
  pub id : FactId
  pub lite : MetaLite

abbrev pub Postings : Type 0
Postings = Text → Option (List FactId)

pub record SearchIndex : Type 0 where
  pub postings : Postings
  pub tokens : FactId → Option (List Text)
  pub meta : List MetaEntry

unfoldable pub clear : SearchIndex → SearchIndex
clear x = record { postings = λ t. none; tokens = λ id. none; meta = [] }

abbrev pub has_id : List FactId → FactId → Bool
has_id = contains ◌==◌

abbrev pub has_token : List Text → Text → Bool
has_token = contains text_eq

abbrev in_range : ℕ → ℕ → ℕ → Bool
in_range lo hi c = leb lo c && leb c hi

unfoldable pub is_cjk : ℕ → Bool
is_cjk c =
    in_range 12352 12543 c
    || in_range 13312 19903 c
    || in_range 19968 40959 c
    || in_range 4352 4607 c
    || in_range 44032 55203 c

-- The windows of two characters.
abbrev pairs : List ℕ → List Text
pairs [] = []
pairs (c ∷ []) = []
pairs (c ∷ d ∷ s) = (c ∷ d ∷ []) ∷ pairs (d ∷ s)

abbrev insert_all : List Text → List Text → List Text
insert_all [] out = out
insert_all (t ∷ ts) out = insert_all ts (insert text_eq t out)

unfoldable pub flush_cjk : List ℕ → List Text → List Text
flush_cjk [] out = out
flush_cjk (c ∷ []) out = insert text_eq (c ∷ []) out
flush_cjk (c ∷ d ∷ s) out = insert_all (pairs (c ∷ d ∷ s)) out

module _ (u : Unicode) where
  unfoldable pub flush_latin : Text → List Text → List Text
  flush_latin buf out = if is_empty buf then out else insert text_eq (u.to_lowercase buf) out

  unfoldable pub tokenize_from : Text → Text → List ℕ → List Text → List Text
  tokenize_from [] latin cjk out = flush_cjk cjk (flush_latin latin out)
  tokenize_from (c ∷ s) latin cjk out = elim (is_cjk c) [
    | true ↦ tokenize_from s [] (cjk ++ (c ∷ [])) (flush_latin latin out)
    | false ↦ elim (u.is_alphanumeric c) [
      | true ↦ tokenize_from s (latin ++ (c ∷ [])) [] (flush_cjk cjk out)
      | false ↦ tokenize_from s [] [] (flush_cjk cjk (flush_latin latin out))
    ]
  ]

  unfoldable pub tokenize : Text → List Text
  tokenize s = tokenize_from s [] [] []

  abbrev pub tokens_of : Fact → List Text
  tokens_of f = tokenize (f.title ++ codes " " ++ f.body)

abbrev pub meta_of : Fact → MetaLite
meta_of f = record {
  title = f.title;
  scope = f.metadata.scope;
  confirmed = f.metadata.confirmed;
  confirmed_at = f.metadata.confirmed_at;
  links = f.links;
  kind = f.metadata.kind;
  topics = f.metadata.topics;
  visibility = f.metadata.visibility;
}

abbrev pub summary : FactId → MetaLite → FactSummary
summary id m = record {
  id = id;
  title = m.title;
  scope = m.scope;
  kind = m.kind;
  topics = m.topics;
  visibility = m.visibility;
  confirmed = m.confirmed;
}

-- `postings.entry(t).or_default().insert(id)`.
abbrev pub posted_ids : Option (List FactId) → List FactId
posted_ids none = []
posted_ids (some s) = s

unfoldable pub add_posting : FactId → Text → Postings → Postings
add_posting id t p v = if text_eq t v then some (insert ◌==◌ id (posted_ids (p v))) else p v

unfoldable pub add_postings : FactId → List Text → Postings → Postings
add_postings id [] p = p
add_postings id (t ∷ ts) p = add_postings id ts (add_posting id t p)

-- The set without the fact; an empty set goes.
abbrev pub or_gone : List FactId → Option (List FactId)
or_gone [] = none
or_gone (x ∷ xs) = some (x ∷ xs)

abbrev pub without : FactId → Option (List FactId) → Option (List FactId)
without id none = none
without id (some s) = or_gone (filter (λ j. not (j == id)) s)

unfoldable pub drop_posting : FactId → Text → Postings → Postings
drop_posting id t p v = if text_eq t v then without id (p v) else p v

unfoldable pub drop_postings : FactId → List Text → Postings → Postings
drop_postings id [] p = p
drop_postings id (t ∷ ts) p = drop_postings id ts (drop_posting id t p)

abbrev pub find_meta : FactId → List MetaEntry → Option MetaLite
find_meta id [] = none
find_meta id (e ∷ m) = if e.id == id then some e.lite else find_meta id m

abbrev pub remove_meta : FactId → List MetaEntry → List MetaEntry
remove_meta id m = filter (λ e. not (e.id == id)) m

abbrev pub unposted : FactId → Option (List Text) → Postings → Postings
unposted id none p = p
unposted id (some old) p = drop_postings id old p

unfoldable pub remove : FactId → SearchIndex → SearchIndex
remove id x = record {
  postings = unposted id (x.tokens id) x.postings;
  tokens = λ j. if j == id then none else x.tokens j;
  meta = remove_meta id x.meta;
}

module _ (u : Unicode) where
  unfoldable pub upsert : Fact → SearchIndex → SearchIndex
  upsert f x =
      let old = remove f.id x in
      record {
        postings = add_postings f.id (tokens_of u f) old.postings;
        tokens = λ j. if j == f.id then some (tokens_of u f) else old.tokens j;
        meta = record { id = f.id; lite = meta_of f } ∷ old.meta;
      }

-- The sets of the query's tokens; a token that nobody has ends the search.
abbrev pub add_set :
    Option (List FactId) → Option (List (List FactId)) → Option (List (List FactId))
add_set none rest = none
add_set (some s) none = none
add_set (some s) (some ss) = some (s ∷ ss)

unfoldable pub sets_for : Postings → List Text → Option (List (List FactId))
sets_for p [] = some []
sets_for p (t ∷ ts) = add_set (p t) (sets_for p ts)

-- The smallest set, with what all the others have.
abbrev pub intersect : List (List FactId) → List FactId
intersect [] = []
intersect (s ∷ ss) = filter (λ id. all (λ r. has_id r id) ss) s

abbrev pub by_size : List FactId → List FactId → Bool
by_size a b = leb (length a) (length b)

abbrev pub intersected : Option (List (List FactId)) → List FactId
intersected none = []
intersected (some ss) = intersect (sort_by by_size ss)

abbrev pub ids_of : List MetaEntry → List FactId
ids_of [] = []
ids_of (e ∷ m) = e.id ∷ ids_of m

abbrev pub for_tokens : Postings → List Text → List FactId
for_tokens p [] = []
for_tokens p (t ∷ ts) = intersected (sets_for p (t ∷ ts))

abbrev pub scope_wanted : Option Scope → MetaLite → Bool
scope_wanted none m = true
scope_wanted (some s) m = scope_eq s m.scope

abbrev pub summarised :
    Option Scope → FactId → Option MetaLite → List FactSummary → List FactSummary
summarised scope id none rest = rest
summarised scope id (some m) rest = if scope_wanted scope m then summary id m ∷ rest else rest

unfoldable pub summaries : SearchIndex → Option Scope → List FactId → List FactSummary
summaries x scope [] = []
summaries x scope (id ∷ ids) = summarised scope id (find_meta id x.meta) (summaries x scope ids)

module _ (u : Unicode) where
  unfoldable pub candidates : SearchIndex → Text → List FactId
  candidates x query =
      if is_empty (trim query) then ids_of x.meta else for_tokens x.postings (tokenize u query)

  unfoldable pub search : SearchIndex → Text → Option Scope → List FactSummary
  search x query scope = summaries x scope (candidates x query)

-- Most recently confirmed first; a fact with no time comes last.
abbrev later_or_same : Option Time → Option Time → Bool
later_or_same a none = true
later_or_same none (some b) = false
later_or_same (some a) (some b) = leb b a

abbrev summary_list : List MetaEntry → List FactSummary
summary_list [] = []
summary_list (e ∷ m) = summary e.id e.lite ∷ summary_list m

unfoldable pub recent : SearchIndex → ℕ → List FactSummary
recent x n =
    summary_list
      (take n (sort_by (λ a b. later_or_same a.lite.confirmed_at b.lite.confirmed_at) x.meta))
