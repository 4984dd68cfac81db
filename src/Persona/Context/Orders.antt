-- ===== src/Persona/Context/Orders.antt =====
-- The orders in which src-tauri/src/persona/context.rs ranks facts, and lists of ranked facts.
use knows_me.Base.{
  ℕ, ◌≤◌, suc, ◌≡◌, refl, ap, Bool, true, false, ◌&&◌, Option, none, some, List, [], ◌∷◌, map,
  arith, inl, inr, All, Member, length,
}
use knows_me.Base.Ranking.{Ordered, Pairwise}
use knows_me.Domain.{Time}
use knows_me.Persona.{ContextEntry}
use knows_me.Persona.Context.{Ranked, by_id, by_relevance, time_ge, entries_of}

abbrev pub key : Ranked → ℕ
key r = r.entry.id

pub by_id_total : (a b : Ranked) → by_id a b ≡ false → by_id b a ≡ true
by_id_total a b h = ground arith

pub by_id_trans : (a b c : Ranked) → by_id a b ≡ true → by_id b c ≡ true → by_id a c ≡ true
by_id_trans a b c h k = ground arith

pub by_id-le : (a b : Ranked) → by_id a b ≡ true → key a ≤ key b
by_id-le a b h = ground arith

time_ge_total : (a b : Option Time) → time_ge a b ≡ false → time_ge b a ≡ true
time_ge_total a none h = cc
time_ge_total none (some y) h = refl
time_ge_total (some x) (some y) h = ground arith

time_ge_trans : (a b c : Option Time) → time_ge a b ≡ true → time_ge b c ≡ true → time_ge a c ≡ true
time_ge_trans a b none h k = refl
time_ge_trans a none (some z) h k = cc
time_ge_trans none (some y) (some z) h k = cc
time_ge_trans (some x) (some y) (some z) h k = ground arith

pub by_relevance_total : (a b : Ranked) → by_relevance a b ≡ false → by_relevance b a ≡ true
by_relevance_total a b h = ground (arith, time_ge_total a.confirmed_at b.confirmed_at)

pub by_relevance_trans :
    (a b c : Ranked) → by_relevance a b ≡ true → by_relevance b c ≡ true → by_relevance a c ≡ true
by_relevance_trans a b c h k = ground (
  arith,
  time_ge_trans a.confirmed_at b.confirmed_at c.confirmed_at,
  time_ge_trans c.confirmed_at a.confirmed_at b.confirmed_at,
  time_ge_trans b.confirmed_at c.confirmed_at a.confirmed_at,
  time_ge_total a.confirmed_at b.confirmed_at,
  time_ge_total b.confirmed_at c.confirmed_at,
  time_ge_total a.confirmed_at c.confirmed_at,
)

pub by_relevance-le :
    (a b : Ranked) → by_relevance a b ≡ true → b.entry.relevance ≤ a.entry.relevance
by_relevance-le a b h = ground arith

pub map-Member :
    {A B : Type 0} (f : A → B) (x : A) (xs : List A) → Member x xs → Member (f x) (map f xs)
map-Member f x (y ∷ xs) (inl e) = inl (ap f e)
map-Member f x (y ∷ xs) (inr m) = inr (map-Member f x xs m)
map-Member f x [] m = absurd m

pub Member-map :
    {A B : Type 0} (f : A → B) (y : B) (xs : List A)
    → Member y (map f xs)
    → (x : A) × Member x xs × (y ≡ f x)
Member-map f y [] m = absurd m
Member-map f y (x ∷ xs) (inl e) = (x, inl refl, e)
Member-map f y (x ∷ xs) (inr m) = let (z, n, e) = Member-map f y xs m in (z, inr n, e)

pub entries_of-All :
    (P : Ranked → Type 0) (Q : ContextEntry → Type 0) (rs : List Ranked)
    → ((r : Ranked) → P r → Q r.entry)
    → All P rs
    → All Q (entries_of rs)
entries_of-All P Q [] f h = tt
entries_of-All P Q (r ∷ rs) f h = (f r h.0, entries_of-All P Q rs f h.1)

pub entries_of-Pairwise :
    (P : Ranked → Ranked → Type 0) (Q : ContextEntry → ContextEntry → Type 0) (rs : List Ranked)
    → ((r s : Ranked) → P r s → Q r.entry s.entry)
    → Pairwise P rs
    → Pairwise Q (entries_of rs)
entries_of-Pairwise P Q [] f h = tt
entries_of-Pairwise P Q (r ∷ rs) f h =
    (entries_of-All (P r) (Q r.entry) rs (f r) h.0, entries_of-Pairwise P Q rs f h.1)

pub entries_of-length : (rs : List Ranked) → length (entries_of rs) ≡ length rs
entries_of-length [] = refl
entries_of-length (r ∷ rs) = ap suc (entries_of-length rs)

pub entries_of-Member :
    (r : Ranked) (rs : List Ranked) → Member r rs → Member r.entry (entries_of rs)
entries_of-Member r [] m = m
entries_of-Member r (s ∷ rs) (inl e) = inl (ap (λ x. x.entry) e)
entries_of-Member r (s ∷ rs) (inr m) = inr (entries_of-Member r rs m)

pub Ordered-Pairwise :
    (le : Ranked → Ranked → Bool) (rs : List Ranked)
    → Ordered le rs
    → Pairwise (λ a b. le a b ≡ true) rs
Ordered-Pairwise le [] h = tt
Ordered-Pairwise le (r ∷ rs) h = (h.0, Ordered-Pairwise le rs h.1)

pub All-of : {A : Type 0} (P : A → Type 0) (xs : List A) → ((x : A) → Member x xs → P x) → All P xs
All-of P [] f = tt
All-of P (x ∷ xs) f = (f x (inl refl), All-of P xs (λ y m. f y (inr m)))

pub both : (a b : Bool) → a ≡ true → b ≡ true → (a && b) ≡ true
both a b h k = ground arith
