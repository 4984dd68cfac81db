-- ===== src/Storage.antt =====
-- The trait `EncryptedStore` of src-tauri/src/core/traits.rs, what its clients rely on, and the
-- in-memory implementation of src-tauri/src/mocks.rs.
pub mod Documents
use knows_me.Base.{
  ℕ, ◌≡◌, ◌≢◌, refl, Bool, true, false, ◌&&◌, Option, none, some, List, [], ◌∷◌, arith, Member,
  if◌then◌else◌, inl, inr, sym, subst, Bool-cases,
}
use knows_me.Base.Texts.{Text, text_eq, text_eq-eq, text_eq-of-eq}
use knows_me.Base.Results.{AppError, Result, ok, err, locked}
use knows_me.Io.{Io}

abbrev pub Bytes : Type 0
Bytes = List ℕ

pub record Store : Type 1 where
  pub State : Type 0
  pub put : Text → Text → Bytes → Io State (Unit {0})
  pub get : Text → Text → Io State (Option Bytes)
  pub list : Text → Io State (List Text)
  pub delete : Text → Text → Io State (Unit {0})

-- The key of a namespace at which two calls meet.
abbrev pub same_key : Text → Text → Text → Text → Bool
same_key ns k n j = text_eq ns n && text_eq k j

-- What a store promises: `view` is what a reader finds under a key. Nothing is promised of what an
-- operation that fails has written.
pub record StoreLaws (S : Store) : Type 0 where
  pub view : S.State → Text → Text → Option Bytes
  pub get_reads :
      (ns k : Text) (s : S.State) (o : Option Bytes) → (S.get ns k s).0 ≡ ok o → o ≡ view s ns k
  pub get_keeps : (ns k : Text) (s : S.State) (n j : Text) → view (S.get ns k s).1 n j ≡ view s n j
  pub list_finds :
      (ns : Text) (s : S.State) (ks : List Text)
      → (S.list ns s).0 ≡ ok ks
      → (k : Text) → view s ns k ≢ none
      → Member k ks
  pub list_keeps : (ns : Text) (s : S.State) (n j : Text) → view (S.list ns s).1 n j ≡ view s n j
  pub put_writes :
      (ns k : Text) (b : Bytes) (s : S.State)
      → (S.put ns k b s).0 ≡ ok tt
      → (n j : Text)
      → view (S.put ns k b s).1 n j ≡ (if same_key ns k n j then some b else view s n j)
  pub delete_removes :
      (ns k : Text) (s : S.State)
      → (S.delete ns k s).0 ≡ ok tt
      → (n j : Text)
      → view (S.delete ns k s).1 n j ≡ (if same_key ns k n j then none else view s n j)

-- A write touches its own namespace only, also where it fails.
pub record SeparateSpaces (S : Store) (L : StoreLaws S) : Type 0 where
  pub put_elsewhere :
      (ns k : Text) (b : Bytes) (s : S.State) (n j : Text)
      → text_eq ns n ≡ false
      → L.view (S.put ns k b s).1 n j ≡ L.view s n j

-- serde_json for one type: what is written can be read back. Writing these types does not fail.
pub record Codec (A : Type 0) : Type 0 where
  pub encode : A → Bytes
  pub decode : Bytes → Option A
  pub decode-encode : (a : A) → decode (encode a) ≡ some a

-- `InMemoryStore`: the map, an entry for each namespace and key.
pub record Entry : Type 0 where
  pub ns : Text
  pub key : Text
  pub bytes : Bytes

abbrev pub Memory : Type 0
Memory = List Entry

abbrev pub find_entry : Text → Text → Memory → Option Bytes
find_entry n j [] = none
find_entry n j (e ∷ m) = if same_key e.ns e.key n j then some e.bytes else find_entry n j m

abbrev pub remove_entry : Text → Text → Memory → Memory
remove_entry n j [] = []
remove_entry n j (e ∷ m) =
    let rest = remove_entry n j m in if same_key e.ns e.key n j then rest else e ∷ rest

abbrev pub keys_of : Text → Memory → List Text
keys_of n [] = []
keys_of n (e ∷ m) = let rest = keys_of n m in if text_eq e.ns n then e.key ∷ rest else rest

abbrev pub in_memory : Store
in_memory = record {
  State = Memory;
  put = λ ns k b s. (ok tt, record { ns = ns; key = k; bytes = b } ∷ remove_entry ns k s);
  get = λ ns k s. (ok (find_entry ns k s), s);
  list = λ ns s. (ok (keys_of ns s), s);
  delete = λ ns k s. (ok tt, remove_entry ns k s);
}

same_key-eq : (a b c d : Text) → same_key a b c d ≡ true → (a ≡ c) × (b ≡ d)
same_key-eq a b c d h = ground (arith, text_eq-eq a c, text_eq-eq b d)

same_key-left : (a b c d n j : Text) → same_key a b c d ≡ true → same_key a b n j ≡ same_key c d n j
same_key-left a b c d n j h = let e = same_key-eq a b c d h in rw (e.0, e.1)

same_key-right :
    (a b c d n j : Text) → same_key c d n j ≡ true → same_key a b c d ≡ same_key a b n j
same_key-right a b c d n j h = let e = same_key-eq c d n j h in rw (e.0, e.1)

pub find-remove :
    (ns k n j : Text) (m : Memory)
    → find_entry n j (remove_entry ns k m) ≡ (if same_key ns k n j then none else find_entry n j m)
find-remove ns k n j [] = ground arith
find-remove ns k n j (e ∷ m) = ground (
  arith,
  find-remove ns k n j m,
  same_key-left e.ns e.key ns k n j,
  same_key-right e.ns e.key ns k n j,
)

pub keys-find : (n j : Text) (m : Memory) → find_entry n j m ≢ none → Member j (keys_of n m)
keys-find n j [] h = absurd (h refl)
keys-find n j (e ∷ m) h = elim (Bool-cases (same_key e.ns e.key n j)) [
  | inl hit ↦
      let (same, at) = same_key-eq e.ns e.key n j hit in
      rw (text_eq-of-eq e.ns n same) (inl (sym at))
  | inr miss ↦
      let rest = keys-find n j m (λ gone. h (rw miss gone)) in
      elim (Bool-cases (text_eq e.ns n)) [ inl f ↦ rw f (inr rest) | inr f ↦ rw f rest ]
]

pub get_reads_lem :
    (ns k : Text) (s : Memory) (o : Option Bytes)
    → ◌≡◌ {A = Result AppError (Option Bytes)} (ok (find_entry ns k s)) (ok o)
    → o ≡ find_entry ns k s
get_reads_lem ns k s o h = cc

pub list_finds_lem :
    (ns : Text) (s : Memory) (ks : List Text)
    → ◌≡◌ {A = Result AppError (List Text)} (ok (keys_of ns s)) (ok ks)
    → (k : Text) → find_entry ns k s ≢ none
    → Member k ks
list_finds_lem ns s ks h k v =
    let e : keys_of ns s ≡ ks = cc in subst (Member k) e (keys-find ns k s v)

pub put_writes_lem :
    (ns k : Text) (b : Bytes) (s : Memory) (n j : Text)
    → find_entry n j (record { ns = ns; key = k; bytes = b } ∷ remove_entry ns k s)
      ≡ (if same_key ns k n j then some b else find_entry n j s)
put_writes_lem ns k b s n j = ground (arith, find-remove ns k n j s)

abbrev pub in_memory_laws : StoreLaws in_memory
in_memory_laws = record {
  view = λ s n j. find_entry n j s;
  get_reads = λ ns k s o h. get_reads_lem ns k s o h;
  get_keeps = λ ns k s n j. refl;
  list_finds = λ ns s ks h k v. list_finds_lem ns s ks h k v;
  list_keeps = λ ns s n j. refl;
  put_writes = λ ns k b s h n j. put_writes_lem ns k b s n j;
  delete_removes = λ ns k s h n j. find-remove ns k n j s;
}
