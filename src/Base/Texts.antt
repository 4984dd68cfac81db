-- ===== src/Base/Texts.antt =====
-- Texts as lists of Unicode scalar values, and what the source uses of Rust's `str` and `char`:
-- equality, prefixes, `trim`, `trim_matches`, `char::is_whitespace`, `char::is_control`, the ASCII
-- classes. The tables of Unicode (case mapping, letters and digits) are the record `Unicode`.
use Prim.Native.Char.{code}
use Prim.Native.String.{String}
use knows_me.Base.{
  ℕ, ◌+◌, ◌≡◌, refl, Bool, true, false, ◌&&◌, ◌||◌, List, [], ◌∷◌, arith, All, leb, ◌==◌,
  if◌then◌else◌,
}

abbrev pub Text : Type 0
Text = List ℕ

-- The scalar values of a literal.
abbrev pub codes : String → Text
codes String.[] = []
codes (String.◌∷◌ c s) = code c ∷ codes s

abbrev pub text_eq : Text → Text → Bool
text_eq [] [] = true
text_eq [] (b ∷ bs) = false
text_eq (a ∷ as') [] = false
text_eq (a ∷ as') (b ∷ bs) = a == b && text_eq as' bs

pub text_eq-eq : (a b : Text) → text_eq a b ≡ true → a ≡ b
text_eq-eq [] [] h = refl
text_eq-eq [] (b ∷ bs) h = ground arith
text_eq-eq (a ∷ as') [] h = ground arith
text_eq-eq (a ∷ as') (b ∷ bs) h = ground (arith, text_eq-eq as' bs)

pub text_eq_refl : (a : Text) → text_eq a a ≡ true
text_eq_refl [] = refl
text_eq_refl (a ∷ as') = ground (arith, text_eq_refl as')

pub text_eq-of-eq : (a b : Text) → a ≡ b → text_eq a b ≡ true
text_eq-of-eq a b e = rw e (text_eq_refl b)

-- `str::starts_with`.
abbrev pub starts_with : Text → Text → Bool
starts_with s [] = true
starts_with [] (p ∷ ps) = false
starts_with (c ∷ s) (p ∷ ps) = c == p && starts_with s ps

-- char::is_whitespace: the White_Space property.
unfoldable pub is_whitespace : ℕ → Bool
is_whitespace c =
    leb 9 c && leb c 13
    || c == 32
    || c == 0x85
    || c == 0xA0
    || c == 0x1680
    || leb 0x2000 c && leb c 0x200A
    || c == 0x2028
    || c == 0x2029
    || c == 0x202F
    || c == 0x205F
    || c == 0x3000

-- char::is_control: the general category Cc.
unfoldable pub is_control : ℕ → Bool
is_control c = leb c 31 || leb 127 c && leb c 159

abbrev pub is_ascii_upper : ℕ → Bool
is_ascii_upper c = leb b'A' c && leb c b'Z'

abbrev pub is_ascii_alphanumeric : ℕ → Bool
is_ascii_alphanumeric c = leb b'0' c && leb c b'9' || is_ascii_upper c || leb b'a' c && leb c b'z'

-- `trim_start_matches` and `trim_end_matches` by a test on characters.
abbrev pub trim_start : (ℕ → Bool) → Text → Text
trim_start p [] = []
trim_start p (c ∷ s) = if p c then trim_start p s else c ∷ s

abbrev pub keep_end : (ℕ → Bool) → ℕ → Text → Text
keep_end p c [] = if p c then [] else c ∷ []
keep_end p c (d ∷ s) = c ∷ d ∷ s

abbrev pub trim_end : (ℕ → Bool) → Text → Text
trim_end p [] = []
trim_end p (c ∷ s) = keep_end p c (trim_end p s)

-- `trim_matches`.
abbrev pub trim_matches : (ℕ → Bool) → Text → Text
trim_matches p s = trim_end p (trim_start p s)

-- `str::trim`.
unfoldable pub trim : Text → Text
trim s = trim_matches is_whitespace s

-- str::to_lowercase, char::to_lowercase and char::is_alphanumeric read the tables of Unicode.
pub record Unicode : Type 0 where
  pub to_lowercase : Text → Text
  pub char_to_lowercase : ℕ → Text
  pub is_alphanumeric : ℕ → Bool

-- Case mapping as far as ASCII goes, to run the model on concrete texts.
abbrev pub ascii_lower : ℕ → ℕ
ascii_lower c = if is_ascii_upper c then c + 32 else c

abbrev pub lower_ascii : Text → Text
lower_ascii [] = []
lower_ascii (c ∷ s) = ascii_lower c ∷ lower_ascii s

abbrev pub ascii_tables : Unicode
ascii_tables = record {
  to_lowercase = lower_ascii;
  char_to_lowercase = λ c. ascii_lower c ∷ [];
  is_alphanumeric = is_ascii_alphanumeric;
}

-- Trimming what has nothing to trim.
pub trim_end-All : (p : ℕ → Bool) (s : Text) → All (λ c. p c ≡ false) s → trim_end p s ≡ s
trim_end-All p [] h = refl
trim_end-All p (c ∷ []) h = ground arith
trim_end-All p (c ∷ d ∷ s) h = rw (trim_end-All p (d ∷ s) h.1)

pub trim_start-All : (p : ℕ → Bool) (s : Text) → All (λ c. p c ≡ false) s → trim_start p s ≡ s
trim_start-All p [] h = refl
trim_start-All p (c ∷ s) h = rw h.0

pub trim_matches-All : (p : ℕ → Bool) (s : Text) → All (λ c. p c ≡ false) s → trim_matches p s ≡ s
trim_matches-All p s h = rw (trim_start-All p s h) (trim_end-All p s h)

pub trim-All : (s : Text) → All (λ c. is_whitespace c ≡ false) s → trim s ≡ s
unfolding trim
trim-All s h = trim_matches-All is_whitespace s h

-- Trimming keeps what holds of every character.
module _ (P : ℕ → Type 0) (p : ℕ → Bool) where
  pub All-trim_start : (s : Text) → All P s → All P (trim_start p s)
  All-trim_start [] h = tt
  All-trim_start (c ∷ s) h = ground (arith, All-trim_start s h.1)

  All-keep_end : (c : ℕ) (s : Text) → P c → All P s → All P (keep_end p c s)
  All-keep_end c [] h k = ground arith
  All-keep_end c (d ∷ s) h k = (h, k)

  pub All-trim_end : (s : Text) → All P s → All P (trim_end p s)
  All-trim_end [] h = tt
  All-trim_end (c ∷ s) h = All-keep_end c (trim_end p s) h.0 (All-trim_end s h.1)

-- Trimming once is trimming.
module _ (p : ℕ → Bool) where
  keep_end-trim :
      (c : ℕ) (s : Text) → trim_end p s ≡ s → trim_end p (keep_end p c s) ≡ keep_end p c s
  keep_end-trim c [] h = ground arith
  keep_end-trim c (d ∷ s) h = rw h

  pub trim_end_idem : (s : Text) → trim_end p (trim_end p s) ≡ trim_end p s
  trim_end_idem [] = refl
  trim_end_idem (c ∷ s) = keep_end-trim c (trim_end p s) (trim_end_idem s)

  -- The first character, if any, does not pass the test.
  abbrev pub Starts : Text → Type 0
  Starts [] = Unit
  Starts (c ∷ s) = p c ≡ false

  pub trim_start-Starts : (s : Text) → Starts (trim_start p s)
  trim_start-Starts [] = tt
  trim_start-Starts (c ∷ s) = ground (arith, trim_start-Starts s)

  keep_end-Starts : (c : ℕ) (s : Text) → p c ≡ false → Starts (keep_end p c s)
  keep_end-Starts c [] h = rw h h
  keep_end-Starts c (d ∷ s) h = h

  pub trim_end-Starts : (s : Text) → Starts s → Starts (trim_end p s)
  trim_end-Starts [] h = tt
  trim_end-Starts (c ∷ s) h = keep_end-Starts c (trim_end p s) h

  pub Starts-trim : (s : Text) → Starts s → trim_start p s ≡ s
  Starts-trim [] h = refl
  Starts-trim (c ∷ s) h = rw h
