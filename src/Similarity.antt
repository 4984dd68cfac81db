-- ===== src/Similarity.antt =====
-- src-tauri/src/core/text.rs: the near-duplicate test on titles.
-- The Jaccard overlap is an f32 quotient of two counts compared with 0.45. Here it is the exact
-- fraction compared with 9/20: the counts are bounded by the length of a title, where the rounding
-- of f32 cannot carry a quotient across the threshold.
pub mod Symmetry
use knows_me.Base.{
  ℕ, ◌*◌, Bool, true, false, not, ◌&&◌, ◌||◌, List, [], ◌∷◌, ◌++◌, leb, length, filter, ◌==◌,
  if◌then◌else◌,
}
use knows_me.Base.Texts.{Text, text_eq, Unicode, is_whitespace}
use knows_me.Base.Sets.{collect, common, united}

abbrev pub Pair : Type 0
Pair = ℕ × ℕ

abbrev pub pair_eq : Pair → Pair → Bool
pair_eq (a, b) (c, d) = a == c && b == d

-- `filter(..).flat_map(char::to_lowercase).collect()`.
pub normalize : Unicode → Text → Text
normalize u [] = []
normalize u (c ∷ cs) =
    let rest = normalize u cs in
    if not (is_whitespace c) && (u.is_alphanumeric c || c == b'_')
    then u.char_to_lowercase c ++ rest
    else rest

-- `windows(2)`.
windows : Text → List Pair
windows [] = []
windows (a ∷ []) = []
windows (a ∷ b ∷ s) = (a, b) ∷ windows (b ∷ s)

pub bigrams : Text → List Pair
bigrams s = collect pair_eq (windows s)

-- A fraction: numerator and denominator.
abbrev pub Ratio : Type 0
Ratio = ℕ × ℕ

overlap : List Pair → List Pair → Ratio
overlap a b =
    if length a == 0 && length b == 0 then (0, 1) else (common pair_eq a b, united pair_eq a b)

unfoldable pub similarity : Unicode → Text → Text → Ratio
unfolding normalize windows bigrams overlap
similarity u a b = overlap (bigrams (normalize u a)) (bigrams (normalize u b))

abbrev pub near_duplicate : Ratio
near_duplicate = (9, 20)

abbrev pub reaches : Ratio → Ratio → Bool
reaches r bound = leb (bound.0 * r.1) (r.0 * bound.1)

unfoldable pub is_near_duplicate : Unicode → Text → Text → Bool
is_near_duplicate u a b =
    let na = normalize u a in
    let nb = normalize u b in
    if not (length na == 0) && text_eq na nb
    then true
    else reaches (similarity u a b) near_duplicate
