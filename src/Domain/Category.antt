-- ===== src/Domain/Category.antt =====
-- `Category::parse` and `normalize_topic` of src-tauri/src/core/types.rs.
pub mod Normal
use knows_me.Base.{
  ℕ, Bool, true, false, ◌&&◌, ◌||◌, Option, none, some, List, [], ◌∷◌, ltb, leb, length, ◌==◌,
  if◌then◌else◌,
}
use knows_me.Base.Texts.{Text, Unicode, is_whitespace, is_ascii_alphanumeric, trim, trim_matches}
use knows_me.Base.Results.{AppError, Result, ok, err, invalid_input}

pub is_hangul : ℕ → Bool
is_hangul c =
    leb 0xAC00 c && leb c 0xD7A3 || leb 0x1100 c && leb c 0x11FF || leb 0x3130 c && leb c 0x318F

abbrev pub is_dash : ℕ → Bool
is_dash c = c == b'-'

-- What the loop does with a character.
pub data Handling : Type 0 where
  dash keep discard : Handling

pub handling : ℕ → Handling
handling c =
    if is_whitespace c || c == b'_' || c == b'-'
    then dash
    else if is_ascii_alphanumeric c || c == b'.' || is_hangul c
    then keep
    else discard

-- The loop over the lowercased characters; the flag is `prev_dash`, the result is `out`.
pub fold_separators : Bool → Text → Text
fold_separators prev_dash [] = []
fold_separators prev_dash (c ∷ cs) = elim (handling c) [
  | dash ↦ elim prev_dash [
    | true ↦ fold_separators true cs
    | false ↦ b'-' ∷ fold_separators true cs
  ]
  | keep ↦ c ∷ fold_separators false cs
  | discard ↦ fold_separators prev_dash cs
]

-- The length test that ends `parse`.
check_length : Text → Result AppError Text
check_length t = if length t == 0 || ltb 64 (length t) then err invalid_input else ok t

unfoldable pub parse : Unicode → Text → Result AppError Text
unfolding is_whitespace is_hangul handling fold_separators check_length trim
parse u raw =
    check_length (trim_matches is_dash (fold_separators false (u.to_lowercase (trim raw))))

unfoldable pub normalize_topic : Unicode → Text → Option Text
normalize_topic u raw = elim (parse u raw) [ ok c ↦ some c | err e ↦ none ]
