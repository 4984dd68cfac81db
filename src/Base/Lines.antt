-- ===== src/Base/Lines.antt =====
-- `str::lines`, `split_whitespace`, `join`, and slices of the UTF-8 form of a text.
use knows_me.Base.{
  ℕ, zero, suc, ◌+◌, ◌-◌, ◌≤◌, Bool, true, false, not, ◌&&◌, List, [], ◌∷◌, ◌++◌, arith, leb,
  filter, ◌==◌, if◌then◌else◌, ltb,
}
use knows_me.Base.Texts.{Text, starts_with, is_whitespace}

-- The character goes to the front of the first piece.
abbrev pub prepend : ℕ → List Text → List Text
prepend c [] = (c ∷ []) ∷ []
prepend c (l ∷ ls) = (c ∷ l) ∷ ls

-- A line feed ends a line, and takes one carriage return before it along.
unfoldable pub lines : Text → List Text
lines [] = []
lines (c ∷ cs) =
    let rest = lines cs in
    if c == 10
    then [] ∷ rest
    else if c == 13 && starts_with cs (10 ∷ [])
    then rest
    else prepend c rest

-- `str::split` by a test on characters.
unfoldable pub split_by : (ℕ → Bool) → Text → List Text
split_by p [] = [] ∷ []
split_by p (c ∷ cs) = let rest = split_by p cs in if p c then [] ∷ rest else prepend c rest

abbrev pub is_empty : Text → Bool
is_empty [] = true
is_empty (c ∷ s) = false

unfoldable pub split_whitespace : Text → List Text
unfolding split_by is_whitespace
split_whitespace s = filter (λ w. not (is_empty w)) (split_by is_whitespace s)

unfoldable pub join : Text → List Text → Text
join sep [] = []
join sep (l ∷ []) = l
join sep (l ∷ m ∷ ls) = l ++ (sep ++ join sep (m ∷ ls))

-- `char::len_utf8`.
unfoldable pub len_utf8 : ℕ → ℕ
len_utf8 c = if ltb c 0x80 then 1 else if ltb c 0x800 then 2 else if ltb c 0x10000 then 3 else 4

-- `str::len`: the length in bytes.
unfoldable pub len : Text → ℕ
unfolding len_utf8
len [] = 0
len (c ∷ s) = len_utf8 c + len s

-- `str::is_char_boundary`.
unfoldable pub is_char_boundary : Text → ℕ → Bool
unfolding len_utf8
is_char_boundary s zero = true
is_char_boundary [] (suc n) = false
is_char_boundary (c ∷ s) (suc n) =
    leb (len_utf8 c) (suc n) && is_char_boundary s (suc n - len_utf8 c)

-- `while !s.is_char_boundary(end) { end -= 1; }`; 0 is a boundary.
unfoldable pub floor_boundary : Text → ℕ → ℕ
unfolding is_char_boundary
floor_boundary s zero = zero
floor_boundary s (suc n) =
    let rest = floor_boundary s n in if is_char_boundary s (suc n) then suc n else rest

-- `&s[..end]` at a boundary.
unfoldable pub slice_to : Text → ℕ → Text
unfolding len_utf8
slice_to [] n = []
slice_to (c ∷ s) n = if leb (len_utf8 c) n then c ∷ slice_to s (n - len_utf8 c) else []

pub slice_to-len : (s : Text) (n : ℕ) → len (slice_to s n) ≤ n
unfolding len slice_to
slice_to-len [] n = omega arith
slice_to-len (c ∷ s) n = ground (arith, slice_to-len s (n - len_utf8 c))

pub floor_boundary-le : (s : Text) (n : ℕ) → floor_boundary s n ≤ n
unfolding floor_boundary
floor_boundary-le s zero = omega arith
floor_boundary-le s (suc n) = ground (arith, floor_boundary-le s n)
