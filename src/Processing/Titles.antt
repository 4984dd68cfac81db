-- ===== src/Processing/Titles.antt =====
-- `title_of` and `body_of` of src-tauri/src/processing/router.rs, with `is_nothing` of
-- src-tauri/src/llm/prompts.rs.
use knows_me.Base.{
  ℕ, zero, suc, ◌≤◌, Bool, false, not, ◌&&◌, ◌||◌, Option, none, some, List, [], ◌∷◌, arith, map,
  leb, drop, ◌==◌, if◌then◌else◌, ◌≢◌,
}
use knows_me.Base.Texts.{Text, codes, text_eq, starts_with, trim, trim_matches, lower_ascii}
use knows_me.Base.Lines.{
  lines, split_whitespace, join, is_empty, len, floor_boundary, slice_to, slice_to-len,
  floor_boundary-le,
}

-- `str::eq_ignore_ascii_case`.
abbrev pub eq_ignore_ascii_case : Text → Text → Bool
eq_ignore_ascii_case a b = text_eq (lower_ascii a) (lower_ascii b)

unfoldable pub is_nothing : Text → Bool
unfolding trim
is_nothing summary = eq_ignore_ascii_case (trim summary) (codes "NOTHING")

-- Exactly one word, and it begins like a link.
single_link : List Text → Bool
single_link (single ∷ []) =
    starts_with single (codes "http://") || starts_with single (codes "https://")
single_link _ = false

unfoldable pub is_bare_url : Text → Bool
unfolding single_link split_whitespace
is_bare_url line = single_link (split_whitespace line)

-- `position`.
position : (Text → Bool) → List Text → Option ℕ
position p [] = none
position p (l ∷ ls) =
    let rest = position p ls in
    if p l then some 0 else elim rest [ none ↦ none | some i ↦ some (suc i) ]

unfoldable pub title_line_index : Text → Option ℕ
unfolding position lines trim is_bare_url
title_line_index summary =
    position (λ l. not (is_empty (trim l)) && not (is_bare_url (trim l))) (lines summary)

or_whole : Text → Text → Text
or_whole summary body = if is_empty body then trim summary else body

after_title : Text → Text
after_title summary = elim (title_line_index summary) [
  | some i ↦ trim (join (10 ∷ []) (map trim (drop (suc i) (lines summary))))
  | none ↦ []
]

unfoldable pub body_of : Text → Text
unfolding title_line_index lines trim join or_whole after_title
body_of summary = or_whole summary (after_title summary)

abbrev nth : List Text → ℕ → Option Text
nth [] i = none
nth (l ∷ ls) zero = some l
nth (l ∷ ls) (suc i) = nth ls i

is_decoration : ℕ → Bool
is_decoration c = c == b'*' || c == b'#' || c == b'`' || c == b'_'

first_line : Text → Text
first_line summary = elim (title_line_index summary) [
  | none ↦ trim summary
  | some i ↦ elim (nth (lines summary) i) [ none ↦ trim summary | some l ↦ trim l ]
]

abbrev max_title : ℕ
max_title = 80

-- At most 80 bytes, cut at a character boundary.
pub clip : Text → Text
clip first =
    if leb (len first) max_title then first else slice_to first (floor_boundary first max_title)

unfoldable pub title_of : Text → Text
unfolding title_line_index lines trim is_decoration first_line clip len floor_boundary slice_to
title_of summary = clip (trim (trim_matches is_decoration (first_line summary)))

clip-len : (first : Text) → len (clip first) ≤ 80
unfolding clip
clip-len first =
    ground (
      arith,
      slice_to-len first (floor_boundary first max_title),
      floor_boundary-le first max_title,
    )

-- A title has at most 80 bytes.
pub title_of-len : (summary : Text) → len (title_of summary) ≤ 80
unfolding title_of
title_of-len summary = clip-len (trim (trim_matches is_decoration (first_line summary)))

or_whole-ne_nil : (summary body : Text) → trim summary ≢ [] → or_whole summary body ≢ []
unfolding or_whole
or_whole-ne_nil summary body h = ground arith

-- A summary that is not blank has a body that is not empty.
pub body_of-ne_nil : (summary : Text) → trim summary ≢ [] → body_of summary ≢ []
unfolding body_of
body_of-ne_nil summary h = or_whole-ne_nil summary (after_title summary) h
