-- ===== src/Sharing/Envelope.antt =====
-- src-tauri/src/sharing/envelope.rs: the frame around a served text, and clean short fields.
pub mod Framing
use knows_me.Base.{
  ℕ, zero, suc, ◌-◌, Bool, true, false, not, ◌&&◌, List, [], ◌∷◌, ◌++◌, length, ◌==◌, if◌then◌else◌,
}
use knows_me.Base.Texts.{Text, codes, starts_with, is_control, is_whitespace, trim}

abbrev pub open_tag : Text
open_tag = codes "<knows-me:content>"

abbrev pub close_tag : Text
close_tag = codes "</knows-me:content>"

abbrev pub open_escaped : Text
open_escaped = codes "&lt;knows-me:content&gt;"

abbrev pub close_escaped : Text
close_escaped = codes "&lt;/knows-me:content&gt;"

-- `str::replace`: the matches from left to right, none overlapping; the number counts the
-- characters of the last match that are still to be passed over.
unfoldable pub replace_from : Text → Text → ℕ → Text → Text
replace_from pat by n [] = []
replace_from pat by (suc n) (c ∷ s) = replace_from pat by n s
replace_from pat by zero (c ∷ s) = elim (starts_with (c ∷ s) pat) [
  | true ↦ by ++ replace_from pat by (length pat - 1) s
  | false ↦ c ∷ replace_from pat by 0 s
]

abbrev pub replace : Text → Text → Text → Text
replace pat by s = replace_from pat by 0 s

unfoldable pub escape : Text → Text
unfolding replace_from
escape text = replace open_tag open_escaped (replace close_tag close_escaped text)

unfoldable pub envelope : Text → Text
unfolding escape
envelope text = open_tag ++ (escape text ++ close_tag)

-- The loop of `sanitize_field`; the flag is `prev_space`.
unfoldable pub collapse : Bool → Text → Text
collapse prev_space [] = []
collapse prev_space (ch ∷ cs) = elim (is_control ch && not (is_whitespace ch)) [
  | true ↦ collapse prev_space cs
  | false ↦ elim (is_whitespace ch) [
    | true ↦ elim prev_space [ true ↦ collapse true cs | false ↦ b' ' ∷ collapse true cs ]
    | false ↦ ch ∷ collapse false cs
  ]
]

unfoldable pub sanitize_field : Text → Text
unfolding escape collapse trim is_control is_whitespace
sanitize_field text = escape (trim (collapse false text))
