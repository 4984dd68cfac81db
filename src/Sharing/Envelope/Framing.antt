-- ===== src/Sharing/Envelope/Framing.antt =====
-- A served text cannot end its frame: what it brings of the frame's tags is escaped.
use knows_me.Base.{
  ℕ, zero, suc, ◌+◌, ◌-◌, ◌≤◌, ◌≡◌, refl, Bool, true, false, not, [], ◌∷◌, ◌++◌, arith, length, all,
  All, All-append, ◌==◌, if◌then◌else◌, Bool-cases, inl, inr,
}
use knows_me.Base.Texts.{
  Text, codes, starts_with, is_control, is_whitespace, trim, trim_start, All-trim_start,
  All-trim_end,
}
use knows_me.Sharing.Envelope.{
  open_tag, close_tag, open_escaped, close_escaped, replace_from, replace, escape, envelope,
  collapse, sanitize_field,
}

-- At how many places a text has a pattern.
abbrev pub occurrences : Text → Text → ℕ
occurrences pat [] = 0
occurrences pat (c ∷ s) = (if starts_with (c ∷ s) pat then 1 else 0) + occurrences pat s

abbrev Without : ℕ → Text → Type 0
Without a s = All (λ c. (c == a) ≡ false) s

skip_plain :
    (p r s : Text) → Without b'<' r → occurrences (b'<' ∷ p) (r ++ s) ≡ occurrences (b'<' ∷ p) s
skip_plain p [] s h = refl
skip_plain p (c ∷ r) s h = ground (arith, skip_plain p r s h.1)

-- What a replacement leaves in front of its first match was there before.
replace-starts :
    (by q p s : Text)
    → Without b'&' p
    → starts_with (replace_from q (b'&' ∷ by) 0 s) p ≡ true
    → starts_with s p ≡ true
unfolding replace_from
replace-starts by q [] s u h = ground arith
replace-starts by q (d ∷ p) [] u h = cc
replace-starts by q (d ∷ p) (c ∷ s) u h = elim (Bool-cases (starts_with (c ∷ s) q)) [
  | inl e ↦ let k = rw (e, replace_from) at h in ground (arith, k, u.0)
  | inr e ↦ let k = rw (e, replace_from) at h in ground (arith, k, replace-starts by q p s u.1)
]

-- A replacement makes no new match of a pattern: the pattern begins with `<` and has no `&`, the
-- replacement begins with `&` and has no `<`.
module _ (q p by : Text) (unmarked : Without b'&' p) (plain : Without b'<' by) where
  abbrev pat : Text
  pat = b'<' ∷ p

  abbrev out : ℕ → Text → Text
  out n s = replace_from q (b'&' ∷ by) n s

  replace-le : (n : ℕ) (s : Text) → occurrences pat (out n s) ≤ occurrences pat s
  unfolding replace_from
  replace-le n [] = omega arith
  replace-le (suc n) (c ∷ s) = omega (arith, replace-le n s)
  replace-le zero (c ∷ s) = elim (Bool-cases (starts_with (c ∷ s) q)) [
    | inl e ↦
        rw (e, replace_from)
          (omega (
            arith,
            skip_plain p (b'&' ∷ by) (out (length q - 1) s) (refl, plain),
            replace-le (length q - 1) s,
          ))
    | inr e ↦
        rw (e, replace_from) (ground (arith, replace-le 0 s, replace-starts by q p s unmarked))
  ]

-- Replacing every match leaves none.
module _ (p by : Text) (unmarked : Without b'&' p) (plain : Without b'<' by) where
  replace-none :
      (n : ℕ) (s : Text) → occurrences (b'<' ∷ p) (replace_from (b'<' ∷ p) (b'&' ∷ by) n s) ≡ 0
  unfolding replace_from
  replace-none n [] = refl
  replace-none (suc n) (c ∷ s) = replace-none n s
  replace-none zero (c ∷ s) = elim (Bool-cases (starts_with (c ∷ s) (b'<' ∷ p))) [
    | inl e ↦
        rw (e, replace_from)
          (omega (
            arith,
            skip_plain p (b'&' ∷ by) (replace_from (b'<' ∷ p) (b'&' ∷ by) (length (b'<' ∷ p) - 1) s)
                (refl, plain),
            replace-none (length (b'<' ∷ p) - 1) s,
          ))
    | inr e ↦
        rw (e, replace_from)
          (ground (arith, replace-none 0 s, replace-starts by (b'<' ∷ p) p s unmarked))
  ]

starts-append :
    (p x y : Text)
    → Without b'<' p
    → starts_with (x ++ (b'<' ∷ y)) p ≡ true
    → starts_with x p ≡ true
starts-append [] x y u h = ground arith
starts-append (d ∷ p) [] y u h = ground (arith, u.0)
starts-append (d ∷ p) (c ∷ x) y u h = ground (arith, starts-append p x y u.1)

-- A text with no match of a tag, in front of a text that begins with a tag.
occurrences-append :
    (p x y : Text)
    → Without b'<' p
    → occurrences (b'<' ∷ p) x ≡ 0
    → occurrences (b'<' ∷ p) (x ++ (b'<' ∷ y)) ≡ occurrences (b'<' ∷ p) (b'<' ∷ y)
occurrences-append p [] y u h = refl
occurrences-append p (c ∷ x) y u h =
    ground (arith, occurrences-append p x y u, starts-append p x y u)

-- To read `Without` off a concrete text.
Without-check : (a : ℕ) (s : Text) → all (λ c. not (c == a)) s ≡ true → Without a s
Without-check a [] h = tt
Without-check a (c ∷ s) h = (ground arith, Without-check a s (ground arith))

abbrev open_tail : Text
open_tail = codes "knows-me:content>"

abbrev close_tail : Text
close_tail = codes "/knows-me:content>"

abbrev open_rest : Text
open_rest = codes "lt;knows-me:content&gt;"

abbrev close_rest : Text
close_rest = codes "lt;/knows-me:content&gt;"

escape_open : (t : Text) → occurrences open_tag (escape t) ≡ 0
unfolding escape
escape_open t =
    replace-none open_tail open_rest (Without-check b'&' open_tail refl)
      (Without-check b'<' open_rest refl) 0 (replace close_tag close_escaped t)

escape_close : (t : Text) → occurrences close_tag (escape t) ≡ 0
unfolding escape
escape_close t =
    let first =
      replace-none close_tail close_rest (Without-check b'&' close_tail refl)
        (Without-check b'<' close_rest refl) 0 t in
    let second =
      replace-le open_tag close_tail open_rest (Without-check b'&' close_tail refl)
        (Without-check b'<' open_rest refl) 0 (replace close_tag close_escaped t) in
    omega (arith, first, second)

-- Whatever the text, its frame has exactly one opening and exactly one closing tag; the frame
-- begins with the one and ends with the other.
pub envelope_tags :
    (t : Text)
    → (occurrences open_tag (envelope t) ≡ 1)
      × (occurrences close_tag (envelope t) ≡ 1)
      × ((inner : Text) × (envelope t ≡ open_tag ++ (inner ++ close_tag))
          × (occurrences open_tag inner ≡ 0)
          × (occurrences close_tag inner ≡ 0))
unfolding envelope
envelope_tags t =
    let plain_open = Without-check b'<' open_tail refl in
    let plain_close = Without-check b'<' close_tail refl in
    let tail = escape t ++ close_tag in
    (
      omega (
        arith,
        skip_plain open_tail open_tail tail plain_open,
        occurrences-append open_tail (escape t) close_tail plain_open (escape_open t),
      ),
      omega (
        arith,
        skip_plain close_tail open_tail tail plain_open,
        occurrences-append close_tail (escape t) close_tail plain_close (escape_close t),
      ),
      (escape t, refl, escape_open t, escape_close t),
    )

-- A replacement keeps what holds of every character.
module _ (P : ℕ → Type 0) (q by : Text) (ok_by : All P by) where
  All-replace : (n : ℕ) (s : Text) → All P s → All P (replace_from q by n s)
  unfolding replace_from
  All-replace n [] h = tt
  All-replace (suc n) (c ∷ s) h = All-replace n s h.1
  All-replace zero (c ∷ s) h = elim (Bool-cases (starts_with (c ∷ s) q)) [
    | inl e ↦
        rw (e, replace_from)
          (All-append P by (replace_from q by (length q - 1) s) ok_by
            (All-replace (length q - 1) s h.1))
    | inr e ↦ rw (e, replace_from) (h.0, All-replace 0 s h.1)
  ]

abbrev pub Printable : ℕ → Type 0
Printable c = is_control c ≡ false

Printable-check : (s : Text) → all (λ c. not (is_control c)) s ≡ true → All Printable s
Printable-check [] h = tt
Printable-check (c ∷ s) h = (ground arith, Printable-check s (ground arith))

space_Printable : is_control b' ' ≡ false
unfolding is_control
space_Printable = refl

collapse-Printable : (prev : Bool) (s : Text) → All Printable (collapse prev s)
unfolding collapse
collapse-Printable prev [] = tt
collapse-Printable true (c ∷ cs) =
    ground (arith, collapse-Printable true cs, collapse-Printable false cs)
collapse-Printable false (c ∷ cs) =
    ground (arith, space_Printable, collapse-Printable true cs, collapse-Printable false cs)

All-escape : (t : Text) → All Printable t → All Printable (escape t)
unfolding escape
All-escape t h =
    let close_ok = Printable-check close_escaped (unfold is_control in refl) in
    let open_ok = Printable-check open_escaped (unfold is_control in refl) in
    All-replace Printable open_tag open_escaped open_ok 0 (replace close_tag close_escaped t)
      (All-replace Printable close_tag close_escaped close_ok 0 t h)

All-trim : (t : Text) → All Printable t → All Printable (trim t)
unfolding trim
All-trim t h =
    All-trim_end Printable is_whitespace (trim_start is_whitespace t)
      (All-trim_start Printable is_whitespace t h)

-- A field that is served without a frame has no control character, a line feed among them, and no
-- tag of the frame.
pub sanitize_field-clean :
    (t : Text)
    → All Printable (sanitize_field t)
      × (occurrences open_tag (sanitize_field t) ≡ 0)
      × (occurrences close_tag (sanitize_field t) ≡ 0)
unfolding sanitize_field
sanitize_field-clean t =
    let cleaned = trim (collapse false t) in
    (
      All-escape cleaned (All-trim (collapse false t) (collapse-Printable false t)),
      escape_open cleaned,
      escape_close cleaned,
    )
