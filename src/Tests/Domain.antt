-- ===== src/Tests/Domain.antt =====
-- The category parser of src-tauri/src/core/types.rs and the titles of core/text.rs on ASCII texts.
use knows_me.Base.{◌≡◌, refl, false, List, [], ◌∷◌, arith, All}
use knows_me.Base.Texts.{Text, codes, ascii_tables, lower_ascii, is_ascii_upper, text_eq}
use knows_me.Base.Results.{ok}
use knows_me.Base.Sets.{Distinct}
use knows_me.Domain.Category.{parse}
use knows_me.Domain.Category.Normal.{Allowed, IsNormal, LowercaseLaws, parse-IsNormal}
use knows_me.Processing.Router.{topics_from_labels}
use knows_me.Processing.Router.Decisions.{topics_from_labels-IsNormal}

lower-no_upper : (t : Text) → All (λ c. is_ascii_upper c ≡ false) (lower_ascii t)
lower-no_upper [] = tt
lower-no_upper (c ∷ t) = (ground arith, lower-no_upper t)

lower-fixes : (t : Text) → All Allowed t → lower_ascii t ≡ t
lower-fixes [] h = refl
lower-fixes (c ∷ t) h = rw (h.0.0, lower-fixes t h.1) refl

pub ascii_laws : LowercaseLaws ascii_tables
ascii_laws = record { no_upper = lower-no_upper; fixes = lower-fixes }

parse_runs : parse ascii_tables (codes " Dev  Ops! ") ≡ ok (codes "dev-ops")
unfolding parse
parse_runs = refl

parse-IsNormal_example : IsNormal (codes "dev-ops")
parse-IsNormal_example =
    parse-IsNormal ascii_tables ascii_laws (codes " Dev  Ops! ") (codes "dev-ops") parse_runs

abbrev labels : List Text
labels = codes "rust" ∷ codes "certain" ∷ codes "Rust" ∷ []

topics_from_labels-IsNormal_example :
    All IsNormal (topics_from_labels ascii_tables labels)
    × Distinct text_eq (topics_from_labels ascii_tables labels)
topics_from_labels-IsNormal_example = topics_from_labels-IsNormal ascii_tables ascii_laws labels
