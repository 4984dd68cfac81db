-- ===== src/Processing/Entries.antt =====
-- `split_facts` of src-tauri/src/llm/prompts.rs: the entries of a summary.
use knows_me.Base.{Bool, true, false, not, ◌&&◌, List, [], ◌∷◌, ◌++◌, filter, ◌==◌, if◌then◌else◌}
use knows_me.Base.Texts.{Text, codes, text_eq, trim}
use knows_me.Base.Lines.{split_by, is_empty}
use knows_me.Processing.Titles.{is_nothing}

unfoldable pub is_cut : Text → Bool
is_cut line = text_eq (trim line) (codes "---")

-- `cur`: the entry being written, after a line was pushed.
abbrev pub pushed_line : Text → Text → Text
pushed_line cur line = if is_empty cur then line else cur ++ (10 ∷ line)

-- The fold over the lines; `cur` is the last entry of its accumulator.
unfoldable pub gather : Text → List Text → List Text
gather cur [] = cur ∷ []
gather cur (line ∷ lines) = elim (is_cut line) [
  | true ↦ cur ∷ gather [] lines
  | false ↦ gather (pushed_line cur line) lines
]

abbrev pub trimmed : List Text → List Text
trimmed [] = []
trimmed (e ∷ es) = trim e ∷ trimmed es

abbrev pub is_entry : Text → Bool
is_entry e = not (is_empty e) && not (is_nothing e)

unfoldable pub split_facts : Text → List Text
split_facts summary =
    if is_nothing summary
    then []
    else filter is_entry (trimmed (gather [] (split_by (λ c. c == 10) summary)))
