-- ===== src/Persona/Intent.antt =====
-- src-tauri/src/persona/intent.rs: what kind of answer a question asks for, by cue words.
use knows_me.Base.{Bool, ◌&&◌, ◌||◌, Option, none, some, List, [], ◌∷◌, any, if◌then◌else◌}
use knows_me.Base.Texts.{Text, codes, starts_with, Unicode}

pub data Intent : Type 0 where
  concerns interests recent : Intent

-- `str::contains`.
unfoldable pub contains : Text → Text → Bool
contains [] part = starts_with [] part
contains (c ∷ s) part = starts_with (c ∷ s) part || contains s part

abbrev pub concern_cues : List Text
concern_cues =
    codes "걱정"
    ∷ codes "고민"
    ∷ codes "막히"
    ∷ codes "막혀"
    ∷ codes "안 풀"
    ∷ codes "안풀"
    ∷ codes "어려움"
    ∷ codes "문제가"
    ∷ codes "골치"
    ∷ codes "신경 쓰"
    ∷ codes "신경쓰"
    ∷ codes "스트레스"
    ∷ codes "리스크"
    ∷ codes "불안"
    ∷ codes "worry"
    ∷ codes "worried"
    ∷ codes "concern"
    ∷ codes "stuck"
    ∷ codes "blocked"
    ∷ codes "pain point"
    ∷ codes "risk"
    ∷ []

abbrev pub interest_cues : List Text
interest_cues =
    codes "관심"
    ∷ codes "중요하게"
    ∷ codes "많이 보"
    ∷ codes "자주 보"
    ∷ codes "자주 하"
    ∷ codes "몰두"
    ∷ codes "파고"
    ∷ codes "interested"
    ∷ codes "care about"
    ∷ codes "focus on"
    ∷ codes "priorit"
    ∷ []

abbrev pub recent_cues : List Text
recent_cues =
    codes "요즘"
    ∷ codes "최근"
    ∷ codes "요새"
    ∷ codes "근래"
    ∷ codes "지금 뭐"
    ∷ codes "요즘 뭐"
    ∷ codes "recently"
    ∷ codes "lately"
    ∷ codes "these days"
    ∷ codes "right now"
    ∷ []

abbrev pub self_cues : List Text
self_cues =
    codes "내가"
    ∷ codes "나는"
    ∷ codes "나의"
    ∷ codes "내 "
    ∷ codes "제가"
    ∷ codes "저는"
    ∷ codes "우리"
    ∷ codes "my "
    ∷ codes "i "
    ∷ codes "am i"
    ∷ codes "do i"
    ∷ []

abbrev open_words : List Text
open_words = codes "뭐" ∷ codes "무엇" ∷ codes "어떤" ∷ codes "what" ∷ codes "which" ∷ []

unfoldable pub has_cue : Text → List Text → Bool
has_cue prompt cues = any (λ c. contains prompt c) cues

unfoldable pub is_open_question : Text → Bool
is_open_question prompt = any (λ w. contains prompt w) open_words

unfoldable pub detect : Unicode → Text → Option Intent
detect u prompt =
    let p = u.to_lowercase prompt in
    let about_self = has_cue p self_cues || has_cue p recent_cues in
    if about_self && has_cue p concern_cues
    then some concerns
    else if about_self && has_cue p interest_cues
    then some interests
    else if has_cue p recent_cues && is_open_question p
    then some recent
    else none
