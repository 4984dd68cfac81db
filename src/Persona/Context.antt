-- ===== src/Persona/Context.antt =====
-- src-tauri/src/persona/context.rs: the facts that ground an answer, and the text of a prompt. Counts
-- are u32 and wrap around, as they do outside a debug build.
pub mod Orders
pub mod Grounding
use Prim.Native.Nat.{◌%◌}
use knows_me.Base.{
  ℕ, zero, suc, ◌+◌, ◌*◌, ◌-◌, Bool, true, false, not, ◌&&◌, ◌||◌, Option, none, some, List, [],
  ◌∷◌, ◌++◌, map, leb, ltb, ◌==◌, length, take, drop, filter, if◌then◌else◌,
}
use knows_me.Base.Texts.{Text, codes, starts_with, Unicode}
use knows_me.Base.Lines.{split_by}
use knows_me.Base.Sort.{sort_by}
use knows_me.Base.Ranking.{dedup_by}
use knows_me.Domain.{Fact, Time, Scope, company, personal, unknown, scope_eq}
use knows_me.Persona.{
  ChatRole, owner, persona, ChatTurn, DraftKind, email, message, post, ContextEntry, PersonaContext,
  ContextSelection, PersonaPrompt,
}

abbrev title_weight : ℕ
title_weight = 3

abbrev min_term_len : ℕ
min_term_len = 2

abbrev pub wrap32 : ℕ → ℕ
wrap32 n = n % 4294967296

-- `str::matches(..).count()`: the occurrences that do not overlap; `left` characters of the last one are
-- still to come.
unfoldable pub count_matches : Text → ℕ → Text → ℕ
count_matches term left [] = 0
count_matches term (suc left) (c ∷ hay) = count_matches term left hay
count_matches term zero (c ∷ hay) =
    let hit = starts_with (c ∷ hay) term in
    let rest = count_matches term (if hit then length term - 1 else 0) hay in
    if hit then suc rest else rest

abbrev pub sum : List ℕ → ℕ
sum [] = 0
sum (n ∷ ns) = n + sum ns

-- An entry beside the time at which its fact was confirmed.
pub record Ranked : Type 0 where
  pub entry : ContextEntry
  pub confirmed_at : Option Time

abbrev pub in_scope : Option Scope → Fact → Bool
in_scope none f = true
in_scope (some s) f = scope_eq s f.metadata.scope

abbrev pub by_id : Ranked → Ranked → Bool
by_id a b =
    ltb a.entry.id b.entry.id
    || (a.entry.id == b.entry.id && leb b.entry.relevance a.entry.relevance)

-- Whether `a` is not before `b`; no time is before every time.
abbrev pub time_ge : Option Time → Option Time → Bool
time_ge a none = true
time_ge none (some y) = false
time_ge (some x) (some y) = leb y x

abbrev pub by_relevance : Ranked → Ranked → Bool
by_relevance a b =
    ltb b.entry.relevance a.entry.relevance
    || (a.entry.relevance == b.entry.relevance
        && (not (time_ge b.confirmed_at a.confirmed_at)
            || (time_ge a.confirmed_at b.confirmed_at && leb a.entry.id b.entry.id)))

abbrev pub same_id : Ranked → Ranked → Bool
same_id a b = a.entry.id == b.entry.id

abbrev pub eligible : ContextSelection → Fact → Bool
eligible sel f = f.metadata.confirmed && in_scope sel.scope f

abbrev pub entries_of : List Ranked → List ContextEntry
entries_of [] = []
entries_of (r ∷ rs) = r.entry ∷ entries_of rs

module _ (u : Unicode) where
  unfoldable pub terms : Text → List Text
  terms query =
      filter (λ t. leb min_term_len (length t))
        (split_by (λ c. not (u.is_alphanumeric c)) (u.to_lowercase query))

  unfoldable pub term_hits : Text → Text → ℕ
  term_hits query hay = wrap32 (sum (map (λ t. wrap32 (count_matches t 0 hay)) (terms query)))

  unfoldable pub title_relevance : Text → Text → ℕ
  title_relevance query title = wrap32 (term_hits query (u.to_lowercase title) * title_weight)

  unfoldable pub relevance : Text → Fact → ℕ
  relevance query fact =
      wrap32 (title_relevance query fact.title + term_hits query (u.to_lowercase fact.body))

  abbrev pub ranked : Text → Fact → Ranked
  ranked query f = record {
    entry = record {
      id = f.id;
      title = f.title;
      body = f.body;
      scope = f.metadata.scope;
      relevance = relevance query f;
    };
    confirmed_at = f.metadata.confirmed_at;
  }

  unfoldable pub select_context : List Fact → Text → ContextSelection → ℕ → PersonaContext
  select_context facts query sel total =
      let candidates = map (ranked query) (filter (eligible sel) facts) in
      let once = dedup_by same_id (sort_by by_id candidates) in
      record {
        entries = entries_of (take sel.max_facts (sort_by by_relevance once));
        total_confirmed = total;
      }

abbrev pub scope_label : Scope → Text
scope_label company = codes "업무"
scope_label personal = codes "개인"
scope_label unknown = codes "미분류"

abbrev pub kind_directive : DraftKind → Text
kind_directive email =
    codes "요청받은 내용을 이메일 초안으로 작성하세요. 첫 줄에 '제목: '으로 시작하는 제목을 쓰고, 빈 줄 뒤에 격식 있는 본문을 이어 쓰세요."
kind_directive message = codes "요청받은 내용을 메신저 메시지 초안으로 작성하세요. 3문장 이내로 짧고 구어체로 쓰고, 불필요한 인사말은 생략하세요."
kind_directive post =
    codes "요청받은 내용을 공개 게시글 초안으로 작성하세요. 1인칭으로 쓰고, 읽는 사람이 배경을 몰라도 이해할 수 있게 맥락을 먼저 밝히세요."

abbrev pub max_history_turns : ℕ
max_history_turns = 8

abbrev pub is_owner : ChatRole → Bool
is_owner owner = true
is_owner persona = false

abbrev pub reverse_onto : {A : Type 0} → List A → List A → List A
reverse_onto [] out = out
reverse_onto (x ∷ xs) out = reverse_onto xs (x ∷ out)

abbrev spoken : List ChatTurn → Text
spoken [] = []
spoken (t ∷ ts) = codes " " ++ (t.text ++ spoken ts)

-- The input, and the last three turns of the owner, the latest first.
unfoldable pub retrieval_query : Text → List ChatTurn → Text
retrieval_query user_input history =
    user_input ++ spoken (take 3 (filter (λ t. is_owner t.role) (reverse_onto history [])))

abbrev pub instructions : Text
instructions =
    codes
      "당신은 사용자 본인의 페르소나입니다. 아래 [맥락]에 적힌 확정된 사실만 근거로 삼아 1인칭으로 답하세요. 맥락에 없는 내용은 지어내지 말고, 모르는 것은 모른다고 말하세요. [맥락]에 '[주제]'로 시작하는 항목이 있으면, 그것은 여러 기록을 가로질러 모은 것입니다. 개별 사건을 나열하지 말고 무엇이 반복되는지·무엇이 아직 안 풀렸는지를 말하세요. [이전 대화]가 있으면 그 흐름을 이어서 답하고, 지시대명사는 이전 대화에서 가리키는 대상으로 해석하세요."

abbrev pub system_for : Option DraftKind → Text
system_for none = instructions
system_for (some k) = instructions ++ (codes "\n" ++ kind_directive k)

abbrev context_lines : List ContextEntry → Text
context_lines [] = []
context_lines (e ∷ es) =
    codes "- ("
    ++ (scope_label e.scope
        ++ (codes ") "
            ++ (e.title ++ (codes ": " ++ (e.body ++ (codes "\n" ++ context_lines es))))))

abbrev who : ChatRole → Text
who owner = codes "나"
who persona = codes "페르소나"

abbrev turn_lines : List ChatTurn → Text
turn_lines [] = []
turn_lines (t ∷ ts) = who t.role ++ (codes ": " ++ (t.text ++ (codes "\n" ++ turn_lines ts)))

-- The last turns, at most `max_history_turns`.
abbrev pub latest : List ChatTurn → List ChatTurn
latest history = drop (length history - max_history_turns) history

abbrev history_part : List ChatTurn → Text
history_part [] = []
history_part (t ∷ ts) = codes "\n[이전 대화]\n" ++ turn_lines (latest (t ∷ ts))

unfoldable pub render_prompt :
    PersonaContext → Text → Option DraftKind → List ChatTurn → PersonaPrompt
render_prompt ctx user_input kind history = record {
  system = system_for kind;
  user_document =
      codes "[맥락]\n"
      ++ (context_lines ctx.entries ++ (history_part history ++ (codes "\n[요청]\n" ++ user_input)));
}
