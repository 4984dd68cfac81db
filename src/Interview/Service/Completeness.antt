-- ===== src/Interview/Service/Completeness.antt =====
-- The facts that src-tauri/src/interview makes, and the guards of src-tauri/src/knowledge/service.rs.
use knows_me.Base.{ℕ, suc, ◌≡◌, refl, false, Option, [], ◌∷◌, take, Bool-cases, inl, inr}
use knows_me.Base.Texts.{
  Text, Unicode, trim, is_whitespace, trim_start, trim_end, keep_end, Starts, trim_start-Starts,
  trim_end-Starts,
}
use knows_me.Base.Lines.{is_empty}
use knows_me.Base.Results.{ok}
use knows_me.Storage.{Store, Codec}
use knows_me.Domain.{FactId, Time, QueueItem, QueueItemId, deepen}
use knows_me.Knowledge.Service.{check_fact}
use knows_me.Interview.Intake.{fact_from_deepen}
use knows_me.Interview.Service.{enqueue}

-- A text that begins with no white space is not blank, unless it is empty.
trim-begun : (c : ℕ) (s : Text) → is_whitespace c ≡ false → is_empty (trim (c ∷ s)) ≡ false
unfolding trim
trim-begun c s h = rw h (kept (trim_end is_whitespace s))
  where
    kept : (r : Text) → is_empty (keep_end is_whitespace c r) ≡ false
    kept [] = rw h refl
    kept (d ∷ r) = refl

trim-take :
    (n : ℕ) (t : Text)
    → Starts is_whitespace t
    → is_empty t ≡ false
    → is_empty (trim (take (suc n) t)) ≡ false
trim-take n [] h e = cc
trim-take n (c ∷ s) h e = trim-begun c (take n s) h

trim-Starts : (s : Text) → Starts is_whitespace (trim s)
unfolding trim
trim-Starts s =
    trim_end-Starts is_whitespace (trim_start is_whitespace s) (trim_start-Starts is_whitespace s)

fact_from_deepen-check :
    (id : FactId) (now : Time) (question answer : Text)
    → is_empty (trim question) ≡ false
    → check_fact (fact_from_deepen id now question answer) ≡ ok tt
unfolding check_fact fact_from_deepen
fact_from_deepen-check id now question answer h =
    rw (trim-take 79 (trim question) (trim-Starts question) h) refl

module _ (u : Unicode) (S : Store) (items : Codec QueueItem) (id_text : QueueItemId → Text) where
  -- An open question that the queue has taken can be answered: whatever the answer, the fact made of
  -- both passes the guards of the knowledge store.
  pub enqueue-answerable :
      (item : QueueItem) (now : Time) (s : S.State) (id : QueueItemId) (question : Text)
      (hypothesis : Option Text) (fact_id : FactId) (later : Time) (answer : Text)
      → (enqueue u S items id_text item now s).0 ≡ ok id
      → item.kind ≡ deepen question hypothesis
      → check_fact (fact_from_deepen fact_id later question answer) ≡ ok tt
  unfolding enqueue
  enqueue-answerable item now s id question hypothesis fact_id later answer h k =
      elim (Bool-cases (is_empty (trim question))) [
        | inl e ↦ let x = rw (k, e) at h in cc x
        | inr e ↦ fact_from_deepen-check fact_id later question answer e
      ]
