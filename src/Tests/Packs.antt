-- ===== src/Tests/Packs.antt =====
-- Concrete codecs for the tests: numbers, texts, options, lists and pairs in front of a rest.
use knows_me.Base.{
  ℕ, zero, suc, ◌≡◌, refl, ap, Bool, true, false, Option, none, some, List, [], ◌∷◌, length, ◌==◌,
}
use knows_me.Base.Texts.{Text}
use knows_me.Storage.{Bytes, Codec}
use knows_me.Domain.{
  Fact, FactChange, FactCandidate, FactMetadata, Provenance, SourceKind, session, notion, gmail,
  file, confluence, jira, FactKind, note, practice, preference, project, concern, concept, Scope,
  company, personal, unknown, Visibility, private, shared, QueueItem, QueueItemKind, confirm,
  deepen, RawItem,
}
use knows_me.Sharing.Tokens.{TokenRecord}
use knows_me.Processing.Pending.{PendingItem}
use knows_me.Processing.Gateway.{
  TransferLogEntry, TransferOp, summarize_op, classify_op, vision_extract_op,
}

abbrev pub Parse : Type 0 → Type 0
Parse A = Option (A × Bytes)

pub record Pack (A : Type 0) : Type 0 where
  pub write : A → Bytes → Bytes
  pub read : Bytes → Parse A
  pub round : (a : A) (r : Bytes) → read (write a r) ≡ some (a, r)

abbrev read_number : Bytes → Parse ℕ
read_number [] = none
read_number (n ∷ r) = some (n, r)

abbrev pub number : Pack ℕ
number = record { write = λ n r. n ∷ r; read = read_number; round = λ n r. refl }

module _ {A B : Type 0} where
  abbrev pub along : (A → Bytes → Parse B) → Parse A → Parse B
  along f none = none
  along f (some (a, r)) = f a r

module _ {A B : Type 0} (p : Pack A) (q : Pack B) where
  abbrev read_pair : Bytes → Parse (A × B)
  read_pair s = along (λ a r. along (λ b t. some ((a, b), t)) (q.read r)) (p.read s)

  abbrev pub pair : Pack (A × B)
  pair = record {
    write = λ x r. p.write x.0 (q.write x.1 r);
    read = read_pair;
    round = λ x r. rw (p.round x.0 (q.write x.1 r), q.round x.1 r) refl;
  }

module _ {A : Type 0} (p : Pack A) where
  abbrev write_all : List A → Bytes → Bytes
  write_all [] r = r
  write_all (a ∷ xs) r = p.write a (write_all xs r)

  abbrev read_some : ℕ → Bytes → Parse (List A)
  read_some zero s = some ([], s)
  read_some (suc n) s = along (λ a r. along (λ xs t. some (a ∷ xs, t)) (read_some n r)) (p.read s)

  pub read_all : (xs : List A) (r : Bytes) → read_some (length xs) (write_all xs r) ≡ some (xs, r)
  read_all [] r = refl
  read_all (a ∷ xs) r = rw (p.round a (write_all xs r), read_all xs r) refl

  abbrev read_list : Bytes → Parse (List A)
  read_list [] = none
  read_list (n ∷ s) = read_some n s

  abbrev pub many : Pack (List A)
  many = record { write = λ xs r. length xs ∷ write_all xs r; read = read_list; round = read_all }

  abbrev write_option : Option A → Bytes → Bytes
  write_option none r = 0 ∷ r
  write_option (some a) r = 1 ∷ p.write a r

  abbrev read_option : Bytes → Parse (Option A)
  read_option [] = none
  read_option (zero ∷ s) = some (none, s)
  read_option (suc n ∷ s) = along (λ a r. some (some a, r)) (p.read s)

  pub round_option : (o : Option A) (r : Bytes) → read_option (write_option o r) ≡ some (o, r)
  round_option none r = refl
  round_option (some a) r = rw (p.round a r) refl

  abbrev pub maybe : Pack (Option A)
  maybe = record { write = write_option; read = read_option; round = round_option }

module _ {A B : Type 0} (p : Pack A) (to : B → A) (back : A → B)
    (same : (b : B) → back (to b) ≡ b) where
  abbrev pub through : Pack B
  through = record {
    write = λ b r. p.write (to b) r;
    read = λ s. along (λ a r. some (back a, r)) (p.read s);
    round = λ b r. rw (p.round (to b) r, same b) refl;
  }

module _ {A : Type 0} (p : Pack A) where
  abbrev only : Parse A → Option A
  only none = none
  only (some (a, r)) = some a

  abbrev pub codec : Codec A
  codec = record {
    encode = λ a. p.write a [];
    decode = λ s. only (p.read s);
    decode-encode = λ a. rw (p.round a []) refl;
  }

abbrev pub text : Pack Text
text = many number

abbrev from_bool : Bool → ℕ
from_bool false = 0
from_bool true = 1

abbrev bool_same : (b : Bool) → (from_bool b == 1) ≡ b
bool_same false = refl
bool_same true = refl

abbrev pub flag : Pack Bool
flag = through number from_bool (λ n. n == 1) bool_same

abbrev pub token_codec : Codec TokenRecord
token_codec = codec (
    through (pair text (pair (many text) (pair number flag)))
      (λ r. (r.id, (r.granted, (r.issued_at, (r.revoked)))))
      (λ t. record { id = t.0; granted = t.1.0; issued_at = t.1.1.0; revoked = t.1.1.1 })
      (λ r. refl))

abbrev source_to : SourceKind → ℕ
source_to session = 0
source_to notion = 1
source_to gmail = 2
source_to file = 3
source_to confluence = 4
source_to jira = 5

abbrev source_back : ℕ → SourceKind
source_back zero = session
source_back (suc zero) = notion
source_back (suc (suc zero)) = gmail
source_back (suc (suc (suc zero))) = file
source_back (suc (suc (suc (suc zero)))) = confluence
source_back (suc (suc (suc (suc (suc n))))) = jira

abbrev source_same : (s : SourceKind) → source_back (source_to s) ≡ s
source_same session = refl
source_same notion = refl
source_same gmail = refl
source_same file = refl
source_same confluence = refl
source_same jira = refl

abbrev kind_to : FactKind → ℕ
kind_to note = 0
kind_to practice = 1
kind_to preference = 2
kind_to project = 3
kind_to concern = 4
kind_to concept = 5

abbrev kind_back : ℕ → FactKind
kind_back zero = note
kind_back (suc zero) = practice
kind_back (suc (suc zero)) = preference
kind_back (suc (suc (suc zero))) = project
kind_back (suc (suc (suc (suc zero)))) = concern
kind_back (suc (suc (suc (suc (suc n))))) = concept

abbrev kind_same : (s : FactKind) → kind_back (kind_to s) ≡ s
kind_same note = refl
kind_same practice = refl
kind_same preference = refl
kind_same project = refl
kind_same concern = refl
kind_same concept = refl

abbrev scope_to : Scope → ℕ
scope_to company = 0
scope_to personal = 1
scope_to unknown = 2

abbrev scope_back : ℕ → Scope
scope_back zero = company
scope_back (suc zero) = personal
scope_back (suc (suc n)) = unknown

abbrev scope_same : (s : Scope) → scope_back (scope_to s) ≡ s
scope_same company = refl
scope_same personal = refl
scope_same unknown = refl

abbrev visibility_to : Visibility → Bool
visibility_to private = false
visibility_to shared = true

abbrev visibility_back : Bool → Visibility
visibility_back false = private
visibility_back true = shared

abbrev visibility_same : (v : Visibility) → visibility_back (visibility_to v) ≡ v
visibility_same private = refl
visibility_same shared = refl

abbrev source : Pack SourceKind
source = through number source_to source_back source_same

abbrev kind : Pack FactKind
kind = through number kind_to kind_back kind_same

abbrev scope : Pack Scope
scope = through number scope_to scope_back scope_same

abbrev visibility : Pack Visibility
visibility = through flag visibility_to visibility_back visibility_same

abbrev provenance : Pack Provenance
provenance =
    through (pair source number) (λ p. (p.source, p.collected_at))
      (λ t. record { source = t.0; collected_at = t.1 }) (λ p. refl)

abbrev metadata : Pack FactMetadata
metadata =
    through
      (pair provenance (
        pair flag (
          pair scope
            (pair (maybe number) (pair visibility (pair (maybe text) (pair (many text) kind)))))))
      (λ m. (
        m.provenance,
        (
          m.confirmed,
          (m.scope, (m.confirmed_at, (m.visibility, (m.category, (m.topics, (m.kind)))))),
        ),
      ))
      (λ t. record {
        provenance = t.0;
        confirmed = t.1.0;
        scope = t.1.1.0;
        confirmed_at = t.1.1.1.0;
        visibility = t.1.1.1.1.0;
        category = t.1.1.1.1.1.0;
        topics = t.1.1.1.1.1.1.0;
        kind = t.1.1.1.1.1.1.1;
      })
      (λ m. refl)

abbrev pub fact_codec : Codec Fact
fact_codec = codec (
    through (pair number (pair text (pair text (pair (many number) metadata))))
      (λ f. (f.id, (f.title, (f.body, (f.links, (f.metadata))))))
      (λ t. record {
        id = t.0;
        title = t.1.0;
        body = t.1.1.0;
        links = t.1.1.1.0;
        metadata = t.1.1.1.1;
      })
      (λ f. refl))

abbrev pub log_codec : Codec (List FactChange)
log_codec = codec (
    many (
      through (pair number (pair (maybe text) (pair text (maybe text))))
        (λ c. (c.changed_at, (c.before, (c.after, (c.note)))))
        (λ t. record { changed_at = t.0; before = t.1.0; after = t.1.1.0; note = t.1.1.1 })
        (λ c. refl)))

abbrev candidate : Pack FactCandidate
candidate =
    through
      (pair text
        (pair text (pair provenance (pair scope (pair (many text) (pair kind visibility))))))
      (λ c. (
        c.title,
        (c.body, (c.provenance, (c.suggested_scope, (c.topics, (c.kind, (c.visibility)))))),
      ))
      (λ t. record {
        title = t.0;
        body = t.1.0;
        provenance = t.1.1.0;
        suggested_scope = t.1.1.1.0;
        topics = t.1.1.1.1.0;
        kind = t.1.1.1.1.1.0;
        visibility = t.1.1.1.1.1.1;
      })
      (λ c. refl)

-- A candidate, or a question with its hypothesis.
abbrev write_kind : QueueItemKind → Bytes → Bytes
write_kind (confirm c) r = 0 ∷ candidate.write c r
write_kind (deepen q h) r = 1 ∷ (pair text (maybe text)).write (q, h) r

abbrev read_kind : Bytes → Parse QueueItemKind
read_kind [] = none
read_kind (zero ∷ s) = along (λ c r. some (confirm c, r)) (candidate.read s)
read_kind (suc n ∷ s) = along (λ p r. some (deepen p.0 p.1, r)) ((pair text (maybe text)).read s)

pub round_kind : (k : QueueItemKind) (r : Bytes) → read_kind (write_kind k r) ≡ some (k, r)
round_kind (confirm c) r = ap (along (λ d t. some (confirm d, t))) (candidate.round c r)
round_kind (deepen q h) r =
    ap (along (λ p t. some (deepen p.0 p.1, t))) ((pair text (maybe text)).round (q, h) r)

abbrev item_kind : Pack QueueItemKind
item_kind = record { write = write_kind; read = read_kind; round = round_kind }

abbrev pub item_codec : Codec QueueItem
item_codec = codec (
    through (pair number (pair item_kind (pair number (pair number (maybe number)))))
      (λ i. (i.id, (i.kind, (i.priority, (i.created_at, (i.expires_at))))))
      (λ t. record {
        id = t.0;
        kind = t.1.0;
        priority = t.1.1.0;
        created_at = t.1.1.1.0;
        expires_at = t.1.1.1.1;
      })
      (λ i. refl))

abbrev pub text_codec : Codec Text
text_codec = codec text

abbrev raw_item : Pack RawItem
raw_item =
    through (pair source (pair text (pair number (pair (maybe text) (maybe (many number))))))
      (λ i. (i.source, (i.external_id, (i.collected_at, (i.text, (i.image_png))))))
      (λ t. record {
        source = t.0;
        external_id = t.1.0;
        collected_at = t.1.1.0;
        text = t.1.1.1.0;
        image_png = t.1.1.1.1;
      })
      (λ i. refl)

abbrev pub pending_codec : Codec PendingItem
pending_codec = codec (
    through (pair raw_item (pair text number)) (λ p. (p.raw, (p.queued_at, (p.attempts))))
      (λ t. record { raw = t.0; queued_at = t.1.0; attempts = t.1.1 }) (λ p. refl))

abbrev op_to : TransferOp → ℕ
op_to summarize_op = 0
op_to classify_op = 1
op_to vision_extract_op = 2

abbrev op_back : ℕ → TransferOp
op_back zero = summarize_op
op_back (suc zero) = classify_op
op_back (suc (suc n)) = vision_extract_op

abbrev op_same : (o : TransferOp) → op_back (op_to o) ≡ o
op_same summarize_op = refl
op_same classify_op = refl
op_same vision_extract_op = refl

abbrev pub transfer_codec : Codec TransferLogEntry
transfer_codec = codec (
    through (pair text (pair source (pair (through number op_to op_back op_same) (pair text text))))
      (λ e. (e.at, (e.source, (e.operation, (e.masked_preview, (e.target))))))
      (λ t. record {
        at = t.0;
        source = t.1.0;
        operation = t.1.1.0;
        masked_preview = t.1.1.1.0;
        target = t.1.1.1.1;
      })
      (λ e. refl))
