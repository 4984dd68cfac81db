-- ===== src/Processing/Gateway.antt =====
-- src-tauri/src/processing/llm_gateway.rs and processing/transfer_log.rs: the calls of the language
-- model, logged and retried. What a call answers depends on how many were made before; the delays
-- between two attempts are left out.
pub mod Retries
use knows_me.Base.{
  ℕ, zero, suc, ◌+◌, Bool, true, false, Option, none, some, List, [], ◌∷◌, ◌++◌, leb, length,
  if◌then◌else◌,
}
use knows_me.Base.Texts.{Text, codes}
use knows_me.Base.Lines.{len, floor_boundary, slice_to}
use knows_me.Base.Results.{
  AppError, Result, ok, err, locked, not_found, invalid_input, crypto, io, external, serde,
}
use knows_me.Io.{Io, pure, raise, lift, continue, ◌>>=◌, ◌>>◌}
use knows_me.Domain.{SourceKind}
use knows_me.Storage.{Store, Codec}
use knows_me.Storage.Documents as Documents

pub data TransferOp : Type 0 where
  summarize_op classify_op vision_extract_op : TransferOp

pub record TransferLogEntry : Type 0 where
  pub at : Text
  pub source : SourceKind
  pub operation : TransferOp
  pub masked_preview : Text
  pub target : Text

abbrev pub transfer_ns : Text
transfer_ns = codes "transfer.log"

-- The language model, by the number of the call.
pub record Model : Type 0 where
  pub summarize : ℕ → Text → Result AppError Text
  pub classify : ℕ → Text → Result AppError (List Text)
  pub vision_extract : ℕ → List ℕ → Result AppError Text

-- The store of the log, and the calls made so far.
pub record Link (State : Type 0) : Type 0 where
  pub store : State
  pub calls : ℕ

abbrev max_preview : ℕ
max_preview = 200

unfoldable pub preview : Text → Text
preview text =
    if leb (len text) max_preview
    then text
    else slice_to text (floor_boundary text max_preview) ++ codes "…"

abbrev pub or_failed : Option AppError → AppError
or_failed none = external
or_failed (some e) = e

-- A locked vault is not tried again.
abbrev pub again : {St A : Type 0} → Result AppError A → (AppError → Io St A) → Io St A
again (ok a) next s = (ok a, s)
again (err locked) next s = (err locked, s)
again (err e) next s = next e s

-- `with_retry`, with the attempts that are left and the last error.
module _ {St A : Type 0} (op : Io St A) where
  unfoldable pub attempt : ℕ → Option AppError → Io St A
  attempt zero last s = (err (or_failed last), s)
  attempt (suc n) last s = again (op s).0 (λ e. attempt n (some e)) (op s).1

  unfoldable pub with_retry : ℕ → Io St A
  with_retry max_attempts = attempt max_attempts none

-- One call of the model.
abbrev pub call : {State A : Type 0} → (ℕ → Result AppError A) → Io (Link State) A
call answer l = (answer l.calls, record l { calls = suc l.calls })

module _ (S : Store) (entries : Codec TransferLogEntry) (number : ℕ → Text) where
  -- The key is the time and the number of the entries before.
  unfoldable pub append : TransferLogEntry → Io S.State (Unit {0})
  append entry = do
    keys ← S.list transfer_ns
    Documents.put S entries transfer_ns (entry.at ++ (codes "-" ++ number (length keys))) entry

  unfoldable pub all : Io S.State (List TransferLogEntry)
  all = Documents.load_all S entries transfer_ns

  module _ (model : Model) (max_attempts : ℕ) (now : Text) where
    unfoldable pub record_transfer : SourceKind → TransferOp → Text → Io (Link S.State) (Unit {0})
    record_transfer source op masked l =
        let logged =
          append
            (record {
              at = now;
              source = source;
              operation = op;
              masked_preview = preview masked;
              target = codes "cloud-llm";
            })
            l.store in
        (logged.0, record l { store = logged.1 })

    unfoldable pub summarize : SourceKind → Text → Io (Link S.State) Text
    summarize source masked = do
      record_transfer source summarize_op masked
      with_retry (call (λ n. model.summarize n masked)) max_attempts

    unfoldable pub classify : SourceKind → Text → Io (Link S.State) (List Text)
    classify source masked = do
      record_transfer source classify_op masked
      with_retry (call (λ n. model.classify n masked)) max_attempts

    unfoldable pub vision_extract : SourceKind → List ℕ → Io (Link S.State) Text
    vision_extract source image = do
      out ← with_retry (call (λ n. model.vision_extract n image)) max_attempts
      record_transfer source vision_extract_op out
      pure out
