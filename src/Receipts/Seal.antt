-- ===== src/Receipts/Seal.antt =====
-- `JsonlReceiptLedger.append_event`, `seal_receipt` and the completion rule of
-- eve_q/immutable_receipts.py. A ledger is the list of the entries in its file; that a line of the
-- file reads back as the entry that was written is not modelled.
pub mod Outcome
pub mod InMemory
pub mod Chain
pub mod Completion
use codex_trading_engine.Prelude.{
  ◌+◌, String, Bool, true, false, ◌&&◌, Option, none, some, List, [], ◌∷◌, ◌++◌, length, str_eq,
  ◌==◌, ◌||◌, if◌then◌else◌, Result, ok, err, ◌>>=◌,
}
use codex_trading_engine.Prelude.Int.{pos}
use codex_trading_engine.Value.{Value, bool, int, str, Dict, empty, field, get, update}
use codex_trading_engine.Receipts.Hashing.{Bytes, Hashing, sha256_hex}
use codex_trading_engine.Receipts.Payload.{
  SealError, writer_failed, not_pinned, cid_verification_failed, no_verified_cid,
}
use codex_trading_engine.Receipts.Envelope.{opt_str, build_receipt_envelope}
use codex_trading_engine.Receipts.Ipfs.{IpfsWriter}

abbrev pub Ledger : Type 0
Ledger = List Dict

-- `{"sequence": len(events) + 1, **event}`
abbrev pub append_event : Ledger → Dict → Dict × Ledger
append_event ledger event =
    let entry = update (field "sequence" (int (pos (length ledger + 1))) empty) event in
    (entry, ledger ++ entry ∷ [])

pub record Sealed : Type 0 where
  pub cid : String
  pub local_sha256 : String
  pub envelope_sha256 : Value
  pub envelope : Dict
  pub ledger_event : Dict

abbrev pub bytes_eq : Bytes → Bytes → Bool
bytes_eq [] [] = true
bytes_eq (a ∷ x) (b ∷ y) = a == b && bytes_eq x y
bytes_eq _ _ = false

-- The event that sealing appends.
abbrev pub pinned_event : Hashing → Dict → Option String → Dict → String → Bytes → Dict
pinned_event h receipt previous_cid envelope cid data' = field "event_type" (str "receipt_pinned") (
    field "cid" (str cid) (
      field "local_sha256" (str (sha256_hex h data')) (
        field "envelope_sha256" (get envelope "local_sha256") (
          field "previous_cid" (opt_str previous_cid) (
            field "receipt_type" (get receipt "receipt_type") (
              field "execution_authority" (str "none") (
                field "artifact_is_command" (bool false) (
                  field "may_execute" (bool false)
                    (field "may_move_capital" (bool false) empty)))))))))

module _ {S : Type 0} (w : IpfsWriter S) (h : Hashing) where
  -- The end of `seal_receipt`: the read-back test and the event.
  pub record_pinned :
      Dict
      → Option String
      → Dict
      → Bytes
      → String
      → Option Bytes
      → S
      → Ledger
      → Result SealError Sealed × S × Ledger
  record_pinned receipt previous_cid envelope data' cid none s ledger =
      (err writer_failed, s, ledger)
  record_pinned receipt previous_cid envelope data' cid (some resolved) s ledger =
      let (entry, ledger') =
        append_event ledger (pinned_event h receipt previous_cid envelope cid data') in
      if bytes_eq resolved data'
      then (
        ok (record {
          cid = cid;
          local_sha256 = sha256_hex h data';
          envelope_sha256 = get envelope "local_sha256";
          envelope = envelope;
          ledger_event = entry;
        }),
        s,
        ledger',
      )
      else (err cid_verification_failed, s, ledger)

  -- From the answer of `is_pinned` on.
  pub after_pin :
      Dict
      → Option String
      → Dict
      → Bytes
      → String
      → Option Bool
      → S
      → Ledger
      → Result SealError Sealed × S × Ledger
  unfolding record_pinned
  after_pin receipt previous_cid envelope data' cid none s ledger = (err writer_failed, s, ledger)
  after_pin receipt previous_cid envelope data' cid (some true) s ledger =
      record_pinned receipt previous_cid envelope data' cid (w.cat s cid) s ledger
  after_pin receipt previous_cid envelope data' cid (some false) s ledger =
      (err not_pinned, s, ledger)

  pub verify_pin :
      Dict
      → Option String
      → Dict
      → Bytes
      → Option (String × S)
      → S
      → Ledger
      → Result SealError Sealed × S × Ledger
  unfolding after_pin
  verify_pin receipt previous_cid envelope data' none s ledger = (err writer_failed, s, ledger)
  verify_pin receipt previous_cid envelope data' (some (cid, s')) s ledger =
      after_pin receipt previous_cid envelope data' cid (w.is_pinned s' cid) s' ledger

  pub seal_envelope :
      Dict
      → Option String
      → Result SealError Dict
      → S
      → Ledger
      → Result SealError Sealed × S × Ledger
  unfolding verify_pin
  seal_envelope receipt previous_cid (err e) s ledger = (err e, s, ledger)
  seal_envelope receipt previous_cid (ok envelope) s ledger =
      let data' = h.canonical_json_bytes envelope in
      verify_pin receipt previous_cid envelope data' (w.add_and_pin s data') s ledger

  unfoldable pub seal_receipt :
      Dict → Option String → S → Ledger → Result SealError Sealed × S × Ledger
  unfolding seal_envelope
  seal_receipt receipt previous_cid s ledger =
      seal_envelope receipt previous_cid (build_receipt_envelope h receipt previous_cid) s ledger

-- `not receipt_cid`
abbrev pub absent : Option String → Bool
absent none = true
absent (some s) = str_eq s ""

abbrev pub is_complete_status : String → Bool
is_complete_status s = str_eq s "SETTLED" || str_eq s "COMPLETE"

unfoldable pub require_receipt_cid_for_completion :
    String → String → Option String → Result SealError Bool
require_receipt_cid_for_completion action_kind target_status receipt_cid =
    if is_complete_status target_status && absent receipt_cid
    then err (no_verified_cid action_kind target_status)
    else ok true

-- The text of a CID that is there; `str(None)` where it is not.
abbrev pub written_cid : Option String → String
written_cid none = "None"
written_cid (some s) = s

unfoldable pub mark_action_complete : String → Option String → String → Result SealError Dict
mark_action_complete action_kind receipt_cid target_status = do
  required ← require_receipt_cid_for_completion action_kind target_status receipt_cid
  ok (
      field "action_kind" (str action_kind) (
        field "status" (str target_status)
          (field "receipt_cid" (str (written_cid receipt_cid)) empty)))
