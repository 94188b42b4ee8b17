-- ===== src/Receipts/Envelope.antt =====
-- `build_receipt_envelope` and `envelope_digest` of eve_q/immutable_receipts.py.
use codex_trading_engine.Prelude.{String, Option, none, some, true, false, Result, ok, ◌>>◌}
use codex_trading_engine.Value.{Value, null, bool, str, dict, Dict, empty, field, set_item, pop}
use codex_trading_engine.Receipts.Hashing.{Hashing, sha256_hex}
use codex_trading_engine.Receipts.Payload.{SealError, validate_receipt_payload}

-- a `str | None` as a JSON value
abbrev pub opt_str : Option String → Value
opt_str none = null
opt_str (some s) = str s

unfoldable pub envelope_digest : Hashing → Dict → String
envelope_digest h envelope = sha256_hex h (h.canonical_json_bytes (pop envelope "local_sha256"))

abbrev pub unsigned_envelope : Dict → Option String → Dict
unsigned_envelope receipt previous_cid = field "schema" (str "eve_q.immutable_receipt.v0.1") (
    field "version" (str "0.1.0") (
      field "receipt" (dict receipt) (
        field "previous_cid" (opt_str previous_cid) (
          field "execution_authority" (str "none") (
            field "artifact_is_command" (bool false) (
              field "may_execute" (bool false) (
                field "may_move_capital" (bool false)
                  (field "human_promotion_required" (bool true) empty))))))))

unfoldable pub build_receipt_envelope : Hashing → Dict → Option String → Result SealError Dict
build_receipt_envelope h receipt previous_cid = do
  validate_receipt_payload receipt
  let envelope = unsigned_envelope receipt previous_cid
  ok (set_item envelope "local_sha256" (str (envelope_digest h envelope)))
