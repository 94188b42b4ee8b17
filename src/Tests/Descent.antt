-- ===== src/Tests/Descent.antt =====
-- A draft of one day, validated before it expires.
use codex_trading_engine.Prelude.{
  without, String, ◌≡◌, refl, Option, none, some, [], str_eq, if◌then◌else◌, arith,
}
use codex_trading_engine.Prelude.Int.{ℤ, pos, ◌-ℤ◌}
use codex_trading_engine.Prelude.Times.{IsoTime, malformed, aware}
use codex_trading_engine.Value.{Value, Dict, empty, nil}
use codex_trading_engine.GateDescent.Validate.{
  parse_utc, compute_artifact_id, validate_gate_descent,
}
use codex_trading_engine.GateDescent.Draft.{build_gate_0_to_1_draft, draft-valid}
use codex_trading_engine.GateDescent.Sound.{IsHarmless, valid-IsHarmless}
use codex_trading_engine.Receipts.Hex.{to_hex}
use codex_trading_engine.Receipts.Hashing.{sha256_hex}
use codex_trading_engine.Tests.World.{toy}

abbrev no_text : Value → String
no_text v = ""

abbrev no_number : String → Option ℤ
no_number s = none

abbrev clock : String → IsoTime
clock s =
    if str_eq s "1970-01-01T00:00:00+00:00"
    then aware (pos 0)
    else if str_eq s "1970-01-02T00:00:00+00:00"
    then aware (pos 86400000000)
    else malformed

draft-valid_example :
    (draft : Dict) × (build_gate_0_to_1_draft toy no_text no_number clock "1970-01-01T00:00:00Z"
        "1970-01-02T00:00:00Z" nil
      ≡ some draft)
    × (validate_gate_descent toy no_text no_number clock (pos 5) draft ≡ [])
unfolding ◌-ℤ◌ parse_utc
draft-valid_example =
    draft-valid toy no_text no_number clock "1970-01-01T00:00:00Z" "1970-01-02T00:00:00Z" nil
      (pos 0) (pos 86400000000) (pos 5) refl refl (omega arith) (omega arith) (omega arith)

abbrev epoch_draft : Dict
epoch_draft =
    elim (build_gate_0_to_1_draft toy no_text no_number clock "1970-01-01T00:00:00Z"
      "1970-01-02T00:00:00Z" nil) [ none ↦ empty | some d ↦ d ]

valid-IsHarmless_example : IsHarmless toy no_text no_number clock epoch_draft
unfolding build_gate_0_to_1_draft parse_utc validate_gate_descent compute_artifact_id sha256_hex
    to_hex ◌-ℤ◌ without
valid-IsHarmless_example = valid-IsHarmless toy no_text no_number clock (pos 5) epoch_draft refl
