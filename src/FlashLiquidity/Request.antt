-- ===== src/FlashLiquidity/Request.antt =====
-- `_require_sha256` and `FlashVerificationRequest`.
use Prim.Native.Char.{Char, code}
use codex_trading_engine.Prelude.{
  ℕ, suc, String, Bool, true, false, not, ◌&&◌, ◌||◌, List, [], ◌∷◌, length, leb, ◌==◌, Result,
  ◌>>◌, require,
}
use codex_trading_engine.Value.{Value, bool, float, str, list, dict, items, Dict, empty, field}
use codex_trading_engine.TtlPolicy.Shape.{num_gt}
use codex_trading_engine.FlashLiquidity.Candidate.{
  Float, zero_float, starts_with, FlashLiquidityCandidate, ValueError, request_namespace,
  receipt_namespace, edges_not_three, gas_negative, profit_negative, request_authority, not_sha256,
}

abbrev pub is_lower_hex : Char → Bool
is_lower_hex c =
    (leb b'0' (code c) && leb (code c) b'9') || (leb b'a' (code c) && leb (code c) b'f')

abbrev pub all_lower_hex : String → Bool
all_lower_hex String.[] = true
all_lower_hex (String.◌∷◌ c s) = is_lower_hex c && all_lower_hex s

abbrev pub text_length : String → ℕ
text_length String.[] = 0
text_length (String.◌∷◌ c s) = suc (text_length s)

unfoldable pub require_sha256 : String → String → Result ValueError Unit
require_sha256 value field_name =
    require ((text_length value == 64) && all_lower_hex value) (not_sha256 field_name)

pub record FlashVerificationRequest : Type 0 where
  pub request_id : String
  pub snapshot_sha256 : String
  pub model_sha256 : String
  pub confidence_receipt_id : String
  pub flash_candidate : FlashLiquidityCandidate
  pub edges : List Dict
  pub gas_penalty_log : Float
  pub minimum_net_profit : Float
  pub authority : Bool

unfoldable pub check_request : FlashVerificationRequest → Result ValueError Unit
unfolding require_sha256
check_request r = do
  require (starts_with r.request_id "flash-verify:") request_namespace
  require_sha256 r.snapshot_sha256 "snapshot_sha256"
  require_sha256 r.model_sha256 "model_sha256"
  require (starts_with r.confidence_receipt_id "qaoa-confidence:") receipt_namespace
  require (length r.edges == 3) edges_not_three
  require (not (num_gt zero_float r.gas_penalty_log)) gas_negative
  require (not (num_gt zero_float r.minimum_net_profit)) profit_negative
  require (not r.authority) request_authority

abbrev pub dicts : List Dict → List Value
dicts [] = []
dicts (d ∷ ds) = dict d ∷ dicts ds

abbrev pub float_value : Float → Value
float_value (m, k) = float m k

-- `as_dict`
unfoldable pub request_dict : FlashVerificationRequest → Dict
request_dict r =
    let c = r.flash_candidate in
    field "schema_version" (str "flash-liquidity-request-v0.1") (
      field "request_id" (str r.request_id) (
        field "snapshot_sha256" (str r.snapshot_sha256) (
          field "model_sha256" (str r.model_sha256) (
            field "confidence_receipt_id" (str r.confidence_receipt_id) (
              field "flash_candidate_id" (str c.candidate_id) (
                field "route_candidate_id" (str c.route_candidate_id) (
                  field "edges" (list (items (dicts r.edges))) (
                    field "gas_penalty_log" (float_value r.gas_penalty_log) (
                      field "provider_id" (str c.provider_id) (
                        field "borrowed_asset" (str c.borrowed_asset) (
                          field "amount_bucket_id" (str c.amount_bucket_id) (
                            field "principal_amount" (float_value c.principal_amount) (
                              field "provider_fee_bps" (float_value c.provider_fee_bps) (
                                field "available_capacity" (float_value c.available_capacity) (
                                  field "minimum_net_profit" (float_value r.minimum_net_profit)
                                    (field "authority" (bool false) empty))))))))))))))))
