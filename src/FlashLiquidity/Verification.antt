-- ===== src/FlashLiquidity/Verification.antt =====
-- `FlashVerificationEvidence` and `run_rust_flash_verification`.
use codex_trading_engine.Prelude.{
  String, Bool, false, not, ◌&&◌, ◌||◌, Option, none, some, List, [], ◌∷◌, length, is_empty,
  without, ltb, Result, ok, err, ◌>>=◌, ◌>>◌, require, if◌then◌else◌,
}
use codex_trading_engine.Prelude.Int.{ℤ, pos, eqb_ℤ}
use codex_trading_engine.Value.{Value, str, dict, Dict, get, keys, is_false, is_str, truthy, eq}
use codex_trading_engine.TtlPolicy.Shape.{num_gt}
use codex_trading_engine.Receipts.Hashing.{Bytes}
use codex_trading_engine.FlashLiquidity.Candidate.{
  Float, zero_float, starts_with, ValueError, path_not_absolute, no_executable,
  timeout_not_positive, request_too_long, number_not_finite, not_a_number,
}
use codex_trading_engine.FlashLiquidity.Request.{FlashVerificationRequest, request_dict}

pub record FlashVerificationEvidence : Type 0 where
  pub request_id : String
  pub snapshot_sha256 : String
  pub model_sha256 : String
  pub confidence_receipt_id : String
  pub flash_candidate_id : String
  pub route_candidate_id : String
  pub verifier : String
  pub route_net_log_delta : Float
  pub route_output_amount : Float
  pub repayment_amount : Float
  pub net_profit : Float
  pub capacity_ok : Bool
  pub borrowed_asset_matches_route : Bool
  pub repayment_feasible : Bool
  pub authority : Bool

-- What `subprocess.run` gives: the process runs out of its time, does not start (`OSError`), or ends.
pub data ProcessResult : Type 0 where
  timed_out not_started : ProcessResult
  completed : (stdout stderr : Bytes) → (returncode : ℤ) → ProcessResult

-- What `float(v)` gives: it raises, or an infinity or NaN, or a finite number.
pub data FloatResult : Type 0 where
  raises not_finite : FloatResult
  finite : Float → FloatResult

pub data FlashError : Type 0 where
  value_error : ValueError → FlashError
  process_timed_out os_error output_too_long rejected malformed_json not_object keys_mismatch
        status_mismatch authority_escalation bad_verifier :
      FlashError
  payload_keys_mismatch payload_authority_escalation : FlashError
  changed : String → FlashError

-- `set(d) == names`
abbrev pub has_keys : Dict → List String → Bool
has_keys d names = is_empty (without (keys d) names) && is_empty (without names (keys d))

abbrev pub expected_top : List String
expected_top =
    "schema_version" ∷ "request_id" ∷ "snapshot_sha256" ∷ "model_sha256" ∷ "confidence_receipt_id"
    ∷ "flash_candidate_id" ∷ "route_candidate_id" ∷ "verifier" ∷ "status" ∷ "verification"
    ∷ "authority" ∷ []

abbrev pub bound_fields : List String
bound_fields =
    "request_id" ∷ "snapshot_sha256" ∷ "model_sha256" ∷ "confidence_receipt_id"
    ∷ "flash_candidate_id" ∷ "route_candidate_id" ∷ []

abbrev pub expected_verification : List String
expected_verification =
    "route_net_log_delta" ∷ "route_output_amount" ∷ "repayment_amount" ∷ "net_profit"
    ∷ "capacity_ok" ∷ "borrowed_asset_matches_route" ∷ "repayment_feasible" ∷ "authority" ∷ []

abbrev pub unchanged : Dict → Dict → List String → Result FlashError Unit
unchanged response request [] = ok tt
unchanged response request (f ∷ fs) =
    let further = unchanged response request fs in
    if eq (get response f) (get request f) then further else err (changed f)

abbrev pub is_verifier : Value → Bool
is_verifier (str s) = starts_with s "codex-flash-liquidity-verifier/"
is_verifier _ = false

abbrev pub response_of : Option Value → Result FlashError Dict
response_of none = err malformed_json
response_of (some (dict d)) = ok d
response_of (some v) = err not_object

abbrev pub verification_of : Value → Result FlashError Dict
verification_of (dict d) =
    if has_keys d expected_verification then ok d else err payload_keys_mismatch
verification_of _ = err payload_keys_mismatch

-- `float(v)`, and then the test of `__post_init__`
abbrev pub float_of : FloatResult → Result FlashError (Option Float)
float_of raises = err (value_error not_a_number)
float_of not_finite = ok none
float_of (finite x) = ok (some x)

abbrev pub finite_of : Option Float → Result FlashError Float
finite_of none = err (value_error number_not_finite)
finite_of (some x) = ok x

module _ (to_str : Value → String) (to_float : Value → FloatResult) where
  -- `str(v)`
  abbrev pub text_of : Value → String
  text_of (str s) = s
  text_of v = to_str v

  abbrev pub evidence_of : Dict → Dict → Result FlashError FlashVerificationEvidence
  evidence_of response verification = do
    any_delta ← float_of (to_float (get verification "route_net_log_delta"))
    any_output ← float_of (to_float (get verification "route_output_amount"))
    any_repayment ← float_of (to_float (get verification "repayment_amount"))
    any_profit ← float_of (to_float (get verification "net_profit"))
    delta ← finite_of any_delta
    output ← finite_of any_output
    repayment ← finite_of any_repayment
    profit ← finite_of any_profit
    ok (record {
      request_id = text_of (get response "request_id");
      snapshot_sha256 = text_of (get response "snapshot_sha256");
      model_sha256 = text_of (get response "model_sha256");
      confidence_receipt_id = text_of (get response "confidence_receipt_id");
      flash_candidate_id = text_of (get response "flash_candidate_id");
      route_candidate_id = text_of (get response "route_candidate_id");
      verifier = text_of (get response "verifier");
      route_net_log_delta = delta;
      route_output_amount = output;
      repayment_amount = repayment;
      net_profit = profit;
      capacity_ok = truthy (get verification "capacity_ok");
      borrowed_asset_matches_route = truthy (get verification "borrowed_asset_matches_route");
      repayment_feasible = truthy (get verification "repayment_feasible");
      authority = false;
    })

  unfoldable pub check_response : Dict → Dict → Result FlashError FlashVerificationEvidence
  check_response request response = do
    require (has_keys response expected_top) keys_mismatch
    require
        (is_str (get response "schema_version") "flash-liquidity-response-v0.1"
          && is_str (get response "status") "verified")
        status_mismatch
    unchanged response request bound_fields
    require (is_false (get response "authority")) authority_escalation
    require (is_verifier (get response "verifier")) bad_verifier
    verification ← verification_of (get response "verification")
    require (is_false (get verification "authority")) payload_authority_escalation
    evidence_of response verification

  abbrev pub read_answer :
      (Bytes → Option Value) → Dict → ProcessResult → Result FlashError FlashVerificationEvidence
  read_answer loads request timed_out = err process_timed_out
  read_answer loads request not_started = err os_error
  read_answer loads request (completed stdout stderr returncode) = do
    require (not (ltb 65536 (length stdout) || ltb 65536 (length stderr))) output_too_long
    require (eqb_ℤ returncode (pos 0)) rejected
    response ← response_of (loads stdout)
    check_response request response

  unfoldable pub run_rust_flash_verification :
      (Dict → Bytes)
      → (Bytes → Option Value)
      → (is_absolute is_file : Bool) → (Bytes → ProcessResult)
      → FlashVerificationRequest
      → Float
      → Result FlashError FlashVerificationEvidence
  unfolding check_response request_dict
  run_rust_flash_verification dumps loads is_absolute is_file run_process request timeout_seconds =
      do
        require is_absolute (value_error path_not_absolute)
        require is_file (value_error no_executable)
        require (num_gt timeout_seconds zero_float) (value_error timeout_not_positive)
        let payload = dumps (request_dict request)
        require (not (ltb 65536 (length payload))) (value_error request_too_long)
        read_answer loads (request_dict request) (run_process payload)
