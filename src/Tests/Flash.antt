-- ===== src/Tests/Flash.antt =====
-- A request for one candidate, and an answer of the verifier.
use codex_trading_engine.Prelude.{
  String, ◌≡◌, refl, true, false, ◌==◌, Option, none, some, [], ◌∷◌, without, ok, err,
  if◌then◌else◌,
}
use codex_trading_engine.Prelude.Int.{pos}
use codex_trading_engine.Value.{Value, bool, float, str, dict, Dict, empty, field, eq}
use codex_trading_engine.Receipts.Hashing.{Bytes}
use codex_trading_engine.FlashLiquidity.Candidate.{FlashLiquidityCandidate, check_candidate}
use codex_trading_engine.FlashLiquidity.Request.{
  FlashVerificationRequest, require_sha256, check_request, request_dict,
}
use codex_trading_engine.FlashLiquidity.Verification.{
  FlashVerificationEvidence, ProcessResult, completed, FloatResult, raises, finite, changed,
  check_response, run_rust_flash_verification,
}
use codex_trading_engine.FlashLiquidity.Answer.{IsAnswer, run_rust_flash_verification-IsAnswer}

abbrev candidate : FlashLiquidityCandidate
candidate = record {
  candidate_id = "flash-geometry:1";
  route_candidate_id = "triangle:1";
  edge_ids = "a" ∷ "b" ∷ "c" ∷ [];
  asset_path = "X" ∷ "Y" ∷ "Z" ∷ "X" ∷ [];
  provider_id = "flash-provider:1";
  borrowed_asset = "X";
  amount_bucket_id = "flash-bucket:1";
  principal_amount = (pos 100, 0);
  provider_fee_bps = (pos 9, 0);
  available_capacity = (pos 1000, 0);
  repayment_amount = (pos 101, 0);
  projected_output_amount = (pos 102, 0);
  projected_net_profit = (pos 1, 0);
  net_log_delta = (pos 1, 7);
  feasible = true;
  authority = false;
}

candidate_passes : check_candidate candidate ≡ ok tt
unfolding check_candidate
candidate_passes = refl

abbrev request : FlashVerificationRequest
request = record {
  request_id = "flash-verify:1";
  snapshot_sha256 = "0123456789abcdef0123456789abcdef0123456789abcdef0123456789abcdef";
  model_sha256 = "0123456789abcdef0123456789abcdef0123456789abcdef0123456789abcdef";
  confidence_receipt_id = "qaoa-confidence:1";
  flash_candidate = candidate;
  edges = empty ∷ empty ∷ empty ∷ [];
  gas_penalty_log = (pos 0, 0);
  minimum_net_profit = (pos 0, 0);
  authority = false;
}

request_passes : check_request request ≡ ok tt
unfolding check_request require_sha256
request_passes = refl

abbrev verification : Dict
verification = field "route_net_log_delta" (float (pos 1) 7) (
    field "route_output_amount" (float (pos 102) 0) (
      field "repayment_amount" (float (pos 101) 0) (
        field "net_profit" (float (pos 1) 0) (
          field "capacity_ok" (bool true) (
            field "borrowed_asset_matches_route" (bool true)
              (field "repayment_feasible" (bool true) (field "authority" (bool false) empty)))))))

abbrev response : String → Dict
response request_id = field "schema_version" (str "flash-liquidity-response-v0.1") (
    field "request_id" (str request_id) (
      field "snapshot_sha256" (str request.snapshot_sha256) (
        field "model_sha256" (str request.model_sha256) (
          field "confidence_receipt_id" (str request.confidence_receipt_id) (
            field "flash_candidate_id" (str candidate.candidate_id) (
              field "route_candidate_id" (str candidate.route_candidate_id) (
                field "verifier" (str "codex-flash-liquidity-verifier/0.1") (
                  field "status" (str "verified") (
                    field "verification" (dict verification)
                      (field "authority" (bool false) empty))))))))))

-- The bytes 1 are the answer to the request, and the bytes 2 one to another request.
abbrev loads : Bytes → Option Value
loads [] = none
loads (b ∷ bs) =
    if b == 1
    then some (dict (response request.request_id))
    else some (dict (response "flash-verify:2"))

abbrev to_float : Value → FloatResult
to_float (float m k) = finite (m, k)
to_float v = raises

abbrev no_text : Value → String
no_text v = ""

abbrev no_bytes : Dict → Bytes
no_bytes d = []

abbrev answers : Bytes → Bytes → ProcessResult
answers out payload = completed out [] (pos 0)

abbrev evidence : FlashVerificationEvidence
evidence = record {
  request_id = request.request_id;
  snapshot_sha256 = request.snapshot_sha256;
  model_sha256 = request.model_sha256;
  confidence_receipt_id = request.confidence_receipt_id;
  flash_candidate_id = candidate.candidate_id;
  route_candidate_id = candidate.route_candidate_id;
  verifier = "codex-flash-liquidity-verifier/0.1";
  route_net_log_delta = (pos 1, 7);
  route_output_amount = (pos 102, 0);
  repayment_amount = (pos 101, 0);
  net_profit = (pos 1, 0);
  capacity_ok = true;
  borrowed_asset_matches_route = true;
  repayment_feasible = true;
  authority = false;
}

run_rust_flash_verification-IsAnswer_example :
    IsAnswer no_text to_float loads (completed (1 ∷ []) [] (pos 0)) request evidence
unfolding run_rust_flash_verification check_response request_dict without eq
run_rust_flash_verification-IsAnswer_example =
    run_rust_flash_verification-IsAnswer no_text to_float no_bytes loads true true
      (answers (1 ∷ [])) request (pos 2, 0) evidence refl

-- An answer to another request is refused.
other_request :
    run_rust_flash_verification no_text to_float no_bytes loads true true
      (answers (2 ∷ []))
      request
      (pos 2, 0)
    ≡ err (changed "request_id")
unfolding run_rust_flash_verification check_response request_dict without eq
other_request = refl
