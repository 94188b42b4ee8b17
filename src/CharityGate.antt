-- ===== src/CharityGate.antt =====
-- eve_q/risk/charity_allocation_gate.py. `float` of a value is an argument, which gives `none` where
-- Python raises. The evaluation is `none` where it raises: where the inputs are no dictionary, or a
-- score is no number.
pub mod Release
use codex_trading_engine.Prelude.{
  String, Bool, true, false, not, ◌&&◌, ◌||◌, Option, none, some, List, [], ◌∷◌, ◌++◌, is_empty,
  unless, sorted_set, if◌then◌else◌,
}
use codex_trading_engine.Prelude.Int.{ℤ, pos}
use codex_trading_engine.Value.{Value, float, dict, Dict, empty, get, truthy}
use codex_trading_engine.Value.Kinds.{get_or}
use codex_trading_engine.TtlPolicy.Shape.{num_gt}
use codex_trading_engine.FlashLiquidity.Candidate.{Float}

pub record CharityGateResult : Type 0 where
  pub allowed_to_record_balance : Bool
  pub allowed_to_release_funds : Bool
  pub requires_human_review : Bool
  pub block_reasons : List String
  pub review_reasons : List String

-- The floats `0.55` and `0.50`.
abbrev pub confidence_floor : Float
confidence_floor = (pos 4953959590107546, 53)

abbrev pub reliability_floor : Float
reliability_floor = (pos 1, 1)

-- `proposal.get(name, inputs.get(name, 0.0))`
abbrev pub score : Dict → Dict → String → Value
score proposal inputs name = get_or proposal name (get_or inputs name (float (pos 0) 0))

-- The truth of `proposal.get("provenance") or inputs.get("provenance") or []`
abbrev pub has_provenance : Dict → Dict → Bool
has_provenance proposal inputs =
    truthy (get proposal "provenance") || truthy (get inputs "provenance")

unfoldable pub gate_result : Dict → Bool → Bool → Bool → Float → Float → CharityGateResult
gate_result proposal provenance human_reviewed receipt_path_available confidence reliability =
    let block_reasons =
      unless provenance "missing_provenance" ++ unless human_reviewed "human_review_missing" in
    let review_reasons =
      unless receipt_path_available "receipt_path_not_confirmed"
      ++ (unless (not (num_gt confidence_floor confidence)) "low_confidence"
          ++ (unless (not (num_gt reliability_floor reliability)) "low_source_reliability"
              ++ unless (not (truthy (get proposal "requires_human_review")))
                  "policy_requested_review")) in
    record {
      allowed_to_record_balance = provenance;
      allowed_to_release_funds = is_empty block_reasons && receipt_path_available;
      requires_human_review = true;
      block_reasons = block_reasons;
      review_reasons = sorted_set review_reasons;
    }

abbrev pub with_scores :
    Dict → Bool → Bool → Bool → Option Float → Option Float → Option CharityGateResult
with_scores proposal provenance human_reviewed receipt_path_available (some confidence)
      (some reliability) =
    some
      (gate_result proposal provenance human_reviewed receipt_path_available confidence reliability)
with_scores proposal provenance human_reviewed receipt_path_available confidence reliability = none

abbrev pub with_inputs :
    (Value → Option Float) → Dict → Value → Bool → Bool → Option CharityGateResult
with_inputs to_float proposal (dict inputs) human_reviewed receipt_path_available =
    with_scores proposal (has_provenance proposal inputs) human_reviewed receipt_path_available
      (to_float (score proposal inputs "confidence_score"))
      (to_float (score proposal inputs "telemetry_source_reliability"))
with_inputs to_float proposal inputs human_reviewed receipt_path_available = none

unfoldable pub evaluate_charity_gate :
    (Value → Option Float) → Dict → Bool → Bool → Option CharityGateResult
unfolding gate_result
evaluate_charity_gate to_float proposal human_reviewed receipt_path_available =
    with_inputs to_float proposal (get_or proposal "inputs" (dict empty)) human_reviewed
      receipt_path_available
