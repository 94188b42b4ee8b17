-- ===== src/Tests/Charity.antt =====
-- A proposal that may be released, and one whose inputs are no dictionary.
use codex_trading_engine.Prelude.{
  ◌≡◌, refl, ◌↔◌, true, false, Option, none, some, [], ◌∷◌, sorted_set, contains,
}
use codex_trading_engine.Prelude.Int.{pos}
use codex_trading_engine.Value.{
  Value, float, str, list, dict, nil, strings, Dict, empty, field, get, truthy,
}
use codex_trading_engine.TtlPolicy.Shape.{num_gt}
use codex_trading_engine.FlashLiquidity.Candidate.{Float}
use codex_trading_engine.CharityGate.{
  CharityGateResult, confidence_floor, reliability_floor, has_provenance, gate_result,
  evaluate_charity_gate,
}
use codex_trading_engine.CharityGate.Release.{IsReleased, evaluate_charity_gate-release_iff}

abbrev to_float : Value → Option Float
to_float (float m k) = some (m, k)
to_float v = none

abbrev inputs : Dict
inputs =
    field "provenance" (list (strings ("cid" ∷ [])))
      (field "confidence_score" (float (pos 1) 2) empty)

abbrev proposal : Dict
proposal = field "inputs" (dict inputs) empty

evaluate_charity_gate-release_iff_example :
    (r : CharityGateResult) × (evaluate_charity_gate to_float proposal true true ≡ some r)
    × (r.requires_human_review ≡ true)
    × (r.allowed_to_record_balance ≡ has_provenance proposal inputs)
    × ((r.allowed_to_release_funds ≡ true) ↔ IsReleased proposal inputs true true)
    × (contains r.review_reasons "receipt_path_not_confirmed" ≡ false)
    × (contains r.review_reasons "low_confidence" ≡ num_gt confidence_floor (pos 1, 2))
    × (contains r.review_reasons "low_source_reliability" ≡ num_gt reliability_floor (pos 0, 0))
    × (contains r.review_reasons "policy_requested_review"
        ≡ truthy (get proposal "requires_human_review"))
evaluate_charity_gate-release_iff_example =
    evaluate_charity_gate-release_iff to_float proposal inputs true true (pos 1, 2) (pos 0, 0) refl
      refl refl

-- The default of `get` is evaluated first: a proposal with all its scores raises where its inputs
-- are no dictionary.
odd_inputs_raise :
    evaluate_charity_gate to_float
      (field "inputs" (list nil) (
        field "provenance" (str "cid") (
          field "confidence_score"
            (float (pos 1) 0)
            (field "telemetry_source_reliability" (float (pos 1) 0) empty))))
      true
      true
    ≡ none
unfolding evaluate_charity_gate
odd_inputs_raise = refl

-- Low scores are reasons for a review.
low_scores :
    (gate_result proposal true true true (pos 1, 2) (pos 0, 0)).review_reasons
    ≡ "low_confidence" ∷ "low_source_reliability" ∷ []
unfolding gate_result sorted_set
low_scores = refl
