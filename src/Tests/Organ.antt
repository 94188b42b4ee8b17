-- ===== src/Tests/Organ.antt =====
-- Receipts against a contract that forbids signing.
use codex_trading_engine.Prelude.{String, ◌≡◌, refl, true, some, [], ◌∷◌, both, without, sorted_set}
use codex_trading_engine.Value.{Value, bool, str, list, dict, nil, strings, Dict, empty, field, eq}
use codex_trading_engine.Value.Kinds.{occurs}
use codex_trading_engine.OrganContract.Check.{
  validate_contract_shape, as_string_set, claimed_capabilities, receipt_errors,
  validate_receipt_against_contract, capability_claims, action_fields,
}
use codex_trading_engine.OrganContract.Membrane.{
  IsAdmitted, validate_receipt_against_contract-IsAdmitted,
}

abbrev no_text : Value → String
no_text v = ""

abbrev posture : Dict
posture = field "proposal_only" (bool true) (
    field "human_promotion_required" (bool true) (
      field "ttl_required_for_autonomy" (bool true)
        (field "no_reverse_execution_channel" (bool true) empty)))

abbrev contract : Dict
contract = field "organ_id" (str "eve") (
    field "organ_type" (str "lab") (
      field "version" (str "1") (
        field "default_mode" (str "shadow") (
          field "constitutional_posture" (dict posture) (
            field "allowed_outputs" (list (strings ("report" ∷ []))) (
              field "forbidden_capabilities" (list (strings ("signing" ∷ []))) (
                field "allowed_modes" (list (strings ("shadow" ∷ []))) (
                  field "promotion_path" (list nil)
                    (field "hard_invariants" (list nil) empty)))))))))

abbrev report : Dict → Dict
report d =
    field "artifact_type" (str "report")
      (field "mode" (str "shadow") (field "human_promotion_required" (bool true) d))

validate_receipt_against_contract-IsAdmitted_example : IsAdmitted no_text (report empty) contract
unfolding validate_receipt_against_contract validate_contract_shape receipt_errors
    claimed_capabilities as_string_set occurs eq both without sorted_set
validate_receipt_against_contract-IsAdmitted_example =
    validate_receipt_against_contract-IsAdmitted no_text (report empty) contract empty refl

claims_signing :
    validate_receipt_against_contract no_text
      (report (field "capability" (str "signing") (field "webhook" (str "x") empty)))
      contract
      empty
    ≡ some (action_fields ("webhook" ∷ []) ∷ capability_claims ("signing" ∷ []) ∷ [])
unfolding validate_receipt_against_contract validate_contract_shape receipt_errors
    claimed_capabilities as_string_set occurs eq both without sorted_set
claims_signing = refl
