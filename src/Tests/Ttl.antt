-- ===== src/Tests/Ttl.antt =====
-- Evaluations under a policy of two modes.
use codex_trading_engine.Prelude.{
  String, List, ◌≡◌, refl, true, false, ◌⊎◌, Option, none, [], ◌∷◌, sorted_set, both, ok, err,
}
use codex_trading_engine.Prelude.Int.{ℤ, pos, ◌≤ℤ◌}
use codex_trading_engine.Value.{
  Value, null, bool, int, str, list, dict, nil, Dict, empty, field, get, strings, eq,
}
use codex_trading_engine.TtlPolicy.Shape.{
  key_text, gt, mode_errors, modes_errors, validate_ttl_policy_shape,
}
use codex_trading_engine.TtlPolicy.Evaluate.{
  TtlResult, text_members, as_string_set, shorten_ttl_minutes, cap_ttl_minutes, evaluate_ttl_state,
}
use codex_trading_engine.TtlPolicy.Degradation.Escalation.{evaluate-never_escalates, evaluate-stops}
use codex_trading_engine.TtlPolicy.Degradation.Bounds.{
  IsHalfOf, evaluate-ttl_halved, evaluate-ttl_capped,
}

abbrev no_text : Value → String
no_text v = ""

abbrev no_number : String → Option ℤ
no_number s = none

abbrev live : Dict
live =
    field "degradation_target" (str "shadow")
      (field "ttl_required" (bool true) (field "max_ttl_minutes" (int (pos 60)) empty))

abbrev shadow : Dict
shadow = field "degradation_target" (str "shadow") (field "ttl_required" (bool false) empty)

abbrev modes : Dict
modes = field "live" (dict live) (field "shadow" (dict shadow) empty)

abbrev ranks : Dict
ranks = field "live" (int (pos 2)) (field "shadow" (int (pos 1)) empty)

abbrev posture : Dict
posture = field "authority_expires" (bool true) (
    field "graceful_degradation_preferred" (bool true) (
      field "hard_stop_on_forbidden_capability" (bool true) (
        field "human_approval_required_for_renewal" (bool true)
          (field "uncertainty_degrades_permission" (bool true) empty))))

abbrev policy : Dict
policy = field "policy_id" (str "ttl") (
    field "version" (str "1") (
      field "posture" (dict posture) (
        field "modes" (dict modes) (
          field "authority_rank" (dict ranks) (
            field "hard_invariants" (list nil) (
              field "human_approval_required_for" (list nil) (
                field "hard_stop_triggers" (list (strings ("signing" ∷ []))) (
                  field "graceful_degradation_triggers" (list (strings ("stale_feed" ∷ []))) (
                    field "ttl_shortening_signals" (list (strings ("volatility" ∷ []))) (
                      field "safe_outputs_after_degradation" (list (strings ("report" ∷ [])))
                        empty))))))))))

abbrev volatile : Dict
volatile = field "mode" (str "live") (
    field "signals" (list (strings ("volatility" ∷ "stale_feed" ∷ [])))
      (field "current_ttl_minutes" (int (pos 90)) empty))

abbrev signing : Dict
signing = field "mode" (str "live") (
    field "requested_capabilities" (list (strings ("signing" ∷ [])))
      (field "current_ttl_minutes" (int (pos 90)) empty))

abbrev unset : TtlResult
unset = record {
  valid = false;
  mode = null;
  effective_mode = null;
  degraded_to = null;
  hard_stop = true;
  ttl_minutes = null;
  ttl_shortened = false;
  safe_outputs = nil;
  human_approval_required = false;
  reverse_execution_channel_opened = false;
  reasons = [];
  errors = [];
}

abbrev result_of : Dict → TtlResult
result_of state = elim (evaluate_ttl_state no_text no_number state policy) [
  | ok r ↦ r
  | err e ↦ unset
]

evaluate-never_escalates_example :
    ((result_of volatile).effective_mode ≡ str "live")
    ⊎ (gt (get ranks (key_text (result_of volatile).effective_mode)) (get ranks "live") ≡ ok false)
unfolding evaluate_ttl_state validate_ttl_policy_shape modes_errors mode_errors gt as_string_set
    text_members cap_ttl_minutes sorted_set both shorten_ttl_minutes
evaluate-never_escalates_example =
    evaluate-never_escalates no_text no_number volatile policy ranks (result_of volatile) refl refl
      refl refl

evaluate-stops_example :
    ((result_of signing).hard_stop ≡ true)
    × ((result_of signing).effective_mode ≡ str "artifact_only")
    × ((result_of signing).ttl_minutes ≡ null)
    × ((result_of signing).human_approval_required ≡ true)
unfolding evaluate_ttl_state validate_ttl_policy_shape modes_errors mode_errors gt as_string_set
    text_members cap_ttl_minutes sorted_set both shorten_ttl_minutes
evaluate-stops_example =
    evaluate-stops no_text no_number signing policy (result_of signing) ("signing" ∷ []) []
      ("signing" ∷ []) "signing" refl refl refl refl refl refl refl

evaluate-ttl_capped_example : (n : ℤ) × ((result_of volatile).ttl_minutes ≡ int n) × (n ≤ℤ pos 60)
unfolding evaluate_ttl_state validate_ttl_policy_shape modes_errors mode_errors gt as_string_set
    text_members cap_ttl_minutes sorted_set both shorten_ttl_minutes
evaluate-ttl_capped_example =
    evaluate-ttl_capped no_text no_number volatile policy modes ranks live (result_of volatile)
      (pos 60) refl refl refl refl refl refl refl

evaluate-ttl_halved_example :
    ((result_of volatile).ttl_shortened ≡ true)
    × (n : ℤ) × ((result_of volatile).ttl_minutes ≡ int n)
    × (t : ℤ) × IsHalfOf t n
    × (t ≤ℤ pos 90)
    × (t ≤ℤ pos 60)
    × ((t ≡ pos 90) ⊎ (t ≡ pos 60))
unfolding evaluate_ttl_state validate_ttl_policy_shape modes_errors mode_errors gt as_string_set
    text_members cap_ttl_minutes sorted_set both shorten_ttl_minutes
evaluate-ttl_halved_example =
    evaluate-ttl_halved no_text no_number volatile policy modes live (result_of volatile) (pos 90)
      (pos 60) ("volatility" ∷ "stale_feed" ∷ []) ("volatility" ∷ []) "volatility" refl refl refl
      refl refl refl refl refl refl refl refl refl

-- The 90 minutes are cut to 60 and halved.
halved : (result_of volatile).ttl_minutes ≡ int (pos 30)
unfolding evaluate_ttl_state validate_ttl_policy_shape modes_errors mode_errors gt as_string_set
    text_members cap_ttl_minutes sorted_set both shorten_ttl_minutes
halved = refl

-- Ranks that are lists compare item by item.
abbrev items : List String → Value
items xs = list (strings xs)

longer_is_greater : gt (items ("a" ∷ "b" ∷ [])) (items ("a" ∷ [])) ≡ ok true
unfolding gt eq
longer_is_greater = refl

first_item_decides : gt (items ("a" ∷ "b" ∷ [])) (items ("b" ∷ [])) ≡ ok false
unfolding gt eq
first_item_decides = refl
