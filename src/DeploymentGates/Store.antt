-- ===== src/DeploymentGates/Store.antt =====
-- `GraduationStateStore` of eve_q/deployment_gates.py. The file's content is an `Option Dict`, `none`
-- where there is no file; that what is written reads back the same is not modelled. The clock,
-- `str.strip` and `int` of a text are arguments.
pub mod Ladder
use codex_trading_engine.Prelude.{
  String, Bool, true, false, not, ◌&&◌, ◌||◌, Option, none, some, List, [], ◌∷◌, ◌++◌, str_eq, ◌==◌,
  Result, ok, err, ◌>>=◌, if◌then◌else◌, map,
}
use codex_trading_engine.Prelude.Int.{ℤ, pos}
use codex_trading_engine.Value.{
  Value, null, bool, int, str, list, dict, Items, nil, cons, items, Dict, empty, field, get, has,
  set_item, strings,
}
use codex_trading_engine.Receipts.Envelope.{opt_str}
use codex_trading_engine.TtlPolicy.Shape.{Raised, raised}
use codex_trading_engine.TtlPolicy.Evaluate.{int_of}
use codex_trading_engine.DeploymentGates.Tiers.{DeploymentTier, level, tier_of, GraduationDecision}

abbrev pub load : Option Dict → Dict
load none = field "current_tier" (int (pos 0)) (field "history" (list nil) empty)
load (some state) = state

abbrev pub valid_tier : Option DeploymentTier → Result Raised DeploymentTier
valid_tier none = err raised
valid_tier (some t) = ok t

-- `items.append(event)`
abbrev pub append : Items → Value → Items
append nil e = cons e nil
append (cons x xs) e = cons x (append xs e)

abbrev pub append_to : Value → Value → Result Raised Value
append_to (list xs) e = ok (list (append xs e))
append_to _ e = err raised

-- `not approved_by` and `bool(normalized_approver)`
abbrev pub is_named : Option String → Bool
is_named none = false
is_named (some s) = not (str_eq s "")

module _ (to_str : Value → String) (parse_int : String → Option ℤ) (strip : String → String) where
  -- `approved_by.strip() if approved_by else None`
  abbrev pub normalized : Option String → Option String
  normalized none = none
  normalized (some s) = if str_eq s "" then none else some (strip s)

  -- `DeploymentTier(int(state.get("current_tier", 0)))`
  unfoldable pub stored_tier : Dict → Result Raised DeploymentTier
  stored_tier state = do
    n ←
        int_of to_str parse_int
          (if has state "current_tier" then get state "current_tier" else int (pos 0))
    valid_tier (tier_of n)

  abbrev pub approval_satisfied : GraduationDecision → Option String → Bool
  approval_satisfied d approved_by =
      not d.human_approval_required || is_named (normalized approved_by)

  abbrev pub promotion_recorded : GraduationDecision → Option String → DeploymentTier → Bool
  promotion_recorded d approved_by stored =
      d.eligible && (approval_satisfied d approved_by && (level stored == level d.current_tier))

  abbrev pub decision_event : String → GraduationDecision → Option String → DeploymentTier → Value
  decision_event now d approved_by stored = dict (
      field "timestamp" (str now) (
        field "decision"
          (dict (
            field "eligible" (bool d.eligible) (
              field "current_tier" (int (pos (level d.current_tier))) (
                field "requested_tier" (int (pos (level d.requested_tier))) (
                  field "failures" (list (strings d.failures)) (
                    field "human_approval_required" (bool d.human_approval_required)
                      (field "authority" (bool false) empty)))))))
          (field "approved_by" (opt_str (normalized approved_by)) (
            field "state_matches_decision" (bool (level stored == level d.current_tier)) (
              field "promotion_recorded" (bool (promotion_recorded d approved_by stored)) empty)))))

  -- `state.setdefault("history", [])`
  abbrev pub history : Dict → Value
  history state = if has state "history" then get state "history" else list nil

  abbrev pub with_tier : Bool → DeploymentTier → Dict → Dict
  with_tier promoted t state =
      if promoted then set_item state "current_tier" (int (pos (level t))) else state

  -- The file's content after `record_decision`.
  unfoldable pub record_decision :
      String → Option Dict → GraduationDecision → Option String → Result Raised Dict
  unfolding stored_tier
  record_decision now file d approved_by = do
    stored ← stored_tier (load file)
    events ← append_to (history (load file)) (decision_event now d approved_by stored)
    ok (
        with_tier (promotion_recorded d approved_by stored) d.requested_tier
          (set_item (load file) "history" events))
