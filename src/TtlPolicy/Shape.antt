-- ===== src/TtlPolicy/Shape.antt =====
-- `validate_ttl_policy_shape` of eve_q/ttl_policy.py.
use Prim.Native.Nat.{Ordering}
use Prim.Native.String.{compare}
use codex_trading_engine.Prelude.{
  ℕ, ◌+◌, ◌*◌, ◌^◌, String, Bool, true, false, not, Option, some, List, [], ◌∷◌, ◌++◌, is_empty,
  unless, ltb, Result, ok, err, ◌>>=◌, if◌then◌else◌,
}
use codex_trading_engine.Prelude.Int.{ℤ, pos, pos_part, neg_part, ltb_ℤ}
use codex_trading_engine.Value.{
  Value, null, bool, int, float, str, list, dict, Items, nil, cons, Dict, empty, field, get, has,
  eq, number, is_true, is_list,
}

pub data Raised : Type 0 where
  raised : Raised

pub data PolicyError : Type 0 where
  missing_field not_a_list posture_not_true : String → PolicyError
  modes_not_object ranks_not_object : PolicyError
  mode_without_rank target_without_rank mode_without_ttl : String → PolicyError
  unknown_target : String → Value → PolicyError
  authority_increased : String → String → PolicyError
  unknown_mode : Value → PolicyError

-- The fields that are not there, of a sorted list.
abbrev pub missing_fields : Dict → List String → List PolicyError
missing_fields policy [] = []
missing_fields policy (f ∷ fs) = unless (has policy f) (missing_field f) ++ missing_fields policy fs

abbrev pub required_fields : List String
required_fields =
    "authority_rank" ∷ "graceful_degradation_triggers" ∷ "hard_invariants" ∷ "hard_stop_triggers"
    ∷ "human_approval_required_for" ∷ "modes" ∷ "policy_id" ∷ "posture"
    ∷ "safe_outputs_after_degradation" ∷ "ttl_shortening_signals" ∷ "version" ∷ []

abbrev pub posture_fields : List String
posture_fields =
    "authority_expires" ∷ "graceful_degradation_preferred" ∷ "hard_stop_on_forbidden_capability"
    ∷ "human_approval_required_for_renewal" ∷ "uncertainty_degrades_permission" ∷ []

abbrev pub list_fields : List String
list_fields =
    "graceful_degradation_triggers" ∷ "hard_invariants" ∷ "hard_stop_triggers"
    ∷ "human_approval_required_for" ∷ "safe_outputs_after_degradation" ∷ "ttl_shortening_signals"
    ∷ []

abbrev pub posture_errors : Dict → List String → List PolicyError
posture_errors posture [] = []
posture_errors posture (f ∷ fs) =
    unless (is_true (get posture f)) (posture_not_true f) ++ posture_errors posture fs

abbrev pub list_errors : Dict → List String → List PolicyError
list_errors policy [] = []
list_errors policy (f ∷ fs) =
    unless (is_list (get policy f)) (not_a_list f) ++ list_errors policy fs

-- `v in d` for a dictionary with text keys: an unhashable `v` raises.
abbrev pub key_in : Value → Dict → Result Raised Bool
key_in (str s) d = ok (has d s)
key_in (list xs) d = err raised
key_in (dict e) d = err raised
key_in _ d = ok false

abbrev pub key_text : Value → String
key_text (str s) = s
key_text _ = ""

-- `v > w` for numbers
abbrev pub num_gt : ℤ × ℕ → ℤ × ℕ → Bool
num_gt (m, j) (n, k) =
    ltb (pos_part n * 2 ^ j + neg_part m * 2 ^ k) (pos_part m * 2 ^ k + neg_part n * 2 ^ j)

abbrev pub text_gt : String → String → Bool
text_gt s t = elim (compare s t) [ Ordering.gt ↦ true | _ ↦ false ]

abbrev pub num_opt_gt : Option (ℤ × ℕ) → Option (ℤ × ℕ) → Result Raised Bool
num_opt_gt (some a) (some b) = ok (num_gt a b)
num_opt_gt _ _ = err raised

-- `v > w`; two lists compare by the first items that differ, else the longer one is greater.
unfoldable mutual
  pub gt : Value → Value → Result Raised Bool
  gt null w = err raised
  gt (bool b) w = num_opt_gt (number (bool b)) (number w)
  gt (int n) w = num_opt_gt (number (int n)) (number w)
  gt (float m k) w = num_opt_gt (number (float m k)) (number w)
  gt (str s) w = elim w [ str t ↦ ok (text_gt s t) | _ ↦ err raised ]
  gt (list xs) w = elim w [ list ys ↦ gt_items xs ys | _ ↦ err raised ]
  gt (dict d) w = err raised

  pub gt_items : Items → Items → Result Raised Bool
  gt_items nil ys = ok false
  gt_items (cons x xs) ys = elim ys [
    | nil ↦ ok true
    | cons y zs ↦ elim (eq x y) [ true ↦ gt_items xs zs | false ↦ gt x y ]
  ]

-- `isinstance(v, int) and v > 0`; `True` is the integer 1.
abbrev pub is_positive_int : Value → Bool
is_positive_int (int n) = ltb_ℤ (pos 0) n
is_positive_int (bool b) = b
is_positive_int _ = false

abbrev pub ttl_errors : String → Dict → List PolicyError
ttl_errors mode mode_policy =
    if is_true (get mode_policy "ttl_required")
    then unless (is_positive_int (get mode_policy "max_ttl_minutes")) (mode_without_ttl mode)
    else []

-- `if mode in ranks and ranks[target] > ranks[mode]`
abbrev pub rank_errors : Dict → String → String → Result Raised (List PolicyError)
rank_errors ranks mode target =
    if has ranks mode
    then (do
      higher ← gt (get ranks target) (get ranks mode)
      ok (unless (not higher) (authority_increased mode target)))
    else ok []

-- The tests of a mode whose degradation target is a known mode.
abbrev pub target_errors :
    Dict → String → String → Dict → List PolicyError → Result Raised (List PolicyError)
target_errors ranks mode target mode_policy ranked =
    if has ranks target
    then (do
      higher ← rank_errors ranks mode target
      ok (ranked ++ (higher ++ ttl_errors mode mode_policy)))
    else ok (ranked ++ target_without_rank target ∷ [])

-- One round of the loop over `modes.items()`.
unfoldable pub mode_errors : Dict → Dict → String → Value → Result Raised (List PolicyError)
mode_errors ranks modes mode (dict mode_policy) = do
  let target = get mode_policy "degradation_target"
  let ranked = unless (has ranks mode) (mode_without_rank mode)
  known ← key_in target modes
  if known
      then target_errors ranks mode (key_text target) mode_policy ranked
      else ok (ranked ++ unknown_target mode target ∷ [])
mode_errors ranks modes mode _ = err raised

unfoldable pub modes_errors : Dict → Dict → Dict → Result Raised (List PolicyError)
modes_errors ranks modes empty = ok []
modes_errors ranks modes (field mode mode_policy rest) = do
  here ← mode_errors ranks modes mode mode_policy
  others ← modes_errors ranks modes rest
  ok (here ++ others)

abbrev pub shape_of : Dict → List PolicyError → Value → Value → Result Raised (List PolicyError)
shape_of policy earlier (dict modes) (dict ranks) = do
  found ← modes_errors ranks modes modes
  ok (earlier ++ (found ++ list_errors policy list_fields))
shape_of policy earlier (dict modes) _ = ok (earlier ++ ranks_not_object ∷ [])
shape_of policy earlier _ ranks = ok (earlier ++ modes_not_object ∷ [])

abbrev pub posture_shape : Value → Result Raised (List PolicyError)
posture_shape (dict posture) = ok (posture_errors posture posture_fields)
posture_shape _ = err raised

unfoldable pub validate_ttl_policy_shape : Dict → Result Raised (List PolicyError)
validate_ttl_policy_shape policy =
    if is_empty (missing_fields policy required_fields)
    then (do
      earlier ← posture_shape (get policy "posture")
      shape_of policy earlier (get policy "modes") (get policy "authority_rank"))
    else ok (missing_fields policy required_fields)
