-- ===== src/TtlPolicy/Evaluate.antt =====
-- `_as_string_set`, `_cap_ttl_minutes`, `_shorten_ttl_minutes` and `evaluate_ttl_state`, the policy
-- being given.
use codex_trading_engine.Prelude.{
  ℕ, suc, ◌-◌, ◌/◌, ◌^◌, String, Bool, true, false, not, ◌&&◌, ◌||◌, Option, none, some, List, [],
  ◌∷◌, ◌++◌, map, is_empty, ◌==◌, sorted_set, both, Result, ok, err, ◌>>=◌, if◌then◌else◌,
}
use codex_trading_engine.Prelude.Int.{ℤ, pos, negsuc, ltb_ℤ}
use codex_trading_engine.Value.{
  Value, null, bool, int, float, str, list, dict, Items, nil, cons, Dict, get, keys, is_true,
  truthy,
}
use codex_trading_engine.TtlPolicy.Shape.{
  Raised, raised, PolicyError, unknown_mode, key_in, key_text, validate_ttl_policy_shape,
}

pub data Reason : Type 0 where
  hard_stop_by ttl_shortened_by degraded_by : String → Reason
  ttl_expired ttl_required_but_missing : Reason

pub record TtlResult : Type 0 where
  pub valid : Bool
  pub mode : Value
  pub effective_mode : Value
  pub degraded_to : Value
  pub hard_stop : Bool
  pub ttl_minutes : Value
  pub ttl_shortened : Bool
  pub safe_outputs : Items
  pub human_approval_required : Bool
  pub reverse_execution_channel_opened : Bool
  pub reasons : List Reason
  pub errors : List PolicyError

abbrev pub base_result : Value → List PolicyError → TtlResult
base_result mode errors = record {
  valid = false;
  mode = mode;
  effective_mode = null;
  degraded_to = null;
  hard_stop = false;
  ttl_minutes = null;
  ttl_shortened = false;
  safe_outputs = nil;
  human_approval_required = false;
  reverse_execution_channel_opened = false;
  reasons = [];
  errors = errors;
}

-- `set(items)` of a policy's list, its texts only: what is no text equals no text, and what is
-- unhashable raises.
unfoldable pub text_members : Items → Result Raised (List String)
text_members nil = ok []
text_members (cons (str s) xs) = do rest ← text_members xs; ok (s ∷ rest)
text_members (cons (list ys) xs) = err raised
text_members (cons (dict d) xs) = err raised
text_members (cons v xs) = text_members xs

abbrev pub trigger_set : Value → Result Raised (List String)
trigger_set (list xs) = text_members xs
trigger_set _ = err raised

-- `ttl // 2` rounds down, also below zero.
abbrev pub half_down : ℤ → ℤ
half_down (pos n) = pos (n / 2)
half_down (negsuc n) = negsuc (n / 2)

abbrev pub min_ℤ : ℤ → ℤ → ℤ
min_ℤ a b = if ltb_ℤ b a then b else a

abbrev pub max_ℤ : ℤ → ℤ → ℤ
max_ℤ a b = if ltb_ℤ a b then b else a

unfoldable pub shorten_ttl_minutes : Value → Result Raised Value
shorten_ttl_minutes null = ok null
shorten_ttl_minutes (int n) = ok (int (max_ℤ (pos 1) (half_down n)))
shorten_ttl_minutes (bool b) = ok (int (pos 1))
shorten_ttl_minutes _ = err raised

-- The integer part of m / 2 ^ k, towards zero.
abbrev pub truncate : ℤ → ℕ → ℤ
truncate (pos n) k = pos (n / 2 ^ k)
truncate (negsuc n) k = let q = suc n / 2 ^ k in if q == 0 then pos 0 else negsuc (q - 1)

abbrev pub degrade_to : Bool → Value → Value → Value
degrade_to should_degrade target mode = if should_degrade then target else mode

-- A forbidden capability is claimed.
abbrev pub stopped : TtlResult → Items → List String → TtlResult
stopped base safe_outputs hits = record base {
  valid = true;
  effective_mode = str "artifact_only";
  degraded_to = str "artifact_only";
  hard_stop = true;
  safe_outputs = safe_outputs;
  human_approval_required = true;
  reasons = map hard_stop_by hits;
  errors = [];
}

-- The end of `evaluate_ttl_state`, where no hard stop was hit.
abbrev pub settled :
    TtlResult → Value → Dict → Dict → Items → Value → List String → List String → TtlResult
settled base mode state mode_policy safe_outputs ttl shortening graceful =
    let ttl_required = is_true (get mode_policy "ttl_required") in
    let is_expired = truthy (get state "ttl_expired") in
    let is_missing =
      ttl_required
      && elim (get state "current_ttl_minutes") as (λ v. Bool) [ null ↦ true | _ ↦ false ] in
    let should_degrade = is_expired || (not (is_empty graceful) || is_missing) in
    let target = get mode_policy "degradation_target" in
    let shortened = ttl_required && not (is_empty shortening) in
    record base {
      valid = true;
      effective_mode = degrade_to should_degrade target mode;
      degraded_to = if should_degrade then target else null;
      hard_stop = false;
      ttl_minutes = ttl;
      ttl_shortened = shortened;
      safe_outputs = if should_degrade then safe_outputs else nil;
      human_approval_required = should_degrade;
      reasons =
          (if shortened then map ttl_shortened_by shortening else [])
          ++ ((if is_expired then ttl_expired ∷ [] else [])
              ++ ((if is_missing then ttl_required_but_missing ∷ [] else [])
                  ++ map degraded_by graceful));
      errors = [];
    }

abbrev pub evaluate_open :
    Dict → Dict → TtlResult → Value → Dict → Items → Value → List String → Result Raised TtlResult
evaluate_open policy state base mode mode_policy safe_outputs ttl signals = do
  shortening ← trigger_set (get policy "ttl_shortening_signals")
  graceful ← trigger_set (get policy "graceful_degradation_triggers")
  let hits = sorted_set (both signals shortening)
  ttl' ←
      (if is_true (get mode_policy "ttl_required") && not (is_empty hits)
        then shorten_ttl_minutes ttl
        else ok ttl)
  ok (
      settled base mode state mode_policy safe_outputs ttl' hits
        (sorted_set (both signals graceful)))

module _ (to_str : Value → String) (parse_int : String → Option ℤ) where
  abbrev pub name_of : Value → String
  name_of (str s) = s
  name_of v = to_str v

  abbrev pub names_of : Items → List String
  names_of nil = []
  names_of (cons x xs) = name_of x ∷ names_of xs

  unfoldable pub as_string_set : Value → Result Raised (List String)
  as_string_set null = ok []
  as_string_set (str s) = ok (s ∷ [])
  as_string_set (list xs) = ok (names_of xs)
  as_string_set (dict d) = ok (keys d)
  as_string_set _ = err raised

  abbrev pub parsed : Option ℤ → Result Raised ℤ
  parsed none = err raised
  parsed (some n) = ok n

  -- `int(v)`
  abbrev pub int_of : Value → Result Raised ℤ
  int_of (int n) = ok n
  int_of (bool true) = ok (pos 1)
  int_of (bool false) = ok (pos 0)
  int_of (float m k) = ok (truncate m k)
  int_of (str s) = parsed (parse_int s)
  int_of _ = err raised

  abbrev pub capped : ℤ → Value → Result Raised Value
  capped ttl null = ok (int ttl)
  capped ttl max_ttl = do m ← int_of max_ttl; ok (int (min_ℤ ttl m))

  unfoldable pub cap_ttl_minutes : Value → Dict → Result Raised Value
  cap_ttl_minutes null mode_policy = ok (get mode_policy "max_ttl_minutes")
  cap_ttl_minutes current mode_policy = do
    ttl ← int_of current
    capped ttl (get mode_policy "max_ttl_minutes")

  -- From the mode's policy on.
  abbrev pub evaluate_mode :
      Dict → Dict → TtlResult → Value → Value → Value → Result Raised TtlResult
  evaluate_mode policy state base mode (dict mode_policy) (list safe_outputs) = do
    signals ← as_string_set (get state "signals")
    requested ← as_string_set (get state "requested_capabilities")
    claimed ← as_string_set (get state "claimed_capabilities")
    triggers ← trigger_set (get policy "hard_stop_triggers")
    ttl ← cap_ttl_minutes (get state "current_ttl_minutes") mode_policy
    let hard_hits = sorted_set (both (requested ++ claimed) triggers)
    if is_empty hard_hits
        then evaluate_open policy state base mode mode_policy safe_outputs ttl signals
        else ok (stopped base safe_outputs hard_hits)
  evaluate_mode policy state base mode _ _ = err raised

  abbrev pub evaluate_in : Dict → Dict → Value → Value → Result Raised TtlResult
  evaluate_in policy state mode (dict modes) = do
    known ← key_in mode modes
    if known
        then evaluate_mode policy state (base_result mode []) mode (get modes (key_text mode))
            (get policy "safe_outputs_after_degradation")
        else ok (base_result mode (unknown_mode mode ∷ []))
  evaluate_in policy state mode _ = err raised

  unfoldable pub evaluate_ttl_state : Dict → Dict → Result Raised TtlResult
  evaluate_ttl_state state policy = do
    errors ← validate_ttl_policy_shape policy
    if is_empty errors
        then evaluate_in policy state (get state "mode") (get policy "modes")
        else ok (base_result (get state "mode") errors)
