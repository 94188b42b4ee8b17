-- ===== src/TtlLattice/Evaluate.antt =====
-- `evaluate_ttl_lattice`. The receipt is a record of the fields that vary; the other fields are the
-- constants of the source, and the two digests, which are left out.
pub mod Run
pub mod Tallies
pub mod Order
pub mod Approval
pub mod Expiry
use codex_trading_engine.Prelude.{
  String, Bool, true, false, not, ◌&&◌, ◌||◌, Option, none, some, List, [], ◌∷◌, ◌++◌, map,
  is_empty, both, without, sorted_set, Result, ok, err, ◌>>=◌, ◌>>◌, require, if◌then◌else◌,
}
use codex_trading_engine.Prelude.Int.{ℤ, ltb_ℤ}
use codex_trading_engine.Prelude.Times.{IsoTime}
use codex_trading_engine.Value.{
  Value, null, bool, int, str, list, dict, Items, nil, Dict, empty, get, has, keys, truthy,
}
use codex_trading_engine.Value.Kinds.{texts, get_or}
use codex_trading_engine.TtlPolicy.Shape.{key_in, key_text}
use codex_trading_engine.TtlLattice.Manifest.{ManifestError, validate_manifest_shape}
use codex_trading_engine.TtlLattice.Scope.{
  LatticeError, snapshot_not_object, clocks_input_not_object, invalid_manifest, unknown_clocks,
  unknown_state, Reason, denied_capability, renewal_requires_approval, string_set, scope_violations,
  as_lattice_error,
}
use codex_trading_engine.TtlLattice.Clocks.{
  ClockResult, Tally, int_value, policy_of, parse_timestamp, clock_rounds,
}

pub record LatticeReceipt : Type 0 where
  pub evaluated_at : ℤ
  pub manifest_id : Value
  pub manifest_version : Value
  pub current_state : String
  pub effective_state : String
  pub degraded : Bool
  pub hard_stop : Bool
  pub expired_clocks : List String
  pub missing_required_clocks : List String
  pub clock_results : List ClockResult
  pub scope_violations : List Reason
  pub denied_capability_hits : List String
  pub requested_capabilities : List String
  pub renewal_requested : Bool
  pub renewal_permitted : Bool
  pub human_approval_required : Bool
  pub reasons : List Reason
  pub authority_manifest : Value
  pub hard_invariants : Value

-- `ranks[state]`
abbrev pub rank : Dict → String → ℤ
rank ranks state = int_value (get ranks state)

-- `for target in target_states: if ranks[target] < ranks[effective_state]: effective_state = target`
abbrev pub lowered : Dict → String → List Value → String
lowered ranks effective [] = effective
lowered ranks effective (target ∷ targets) =
    lowered ranks
      (if ltb_ℤ (rank ranks (key_text target)) (rank ranks effective)
        then key_text target
        else effective)
      targets

-- The end of the evaluation, where nothing raises any more.
unfoldable pub settle :
    Dict → Dict → ℤ → Dict → String → Tally → List Reason → List String → LatticeReceipt
settle manifest snapshot evaluated_at ranks current clocks violations requested =
    let denied = sorted_set (both requested (texts (get manifest "denied_capabilities"))) in
    let hard_stop = not (is_empty violations) || not (is_empty denied) in
    let effective = if hard_stop then "inert" else lowered ranks current clocks.targets in
    let degraded = ltb_ℤ (rank ranks effective) (rank ranks current) in
    let renewal = truthy (get snapshot "renewal_requested") in
    record {
      evaluated_at = evaluated_at;
      manifest_id = get manifest "manifest_id";
      manifest_version = get manifest "version";
      current_state = current;
      effective_state = effective;
      degraded = degraded;
      hard_stop = hard_stop;
      expired_clocks = clocks.expired_clocks;
      missing_required_clocks = clocks.missing_clocks;
      clock_results = clocks.results;
      scope_violations = violations;
      denied_capability_hits = denied;
      requested_capabilities = sorted_set requested;
      renewal_requested = renewal;
      renewal_permitted = false;
      human_approval_required =
          hard_stop
          || (degraded
              || (not (is_empty clocks.expired_clocks)
                  || (not (is_empty clocks.missing_clocks) || renewal)));
      reasons =
          clocks.reasons
          ++ (violations
              ++ (map denied_capability denied
                  ++ (if renewal then renewal_requires_approval ∷ [] else [])));
      authority_manifest = get manifest "authority";
      hard_invariants = get manifest "hard_invariants";
    }

abbrev pub object_or : Value → LatticeError → Result LatticeError Dict
object_or (dict d) e = ok d
object_or _ e = err e

-- `manifest or load_bounded_authority_manifest(...)`
abbrev pub active_manifest : Dict → Dict → Dict
active_manifest manifest default_manifest =
    if truthy (dict manifest) then manifest else default_manifest

module _ (fromisoformat : String → IsoTime) where
  -- From the clocks on, the manifest being valid and the state known.
  abbrev pub evaluate_clocks :
      Dict → Dict → ℤ → Dict → Dict → String → Result LatticeError LatticeReceipt
  evaluate_clocks manifest snapshot evaluated_at types ranks current = do
    supplied ← object_or (get snapshot "clocks") clocks_input_not_object
    let unknown = sorted_set (without (keys supplied) (keys types))
    require (is_empty unknown) (unknown_clocks unknown)
    clocks ← clock_rounds fromisoformat evaluated_at types supplied (sorted_set (keys types))
    violations ←
        scope_violations (get_or snapshot "requested_scope" (dict empty))
          (policy_of (get manifest "scope"))
    requested ←
        string_set (get_or snapshot "requested_capabilities" (list nil)) "requested_capabilities"
    ok (settle manifest snapshot evaluated_at ranks current clocks violations requested)

  abbrev pub evaluate_with : Dict → Dict → Result LatticeError LatticeReceipt
  evaluate_with snapshot manifest = do
    errors ← as_lattice_error (validate_manifest_shape manifest)
    require (is_empty errors) (invalid_manifest errors)
    evaluated_at ← parse_timestamp fromisoformat (get snapshot "evaluated_at") "evaluated_at"
    let ranks = policy_of (get manifest "degradation_rank")
    known ← as_lattice_error (key_in (get snapshot "current_state") ranks)
    require known (unknown_state (get snapshot "current_state"))
    evaluate_clocks manifest snapshot evaluated_at (policy_of (get manifest "clock_types")) ranks
        (key_text (get snapshot "current_state"))

  unfoldable pub evaluate_ttl_lattice : Value → Dict → Dict → Result LatticeError LatticeReceipt
  evaluate_ttl_lattice (dict snapshot) manifest default_manifest =
      evaluate_with snapshot (active_manifest manifest default_manifest)
  evaluate_ttl_lattice _ manifest default_manifest = err snapshot_not_object
