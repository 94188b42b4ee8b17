-- ===== src/Tests/Lattice.antt =====
-- Evaluations of a lattice of three states and two clocks.
use codex_trading_engine.Prelude.{
  ◌^◌, String, ◌≡◌, ◌↔◌, refl, true, false, [], ◌∷◌, contains, str_eq, if◌then◌else◌, sorted_set,
  both, without, ok, err, inr,
}
use codex_trading_engine.Prelude.Int.{pos, ltb_ℤ, ◌-ℤ◌}
use codex_trading_engine.Prelude.Times.{IsoTime, malformed, naive, aware}
use codex_trading_engine.Value.{
  null, bool, int, str, list, dict, nil, Dict, empty, field, strings, eq,
}
use codex_trading_engine.Value.Kinds.{occurs, all_distinct}
use codex_trading_engine.TtlPolicy.Shape.{raised}
use codex_trading_engine.TtlLattice.Manifest.{clocks_errors, validate_manifest_shape}
use codex_trading_engine.TtlLattice.Floats.{float_of, is_nonnegative_number}
use codex_trading_engine.TtlLattice.Scope.{no_timezone, unknown_state, string_set, scope_violations}
use codex_trading_engine.TtlLattice.Clocks.{parse_timestamp, clock_round, clock_rounds}
use codex_trading_engine.TtlLattice.Evaluate.{LatticeReceipt, rank, settle, evaluate_ttl_lattice}
use codex_trading_engine.TtlLattice.Evaluate.Tallies.{expired_results}
use codex_trading_engine.TtlLattice.Evaluate.Order.{IsLowest, evaluate_ttl_lattice-IsLowest}
use codex_trading_engine.TtlLattice.Evaluate.Approval.{IsQuiet, evaluate-approval_iff}
use codex_trading_engine.TtlLattice.Evaluate.Expiry.{evaluate-expires}

-- Midnight, and an hour later.
abbrev times : String → IsoTime
times s =
    if str_eq s "00:00+00:00"
    then aware (pos 0)
    else (if str_eq s "01:00+00:00"
        then aware (pos 3600000000)
        else (if str_eq s "01:00" then naive else malformed))

abbrev posture : Dict
posture = field "proposal_only" (bool true) (
    field "authority_bounded_in_space" (bool true) (
      field "authority_bounded_in_time" (bool true) (
        field "expiry_never_self_renews" (bool true) (
          field "human_approval_required_for_renewal" (bool true)
            (field "receipt_is_not_command" (bool true) (empty))))))

abbrev authority : Dict
authority = field "authority" (bool false) (
    field "execution_authority" (bool false) (
      field "wallet_authority" (bool false) (
        field "signing_authority" (bool false) (
          field "capital_authority" (bool false) (
            field "deployment_authority" (bool false) (
              field "scheduler_authority" (bool false)
                (field "human_promotion_required" (bool true) (empty))))))))

abbrev ranks : Dict
ranks =
    field "inert" (int (pos 0)) (field "paper" (int (pos 1)) (field "shadow" (int (pos 2)) (empty)))

abbrev data_clock : Dict
data_clock = field "required" (bool true) (
    field "max_ttl_seconds" (int (pos 1800)) (
      field "expiry_target" (str "paper")
        (field "on_expiry" (str "degrade") (field "renewal_requires_human" (bool true) (empty)))))

abbrev review_clock : Dict
review_clock = field "required" (bool false) (
    field "max_ttl_seconds" (int (pos 86400)) (
      field "expiry_target" (str "inert")
        (field "on_expiry" (str "degrade") (field "renewal_requires_human" (bool true) (empty)))))

abbrev types : Dict
types = field "data" (dict data_clock) (field "review" (dict review_clock) (empty))

abbrev scope : Dict
scope = field "allowed_assets" (list (strings ("WETH" ∷ []))) (
    field "allowed_venues" (list (strings ("base" ∷ []))) (
      field "allowed_order_types" (list (strings ("limit" ∷ []))) (
        field "max_position_notional_usd" (int (pos 1000)) (
          field "max_daily_loss_usd" (int (pos 100))
            (field "max_leverage" (int (pos 1)) (empty))))))

abbrev manifest : Dict
manifest = field "manifest_id" (str "m") (
    field "version" (str "1") (
      field "posture" (dict posture) (
        field "authority" (dict authority) (
          field "degradation_rank" (dict ranks) (
            field "clock_types" (dict types) (
              field "scope" (dict scope) (
                field "denied_capabilities" (list (strings ("signing" ∷ []))) (
                  field "human_approval_required_for" (list nil)
                    (field "hard_invariants" (list nil) (empty))))))))))

abbrev observed : Dict
observed = field "observed_at" (str "00:00Z") (field "ttl_seconds" (int (pos 99999)) (empty))

abbrev fresh : Dict
fresh = field "observed_at" (str "01:00Z") (empty)

abbrev supplied : Dict
supplied = field "data" (dict observed) (empty)

abbrev stale_snapshot : Dict
stale_snapshot =
    field "evaluated_at" (str "01:00Z")
      (field "current_state" (str "shadow") (field "clocks" (dict supplied) (empty)))

abbrev quiet_snapshot : Dict
quiet_snapshot = field "evaluated_at" (str "01:00Z") (
    field "current_state" (str "shadow")
      (field "clocks" (dict (field "data" (dict fresh) (empty))) (empty)))

abbrev unset : LatticeReceipt
unset = record {
  evaluated_at = pos 0;
  manifest_id = null;
  manifest_version = null;
  current_state = "";
  effective_state = "";
  degraded = false;
  hard_stop = false;
  expired_clocks = [];
  missing_required_clocks = [];
  clock_results = [];
  scope_violations = [];
  denied_capability_hits = [];
  requested_capabilities = [];
  renewal_requested = false;
  renewal_permitted = false;
  human_approval_required = false;
  reasons = [];
  authority_manifest = null;
  hard_invariants = null;
}

abbrev receipt_of : Dict → LatticeReceipt
receipt_of snapshot = elim (evaluate_ttl_lattice times (dict snapshot) manifest empty) [
  | ok r ↦ r
  | err e ↦ unset
]

-- The clock that is an hour old has a policy of half an hour; the required TTL is longer.
stale_state :
    ((receipt_of stale_snapshot).effective_state ≡ "paper")
    × ((receipt_of stale_snapshot).expired_clocks ≡ "data" ∷ [])
unfolding float_of is_nonnegative_number evaluate_ttl_lattice validate_manifest_shape clocks_errors
    all_distinct occurs eq scope_violations string_set parse_timestamp clock_round clock_rounds
    settle sorted_set both without ◌-ℤ◌
stale_state = (refl, refl)

-- A time without a timezone, and a state that the manifest does not rank.
no_timezone_raises :
    evaluate_ttl_lattice times (dict (field "evaluated_at" (str "01:00") empty)) manifest empty
    ≡ err (no_timezone "evaluated_at")
unfolding float_of is_nonnegative_number evaluate_ttl_lattice validate_manifest_shape clocks_errors
    all_distinct occurs eq scope_violations string_set parse_timestamp clock_round clock_rounds
    settle sorted_set both without ◌-ℤ◌
no_timezone_raises = refl

unknown_state_raises :
    evaluate_ttl_lattice times (dict (field "evaluated_at" (str "01:00Z") empty)) manifest empty
    ≡ err (unknown_state null)
unfolding float_of is_nonnegative_number evaluate_ttl_lattice validate_manifest_shape clocks_errors
    all_distinct occurs eq scope_violations string_set parse_timestamp clock_round clock_rounds
    settle sorted_set both without ◌-ℤ◌
unknown_state_raises = refl

evaluate_ttl_lattice-IsLowest_example :
    IsLowest ranks "shadow"
      (receipt_of stale_snapshot).effective_state
      (expired_results (receipt_of stale_snapshot).clock_results)
unfolding float_of is_nonnegative_number evaluate_ttl_lattice validate_manifest_shape clocks_errors
    all_distinct occurs eq scope_violations string_set parse_timestamp clock_round clock_rounds
    settle sorted_set both without ◌-ℤ◌
evaluate_ttl_lattice-IsLowest_example =
    evaluate_ttl_lattice-IsLowest times stale_snapshot manifest empty (receipt_of stale_snapshot)
      refl refl

evaluate-approval_iff_example :
    ((receipt_of quiet_snapshot).human_approval_required ≡ false)
    ↔ IsQuiet "shadow" (receipt_of quiet_snapshot)
unfolding float_of is_nonnegative_number evaluate_ttl_lattice validate_manifest_shape clocks_errors
    all_distinct occurs eq scope_violations string_set parse_timestamp clock_round clock_rounds
    settle sorted_set both without ◌-ℤ◌
evaluate-approval_iff_example =
    evaluate-approval_iff times quiet_snapshot manifest empty (receipt_of quiet_snapshot) refl

evaluate-expires_example :
    (contains (receipt_of stale_snapshot).expired_clocks "data" ≡ true)
    × ((receipt_of stale_snapshot).human_approval_required ≡ true)
unfolding float_of is_nonnegative_number evaluate_ttl_lattice validate_manifest_shape clocks_errors
    all_distinct occurs eq scope_violations string_set parse_timestamp clock_round clock_rounds
    settle sorted_set both without ◌-ℤ◌
evaluate-expires_example =
    evaluate-expires times stale_snapshot manifest empty (receipt_of stale_snapshot) supplied
      (pos 3600000000) "data" refl refl refl refl (inr (observed, pos 0, refl, refl, refl))

-- A manifest may rank `inert` above another state: a hard stop then leaves a state of a higher rank
-- and reports no degradation.
abbrev raised_ranks : Dict
raised_ranks =
    field "inert" (int (pos 2)) (field "paper" (int (pos 1)) (field "shadow" (int (pos 0)) empty))

abbrev stopping_snapshot : Dict
stopping_snapshot = field "requested_capabilities" (list (strings ("signing" ∷ []))) quiet_snapshot

abbrev raised_manifest : Dict
raised_manifest = field "degradation_rank" (dict raised_ranks) manifest

abbrev stopped : LatticeReceipt
stopped = elim (evaluate_ttl_lattice times (dict stopping_snapshot) raised_manifest empty) [
  | ok r ↦ r
  | err e ↦ unset
]

stop_above_current :
    (stopped.hard_stop ≡ true)
    × (stopped.effective_state ≡ "inert")
    × (stopped.degraded ≡ false)
    × (ltb_ℤ (rank raised_ranks stopped.current_state) (rank raised_ranks stopped.effective_state)
        ≡ true)
unfolding float_of is_nonnegative_number evaluate_ttl_lattice validate_manifest_shape clocks_errors
    all_distinct occurs eq scope_violations string_set parse_timestamp clock_round clock_rounds
    settle sorted_set both without ◌-ℤ◌
stop_above_current = (refl, refl, refl, refl)

-- An amount above 2 ^ 53 is rounded, to the even neighbour in the middle.
rounded_down : float_of (int (pos 9007199254740993)) ≡ ok (pos 9007199254740992, 0)
unfolding float_of
rounded_down = refl

rounded_up : float_of (int (pos 9007199254740995)) ≡ ok (pos 9007199254740996, 0)
unfolding float_of
rounded_up = refl

-- One that no float holds raises.
out_of_range : float_of (int (pos (2 ^ 1024))) ≡ err raised
unfolding float_of
out_of_range = refl
