-- ===== src/TtlLattice/Scope.antt =====
-- `_string_set` and `_scope_violations`.
use codex_trading_engine.Prelude.{
  String, not, List, [], ◌∷◌, ◌++◌, map, unless, without, sorted_set, Result, ok, err, ◌>>=◌, ◌>>◌,
  require, if◌then◌else◌,
}
use codex_trading_engine.Prelude.Int.{ℤ, pos}
use codex_trading_engine.Value.{Value, null, int, list, dict, nil, Dict, get}
use codex_trading_engine.Value.Kinds.{all_filled_texts, texts_in, texts, get_or}
use codex_trading_engine.TtlPolicy.Shape.{Raised, num_gt}
use codex_trading_engine.FlashLiquidity.Candidate.{Float}
use codex_trading_engine.TtlLattice.Floats.{float_of, is_nonnegative_number}
use codex_trading_engine.TtlLattice.Manifest.{ManifestError}

-- `TTLLatticeError`, by its message; `type_error` is Python's own.
pub data LatticeError : Type 0 where
  snapshot_not_object clocks_input_not_object scope_request_not_object type_error : LatticeError
  invalid_manifest : List ManifestError → LatticeError
  unknown_clocks : List String → LatticeError
  unknown_state : Value → LatticeError
  not_a_time not_iso no_timezone clock_not_object clock_in_future clock_bad_ttl :
      String → LatticeError
  texts_not_list texts_not_filled amount_not_number : String → LatticeError

pub data Reason : Type 0 where
  required_clock_missing : String → Reason
  clock_expired : String → Value → Reason
  ttl_capped_to : String → ℤ → ℤ → Reason
  scope_not_allowed : String → String → Reason
  scope_ceiling_exceeded : String → Float → Float → Reason
  denied_capability : String → Reason
  renewal_requires_approval : Reason

unfoldable pub string_set : Value → String → Result LatticeError (List String)
string_set null name = ok []
string_set (list xs) name =
    if all_filled_texts xs then ok (texts_in xs) else err (texts_not_filled name)
string_set _ name = err (texts_not_list name)

-- One round of the loop over the lists.
abbrev pub list_violations : Dict → Dict → String × String → Result LatticeError (List Reason)
list_violations requested_scope manifest_scope (requested_field, allowed_field) = do
  requested ← string_set (get_or requested_scope requested_field (list nil)) requested_field
  ok (
      map (scope_not_allowed requested_field)
        (without (sorted_set requested) (texts (get manifest_scope allowed_field))))

-- An exception of Python itself.
abbrev pub as_lattice_error : {A : Type 0} → Result Raised A → Result LatticeError A
as_lattice_error (ok a) = ok a
as_lattice_error (err e) = err type_error

-- One round of the loop over the numbers; the ceilings of a valid manifest are numbers.
abbrev pub ceiling_violations : Dict → Dict → String × String → Result LatticeError (List Reason)
ceiling_violations requested_scope manifest_scope (requested_field, ceiling_field) = do
  let requested = get_or requested_scope requested_field (int (pos 0))
  fits ← as_lattice_error (is_nonnegative_number requested)
  require fits (amount_not_number requested_field)
  ceiling ← as_lattice_error (float_of (get manifest_scope ceiling_field))
  amount ← as_lattice_error (float_of requested)
  ok (unless (not (num_gt amount ceiling)) (scope_ceiling_exceeded requested_field amount ceiling))

abbrev pub each_pair :
    (String × String → Result LatticeError (List Reason))
    → List (String × String)
    → Result LatticeError (List Reason)
each_pair check [] = ok []
each_pair check (p ∷ ps) = do here ← check p; rest ← each_pair check ps; ok (here ++ rest)

abbrev pub list_pairs : List (String × String)
list_pairs =
    ("assets", "allowed_assets")
    ∷ ("venues", "allowed_venues")
    ∷ ("order_types", "allowed_order_types")
    ∷ []

abbrev pub numeric_pairs : List (String × String)
numeric_pairs =
    ("position_notional_usd", "max_position_notional_usd")
    ∷ ("daily_loss_usd", "max_daily_loss_usd")
    ∷ ("leverage", "max_leverage")
    ∷ []

unfoldable pub scope_violations : Value → Dict → Result LatticeError (List Reason)
unfolding string_set
scope_violations (dict requested_scope) manifest_scope = do
  listed ← each_pair (list_violations requested_scope manifest_scope) list_pairs
  ceilings ← each_pair (ceiling_violations requested_scope manifest_scope) numeric_pairs
  ok (listed ++ ceilings)
scope_violations _ manifest_scope = err scope_request_not_object
