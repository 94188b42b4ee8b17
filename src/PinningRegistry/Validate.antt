-- ===== src/PinningRegistry/Validate.antt =====
-- `validate_registry`.
use codex_trading_engine.Prelude.{
  ℕ, String, Bool, Option, none, some, List, [], ◌∷◌, ◌++◌, length, is_empty, unless, contains,
  sorted_set, Result, ok, err, ◌>>=◌, ◌>>◌, require, if◌then◌else◌,
}
use codex_trading_engine.Value.{Value, str, list, Items, nil, cons, get, is_str}
use codex_trading_engine.Value.Kinds.{get_or}
use codex_trading_engine.TtlPolicy.Shape.{key_text}
use codex_trading_engine.Receipts.Hashing.{Bytes}
use codex_trading_engine.Receipts.Hex.{to_hex}
use codex_trading_engine.PinningRegistry.Repository.{
  Repository, PinningRegistryError, unsupported_version, registry_not_fail_closed, no_pins,
  globs_not_list, glob_not_text, other_error, Drift, drift, load_json_object, is_unblank,
  validate_safe_posture,
}
use codex_trading_engine.PinningRegistry.Pins.{check_pins}

-- The fields of the receipt that vary.
pub record PinningReceipt : Type 0 where
  pub registry_path : String
  pub registry_sha256 : String
  pub checked_pin_ids : List String
  pub drift_count : ℕ
  pub drifts : List Drift
  pub all_pinned : Bool

-- The files that a pattern finds and no pin registers.
abbrev pub surface_drifts : List String → List (String × Bool) → List Drift
surface_drifts registered_paths [] = []
surface_drifts registered_paths ((relative, is_file) ∷ rest) =
    (if is_file
      then unless (contains registered_paths relative) (
          drift "unregistered_pinning_surface" "registry" relative (str "registered pin")
            (str "unregistered file"))
      else [])
    ++ surface_drifts registered_paths rest

abbrev pub found_by : Repository → String → Result PinningRegistryError (List (String × Bool))
found_by files pattern' = elim (files.glob pattern') [
  | none ↦ err other_error
  | some candidates ↦ ok candidates
]

-- The loop over the patterns.
unfoldable pub watch : Repository → List String → Items → Result PinningRegistryError (List Drift)
watch files registered_paths nil = ok []
watch files registered_paths (cons v vs) = do
  require (is_unblank files v) glob_not_text
  candidates ← found_by files (key_text v)
  rest ← watch files registered_paths vs
  ok (surface_drifts registered_paths candidates ++ rest)

abbrev pub watched : Repository → List String → Value → Result PinningRegistryError (List Drift)
watched files registered_paths (list patterns) = watch files registered_paths patterns
watched files registered_paths _ = err globs_not_list

abbrev pub relative_to_root : Option String → Result PinningRegistryError String
relative_to_root none = err other_error
relative_to_root (some path) = ok path

abbrev pub pins_of : Value → Result PinningRegistryError Items
pins_of (list (cons v vs)) = ok (cons v vs)
pins_of _ = err no_pins

abbrev pub receipt_of : Repository → String → Bytes → List String → List Drift → PinningReceipt
receipt_of files registry_path raw pin_ids drifts = record {
  registry_path = registry_path;
  registry_sha256 = to_hex (files.sha256 raw);
  checked_pin_ids = sorted_set pin_ids;
  drift_count = length drifts;
  drifts = drifts;
  all_pinned = is_empty drifts;
}

-- The registry's bytes, if it is a file, and its path relative to the root, if it lies in it.
unfoldable pub validate_registry :
    Repository → Option Bytes → Option String → Result PinningRegistryError PinningReceipt
unfolding validate_safe_posture load_json_object
validate_registry files registry_file registry_path = do
  (raw, registry) ← load_json_object files registry_file
  require (is_str (get registry "registry_version") "cross_repo_pinning_registry_v0.1")
      (unsupported_version (get registry "registry_version"))
  require (is_str (get registry "drift_policy") "fail_closed") registry_not_fail_closed
  path ← relative_to_root registry_path
  pins ← pins_of (get registry "pins")
  checked ←
      check_pins files
        (record {
          pin_ids = [];
          registered_paths = [];
          drifts = validate_safe_posture registry "registry" path;
        })
        pins
  surfaces ← watched files checked.registered_paths (get_or registry "watched_globs" (list nil))
  ok (receipt_of files path raw checked.pin_ids (checked.drifts ++ surfaces))
