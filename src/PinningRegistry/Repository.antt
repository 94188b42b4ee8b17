-- ===== src/PinningRegistry/Repository.antt =====
-- What the check takes from outside, `git_blob_sha1`, `_load_json_object`, `_resolve_inside`, `_drift`
-- and `_validate_safe_posture`.
use codex_trading_engine.Prelude.{
  ℕ, zero, suc, ◌+◌, ◌/◌, ◌%◌, String, Bool, true, false, not, Option, none, some, List, [], ◌∷◌,
  ◌++◌, length, unless, str_eq, ltb, Result, ok, err, ◌>>=◌, if◌then◌else◌,
}
use codex_trading_engine.Value.{Value, bool, str, dict, Dict, empty, field, get, is_true, is_false}
use codex_trading_engine.Receipts.Hashing.{Bytes}
use codex_trading_engine.Receipts.Hex.{to_hex}

pub record Repository : Type 0 where
  -- `(root / path).resolve()`, if it lies in the root
  pub inside : String → Option String
  -- the bytes of a resolved path, if `is_file()`
  pub read : String → Option Bytes
  -- `json.loads(raw.decode("utf-8"))`, if it does not raise
  pub loads : Bytes → Option Value
  -- the digests of `hashlib`
  pub sha256 : Bytes → Bytes
  pub sha1 : Bytes → Bytes
  -- `text.strip()`
  pub strip : String → String
  -- `sorted(root.glob(pattern))` by path relative to the root, with `is_file()`, if it does not raise
  pub glob : String → Option (List (String × Bool))

-- `PinningRegistryError`, by its message; `other_error` is an error of Python's own.
pub data PinningRegistryError : Type 0 where
  missing_file invalid_json root_not_object no_pins pin_not_object pin_id_not_text globs_not_list
        glob_not_text other_error :
      PinningRegistryError
  unsupported_version : Value → PinningRegistryError
  registry_not_fail_closed pin_path_not_text : PinningRegistryError
  duplicate_pin_id path_not_text duplicate_path pin_not_fail_closed pin_grants_authority
        expected_not_object :
      String → PinningRegistryError
  escapes_root : String → PinningRegistryError

pub record Drift : Type 0 where
  pub kind : String
  pub pin_id : String
  pub path : String
  pub expected : Value
  pub observed : Value

abbrev pub drift : String → String → String → Value → Value → Drift
drift kind pin_id path expected observed = record {
  kind = kind;
  pin_id = pin_id;
  path = path;
  expected = expected;
  observed = observed;
}

-- `str(n)` as bytes; the first number is fuel, of which n + 1 is enough.
abbrev pub digits : ℕ → ℕ → Bytes
digits zero n = []
digits (suc fuel) n =
    let first = digits fuel (n / 10) in
    if ltb n 10 then (b'0' + n) ∷ [] else first ++ (b'0' + n % 10) ∷ []

unfoldable pub git_blob_sha1 : Repository → Bytes → String
git_blob_sha1 files data' =
    let header =
      b'b' ∷ b'l' ∷ b'o' ∷ b'b' ∷ b' ' ∷ digits (suc (length data')) (length data') ++ 0 ∷ [] in
    to_hex (files.sha1 (header ++ data'))

abbrev pub object_of : Option Value → Result PinningRegistryError Dict
object_of none = err invalid_json
object_of (some (dict d)) = ok d
object_of (some v) = err root_not_object

-- The bytes of a file, if there is one, and its object.
unfoldable pub load_json_object :
    Repository → Option Bytes → Result PinningRegistryError (Bytes × Dict)
load_json_object files none = err missing_file
load_json_object files (some raw) = do value ← object_of (files.loads raw); ok (raw, value)

-- `isinstance(value, str) and value.strip()`
abbrev pub is_unblank : Repository → Value → Bool
is_unblank files (str s) = not (str_eq (files.strip s) "")
is_unblank files _ = false

unfoldable pub resolve_inside : Repository → Value → Result PinningRegistryError String
resolve_inside files (str s) =
    if str_eq (files.strip s) ""
    then err pin_path_not_text
    else (elim (files.inside s) [ none ↦ err (escapes_root s) | some candidate ↦ ok candidate ])
resolve_inside files _ = err pin_path_not_text

-- One round of the loop over the requirements; `is not` for a boolean.
abbrev pub posture_drift : Dict → String → String → String × Bool → List Drift
posture_drift document pin_id path (name, true) = unless (is_true (get document name)) (
    drift "authority_posture_mismatch" pin_id path (dict (field name (bool true) empty))
      (dict (field name (get document name) empty)))
posture_drift document pin_id path (name, false) = unless (is_false (get document name)) (
    drift "authority_posture_mismatch" pin_id path (dict (field name (bool false) empty))
      (dict (field name (get document name) empty)))

abbrev pub posture_drifts : Dict → String → String → List (String × Bool) → List Drift
posture_drifts document pin_id path [] = []
posture_drifts document pin_id path (r ∷ rs) =
    posture_drift document pin_id path r ++ posture_drifts document pin_id path rs

abbrev pub requirements : List (String × Bool)
requirements =
    ("authority", false)
    ∷ ("artifact_is_command", false)
    ∷ ("may_execute", false)
    ∷ ("may_move_capital", false)
    ∷ ("human_promotion_required", true)
    ∷ []

unfoldable pub validate_safe_posture : Dict → String → String → List Drift
validate_safe_posture document pin_id path = posture_drifts document pin_id path requirements
