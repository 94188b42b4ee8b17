-- ===== src/Tests/Pinning.antt =====
-- A registry of one pin in a repository of two files.
use codex_trading_engine.Prelude.{
  String, ◌≡◌, refl, true, false, str_eq, ◌==◌, Option, none, some, List, [], ◌∷◌, sorted_set, err,
  if◌then◌else◌,
}
use codex_trading_engine.Value.{
  Value, bool, str, list, dict, strings, items, Dict, empty, field, eq,
}
use codex_trading_engine.Receipts.Hashing.{Bytes}
use codex_trading_engine.Receipts.Hex.{to_hex}
use codex_trading_engine.PinningRegistry.Repository.{
  Repository, validate_safe_posture, load_json_object, resolve_inside, git_blob_sha1,
  duplicate_pin_id,
}
use codex_trading_engine.PinningRegistry.Pins.{check_pin, check_pins}
use codex_trading_engine.PinningRegistry.Validate.{PinningReceipt, watch, validate_registry}
use codex_trading_engine.PinningRegistry.Complete.{IsClosed, validate_registry-IsClosed}

abbrev posture : Dict → Dict
posture d = field "authority" (bool false) (
    field "artifact_is_command" (bool false) (
      field "may_execute" (bool false)
        (field "may_move_capital" (bool false) (field "human_promotion_required" (bool true) d))))

abbrev document : Dict
document = posture (field "version" (str "1") empty)

abbrev pin : String → Dict
pin path = field "pin_id" (str "contract") (
    field "path" (str path) (
      field "drift_policy" (str "fail_closed") (
        field "authority" (bool false) (
          field "raw_sha256" (str "02")
            (field "expected_json" (dict (field "version" (str "1") empty)) empty)))))

abbrev registry : List Value → Dict
registry pins = posture (
    field "registry_version" (str "cross_repo_pinning_registry_v0.1") (
      field "drift_policy" (str "fail_closed") (
        field "pins" (list (items pins))
          (field "watched_globs" (list (strings ("contracts/*" ∷ []))) empty))))

-- The bytes 1 are the registry's, and the bytes 2 the document's; the digest is the first byte.
abbrev contents : List Value → Bytes → Option Value
contents pins [] = none
contents pins (b ∷ bs) = if b == 1 then some (dict (registry pins)) else some (dict document)

abbrev file_at : String → Option Bytes
file_at path = if str_eq path "/r/contracts/a" then some (2 ∷ []) else none

abbrev below_root : String → Option String
below_root path = if str_eq path "contracts/a" then some "/r/contracts/a" else none

abbrev repository : List Value → Repository
repository pins = record {
  inside = below_root;
  read = file_at;
  loads = contents pins;
  sha256 = λ b. b;
  sha1 = λ b. b;
  strip = λ s. s;
  glob = λ s. some (("contracts/a", true) ∷ ("contracts", false) ∷ []);
}

abbrev pins : List Value
pins = dict (pin "contracts/a") ∷ []

abbrev receipt : PinningReceipt
receipt = record {
  registry_path = "contracts/PINNING.json";
  registry_sha256 = "01";
  checked_pin_ids = "contract" ∷ [];
  drift_count = 0;
  drifts = [];
  all_pinned = true;
}

validate_registry-IsClosed_example : IsClosed (repository pins) (some (1 ∷ []))
unfolding validate_registry check_pins check_pin watch validate_safe_posture load_json_object
    resolve_inside sorted_set eq to_hex
validate_registry-IsClosed_example =
    validate_registry-IsClosed (repository pins) (some (1 ∷ [])) (some "contracts/PINNING.json")
      receipt refl refl

-- A second pin of the same name raises.
abbrev twice : List Value
twice = dict (pin "contracts/a") ∷ dict (pin "contracts/b") ∷ []

twice_raises :
    validate_registry (repository twice) (some (1 ∷ [])) (some "contracts/PINNING.json")
    ≡ err (duplicate_pin_id "contract")
unfolding validate_registry check_pins check_pin watch validate_safe_posture load_json_object
    resolve_inside sorted_set eq to_hex
twice_raises = refl

-- The identifier of a file of twelve bytes is the digest of a header with its length, and of the bytes.
twelve_bytes :
    git_blob_sha1 (repository pins) (7 ∷ 7 ∷ 7 ∷ 7 ∷ 7 ∷ 7 ∷ 7 ∷ 7 ∷ 7 ∷ 7 ∷ 7 ∷ 7 ∷ [])
    ≡ "626c6f6220313200070707070707070707070707"
unfolding git_blob_sha1 to_hex
twelve_bytes = refl
