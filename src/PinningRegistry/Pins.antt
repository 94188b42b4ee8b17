-- ===== src/PinningRegistry/Pins.antt =====
-- The rounds of the loop over the pins.
use codex_trading_engine.Prelude.{
  ℕ, suc, String, not, Option, none, some, List, [], ◌∷◌, ◌++◌, unless, contains, sorted_set,
  Result, ok, err, ◌>>=◌, ◌>>◌, require, if◌then◌else◌,
}
use codex_trading_engine.Prelude.Int.{pos}
use codex_trading_engine.Value.{
  Value, null, bool, int, float, str, list, dict, Items, nil, cons, Dict, empty, field, get, keys,
  is_true, is_false, is_str, eq,
}
use codex_trading_engine.Value.Kinds.{get_or, is_filled_text}
use codex_trading_engine.TtlPolicy.Shape.{key_text}
use codex_trading_engine.Receipts.Hashing.{Bytes}
use codex_trading_engine.Receipts.Hex.{to_hex}
use codex_trading_engine.PinningRegistry.Repository.{
  Repository, PinningRegistryError, pin_not_object, pin_id_not_text, duplicate_pin_id,
  path_not_text, duplicate_path, pin_not_fail_closed, pin_grants_authority, expected_not_object,
  Drift, drift, git_blob_sha1, is_unblank, resolve_inside, validate_safe_posture,
}

-- `type(v).__name__`
abbrev pub type_name : Value → Value
type_name null = str "NoneType"
type_name (bool b) = str "bool"
type_name (int n) = str "int"
type_name (float m k) = str "float"
type_name (str s) = str "str"
type_name (list xs) = str "list"
type_name (dict d) = str "dict"

-- `expected_json[name] == document.get(name)` for the names in order
abbrev pub metadata_drifts : Dict → Dict → String → String → List String → List Drift
metadata_drifts expected_json document pin_id path [] = []
metadata_drifts expected_json document pin_id path (name ∷ names) =
    unless (eq (get document name) (get expected_json name)) (
      drift "pinned_metadata_mismatch" pin_id path
        (dict (field name (get expected_json name) empty))
        (dict (field name (get document name) empty)))
    ++ metadata_drifts expected_json document pin_id path names

abbrev pub items_length : Items → ℕ
items_length nil = 0
items_length (cons x xs) = suc (items_length xs)

abbrev pub blob_drifts : Repository → String → String → Value → Option Bytes → List Drift
blob_drifts files pin_id schema_path expected_blob none =
    drift "manifest_schema_missing" pin_id schema_path expected_blob (str "missing") ∷ []
blob_drifts files pin_id schema_path expected_blob (some raw) =
    unless (is_str expected_blob (git_blob_sha1 files raw)) (
      drift "manifest_schema_git_blob_mismatch" pin_id schema_path expected_blob
        (str (git_blob_sha1 files raw)))

-- One round of the loop over the schema records.
abbrev pub schema_drifts :
    Repository → String → String → Value → Result PinningRegistryError (List Drift)
schema_drifts files pin_id path (dict schema_record) =
    if is_filled_text (get schema_record "path")
    then (do
      schema_target ← resolve_inside files (get schema_record "path")
      ok (
          blob_drifts files pin_id (key_text (get schema_record "path"))
            (get schema_record "source_git_blob_sha") (files.read schema_target)))
    else ok (
        drift "manifest_schema_path_invalid" pin_id path (str "non-empty path")
          (get schema_record "path")
        ∷ [])
schema_drifts files pin_id path v =
    ok (drift "manifest_schema_record_invalid" pin_id path (str "object") (type_name v) ∷ [])

abbrev pub all_schema_drifts :
    Repository → String → String → Items → Result PinningRegistryError (List Drift)
all_schema_drifts files pin_id path nil = ok []
all_schema_drifts files pin_id path (cons v vs) = do
  here ← schema_drifts files pin_id path v
  rest ← all_schema_drifts files pin_id path vs
  ok (here ++ rest)

-- `document.get("schemas")` where the pin asks for the check of the blobs.
abbrev pub manifest_drifts :
    Repository → Dict → String → String → Value → Result PinningRegistryError (List Drift)
manifest_drifts files document pin_id path (list schema_records) = do
  let declared_count = get document "schema_count"
  let counted = unless (eq declared_count (int (pos (items_length schema_records)))) (
      drift "manifest_schema_count_mismatch" pin_id path declared_count
        (int (pos (items_length schema_records))))
  rest ← all_schema_drifts files pin_id path schema_records
  ok (counted ++ rest)
manifest_drifts files document pin_id path v =
    ok (drift "manifest_schema_records_missing" pin_id path (str "list") (type_name v) ∷ [])

abbrev pub document_drifts :
    Repository → Dict → String → String → Value → Dict → Result PinningRegistryError (List Drift)
document_drifts files pin pin_id path (dict expected_json) document = do
  let described =
      metadata_drifts expected_json document pin_id path (sorted_set (keys expected_json))
  let posture = validate_safe_posture document pin_id path
  schemas ←
      (if is_true (get pin "verify_manifest_schema_git_blobs")
        then manifest_drifts files document pin_id path (get document "schemas")
        else ok [])
  ok (described ++ (posture ++ schemas))
document_drifts files pin pin_id path _ document = err (expected_not_object pin_id)

-- The drifts of the document that the file holds.
abbrev pub content_drifts :
    Repository → Dict → String → String → Option Value → Result PinningRegistryError (List Drift)
content_drifts files pin pin_id path none = ok (
    drift "pinned_artifact_invalid_json" pin_id path (str "UTF-8 JSON object") (str "invalid") ∷ [])
content_drifts files pin pin_id path (some (dict document)) =
    document_drifts files pin pin_id path (get_or pin "expected_json" (dict empty)) document
content_drifts files pin pin_id path (some v) =
    ok (drift "pinned_artifact_invalid_json_root" pin_id path (str "object") (type_name v) ∷ [])

abbrev pub digest_drifts : Repository → Dict → String → String → Bytes → List Drift
digest_drifts files pin pin_id path raw =
    unless (is_str (get pin "raw_sha256") (to_hex (files.sha256 raw))) (
      drift "pinned_artifact_sha256_mismatch" pin_id path (get pin "raw_sha256")
        (str (to_hex (files.sha256 raw))))

abbrev pub file_drifts :
    Repository → Dict → String → String → Option Bytes → Result PinningRegistryError (List Drift)
file_drifts files pin pin_id path none =
    ok (drift "missing_pinned_artifact" pin_id path (str "file") (str "missing") ∷ [])
file_drifts files pin pin_id path (some raw) = do
  rest ← content_drifts files pin pin_id path (files.loads raw)
  ok (digest_drifts files pin pin_id path raw ++ rest)

-- What the loop has gone through.
pub record Progress : Type 0 where
  pub pin_ids : List String
  pub registered_paths : List String
  pub drifts : List Drift

abbrev pub object_pin : Value → Result PinningRegistryError Dict
object_pin (dict pin) = ok pin
object_pin _ = err pin_not_object

-- One round.
unfoldable pub check_pin :
    Repository → List String → List String → Value → Result PinningRegistryError Progress
unfolding validate_safe_posture
check_pin files pin_ids registered_paths v = do
  pin ← object_pin v
  require (is_unblank files (get pin "pin_id")) pin_id_not_text
  let pin_id = key_text (get pin "pin_id")
  require (not (contains pin_ids pin_id)) (duplicate_pin_id pin_id)
  require (is_unblank files (get pin "path")) (path_not_text pin_id)
  let path = key_text (get pin "path")
  require (not (contains registered_paths path)) (duplicate_path path)
  require (is_str (get pin "drift_policy") "fail_closed") (pin_not_fail_closed pin_id)
  require (is_false (get pin "authority")) (pin_grants_authority pin_id)
  target ← resolve_inside files (get pin "path")
  found ← file_drifts files pin pin_id path (files.read target)
  ok (record {
    pin_ids = pin_id ∷ pin_ids;
    registered_paths = path ∷ registered_paths;
    drifts = found;
  })

-- The loop, from what has been gone through.
unfoldable pub check_pins : Repository → Progress → Items → Result PinningRegistryError Progress
check_pins files p nil = ok p
check_pins files p (cons v vs) = do
  next ← check_pin files p.pin_ids p.registered_paths v
  check_pins files
      (record {
        pin_ids = next.pin_ids;
        registered_paths = next.registered_paths;
        drifts = p.drifts ++ next.drifts;
      })
      vs
