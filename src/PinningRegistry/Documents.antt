-- ===== src/PinningRegistry/Documents.antt =====
-- On the document that a pin refers to.
use codex_trading_engine.Prelude.{
  String, ◌≡◌, refl, Bool, true, false, Option, none, some, List, [], ◌∷◌, ◌++◌, All, append-eq-nil,
  unless, sorted_set, ok, >>=-eq-ok, if◌then◌else◌,
}
use codex_trading_engine.Value.{Value, dict, Dict, empty, get, keys, is_true, is_false, is_str, eq}
use codex_trading_engine.Value.Kinds.{get_or}
use codex_trading_engine.Receipts.Hashing.{Bytes}
use codex_trading_engine.Receipts.Hex.{to_hex}
use codex_trading_engine.PinningRegistry.Repository.{Repository, Drift, validate_safe_posture}
use codex_trading_engine.PinningRegistry.Pins.{
  metadata_drifts, manifest_drifts, document_drifts, content_drifts, digest_drifts, file_drifts,
}

-- The authority flags of a document.
pub record IsSafe (document : Dict) : Type 0 where
  pub no_authority : is_false (get document "authority") ≡ true
  pub no_command : is_false (get document "artifact_is_command") ≡ true
  pub no_execution : is_false (get document "may_execute") ≡ true
  pub no_capital : is_false (get document "may_move_capital") ≡ true
  pub human_promotion : is_true (get document "human_promotion_required") ≡ true

kept :
    (b : Bool) (d : Drift) (rest : List Drift) → unless b d ++ rest ≡ [] → (b ≡ true) × (rest ≡ [])
kept true d rest h = (refl, h)
kept false d rest h = absurd (cc)

kept_last : (b : Bool) (d : Drift) → unless b d ≡ [] → b ≡ true
kept_last true d h = refl
kept_last false d h = absurd (cc)

pub validate_safe_posture-nil :
    (document : Dict) (pin_id path : String)
    → validate_safe_posture document pin_id path ≡ []
    → IsSafe document
unfolding validate_safe_posture
validate_safe_posture-nil document pin_id path h =
    let (a, h1) = kept _ _ _ h in
    let (b, h2) = kept _ _ _ h1 in
    let (c, h3) = kept _ _ _ h2 in
    let (d, h4) = kept _ _ _ h3 in
    let (e, _) = kept _ _ _ h4 in
    record {
      no_authority = a;
      no_command = b;
      no_execution = c;
      no_capital = d;
      human_promotion = e;
    }

metadata_drifts-nil :
    (expected_json document : Dict) (pin_id path : String) (names : List String)
    → metadata_drifts expected_json document pin_id path names ≡ []
    → All (λ name. eq (get document name) (get expected_json name) ≡ true) names
metadata_drifts-nil expected_json document pin_id path [] h = tt
metadata_drifts-nil expected_json document pin_id path (name ∷ names) h =
    let (a, rest) = kept _ _ _ h in
    (a, metadata_drifts-nil expected_json document pin_id path names rest)

module _ (files : Repository) where
  -- The same of a document.
  pub record IsDocument (pin document : Dict) : Type 0 where
    pub expected_json : Dict
    pub described : get_or pin "expected_json" (dict empty) ≡ dict expected_json
    pub fields_match :
        All
          (λ name. eq (get document name) (get expected_json name) ≡ true)
          (sorted_set (keys expected_json))
    pub safe : IsSafe document

  document_drifts-nil :
      (pin document : Dict) (pin_id path : String) (v : Value)
      → get_or pin "expected_json" (dict empty) ≡ v
      → document_drifts files pin pin_id path v document ≡ ok []
      → IsDocument pin document
  document_drifts-nil pin document pin_id path (dict expected_json) same h =
      let (schemas, _, h1) =
        >>=-eq-ok
          (if is_true (get pin "verify_manifest_schema_git_blobs")
            then manifest_drifts files document pin_id path (get document "schemas")
            else ok [])
          _ h in
      let described =
        metadata_drifts expected_json document pin_id path (sorted_set (keys expected_json)) in
      let posture = validate_safe_posture document pin_id path in
      let e : described ++ (posture ++ schemas) ≡ [] = cc in
      let (a, b) = append-eq-nil described (posture ++ schemas) e in
      let (c, _) = append-eq-nil posture schemas b in
      record {
        expected_json = expected_json;
        described = same;
        fields_match = metadata_drifts-nil expected_json document pin_id path _ a;
        safe = validate_safe_posture-nil document pin_id path c;
      }
  document_drifts-nil pin document pin_id path v same h = absurd (cc)

  -- The file of a pin, and what it holds.
  pub record IsFile (pin : Dict) (found : Option Bytes) : Type 0 where
    pub raw : Bytes
    pub document : Dict
    pub present : found ≡ some raw
    pub digest : is_str (get pin "raw_sha256") (to_hex (files.sha256 raw)) ≡ true
    pub decoded : files.loads raw ≡ some (dict document)
    pub inner : IsDocument pin document

  content_drifts-nil :
      (pin : Dict) (pin_id path : String) (o : Option Value)
      → content_drifts files pin pin_id path o ≡ ok []
      → (document : Dict) × (o ≡ some (dict document)) × IsDocument pin document
  content_drifts-nil pin pin_id path none h = absurd (cc)
  content_drifts-nil pin pin_id path (some (dict document)) h =
      (document, refl, document_drifts-nil pin document pin_id path _ refl h)
  content_drifts-nil pin pin_id path (some v) h = absurd (cc)

  pub file_drifts-nil :
      (pin : Dict) (pin_id path : String) (found : Option Bytes)
      → file_drifts files pin pin_id path found ≡ ok []
      → IsFile pin found
  file_drifts-nil pin pin_id path none h = absurd (cc)
  file_drifts-nil pin pin_id path (some raw) h =
      let (rest, e, h1) = >>=-eq-ok (content_drifts files pin pin_id path (files.loads raw)) _ h in
      let digests = digest_drifts files pin pin_id path raw in
      let q : digests ++ rest ≡ [] = cc in
      let (a, b) = append-eq-nil digests rest q in
      let (document, d, inner) = content_drifts-nil pin pin_id path (files.loads raw) (rw b at e) in
      record {
        raw = raw;
        document = document;
        present = refl;
        digest = kept_last _ _ a;
        decoded = d;
        inner = inner;
      }
