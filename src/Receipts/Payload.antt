-- ===== src/Receipts/Payload.antt =====
-- `forbidden_paths` and `validate_receipt_payload` of eve_q/immutable_receipts.py. A path such as
-- `$.a[0]` is kept as its list of steps after `$`.
pub mod Clean
use codex_trading_engine.Prelude.{
  ℕ, ◌+◌, String, List, [], ◌∷◌, ◌++◌, contains, is_empty, Result, ok, err, if◌then◌else◌,
}
use codex_trading_engine.Value.{
  Value, null, bool, int, float, str, list, dict, Items, nil, cons, Dict, empty, field, get, truthy,
}

abbrev pub forbidden_fields : List String
forbidden_fields =
    "api_key" ∷ "command" ∷ "mnemonic" ∷ "password" ∷ "private_key" ∷ "scheduler" ∷ "secret"
    ∷ "seed_phrase" ∷ "shell" ∷ "subprocess" ∷ "wallet_private_key" ∷ "webhook_url" ∷ []

pub data PathStep : Type 0 where
  key : String → PathStep
  index : ℕ → PathStep

abbrev pub FieldPath : Type 0
FieldPath = List PathStep

-- `ReceiptSealError`, by its message; `writer_failed` is an exception that the writer raises.
pub data SealError : Type 0 where
  receipt_type_required not_pinned cid_verification_failed writer_failed : SealError
  forbidden_present : List FieldPath → SealError
  anchor_invalid_packet anchor_without_root : SealError
  no_verified_cid : String → String → SealError

unfoldable mutual
  pub forbidden_paths : List String → Value → FieldPath → List FieldPath
  forbidden_paths f null path = []
  forbidden_paths f (bool b) path = []
  forbidden_paths f (int n) path = []
  forbidden_paths f (float m k) path = []
  forbidden_paths f (str s) path = []
  forbidden_paths f (list xs) path = forbidden_in_items f xs 0 path
  forbidden_paths f (dict d) path = forbidden_in_dict f d path

  -- the loop over `enumerate(value)`
  pub forbidden_in_items : List String → Items → ℕ → FieldPath → List FieldPath
  forbidden_in_items f nil i path = []
  forbidden_in_items f (cons x xs) i path =
      forbidden_paths f x (path ++ index i ∷ []) ++ forbidden_in_items f xs (i + 1) path

  -- the loop over `value.items()`
  pub forbidden_in_dict : List String → Dict → FieldPath → List FieldPath
  forbidden_in_dict f empty path = []
  forbidden_in_dict f (field k v d) path =
      (if contains f k then (path ++ key k ∷ []) ∷ [] else [])
      ++ (forbidden_paths f v (path ++ key k ∷ []) ++ forbidden_in_dict f d path)

unfoldable pub validate_receipt_payload : Dict → Result SealError Unit
validate_receipt_payload receipt =
    let found = forbidden_paths forbidden_fields (dict receipt) [] in
    if truthy (get receipt "receipt_type")
    then (if is_empty found then ok tt else err (forbidden_present found))
    else err receipt_type_required
