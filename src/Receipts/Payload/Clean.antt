-- ===== src/Receipts/Payload/Clean.antt =====
-- On `forbidden_paths` and `validate_receipt_payload` of eve_q/immutable_receipts.py.
use codex_trading_engine.Prelude.{
  ℕ, ◌+◌, String, ◌≡◌, refl, ◌↔◌, Bool, true, false, List, [], ◌∷◌, ◌++◌, contains, append-eq-nil,
  if◌then◌else◌, arith, ok, is_empty-nil, is_empty,
}
use codex_trading_engine.Value.{
  Value, null, bool, int, float, str, list, dict, Items, nil, cons, Dict, empty, field, get, truthy,
}
use codex_trading_engine.Receipts.Payload.{
  FieldPath, key, index, forbidden_fields, forbidden_paths, forbidden_in_items, forbidden_in_dict,
  validate_receipt_payload,
}

-- No dictionary in the value, at any depth, has a key in `f`.
abbrev mutual
  pub IsClean : List String → Value → Type 0
  IsClean f (list xs) = AreCleanItems f xs
  IsClean f (dict d) = IsCleanDict f d
  IsClean f null = Unit
  IsClean f (bool b) = Unit
  IsClean f (int n) = Unit
  IsClean f (float m k) = Unit
  IsClean f (str s) = Unit

  pub AreCleanItems : List String → Items → Type 0
  AreCleanItems f nil = Unit
  AreCleanItems f (cons x xs) = IsClean f x × AreCleanItems f xs

  pub IsCleanDict : List String → Dict → Type 0
  IsCleanDict f empty = Unit
  IsCleanDict f (field k v d) = (contains f k ≡ false) × IsClean f v × IsCleanDict f d

here-nil : (b : Bool) (p : FieldPath) → (if b then p ∷ [] else []) ≡ [] → b ≡ false
here-nil true p h = ground arith
here-nil false p h = refl

mutual
  unfolding forbidden_paths

  spotless_value :
      (f : List String) (v : Value) (p : FieldPath) → forbidden_paths f v p ≡ [] → IsClean f v
  spotless_value f (list xs) p h = spotless_items f xs 0 p h
  spotless_value f (dict d) p h = spotless_dict f d p h
  spotless_value f null p h = tt
  spotless_value f (bool b) p h = tt
  spotless_value f (int n) p h = tt
  spotless_value f (float m k) p h = tt
  spotless_value f (str s) p h = tt

  spotless_items :
      (f : List String) (xs : Items) (i : ℕ) (p : FieldPath)
      → forbidden_in_items f xs i p ≡ []
      → AreCleanItems f xs
  spotless_items f nil i p h = tt
  spotless_items f (cons x xs) i p h =
      let (a, b) = append-eq-nil (forbidden_paths f x (p ++ index i ∷ [])) _ h in
      (spotless_value f x _ a, spotless_items f xs (i + 1) p b)

  spotless_dict :
      (f : List String) (d : Dict) (p : FieldPath) → forbidden_in_dict f d p ≡ [] → IsCleanDict f d
  spotless_dict f empty p h = tt
  spotless_dict f (field k v d) p h =
      let (a, r) = append-eq-nil _ _ h in
      let (b, c) = append-eq-nil (forbidden_paths f v (p ++ key k ∷ [])) _ r in
      (here-nil _ _ a, spotless_value f v _ b, spotless_dict f d p c)

mutual
  unfolding forbidden_paths

  spotless_none :
      (f : List String) (v : Value) (p : FieldPath) → IsClean f v → forbidden_paths f v p ≡ []
  spotless_none f (list xs) p h = none_items f xs 0 p h
  spotless_none f (dict d) p h = none_dict f d p h
  spotless_none f null p h = refl
  spotless_none f (bool b) p h = refl
  spotless_none f (int n) p h = refl
  spotless_none f (float m k) p h = refl
  spotless_none f (str s) p h = refl

  none_items :
      (f : List String) (xs : Items) (i : ℕ) (p : FieldPath)
      → AreCleanItems f xs
      → forbidden_in_items f xs i p ≡ []
  none_items f nil i p h = refl
  none_items f (cons x xs) i p h =
      rw (spotless_none f x (p ++ index i ∷ []) h.0) (none_items f xs (i + 1) p h.1)

  none_dict :
      (f : List String) (d : Dict) (p : FieldPath) → IsCleanDict f d → forbidden_in_dict f d p ≡ []
  none_dict f empty p h = refl
  none_dict f (field k v d) p h =
      rw (h.0, spotless_none f v (p ++ key k ∷ []) h.1) (none_dict f d p h.2)

-- A receipt passes validation exactly when its `receipt_type` is truthy and no dictionary in it, at
-- any depth, has a forbidden key.
pub validate_receipt_payload_iff :
    (receipt : Dict)
    → (validate_receipt_payload receipt ≡ ok tt)
      ↔ ((truthy (get receipt "receipt_type") ≡ true) × IsCleanDict forbidden_fields receipt)
unfolding validate_receipt_payload
validate_receipt_payload_iff receipt = (λ h. accepted h, λ h. accept h)
  where
    found : List FieldPath
    found = forbidden_paths forbidden_fields (dict receipt) []

    accepted :
        validate_receipt_payload receipt ≡ ok tt
        → (truthy (get receipt "receipt_type") ≡ true) × IsCleanDict forbidden_fields receipt
    accepted h =
        let e : (truthy (get receipt "receipt_type") ≡ true) × (is_empty found ≡ true) =
          ground arith in
        (e.0, spotless_value forbidden_fields (dict receipt) [] (is_empty-nil found e.1))

    accept :
        (truthy (get receipt "receipt_type") ≡ true) × IsCleanDict forbidden_fields receipt
        → validate_receipt_payload receipt ≡ ok tt
    accept h = rw (h.0, spotless_none forbidden_fields (dict receipt) [] h.1)
