-- ===== src/OrganContract/Membrane.antt =====
-- On the receipts that pass.
use mathlib.Core.Bool.{false≢true}
use codex_trading_engine.Prelude.{
  arith, ◌⊎◌, String, ◌≡◌, refl, ◌∙◌, subst, inl, inr, Bool, true, false, not, ◌||◌, Option, some,
  List, [], ◌∷◌, ◌++◌, All, append-eq-nil, contains, unless, eq_iff, both, without, sorted_set,
  contains-sorted_set, contains-append, Bool-cases,
}
use codex_trading_engine.Value.{has, Value, list, dict, nil, Dict, empty, get, keys, is_true}
use codex_trading_engine.Value.Kinds.{get_or}
use codex_trading_engine.OrganContract.Check.{
  ContractError, missing_fields, human_promotion_not_true, artifact_type_not_allowed,
  mode_not_allowed, action_fields, capability_fields, capability_claims, contract_required_fields,
  action_intent_fields, capability_names, unless_none, posture_fields, posture_errors, list_fields,
  list_errors, shape_of, validate_contract_shape, members_of, texts_among, claimed_capabilities,
  as_string_set, receipt_errors, with_sets, allowed_in, active_contract,
  validate_receipt_against_contract,
}

kept :
    (b : Bool) (e : ContractError) (rest : List ContractError)
    → unless b e ++ rest ≡ []
    → (b ≡ true) × (rest ≡ [])
kept true e rest h = (refl, h)
kept false e rest h = absurd (cc)

unless_none-nil :
    (xs : List String) (e : List String → ContractError) (rest : List ContractError)
    → unless_none xs e ++ rest ≡ []
    → (xs ≡ []) × (rest ≡ [])
unless_none-nil [] e rest h = (refl, h)
unless_none-nil (x ∷ xs) e rest h = absurd (cc)

unless_none-nil_last :
    (xs : List String) (e : List String → ContractError) → unless_none xs e ≡ [] → xs ≡ []
unless_none-nil_last [] e h = refl
unless_none-nil_last (x ∷ xs) e h = absurd (cc)

sorted_set-nil : (xs : List String) → sorted_set xs ≡ [] → xs ≡ []
sorted_set-nil [] h = refl
sorted_set-nil (x ∷ xs) h =
    let here : contains (x ∷ xs) x ≡ true = let e = (eq_iff x x).1 refl in rw e refl in
    let there : contains [] x ≡ true =
      subst (λ z. contains z x ≡ true) h (contains-sorted_set (x ∷ xs) x ∙ here) in
    absurd (false≢true there)

-- None of the names is among the others.
abbrev pub IsApart : List String → List String → Type 0
IsApart xs ys = All (λ x. contains ys x ≡ false) xs

both-nil : (xs ys : List String) → both xs ys ≡ [] → IsApart xs ys
unfolding both
both-nil [] ys h = tt
both-nil (x ∷ xs) ys h = elim (Bool-cases (contains ys x)) [
  | inl y ↦ absurd (let h1 = rw (both, y) at h in cc)
  | inr n ↦ (n, both-nil xs ys (rw (both, n) at h))
]

apart : (xs ys : List String) → sorted_set (both xs ys) ≡ [] → IsApart xs ys
apart xs ys h = both-nil xs ys (sorted_set-nil (both xs ys) h)

IsApart-append : (xs ys zs : List String) → IsApart xs (ys ++ zs) → IsApart xs ys × IsApart xs zs
IsApart-append [] ys zs h = (tt, tt)
IsApart-append (x ∷ xs) ys zs (n, h) =
    let e = contains-append ys zs x in
    let m : (contains ys x || contains zs x) ≡ false = rw e at n in
    let (a, b) = IsApart-append xs ys zs h in ((ground arith, a), (ground arith, b))

-- What a field of the receipt claims, if it is there, is none of the names.
abbrev pub IsUnclaimed : (Value → String) → Dict → List String → String → Type 0
IsUnclaimed to_str receipt names k =
    (has receipt k ≡ false) ⊎ IsApart names (as_string_set to_str (get receipt k))

claimed_capabilities-apart :
    (to_str : Value → String) (receipt : Dict) (names ks : List String)
    → IsApart names (claimed_capabilities to_str receipt ks)
    → All (IsUnclaimed to_str receipt names) ks
unfolding claimed_capabilities
claimed_capabilities-apart to_str receipt names [] h = tt
claimed_capabilities-apart to_str receipt names (k ∷ ks) h = elim (Bool-cases (has receipt k)) [
  | inl y ↦
      (let h1 = rw (claimed_capabilities, y) at h in
        let (a, b) =
          IsApart-append names (as_string_set to_str (get receipt k))
            (claimed_capabilities to_str receipt ks) h1 in
        (inr a, claimed_capabilities-apart to_str receipt names ks b))
  | inr n ↦ (
    inl n,
    claimed_capabilities-apart to_str receipt names ks (rw (claimed_capabilities, n) at h),
  )
]

-- What a receipt that passes satisfies.
pub record IsAdmitted (to_str : Value → String) (receipt contract : Dict) : Type 0 where
  pub forbidden : List Value
  pub type_allowed : allowed_in contract "allowed_outputs" (get receipt "artifact_type") ≡ some true
  pub mode_allowed : allowed_in contract "allowed_modes" (get receipt "mode") ≡ some true
  pub human_promotion : is_true (get receipt "human_promotion_required") ≡ true
  pub no_action : IsApart action_intent_fields (keys receipt)
  pub forbidden_eq :
      members_of (get_or contract "forbidden_capabilities" (list nil)) ≡ some forbidden
  pub no_field : IsApart (texts_among forbidden) (keys receipt)
  pub no_claim : All (IsUnclaimed to_str receipt (texts_among forbidden)) capability_names

-- A contract of good shape demands human promotion.
shape-promotion :
    (contract posture : Dict)
    → get_or contract "constitutional_posture" (dict empty) ≡ dict posture
    → validate_contract_shape contract ≡ []
    → is_true (get posture "human_promotion_required") ≡ true
unfolding validate_contract_shape
shape-promotion contract posture e h =
    let (_, a) =
      unless_none-nil (sorted_set (without contract_required_fields (keys contract))) missing_fields
        (shape_of contract (get_or contract "constitutional_posture" (dict empty))) h in
    let b : shape_of contract (dict posture) ≡ [] = rw e at a in
    (kept (is_true (get posture "human_promotion_required")) _ _
      (append-eq-nil (posture_errors posture posture_fields) (list_errors contract list_fields)
        b).0).0

module _ (to_str : Value → String) where
  with_sets-nil :
      (receipt contract : Dict) (p : Value) (t m : Option Bool) (f : Option (List Value))
      → get_or contract "constitutional_posture" (dict empty) ≡ p
      → allowed_in contract "allowed_outputs" (get receipt "artifact_type") ≡ t
      → allowed_in contract "allowed_modes" (get receipt "mode") ≡ m
      → members_of (get_or contract "forbidden_capabilities" (list nil)) ≡ f
      → with_sets to_str receipt contract p t m f ≡ some []
      → IsAdmitted to_str receipt contract
  unfolding receipt_errors
  with_sets-nil receipt contract (dict posture) (some t) (some m) (some f) ep et em ef h =
      let errors = receipt_errors to_str receipt posture t m (texts_among f) in
      let q : validate_contract_shape contract ++ errors ≡ [] = cc in
      let (shape, r) = append-eq-nil (validate_contract_shape contract) errors q in
      let promotion = shape-promotion contract posture ep shape in
      let promoted =
        not (is_true (get posture "human_promotion_required"))
        || is_true (get receipt "human_promotion_required") in
      let claims = claimed_capabilities to_str receipt capability_names in
      let e5 = unless_none (sorted_set (both (texts_among f) claims)) capability_claims in
      let e4 =
        unless_none (sorted_set (both (texts_among f) (keys receipt))) capability_fields ++ e5 in
      let e3 =
        unless_none (sorted_set (both action_intent_fields (keys receipt))) action_fields ++ e4 in
      let e2 = unless promoted human_promotion_not_true ++ e3 in
      let e1 = unless m (mode_not_allowed (get receipt "mode")) ++ e2 in
      let (a, h1) = kept t (artifact_type_not_allowed (get receipt "artifact_type")) e1 r in
      let (b, h2) = kept m (mode_not_allowed (get receipt "mode")) e2 h1 in
      let (c, h3) = kept promoted human_promotion_not_true e3 h2 in
      let (d, h4) =
        unless_none-nil (sorted_set (both action_intent_fields (keys receipt))) action_fields e4
          h3 in
      let (g, h5) =
        unless_none-nil (sorted_set (both (texts_among f) (keys receipt))) capability_fields e5
          h4 in
      let i =
        unless_none-nil_last (sorted_set (both (texts_among f) claims)) capability_claims h5 in
      record {
        forbidden = f;
        type_allowed = rw a at et;
        mode_allowed = rw b at em;
        human_promotion = rw promotion at c;
        no_action = apart action_intent_fields (keys receipt) d;
        forbidden_eq = ef;
        no_field = apart (texts_among f) (keys receipt) g;
        no_claim =
            claimed_capabilities-apart to_str receipt (texts_among f) capability_names
              (apart (texts_among f) claims i);
      }
  with_sets-nil receipt contract p t m f ep et em ef h = absurd (cc)

  -- A receipt without errors has an artifact type and a mode that the contract allows, demands human
  -- promotion, has no field of an action, and neither has a field for, nor claims, a capability that
  -- the contract forbids.
  pub validate_receipt_against_contract-IsAdmitted :
      (receipt contract default_contract : Dict)
      → validate_receipt_against_contract to_str receipt contract default_contract ≡ some []
      → IsAdmitted to_str receipt (active_contract contract default_contract)
  unfolding validate_receipt_against_contract
  validate_receipt_against_contract-IsAdmitted receipt contract default_contract h =
      with_sets-nil receipt (active_contract contract default_contract) _ _ _ _ refl refl refl refl
        h
