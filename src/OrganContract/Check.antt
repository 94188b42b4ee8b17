-- ===== src/OrganContract/Check.antt =====
-- `validate_contract_shape`, `_as_string_set` and `validate_receipt_against_contract`.
use codex_trading_engine.Prelude.{
  String, Bool, not, ◌||◌, Option, none, some, List, [], ◌∷◌, ◌++◌, map, unless, both, without,
  sorted_set, if◌then◌else◌,
}
use codex_trading_engine.Value.{
  Value, null, str, list, dict, Items, nil, cons, elements, Dict, empty, get, has, keys, truthy,
  is_true, is_list,
}
use codex_trading_engine.Value.Kinds.{get_or, is_hashable, all_hashable, occurs}

-- The errors, by their messages.
pub data ContractError : Type 0 where
  missing_fields : List String → ContractError
  posture_not_object human_promotion_not_true : ContractError
  posture_not_true field_not_list : String → ContractError
  artifact_type_not_allowed mode_not_allowed : Value → ContractError
  action_fields capability_fields capability_claims : List String → ContractError

-- In the order of the text, which `sorted` puts in that of the names.
abbrev pub contract_required_fields : List String
contract_required_fields =
    "organ_id" ∷ "organ_type" ∷ "version" ∷ "default_mode" ∷ "constitutional_posture"
    ∷ "allowed_outputs" ∷ "forbidden_capabilities" ∷ "allowed_modes" ∷ "promotion_path"
    ∷ "hard_invariants" ∷ []

abbrev pub action_intent_fields : List String
action_intent_fields =
    "action" ∷ "requested_action" ∷ "intent" ∷ "operation" ∷ "execution" ∷ "next_action"
    ∷ "automation" ∷ "scheduler" ∷ "webhook" ∷ "silent_remote_command_execution" ∷ "self_promotion"
    ∷ "governance_mutation" ∷ []

abbrev pub capability_names : List String
capability_names =
    "capability" ∷ "capabilities" ∷ "claimed_capability" ∷ "claimed_capabilities" ∷ []

-- The error with the names, if there are any.
abbrev pub unless_none : List String → (List String → ContractError) → List ContractError
unless_none [] e = []
unless_none (x ∷ xs) e = e (x ∷ xs) ∷ []

abbrev pub posture_fields : List String
posture_fields =
    "human_promotion_required" ∷ "no_reverse_execution_channel" ∷ "proposal_only"
    ∷ "ttl_required_for_autonomy" ∷ []

abbrev pub posture_errors : Dict → List String → List ContractError
posture_errors posture [] = []
posture_errors posture (k ∷ ks) =
    unless (is_true (get posture k)) (posture_not_true k) ++ posture_errors posture ks

abbrev pub list_fields : List String
list_fields =
    "allowed_outputs" ∷ "forbidden_capabilities" ∷ "allowed_modes" ∷ "promotion_path"
    ∷ "hard_invariants" ∷ []

abbrev pub list_errors : Dict → List String → List ContractError
list_errors contract [] = []
list_errors contract (k ∷ ks) =
    unless (not (has contract k) || is_list (get contract k)) (field_not_list k)
    ++ list_errors contract ks

abbrev pub shape_of : Dict → Value → List ContractError
shape_of contract (dict posture) =
    posture_errors posture posture_fields ++ list_errors contract list_fields
shape_of contract _ = posture_not_object ∷ []

unfoldable pub validate_contract_shape : Dict → List ContractError
validate_contract_shape contract =
    unless_none (sorted_set (without contract_required_fields (keys contract))) missing_fields
    ++ shape_of contract (get_or contract "constitutional_posture" (dict empty))

-- The characters of a text, as texts.
abbrev pub characters : String → List Value
characters String.[] = []
characters (String.◌∷◌ c s) = str (String.◌∷◌ c String.[]) ∷ characters s

-- `set(v)`, if it does not raise
abbrev pub members_of : Value → Option (List Value)
members_of (list xs) = if all_hashable (elements xs) then some (elements xs) else none
members_of (dict d) = some (map str (keys d))
members_of (str s) = some (characters s)
members_of _ = none

-- `v in members`, if it does not raise
abbrev pub member_of : Value → List Value → Option Bool
member_of v vs = if is_hashable v then some (occurs v vs) else none

-- The texts among values.
abbrev pub texts_among : List Value → List String
texts_among [] = []
texts_among (str s ∷ vs) = s ∷ texts_among vs
texts_among (v ∷ vs) = texts_among vs

abbrev pub allowed_in : Dict → String → Value → Option Bool
allowed_in contract name v = elim (members_of (get_or contract name (list nil))) [
  | none ↦ none
  | some vs ↦ member_of v vs
]

-- `contract or load_organ_contract(...)`
abbrev pub active_contract : Dict → Dict → Dict
active_contract contract default_contract =
    if truthy (dict contract) then contract else default_contract

module _ (to_str : Value → String) where
  -- `str(v)`
  abbrev pub text_of : Value → String
  text_of (str s) = s
  text_of v = to_str v

  abbrev pub texts_of : Items → List String
  texts_of nil = []
  texts_of (cons v vs) = text_of v ∷ texts_of vs

  unfoldable pub as_string_set : Value → List String
  as_string_set null = []
  as_string_set (str s) = s ∷ []
  as_string_set (list xs) = texts_of xs
  as_string_set v = to_str v ∷ []

  -- The loop over the fields that may claim a capability.
  unfoldable pub claimed_capabilities : Dict → List String → List String
  unfolding as_string_set
  claimed_capabilities receipt [] = []
  claimed_capabilities receipt (k ∷ ks) =
      let rest = claimed_capabilities receipt ks in
      if has receipt k then as_string_set (get receipt k) ++ rest else rest

  -- The errors of a receipt, the sets of the contract being read.
  unfoldable pub receipt_errors : Dict → Dict → Bool → Bool → List String → List ContractError
  unfolding claimed_capabilities
  receipt_errors receipt posture type_allowed mode_allowed forbidden =
      unless type_allowed (artifact_type_not_allowed (get receipt "artifact_type"))
      ++ (unless mode_allowed (mode_not_allowed (get receipt "mode"))
          ++ (unless
                (not (is_true (get posture "human_promotion_required"))
                  || is_true (get receipt "human_promotion_required"))
                human_promotion_not_true
              ++ (unless_none (sorted_set (both action_intent_fields (keys receipt))) action_fields
                  ++ (unless_none (sorted_set (both forbidden (keys receipt))) capability_fields
                      ++ unless_none
                          (sorted_set
                            (both forbidden (claimed_capabilities receipt capability_names)))
                          capability_claims))))

  abbrev pub with_sets :
      Dict
      → Dict
      → Value
      → Option Bool
      → Option Bool
      → Option (List Value)
      → Option (List ContractError)
  with_sets receipt contract (dict posture) (some type_allowed) (some mode_allowed)
        (some forbidden) =
      some (
        validate_contract_shape contract
        ++ receipt_errors receipt posture type_allowed mode_allowed (texts_among forbidden))
  with_sets receipt contract posture type_allowed mode_allowed forbidden = none

  abbrev pub check_receipt : Dict → Dict → Option (List ContractError)
  check_receipt receipt contract =
      with_sets receipt contract (get_or contract "constitutional_posture" (dict empty))
        (allowed_in contract "allowed_outputs" (get receipt "artifact_type"))
        (allowed_in contract "allowed_modes" (get receipt "mode"))
        (members_of (get_or contract "forbidden_capabilities" (list nil)))

  unfoldable pub validate_receipt_against_contract :
      Dict → Dict → Dict → Option (List ContractError)
  unfolding validate_contract_shape receipt_errors
  validate_receipt_against_contract receipt contract default_contract =
      check_receipt receipt (active_contract contract default_contract)
