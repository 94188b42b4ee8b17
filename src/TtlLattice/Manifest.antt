-- ===== src/TtlLattice/Manifest.antt =====
-- `validate_manifest_shape`.
use codex_trading_engine.Prelude.{
  String, Bool, true, ◌&&◌, List, [], ◌∷◌, ◌++◌, is_empty, unless, Result, ok, err, ◌>>=◌, ◌>>◌,
  require, if◌then◌else◌,
}
use codex_trading_engine.Value.{Value, dict, Dict, empty, field, get, has, is_true, is_false}
use codex_trading_engine.Value.Kinds.{
  is_filled_text, is_text_list, values, is_hashable, all_hashable, all_distinct, is_nonnegative_int,
  is_strictly_positive_int, is_zero_or_one,
}
use codex_trading_engine.TtlPolicy.Shape.{Raised, raised, key_in}
use codex_trading_engine.TtlLattice.Floats.{is_nonnegative_number}

pub data ManifestError : Type 0 where
  missing_manifest_field posture_must_be_true authority_must_be_false field_not_texts
        scope_not_texts scope_not_number :
      String → ManifestError
  posture_not_object authority_not_object promotion_not_true : ManifestError
  ranks_not_object ranks_not_integers ranks_not_unique inert_undefined : ManifestError
  clocks_not_object scope_not_object : ManifestError
  clock_policy_not_object clock_ttl_not_positive clock_unknown_target clock_required_not_boolean :
      String → ManifestError
  clock_renewal_not_human clock_on_expiry_empty : String → ManifestError
  clock_missing_field : String → String → ManifestError

-- Sorted.
abbrev pub manifest_fields : List String
manifest_fields =
    "authority" ∷ "clock_types" ∷ "degradation_rank" ∷ "denied_capabilities" ∷ "hard_invariants"
    ∷ "human_approval_required_for" ∷ "manifest_id" ∷ "posture" ∷ "scope" ∷ "version" ∷ []

abbrev pub missing_of : Dict → List String → (String → ManifestError) → List ManifestError
missing_of d [] f = []
missing_of d (k ∷ ks) f = unless (has d k) (f k) ++ missing_of d ks f

abbrev pub not_true_of : Dict → List String → List ManifestError
not_true_of d [] = []
not_true_of d (k ∷ ks) = unless (is_true (get d k)) (posture_must_be_true k) ++ not_true_of d ks

abbrev pub not_false_of : Dict → List String → List ManifestError
not_false_of d [] = []
not_false_of d (k ∷ ks) =
    unless (is_false (get d k)) (authority_must_be_false k) ++ not_false_of d ks

abbrev pub manifest_posture : Value → List ManifestError
manifest_posture (dict posture) = not_true_of posture (
    "proposal_only" ∷ "authority_bounded_in_space" ∷ "authority_bounded_in_time"
    ∷ "expiry_never_self_renews" ∷ "human_approval_required_for_renewal" ∷ "receipt_is_not_command"
    ∷ [])
manifest_posture _ = posture_not_object ∷ []

abbrev pub manifest_authority : Value → List ManifestError
manifest_authority (dict authority) =
    not_false_of authority (
      "authority" ∷ "execution_authority" ∷ "wallet_authority" ∷ "signing_authority"
      ∷ "capital_authority" ∷ "deployment_authority" ∷ "scheduler_authority" ∷ [])
    ++ unless (is_true (get authority "human_promotion_required")) promotion_not_true
manifest_authority _ = authority_not_object ∷ []

abbrev pub all_nonnegative : List Value → Bool
all_nonnegative [] = true
all_nonnegative (v ∷ vs) = is_nonnegative_int v && all_nonnegative vs

-- The errors of the ranks; `raised` is the `TypeError` of a rank that has no hash.
abbrev pub rank_errors_of : Dict → Result Raised (List ManifestError)
rank_errors_of ranks =
    if all_hashable (values ranks)
    then ok (
        unless (all_nonnegative (values ranks)) ranks_not_integers
        ++ (unless (all_distinct (values ranks)) ranks_not_unique
            ++ unless (has ranks "inert") inert_undefined))
    else err raised

abbrev pub manifest_ranks : Value → Result Raised (List ManifestError)
manifest_ranks (dict (field k v ranks)) = rank_errors_of (field k v ranks)
manifest_ranks _ = ok (ranks_not_object ∷ [])

-- What the clocks are tested against: the ranks, or nothing where they are no object.
abbrev pub ranks_in : Value → Dict
ranks_in (dict ranks) = ranks
ranks_in _ = empty

-- One round of the loop over `clocks.items()`.
abbrev pub clock_errors : Dict → String → Value → Result Raised (List ManifestError)
clock_errors ranks name (dict policy) = do
  known ← key_in (get policy "expiry_target") ranks
  require (is_hashable (get policy "required")) raised
  ok (
      missing_of policy
        ("required" ∷ "max_ttl_seconds" ∷ "expiry_target" ∷ "on_expiry" ∷ "renewal_requires_human"
          ∷ [])
        (clock_missing_field name)
      ++ (unless (is_strictly_positive_int (get policy "max_ttl_seconds"))
            (clock_ttl_not_positive name)
          ++ (unless known (clock_unknown_target name)
              ++ (unless (is_zero_or_one (get policy "required")) (clock_required_not_boolean name)
                  ++ (unless (is_true (get policy "renewal_requires_human"))
                        (clock_renewal_not_human name)
                      ++ unless (is_filled_text (get policy "on_expiry"))
                          (clock_on_expiry_empty name))))))
clock_errors ranks name _ = ok (clock_policy_not_object name ∷ [])

unfoldable pub clocks_errors : Dict → Dict → Result Raised (List ManifestError)
unfolding all_distinct
clocks_errors ranks empty = ok []
clocks_errors ranks (field name policy clocks) = do
  here ← clock_errors ranks name policy
  rest ← clocks_errors ranks clocks
  ok (here ++ rest)

abbrev pub manifest_clocks : Dict → Value → Result Raised (List ManifestError)
manifest_clocks ranks (dict (field k v clocks)) = clocks_errors ranks (field k v clocks)
manifest_clocks ranks _ = ok (clocks_not_object ∷ [])

abbrev pub not_texts_of : Dict → List String → (String → ManifestError) → List ManifestError
not_texts_of d [] f = []
not_texts_of d (k ∷ ks) f = unless (is_text_list (get d k)) (f k) ++ not_texts_of d ks f

abbrev pub not_numbers_of : Dict → List String → Result Raised (List ManifestError)
not_numbers_of d [] = ok []
not_numbers_of d (k ∷ ks) = do
  fits ← is_nonnegative_number (get d k)
  rest ← not_numbers_of d ks
  ok (unless fits (scope_not_number k) ++ rest)

abbrev pub manifest_scope : Value → Result Raised (List ManifestError)
manifest_scope (dict scope) = do
  numbers ←
      not_numbers_of scope
        ("max_position_notional_usd" ∷ "max_daily_loss_usd" ∷ "max_leverage" ∷ [])
  ok (
      not_texts_of scope ("allowed_assets" ∷ "allowed_venues" ∷ "allowed_order_types" ∷ [])
        scope_not_texts
      ++ numbers)
manifest_scope _ = ok (scope_not_object ∷ [])

abbrev pub text_fields : List String
text_fields = "denied_capabilities" ∷ "human_approval_required_for" ∷ "hard_invariants" ∷ []

abbrev pub shape_errors : Dict → Result Raised (List ManifestError)
shape_errors manifest = do
  ranked ← manifest_ranks (get manifest "degradation_rank")
  clocked ←
      manifest_clocks (ranks_in (get manifest "degradation_rank")) (get manifest "clock_types")
  scoped ← manifest_scope (get manifest "scope")
  ok (
      manifest_posture (get manifest "posture")
      ++ (manifest_authority (get manifest "authority")
          ++ (ranked
              ++ (clocked ++ (scoped ++ not_texts_of manifest text_fields field_not_texts)))))

unfoldable pub validate_manifest_shape : Dict → Result Raised (List ManifestError)
unfolding clocks_errors
validate_manifest_shape manifest =
    let missing = missing_of manifest manifest_fields missing_manifest_field in
    if is_empty missing then shape_errors manifest else ok missing
