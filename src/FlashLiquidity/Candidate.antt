-- ===== src/FlashLiquidity/Candidate.antt =====
-- `FlashLiquidityProvider`, `FlashAmountBucket`, `FlashLiquidityCandidate` and their checks.
use Prim.Native.Char.{code}
use codex_trading_engine.Prelude.{
  ℕ, String, Bool, true, false, not, ◌&&◌, List, [], ◌∷◌, length, contains, is_empty, str_eq, ◌==◌,
  Result, ok, err, ◌>>◌, require, if◌then◌else◌,
}
use codex_trading_engine.Prelude.Int.{ℤ, pos}
use codex_trading_engine.TtlPolicy.Shape.{num_gt}

-- m / 2 ^ k
abbrev pub Float : Type 0
Float = ℤ × ℕ

abbrev pub zero_float : Float
zero_float = (pos 0, 0)

-- `_BPS`
abbrev pub bps : Float
bps = (pos 10000, 0)

-- `s.startswith(prefix)`
abbrev pub starts_with : String → String → Bool
starts_with s String.[] = true
starts_with String.[] (String.◌∷◌ c p) = false
starts_with (String.◌∷◌ d s) (String.◌∷◌ c p) = (code d == code c) && starts_with s p

-- `ValueError`, by its message.
pub data ValueError : Type 0 where
  provider_namespace fee_range no_capacities blank_capacity_asset capacity_not_positive
        provider_authority :
      ValueError
  bucket_namespace blank_asset principal_not_positive bucket_authority : ValueError
  candidate_namespace route_namespace edges_not_distinct route_not_closed amounts_not_positive
        feasible_mismatch candidate_authority :
      ValueError
  request_namespace receipt_namespace edges_not_three gas_negative profit_negative
        request_authority :
      ValueError
  not_sha256 : String → ValueError
  path_not_absolute no_executable timeout_not_positive request_too_long number_not_finite
        not_a_number :
      ValueError

pub record FlashLiquidityProvider : Type 0 where
  pub provider_id : String
  pub fee_bps : Float
  pub capacity_by_asset : List (String × Float)
  pub authority : Bool

-- `0.0 <= fee < _BPS`
abbrev pub is_fee : Float → Bool
is_fee fee = not (num_gt zero_float fee) && num_gt bps fee

abbrev pub check_capacities : (String → String) → List (String × Float) → Result ValueError Unit
check_capacities strip [] = ok tt
check_capacities strip ((asset, capacity) ∷ rest) =
    let further = check_capacities strip rest in
    if str_eq (strip asset) ""
    then err blank_capacity_asset
    else (if num_gt capacity zero_float then further else err capacity_not_positive)

unfoldable pub check_provider : (String → String) → FlashLiquidityProvider → Result ValueError Unit
check_provider strip p = do
  require (starts_with p.provider_id "flash-provider:") provider_namespace
  require (is_fee p.fee_bps) fee_range
  require (not (is_empty p.capacity_by_asset)) no_capacities
  check_capacities strip p.capacity_by_asset
  require (not p.authority) provider_authority

pub record FlashAmountBucket : Type 0 where
  pub bucket_id : String
  pub asset : String
  pub principal_amount : Float
  pub authority : Bool

unfoldable pub check_bucket : (String → String) → FlashAmountBucket → Result ValueError Unit
check_bucket strip b = do
  require (starts_with b.bucket_id "flash-bucket:") bucket_namespace
  require (not (str_eq (strip b.asset) "")) blank_asset
  require (num_gt b.principal_amount zero_float) principal_not_positive
  require (not b.authority) bucket_authority

pub record FlashLiquidityCandidate : Type 0 where
  pub candidate_id : String
  pub route_candidate_id : String
  pub edge_ids : List String
  pub asset_path : List String
  pub provider_id : String
  pub borrowed_asset : String
  pub amount_bucket_id : String
  pub principal_amount : Float
  pub provider_fee_bps : Float
  pub available_capacity : Float
  pub repayment_amount : Float
  pub projected_output_amount : Float
  pub projected_net_profit : Float
  pub net_log_delta : Float
  pub feasible : Bool
  pub authority : Bool

abbrev pub are_distinct : List String → Bool
are_distinct [] = true
are_distinct (x ∷ xs) = not (contains xs x) && are_distinct xs

-- `path[0]` and `path[-1]` of a path that is not empty
abbrev pub first_asset : List String → String
first_asset [] = ""
first_asset (x ∷ xs) = x

abbrev pub last_asset : List String → String
last_asset [] = ""
last_asset (x ∷ []) = x
last_asset (x ∷ y ∷ xs) = last_asset (y ∷ xs)

abbrev pub expected_feasible : FlashLiquidityCandidate → Bool
expected_feasible c =
    str_eq c.borrowed_asset (first_asset c.asset_path)
    && (not (num_gt c.principal_amount c.available_capacity)
        && (not (num_gt c.repayment_amount c.projected_output_amount)
            && not (num_gt zero_float c.projected_net_profit)))

abbrev pub same_bool : Bool → Bool → Bool
same_bool true b = b
same_bool false b = not b

unfoldable pub check_candidate : FlashLiquidityCandidate → Result ValueError Unit
check_candidate c = do
  require (starts_with c.candidate_id "flash-geometry:") candidate_namespace
  require (starts_with c.route_candidate_id "triangle:") route_namespace
  require ((length c.edge_ids == 3) && are_distinct c.edge_ids) edges_not_distinct
  require
      ((length c.asset_path == 4) && str_eq (first_asset c.asset_path) (last_asset c.asset_path))
      route_not_closed
  require (num_gt c.principal_amount zero_float && num_gt c.available_capacity zero_float)
      amounts_not_positive
  require (is_fee c.provider_fee_bps) fee_range
  require (same_bool c.feasible (expected_feasible c)) feasible_mismatch
  require (not c.authority) candidate_authority
