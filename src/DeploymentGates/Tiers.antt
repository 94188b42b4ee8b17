-- ===== src/DeploymentGates/Tiers.antt =====
-- The data of the module: tiers, policies, costs, evidence and metrics.
use codex_trading_engine.Prelude.{
  ℕ, String, ◌==◌, Bool, false, ◌&&◌, Option, none, some, List, [], ◌∷◌, if◌then◌else◌,
}
use codex_trading_engine.Prelude.Int.{ℤ, pos, negsuc}
use codex_trading_engine.DeploymentGates.Decimal.{Decimal, sum_from}

pub data DeploymentTier : Type 0 where
  local_simulation testnet low_cost_network ethereum_mainnet : DeploymentTier

-- `int(tier)`
abbrev pub level : DeploymentTier → ℕ
level local_simulation = 0
level testnet = 1
level low_cost_network = 2
level ethereum_mainnet = 3

-- `DeploymentTier(n)`; `none` is the `ValueError`.
abbrev pub tier_of : ℤ → Option DeploymentTier
tier_of (pos n) =
    if n == 0
    then some local_simulation
    else if n == 1
    then some testnet
    else if n == 2
    then some low_cost_network
    else if n == 3
    then some ethereum_mainnet
    else none
tier_of (negsuc n) = none

pub record TierPolicy : Type 0 where
  pub min_detection_accuracy : Decimal
  pub min_execution_success_rate : Decimal
  pub max_false_positive_rate : Decimal
  pub min_expected_net_profit_usd : Decimal
  pub max_drawdown_pct : Decimal
  pub max_failed_attempt_cost_usd : Decimal
  pub max_daily_gas_burn_usd : Decimal
  pub min_sample_size : ℤ
  pub min_observation_hours : ℤ
  pub min_restart_recoveries : ℤ
  pub min_network_interruption_recoveries : ℤ
  pub max_consecutive_failures : ℤ
  pub max_attempts_per_hour : ℤ
  pub daily_loss_ceiling_usd : Decimal
  pub reserve_fund_usd : Decimal
  pub min_surplus_cash_flow_usd : Decimal
  pub requires_human_approval : Bool

pub record CostBreakdown : Type 0 where
  pub flash_loan_premium_usd : Decimal
  pub dex_fees_usd : Decimal
  pub gas_usd : Decimal
  pub priority_fees_usd : Decimal
  pub slippage_usd : Decimal
  pub expected_revert_cost_usd : Decimal

-- `CostBreakdown.total`
abbrev pub total : CostBreakdown → Decimal
total c =
    sum_from (pos 0, 0)
      (c.flash_loan_premium_usd ∷ c.dex_fees_usd ∷ c.gas_usd ∷ c.priority_fees_usd ∷ c.slippage_usd
        ∷ c.expected_revert_cost_usd ∷ [])

pub record StabilityEvidence : Type 0 where
  pub restart_recoveries : ℤ
  pub network_interruption_recoveries : ℤ
  pub unresolved_critical_bugs : ℤ

pub record AggregatedMetrics : Type 0 where
  pub sample_size : ℤ
  pub observation_hours : Decimal
  pub detection_accuracy : Decimal
  pub execution_success_rate : Decimal
  pub false_positive_rate : Decimal
  pub expected_net_profit_usd : Decimal
  pub max_drawdown_pct : Decimal
  pub max_failed_attempt_cost_usd : Decimal
  pub daily_gas_burn_usd : Decimal
  pub consecutive_failures : ℤ
  pub prediction_hit_rate : Decimal

pub record NetworkCapabilities : Type 0 where
  pub flash_liquidity_supported : Bool
  pub liquidity_depth_sufficient : Bool
  pub dex_available : Bool
  pub fee_model_supported : Bool
  pub reliable : Bool
  pub slippage_model_supported : Bool
  pub tooling_ready : Bool
  pub bridge_exposure_accepted : Bool

-- `NetworkCapabilities.ready`
abbrev pub ready : NetworkCapabilities → Bool
ready c =
    c.flash_liquidity_supported
    && (c.liquidity_depth_sufficient
        && (c.dex_available
            && (c.fee_model_supported
                && (c.reliable
                    && (c.slippage_model_supported
                        && (c.tooling_ready && c.bridge_exposure_accepted))))))

-- `capabilities is not None and capabilities.ready`
abbrev pub is_ready : Option NetworkCapabilities → Bool
is_ready none = false
is_ready (some c) = ready c

pub record GraduationDecision : Type 0 where
  pub eligible : Bool
  pub current_tier : DeploymentTier
  pub requested_tier : DeploymentTier
  pub failures : List String
  pub human_approval_required : Bool
  pub authority : Bool
