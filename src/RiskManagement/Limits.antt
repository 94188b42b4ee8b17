-- ===== src/RiskManagement/Limits.antt =====
-- The tiers, modes and tables, `get_limits` and `get_thresholds`.
use codex_trading_engine.Prelude.{ℕ, ◌+◌, ◌*◌, String, List, [], if◌then◌else◌}
use codex_trading_engine.Prelude.Int.{pos, pos_part, neg_part, sub_ℕ}
use codex_trading_engine.DeploymentGates.Decimal.{Decimal, ltb_decimal}
use Prim.Native.String.{◌++◌ as ◌~◌}

pub data RiskTier : Type 0 where
  conservative moderate aggressive : RiskTier

pub data ExecutionMode : Type 0 where
  shadow dry_run paper simulation live : ExecutionMode

abbrev pub tier_value : RiskTier → String
tier_value conservative = "conservative"
tier_value moderate = "moderate"
tier_value aggressive = "aggressive"

abbrev pub mode_value : ExecutionMode → String
mode_value shadow = "shadow"
mode_value dry_run = "dry_run"
mode_value paper = "paper"
mode_value simulation = "simulation"
mode_value live = "live"

pub record PositionSizeLimit : Type 0 where
  pub name : String
  pub max_notional_usd : Decimal
  pub max_portfolio_pct : Decimal
  pub max_per_chain : Decimal
  pub max_per_asset_pair : Decimal

pub record RiskThresholds : Type 0 where
  pub tier : RiskTier
  pub max_daily_loss_pct : Decimal
  pub max_drawdown_pct : Decimal
  pub max_correlation_exposure : Decimal
  pub min_profit_threshold_usd : Decimal

-- `Decimal("n")`
abbrev pub decimal : ℕ → Decimal
decimal n = (pos n, 0)

abbrev pub multiply : Decimal → Decimal → Decimal
multiply (m, j) (n, k) = (
  sub_ℕ (pos_part m * pos_part n + neg_part m * neg_part n)
      (pos_part m * neg_part n + neg_part m * pos_part n),
  j + k,
)

-- `x / Decimal("100")`
abbrev pub hundredth : Decimal → Decimal
hundredth (m, k) = (m, k + 2)

abbrev pub negate : Decimal → Decimal
negate (m, k) = (sub_ℕ (neg_part m) (pos_part m), k)

-- The attributes of the manager.
pub record RiskLevelManager : Type 0 where
  pub portfolio_value : Decimal
  pub risk_tier : RiskTier
  pub position_tracking : List (String × Decimal)
  pub daily_pnl : Decimal
  pub peak_drawdown : Decimal

abbrev pub new_manager : Decimal → RiskTier → RiskLevelManager
new_manager portfolio_value_usd risk_tier = record {
  portfolio_value = portfolio_value_usd;
  risk_tier = risk_tier;
  position_tracking = [];
  daily_pnl = decimal 0;
  peak_drawdown = decimal 0;
}

abbrev pub mode_multiplier : ExecutionMode → Decimal
mode_multiplier shadow = decimal 10
mode_multiplier dry_run = decimal 5
mode_multiplier paper = decimal 2
mode_multiplier simulation = decimal 1
mode_multiplier live = (pos 5, 1)

pub record TierConfig : Type 0 where
  pub max_notional_pct : Decimal
  pub max_portfolio_pct : Decimal
  pub max_per_chain_pct : Decimal
  pub max_per_pair_pct : Decimal

abbrev pub tier_config : RiskTier → TierConfig
tier_config conservative = record {
  max_notional_pct = decimal 5;
  max_portfolio_pct = decimal 2;
  max_per_chain_pct = decimal 1;
  max_per_pair_pct = (pos 5, 1);
}
tier_config moderate = record {
  max_notional_pct = decimal 10;
  max_portfolio_pct = decimal 5;
  max_per_chain_pct = decimal 2;
  max_per_pair_pct = decimal 1;
}
tier_config aggressive = record {
  max_notional_pct = decimal 20;
  max_portfolio_pct = decimal 10;
  max_per_chain_pct = decimal 5;
  max_per_pair_pct = decimal 2;
}

-- `self.portfolio_value * pct / Decimal("100") * multiplier`
abbrev pub share : Decimal → Decimal → Decimal → Decimal
share portfolio_value pct multiplier =
    multiply (hundredth (multiply portfolio_value pct)) multiplier

unfoldable pub get_limits : RiskLevelManager → ExecutionMode → PositionSizeLimit
get_limits m mode =
    let config = tier_config m.risk_tier in
    record {
      name = tier_value m.risk_tier ~ ("_" ~ mode_value mode);
      max_notional_usd = share m.portfolio_value config.max_notional_pct (mode_multiplier mode);
      max_portfolio_pct = multiply config.max_portfolio_pct (mode_multiplier mode);
      max_per_chain = share m.portfolio_value config.max_per_chain_pct (mode_multiplier mode);
      max_per_asset_pair = share m.portfolio_value config.max_per_pair_pct (mode_multiplier mode);
    }

-- The thresholds do not depend on the mode.
unfoldable pub get_thresholds : RiskLevelManager → ExecutionMode → RiskThresholds
get_thresholds m mode = elim m.risk_tier [
  | conservative ↦ record {
    tier = conservative;
    max_daily_loss_pct = decimal 2;
    max_drawdown_pct = decimal 5;
    max_correlation_exposure = (pos 5, 1);
    min_profit_threshold_usd = decimal 50;
  }
  | moderate ↦ record {
    tier = moderate;
    max_daily_loss_pct = decimal 5;
    max_drawdown_pct = decimal 10;
    max_correlation_exposure = (pos 7, 1);
    min_profit_threshold_usd = decimal 25;
  }
  | aggressive ↦ record {
    tier = aggressive;
    max_daily_loss_pct = decimal 10;
    max_drawdown_pct = decimal 20;
    max_correlation_exposure = (pos 85, 2);
    min_profit_threshold_usd = decimal 10;
  }
]

-- `max(a, b)` and `min(a, b)`, which keep `a` where neither is greater
abbrev pub max_of : Decimal → Decimal → Decimal
max_of a b = if ltb_decimal a b then b else a

abbrev pub min_of : Decimal → Decimal → Decimal
min_of a b = if ltb_decimal b a then b else a
