-- ===== src/RiskManagement/Positions.antt =====
-- `can_execute`, `record_position`, `record_pnl` and `reset_daily_tracking`.
use codex_trading_engine.Prelude.{
  String, Bool, true, false, not, Option, none, some, List, [], ◌∷◌, ◌++◌, str_eq, is_empty, unless,
  if◌then◌else◌,
}
use codex_trading_engine.DeploymentGates.Decimal.{Decimal, ltb_decimal, add}
use Prim.Native.String.{◌++◌ as ◌~◌}
use codex_trading_engine.RiskManagement.Limits.{
  ExecutionMode, RiskLevelManager, decimal, get_limits, get_thresholds, hundredth, max_of, multiply,
  negate,
}

-- `tracking.get(key, Decimal("0"))`
abbrev pub tracked : List (String × Decimal) → String → Decimal
tracked [] key = decimal 0
tracked ((k, x) ∷ rest) key = if str_eq k key then x else tracked rest key

-- `tracking[key] = x`
abbrev pub track : List (String × Decimal) → String → Decimal → List (String × Decimal)
track [] key x = (key, x) ∷ []
track ((k, y) ∷ rest) key x =
    let further = track rest key x in if str_eq k key then (k, x) ∷ rest else (k, y) ∷ further

pub data Violation : Type 0 where
  position_exceeds portfolio_exceeds : Decimal → Decimal → Violation
  chain_exceeds pair_exceeds : String → Decimal → Decimal → Violation
  daily_loss_exceeds : Decimal → Decimal → Violation

abbrev pub chain_key : String → String
chain_key chain = "chain:" ~ chain

abbrev pub pair_key : String → String
pair_key pair = "pair:" ~ pair

abbrev pub position_key : String → String
position_key position_id = "pos:" ~ position_id

-- What would be exposed on a chain or in a pair with the position.
abbrev pub chain_exposure : RiskLevelManager → String → Decimal → Decimal
chain_exposure m chain notional = add (tracked m.position_tracking (chain_key chain)) notional

abbrev pub pair_exposure : RiskLevelManager → String → Decimal → Decimal
pair_exposure m pair notional = add (tracked m.position_tracking (pair_key pair)) notional

-- `if asset_pair:`
abbrev pub named_pair : Option String → Option String
named_pair none = none
named_pair (some pair) = if str_eq pair "" then none else some pair

abbrev pub pair_violations : RiskLevelManager → Decimal → Decimal → Option String → List Violation
pair_violations m limit notional none = []
pair_violations m limit notional (some pair) =
    unless (not (ltb_decimal limit (pair_exposure m pair notional)))
      (pair_exceeds pair (pair_exposure m pair notional) limit)

-- `-self.portfolio_value * pct / Decimal("100")`
abbrev pub loss_floor : RiskLevelManager → Decimal → Decimal
loss_floor m pct = hundredth (multiply (negate m.portfolio_value) pct)

-- The violations, given the quotient of the position by the portfolio.
abbrev pub violations_of :
    RiskLevelManager → Decimal → String → Option String → ExecutionMode → Decimal → List Violation
violations_of m notional chain asset_pair mode quotient =
    let limits = get_limits m mode in
    let thresholds = get_thresholds m mode in
    let portfolio_pct = multiply quotient (decimal 100) in
    unless (not (ltb_decimal limits.max_notional_usd notional))
      (position_exceeds notional limits.max_notional_usd)
    ++ (unless (not (ltb_decimal limits.max_portfolio_pct portfolio_pct))
          (portfolio_exceeds portfolio_pct limits.max_portfolio_pct)
        ++ (unless (not (ltb_decimal limits.max_per_chain (chain_exposure m chain notional)))
              (chain_exceeds chain (chain_exposure m chain notional) limits.max_per_chain)
            ++ (pair_violations m limits.max_per_asset_pair notional (named_pair asset_pair)
                ++ unless
                    (not (ltb_decimal m.daily_pnl (loss_floor m thresholds.max_daily_loss_pct)))
                    (daily_loss_exceeds m.daily_pnl thresholds.max_daily_loss_pct))))

abbrev pub track_pair : List (String × Decimal) → Decimal → Option String → List (String × Decimal)
track_pair tracking notional none = tracking
track_pair tracking notional (some pair) =
    track tracking (pair_key pair) (add (tracked tracking (pair_key pair)) notional)

unfoldable pub record_position :
    RiskLevelManager → String → Decimal → String → Option String → RiskLevelManager
record_position m position_id notional chain asset_pair =
    let first = track m.position_tracking (position_key position_id) notional in
    let second = track first (chain_key chain) (add (tracked first (chain_key chain)) notional) in
    record {
      portfolio_value = m.portfolio_value;
      risk_tier = m.risk_tier;
      position_tracking = track_pair second notional (named_pair asset_pair);
      daily_pnl = m.daily_pnl;
      peak_drawdown = m.peak_drawdown;
    }

unfoldable pub reset_daily_tracking : RiskLevelManager → RiskLevelManager
reset_daily_tracking m = record {
  portfolio_value = m.portfolio_value;
  risk_tier = m.risk_tier;
  position_tracking = [];
  daily_pnl = decimal 0;
  peak_drawdown = m.peak_drawdown;
}

abbrev pub with_pnl : RiskLevelManager → Decimal → Decimal → RiskLevelManager
with_pnl m daily_pnl quotient =
    let drawdown = max_of (decimal 0) (multiply quotient (decimal 100)) in
    record {
      portfolio_value = m.portfolio_value;
      risk_tier = m.risk_tier;
      position_tracking = m.position_tracking;
      daily_pnl = daily_pnl;
      peak_drawdown = if ltb_decimal m.peak_drawdown drawdown then drawdown else m.peak_drawdown;
    }

module _ (divide : Decimal → Decimal → Option Decimal) where
  unfoldable pub can_execute :
      RiskLevelManager
      → Decimal
      → String
      → Option String
      → ExecutionMode
      → Option (Bool × List Violation)
  unfolding get_limits get_thresholds
  can_execute m notional chain asset_pair mode = elim (divide notional m.portfolio_value) [
    | none ↦ none
    | some quotient ↦
        (let violations = violations_of m notional chain asset_pair mode quotient in
          some (is_empty violations, violations))
  ]

  -- Where the quotient raises, the profit has been added already.
  unfoldable pub record_pnl : RiskLevelManager → Decimal → RiskLevelManager × Bool
  record_pnl m pnl =
      let daily_pnl = add m.daily_pnl pnl in
      elim (divide (negate daily_pnl) m.portfolio_value) [
        | none ↦ (
          record {
            portfolio_value = m.portfolio_value;
            risk_tier = m.risk_tier;
            position_tracking = m.position_tracking;
            daily_pnl = daily_pnl;
            peak_drawdown = m.peak_drawdown;
          },
          false,
        )
        | some quotient ↦ (with_pnl m daily_pnl quotient, true)
      ]
