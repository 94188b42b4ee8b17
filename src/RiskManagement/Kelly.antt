-- ===== src/RiskManagement/Kelly.antt =====
-- `KellyCriterionOptimizer`. Besides the quotient, the power of a decimal is an argument; both give
-- `none` where Python raises.
pub mod Fraction
use codex_trading_engine.Prelude.{
  ℕ, ◌+◌, Bool, true, false, Option, none, some, ◌==◌, if◌then◌else◌,
}
use codex_trading_engine.Prelude.Int.{ℤ, pos, pos_part, neg_part}
use codex_trading_engine.DeploymentGates.Decimal.{Decimal, leb_decimal, subtract}
use codex_trading_engine.RiskManagement.Limits.{decimal, multiply, max_of, min_of}

pub record KellyCriterionOptimizer : Type 0 where
  pub win_rate : Decimal
  pub avg_win : Decimal
  pub avg_loss : Decimal

-- `max(Decimal("0"), min(Decimal("1"), x))`
abbrev pub clamped : Decimal → Decimal
clamped x = max_of (decimal 0) (min_of (decimal 1) x)

-- `x == 0`
abbrev pub is_zero : Decimal → Bool
is_zero (m, k) = (pos_part m + neg_part m) == 0

abbrev pub clamped_option : Option Decimal → Option Decimal
clamped_option none = none
clamped_option (some x) = some (clamped x)

abbrev pub numerator : KellyCriterionOptimizer → Decimal
numerator o =
    subtract (multiply o.win_rate o.avg_win) (multiply (subtract (decimal 1) o.win_rate) o.avg_loss)

module _ (divide : Decimal → Decimal → Option Decimal) (power : Decimal → ℤ → Option Decimal) where
  unfoldable pub optimal_fraction : KellyCriterionOptimizer → Option Decimal
  optimal_fraction o =
      if leb_decimal o.avg_win (decimal 0)
      then some (decimal 0)
      else clamped_option (divide (numerator o) o.avg_win)

  -- `kelly_fraction`, or the optimal fraction for None
  abbrev pub fraction_or_optimal : KellyCriterionOptimizer → Option Decimal → Option Decimal
  fraction_or_optimal o none = optimal_fraction o
  fraction_or_optimal o (some fraction) = some fraction

  unfoldable pub size_position :
      KellyCriterionOptimizer → Decimal → Option Decimal → Decimal → Option Decimal
  unfolding optimal_fraction
  size_position o capital kelly_fraction fractional_kelly =
      elim (fraction_or_optimal o kelly_fraction) [
        | none ↦ none
        | some fraction ↦ some (multiply capital (multiply fraction fractional_kelly))
      ]

  abbrev pub ruin_at : KellyCriterionOptimizer → ℤ → Decimal → Option Decimal
  ruin_at o trades fraction =
      if is_zero fraction
      then some (decimal 0)
      else (if is_zero o.win_rate
          then some (decimal 1)
          else (elim (divide (subtract (decimal 1) o.win_rate) o.win_rate) [
            | none ↦ none
            | some ratio ↦ clamped_option (power ratio trades)
          ]))

  unfoldable pub probability_of_ruin : KellyCriterionOptimizer → ℤ → Option Decimal → Option Decimal
  unfolding optimal_fraction
  probability_of_ruin o trades kelly_fraction = elim (fraction_or_optimal o kelly_fraction) [
    | none ↦ none
    | some fraction ↦ ruin_at o trades fraction
  ]
