-- ===== src/Tests/Risks.antt =====
-- A session of positions, and optimal sizes, with a quotient of four digits.
use codex_trading_engine.Prelude.{
  suc, ◌*◌, ◌/◌, ◌^◌, String, ◌≡◌, ◌↔◌, refl, true, false, inr, Option, none, some, [], ◌∷◌,
}
use codex_trading_engine.Prelude.Int.{ℤ, pos, negsuc}
use codex_trading_engine.DeploymentGates.Decimal.{Decimal}
use codex_trading_engine.RiskManagement.Limits.{
  conservative, live, RiskLevelManager, new_manager, get_limits, get_thresholds, decimal,
}
use codex_trading_engine.RiskManagement.Positions.{
  chain_exceeds, can_execute, record_position, record_pnl,
}
use codex_trading_engine.RiskManagement.Exposure.{IsWithin, can_execute_iff}
use codex_trading_engine.RiskManagement.Session.{
  IsBounded, IsReached, opened, placed, booked, session-IsBounded,
}
use codex_trading_engine.RiskManagement.Kelly.{
  KellyCriterionOptimizer, optimal_fraction, size_position, probability_of_ruin,
}
use codex_trading_engine.RiskManagement.Kelly.Fraction.{
  IsPartOf, IsFraction, size_position-IsPartOf, probability_of_ruin-IsFraction,
}

abbrev quotient : Decimal → Decimal → Option Decimal
quotient (pos m, j) (pos (suc n), k) = some (pos (m * 10 ^ k * 10000 / (suc n * 10 ^ j)), 4)
quotient (negsuc m, j) (pos (suc n), k) =
    some (negsuc (suc m * 10 ^ k * 10000 / (suc n * 10 ^ j)), 4)
quotient x y = none

abbrev no_power : Decimal → ℤ → Option Decimal
no_power x n = some (decimal 1)

abbrev fund : RiskLevelManager
fund = new_manager (decimal 100000) conservative

abbrev pair : Option String
pair = some "WETH/USDC"

-- After 300 dollars on a chain in live mode, where 500 are allowed, 200 more pass and 300 do not.
abbrev one_position : RiskLevelManager
one_position = record_position fund "p1" (decimal 300) "base" none

live_limit :
    (can_execute quotient one_position (decimal 200) "base" none live ≡ some (true, []))
    × (can_execute quotient one_position (decimal 300) "base" none live
        ≡ some (false, chain_exceeds "base" (pos 600, 0) (pos 500000, 3) ∷ []))
unfolding can_execute get_limits get_thresholds record_position
live_limit = (refl, refl)

can_execute_iff_example :
    (can_execute quotient one_position (decimal 200) "base" pair live ≡ some (true, []))
    ↔ IsWithin one_position (decimal 200) "base" pair live (pos 20, 4)
unfolding can_execute get_limits get_thresholds record_position
can_execute_iff_example =
    can_execute_iff quotient one_position (decimal 200) "base" pair live (pos 20, 4) refl

abbrev after_loss : RiskLevelManager
after_loss = (record_pnl quotient one_position (negsuc 99, 0)).0

two_positions :
    IsReached quotient live fund (record_position after_loss "p2" (decimal 200) "base" pair)
unfolding can_execute get_limits get_thresholds record_position record_pnl
two_positions =
    placed after_loss "p2" (decimal 200) "base" pair
      (booked one_position (negsuc 99, 0) (placed fund "p1" (decimal 300) "base" none opened refl))
      refl

session-IsBounded_example :
    IsBounded live (record_position after_loss "p2" (decimal 200) "base" pair)
session-IsBounded_example =
    session-IsBounded quotient 100000 0 conservative live
      (record_position after_loss "p2" (decimal 200) "base" pair) two_positions

abbrev favourable : KellyCriterionOptimizer
favourable = record { win_rate = (pos 55, 2); avg_win = (pos 15, 1); avg_loss = decimal 1 }

abbrev half : Decimal
half = (pos 5, 1)

half-IsFraction : IsFraction half
half-IsFraction = record { no_less_than_zero = refl; no_more_than_whole = refl }

half_kelly :
    size_position quotient no_power favourable (decimal 1000) none half ≡ some (pos 12500000, 5)
unfolding size_position optimal_fraction
half_kelly = refl

size_position-IsPartOf_example :
    (size : Decimal) × (size_position quotient no_power favourable (decimal 1000) none half
      ≡ some size)
    × IsPartOf (decimal 1000) size
size_position-IsPartOf_example =
    size_position-IsPartOf quotient no_power favourable 1000 0 half half-IsFraction
      (inr ((pos 2500, 4), refl))

probability_of_ruin-IsFraction_example : IsFraction (decimal 1)
unfolding probability_of_ruin optimal_fraction
probability_of_ruin-IsFraction_example =
    probability_of_ruin-IsFraction quotient no_power favourable (pos 10) none (decimal 1) refl
