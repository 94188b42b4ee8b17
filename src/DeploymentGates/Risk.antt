-- ===== src/DeploymentGates/Risk.antt =====
-- `CircuitBreaker` and `RiskGovernor.evaluate_entry` of eve_q/deployment_gates.py.
pub mod Submission
use codex_trading_engine.Prelude.{
  String, Bool, true, false, not, ◌&&◌, List, [], ◌∷◌, ◌++◌, is_empty, unless, Result, ok, err,
  if◌then◌else◌,
}
use codex_trading_engine.Prelude.Int.{ℤ, leb_ℤ}
use codex_trading_engine.DeploymentGates.Decimal.{Decimal, leb_decimal, add, subtract}
use codex_trading_engine.DeploymentGates.Tiers.{TierPolicy, CostBreakdown, total}

pub record CircuitBreaker : Type 0 where
  pub tripped : Bool
  pub reasons : List String

abbrev pub new_breaker : CircuitBreaker
new_breaker = record { tripped = false; reasons = [] }

abbrev pub trip : CircuitBreaker → String → CircuitBreaker
trip b reason = record { tripped = true; reasons = b.reasons ++ reason ∷ [] }

pub data BreakerError : Type 0 where
  permission_error : BreakerError

abbrev pub reset : CircuitBreaker → Bool → Result BreakerError CircuitBreaker
reset b human_approved =
    if human_approved then ok (record { tripped = false; reasons = [] }) else err permission_error

-- A call of the breaker; a reset that raises leaves it as it was.
pub data BreakerCall : Type 0 where
  tripping : String → BreakerCall
  resetting : Bool → BreakerCall

abbrev pub or_unchanged : CircuitBreaker → Result BreakerError CircuitBreaker → CircuitBreaker
or_unchanged b (ok c) = c
or_unchanged b (err e) = b

abbrev pub after_call : CircuitBreaker → BreakerCall → CircuitBreaker
after_call b (tripping reason) = trip b reason
after_call b (resetting approved) = or_unchanged b (reset b approved)

abbrev pub after_calls : CircuitBreaker → List BreakerCall → CircuitBreaker
after_calls b [] = b
after_calls b (c ∷ cs) = after_calls (after_call b c) cs

-- The arguments of `evaluate_entry`.
pub record Entry : Type 0 where
  pub expected_gross_profit_usd : Decimal
  pub costs : CostBreakdown
  pub safety_margin_usd : Decimal
  pub daily_loss_usd : Decimal
  pub daily_gas_burn_usd : Decimal
  pub attempts_last_hour : ℤ
  pub consecutive_failures : ℤ
  pub policy : TierPolicy
  pub circuit_breaker : CircuitBreaker
  pub global_kill_switch : Bool
  pub network_enabled : Bool
  pub strategy_enabled : Bool
  pub live_mode : Bool
  pub human_approved : Bool

pub record RiskDecision : Type 0 where
  pub submit : Bool
  pub reasons : List String
  pub expected_net_profit_usd : Decimal

unfoldable pub reasons_of : Entry → List String
reasons_of e =
    unless (not (leb_decimal e.expected_gross_profit_usd (add (total e.costs) e.safety_margin_usd)))
      "expected gross profit does not exceed total costs plus safety margin"
    ++ (unless (not (leb_decimal e.policy.daily_loss_ceiling_usd e.daily_loss_usd))
          "daily loss ceiling reached"
        ++ (unless (not (leb_decimal e.policy.max_daily_gas_burn_usd e.daily_gas_burn_usd))
              "daily gas-burn ceiling reached"
            ++ (unless (not (leb_ℤ e.policy.max_attempts_per_hour e.attempts_last_hour))
                  "maximum attempts per hour reached"
                ++ (unless (not (leb_ℤ e.policy.max_consecutive_failures e.consecutive_failures))
                      "maximum consecutive failures reached"
                    ++ (unless (not e.circuit_breaker.tripped) "circuit breaker is tripped"
                        ++ (unless (not e.global_kill_switch) "global kill switch is active"
                            ++ (unless e.network_enabled "network is disabled"
                                ++ (unless e.strategy_enabled "strategy is disabled"
                                    ++ unless (not (e.live_mode && not e.human_approved))
                                        "explicit human approval is required for live submission"))))))))

unfoldable pub evaluate_entry : Entry → RiskDecision
unfolding reasons_of
evaluate_entry e = record {
  submit = is_empty (reasons_of e);
  reasons = reasons_of e;
  expected_net_profit_usd = subtract e.expected_gross_profit_usd (total e.costs);
}
