-- ===== src/DeploymentGates/Graduation.antt =====
-- `GraduationEvaluator.evaluate` of eve_q/deployment_gates.py.
pub mod Eligible
use codex_trading_engine.Prelude.{
  ℕ, ◌+◌, String, Bool, true, false, not, ◌&&◌, Option, none, some, List, [], ◌∷◌, ◌++◌, is_empty,
  unless, ◌==◌, leb,
}
use codex_trading_engine.Prelude.Int.{ℤ, pos, leb_ℤ, eqb_ℤ}
use codex_trading_engine.DeploymentGates.Decimal.{Decimal, leb_decimal, ltb_decimal}
use codex_trading_engine.DeploymentGates.Tiers.{
  DeploymentTier, ethereum_mainnet, level, TierPolicy, AggregatedMetrics, StabilityEvidence,
  NetworkCapabilities, is_ready, GraduationDecision,
}

-- The arguments of `evaluate`.
pub record Graduation : Type 0 where
  pub current_tier : DeploymentTier
  pub requested_tier : DeploymentTier
  pub policy : TierPolicy
  pub metrics : AggregatedMetrics
  pub stability : StabilityEvidence
  pub reserve_fund_usd : Decimal
  pub surplus_cash_flow_usd : Decimal
  pub capabilities : Option NetworkCapabilities
  pub human_approved : Bool

-- The dictionary `checks`.
abbrev pub checks : Graduation → List (String × Bool)
checks g =
    let p = g.policy in
    let m = g.metrics in
    let s = g.stability in
    ("detection accuracy below minimum", leb_decimal p.min_detection_accuracy m.detection_accuracy)
    ∷ (
      "execution success rate below minimum",
      leb_decimal p.min_execution_success_rate m.execution_success_rate,
    )
    ∷ (
      "false-positive rate above maximum",
      leb_decimal m.false_positive_rate p.max_false_positive_rate,
    )
    ∷ (
      "expected net profitability below minimum",
      leb_decimal p.min_expected_net_profit_usd m.expected_net_profit_usd,
    )
    ∷ ("drawdown above maximum", leb_decimal m.max_drawdown_pct p.max_drawdown_pct)
    ∷ (
      "failed-attempt cost above maximum",
      leb_decimal m.max_failed_attempt_cost_usd p.max_failed_attempt_cost_usd,
    )
    ∷ ("daily gas burn above maximum", leb_decimal m.daily_gas_burn_usd p.max_daily_gas_burn_usd)
    ∷ ("sample size below minimum", leb_ℤ p.min_sample_size m.sample_size)
    ∷ (
      "observation period below minimum",
      leb_decimal (p.min_observation_hours, 0) m.observation_hours,
    )
    ∷ (
      "restart recovery evidence insufficient",
      leb_ℤ p.min_restart_recoveries s.restart_recoveries,
    )
    ∷ (
      "network interruption recovery evidence insufficient",
      leb_ℤ p.min_network_interruption_recoveries s.network_interruption_recoveries,
    )
    ∷ ("unresolved critical bugs remain", eqb_ℤ s.unresolved_critical_bugs (pos 0))
    ∷ (
      "consecutive failures above maximum",
      leb_ℤ m.consecutive_failures p.max_consecutive_failures,
    )
    ∷ ("reserve fund below requirement", leb_decimal p.reserve_fund_usd g.reserve_fund_usd)
    ∷ []

-- The loop over `checks.items()`.
abbrev pub failed : List (String × Bool) → List String
failed [] = []
failed ((message, passed) ∷ rest) = unless passed message ++ failed rest

-- `requested_tier >= DeploymentTier.LOW_COST_NETWORK`
abbrev pub real_funds : DeploymentTier → Bool
real_funds t = leb 2 (level t)

abbrev pub is_mainnet : DeploymentTier → Bool
is_mainnet ethereum_mainnet = true
is_mainnet _ = false

unfoldable pub failures_of : Graduation → List String
failures_of g =
    unless (level g.requested_tier == level g.current_tier + 1)
      "tier transitions must advance exactly one level"
    ++ (failed (checks g)
        ++ (unless (not (real_funds g.requested_tier && not (is_ready g.capabilities)))
              "network adapter capability checks failed"
            ++ (unless
                  (not (
                    is_mainnet g.requested_tier
                    && ltb_decimal g.surplus_cash_flow_usd g.policy.min_surplus_cash_flow_usd))
                  "ongoing surplus cash flow below Ethereum requirement"
                ++ unless
                    (not (
                      real_funds g.requested_tier
                      && (g.policy.requires_human_approval && not g.human_approved)))
                    "explicit human approval is required for real-funds promotion")))

unfoldable pub evaluate : Graduation → GraduationDecision
unfolding failures_of
evaluate g = record {
  eligible = is_empty (failures_of g);
  current_tier = g.current_tier;
  requested_tier = g.requested_tier;
  failures = failures_of g;
  human_approval_required = g.policy.requires_human_approval;
  authority = false;
}
