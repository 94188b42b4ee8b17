-- ===== src/Tests/Deployment.antt =====
-- A promotion to the testnet, entries for the governor, and the metrics of three attempts.
use codex_trading_engine.Prelude.{
  Bool, List, false, zero, suc, ◌*◌, ◌/◌, ◌<◌, arith, ℕ, ◌≤◌, String, ◌≡◌, refl, ◌↔◌, true, false,
  ◌⊎◌, Option, none, some, [], ◌∷◌, ok, ◌>>=◌, Result,
}
use codex_trading_engine.Prelude.Int.{ℤ, ◌≤ℤ◌, pos}
use codex_trading_engine.Value.{Value, Dict, Items, nil}
use codex_trading_engine.TtlPolicy.Shape.{Raised}
use codex_trading_engine.DeploymentGates.Decimal.{Decimal}
use codex_trading_engine.DeploymentGates.Tiers.{
  DeploymentTier, local_simulation, testnet, low_cost_network, level, TierPolicy, CostBreakdown,
  AggregatedMetrics,
}
use codex_trading_engine.DeploymentGates.Metrics.{OpportunityRecord, aggregate}
use codex_trading_engine.DeploymentGates.Metrics.Rates.{IsShare, LawfulDivision, aggregate-bounds}
use codex_trading_engine.DeploymentGates.Graduation.{Graduation, failures_of, evaluate}
use codex_trading_engine.DeploymentGates.Graduation.Eligible.{IsEligible, evaluate-eligible_iff}
use codex_trading_engine.DeploymentGates.Risk.{
  CircuitBreaker, new_breaker, trip, tripping, resetting, after_calls, Entry, evaluate_entry,
}
use codex_trading_engine.DeploymentGates.Risk.Submission.{
  IsSafe, IsConsistent, evaluate_entry-submit_iff, tripped-never_submits, after_calls-IsConsistent,
}
use codex_trading_engine.DeploymentGates.Store.{
  load, stored_tier, append, decision_event, record_decision,
}
use codex_trading_engine.DeploymentGates.Store.Ladder.{
  IsState, IsWarranted, IsPromotion, climb, record_decision-IsState, record_decision-evaluate,
  climb-tier,
}

abbrev dollars : ℕ → Decimal
dollars n = (pos n, 0)

abbrev policy : TierPolicy
policy = record {
  min_detection_accuracy = dollars 0;
  min_execution_success_rate = dollars 0;
  max_false_positive_rate = dollars 1;
  min_expected_net_profit_usd = dollars 0;
  max_drawdown_pct = dollars 10;
  max_failed_attempt_cost_usd = dollars 5;
  max_daily_gas_burn_usd = dollars 5;
  min_sample_size = pos 1;
  min_observation_hours = pos 1;
  min_restart_recoveries = pos 0;
  min_network_interruption_recoveries = pos 0;
  max_consecutive_failures = pos 3;
  max_attempts_per_hour = pos 4;
  daily_loss_ceiling_usd = dollars 50;
  reserve_fund_usd = dollars 100;
  min_surplus_cash_flow_usd = dollars 0;
  requires_human_approval = true;
}

abbrev metrics : AggregatedMetrics
metrics = record {
  sample_size = pos 2;
  observation_hours = dollars 2;
  detection_accuracy = dollars 1;
  execution_success_rate = dollars 1;
  false_positive_rate = dollars 0;
  expected_net_profit_usd = dollars 3;
  max_drawdown_pct = dollars 1;
  max_failed_attempt_cost_usd = dollars 1;
  daily_gas_burn_usd = dollars 1;
  consecutive_failures = pos 0;
  prediction_hit_rate = dollars 1;
}

abbrev to_testnet : Graduation
to_testnet = record {
  current_tier = local_simulation;
  requested_tier = testnet;
  policy = policy;
  metrics = metrics;
  stability = record {
    restart_recoveries = pos 0;
    network_interruption_recoveries = pos 0;
    unresolved_critical_bugs = pos 0;
  };
  reserve_fund_usd = dollars 100;
  surplus_cash_flow_usd = dollars 0;
  capabilities = none;
  human_approved = false;
}

abbrev costs : CostBreakdown
costs = record {
  flash_loan_premium_usd = dollars 1;
  dex_fees_usd = dollars 1;
  gas_usd = dollars 1;
  priority_fees_usd = dollars 0;
  slippage_usd = dollars 1;
  expected_revert_cost_usd = dollars 1;
}

abbrev entry : CircuitBreaker → Entry
entry b = record {
  expected_gross_profit_usd = dollars 9;
  costs = costs;
  safety_margin_usd = dollars 1;
  daily_loss_usd = dollars 0;
  daily_gas_burn_usd = dollars 0;
  attempts_last_hour = pos 0;
  consecutive_failures = pos 0;
  policy = policy;
  circuit_breaker = b;
  global_kill_switch = false;
  network_enabled = true;
  strategy_enabled = true;
  live_mode = true;
  human_approved = true;
}

evaluate-eligible_iff_example :
    (((evaluate to_testnet).eligible ≡ true) ↔ IsEligible to_testnet)
    × ((to_testnet.policy.requires_human_approval ≡ true)
        ⊎ ((b : Bool) → evaluate (record to_testnet { human_approved = b }) ≡ evaluate to_testnet))
evaluate-eligible_iff_example = evaluate-eligible_iff to_testnet

evaluate_entry-submit_iff_example :
    ((evaluate_entry (entry new_breaker)).submit ≡ true) ↔ IsSafe (entry new_breaker)
evaluate_entry-submit_iff_example = evaluate_entry-submit_iff (entry new_breaker)

tripped-never_submits_example :
    (evaluate_entry (
      entry (after_calls (trip new_breaker "gas") (resetting false ∷ tripping "loss" ∷ [])))).submit
    ≡ false
tripped-never_submits_example =
    tripped-never_submits new_breaker "gas" (resetting false ∷ tripping "loss" ∷ [])
      (entry (after_calls (trip new_breaker "gas") (resetting false ∷ tripping "loss" ∷ []))) refl
      refl

after_calls-IsConsistent_example :
    IsConsistent (after_calls new_breaker (tripping "gas" ∷ resetting true ∷ tripping "loss" ∷ []))
after_calls-IsConsistent_example =
    after_calls-IsConsistent new_breaker (tripping "gas" ∷ resetting true ∷ tripping "loss" ∷ [])
      refl

abbrev no_text : Value → String
no_text v = ""

abbrev no_number : String → Option ℤ
no_number s = none

abbrev unstripped : String → String
unstripped s = s

record_decision-IsState_example :
    (state : Dict) × (t' : DeploymentTier) × (record_decision no_text no_number unstripped "noon"
        none
        (evaluate to_testnet)
        (some "ada")
      ≡ ok state)
    × IsState no_text no_number unstripped state t' (
        append nil (
          decision_event no_text no_number unstripped "noon"
            (evaluate to_testnet)
            (some "ada")
            local_simulation))
    × ((IsWarranted no_text no_number unstripped (evaluate to_testnet) (some "ada") local_simulation
          × (t' ≡ (evaluate to_testnet).requested_tier))
        ⊎ (¬ IsWarranted no_text no_number unstripped
              (evaluate to_testnet)
              (some "ada")
              local_simulation
            × (t' ≡ local_simulation)))
unfolding stored_tier
record_decision-IsState_example =
    record_decision-IsState no_text no_number unstripped "noon" none (evaluate to_testnet)
      (some "ada") local_simulation nil (record { tier = refl; events_eq = refl })

record_decision-evaluate_example :
    (state : Dict) × (t' : DeploymentTier) × (events' : Items) × (record_decision no_text no_number
        unstripped "noon" none
        (evaluate to_testnet)
        (some "ada")
      ≡ ok state)
    × IsState no_text no_number unstripped state t' events'
    × ((t' ≡ local_simulation)
        ⊎ IsPromotion no_text no_number unstripped to_testnet (some "ada") local_simulation t')
unfolding stored_tier
record_decision-evaluate_example =
    record_decision-evaluate no_text no_number unstripped "noon" none to_testnet (some "ada")
      local_simulation nil (record { tier = refl; events_eq = refl })

-- Under a policy that requires no human approval, the tier advances without an approver.
abbrev unapproved : Graduation
unapproved = record to_testnet { policy = record policy { requires_human_approval = false } }

abbrev stored_after : Result Raised Dict → Result Raised DeploymentTier
stored_after r = do state ← r; stored_tier no_text no_number unstripped state

advances_unapproved :
    stored_after
      (record_decision no_text no_number unstripped "noon" none (evaluate unapproved) none)
    ≡ ok testnet
unfolding stored_tier record_decision evaluate failures_of
advances_unapproved = refl

-- With an approval required, it stays.
stays_unapproved :
    stored_after
      (record_decision no_text no_number unstripped "noon" none (evaluate to_testnet) none)
    ≡ ok local_simulation
unfolding stored_tier record_decision evaluate failures_of
stays_unapproved = refl

-- A policy without approval lets a request for real funds pass without a human.
abbrev to_real_funds : Graduation
to_real_funds = record unapproved {
  current_tier = testnet;
  requested_tier = low_cost_network;
  capabilities = some (record {
    flash_liquidity_supported = true;
    liquidity_depth_sufficient = true;
    dex_available = true;
    fee_model_supported = true;
    reliable = true;
    slippage_model_supported = true;
    tooling_ready = true;
    bridge_exposure_accepted = true;
  });
}

real_funds_unapproved : (evaluate to_real_funds).eligible ≡ true
unfolding evaluate failures_of
real_funds_unapproved = refl

climb-tier_example :
    (file : Option Dict) × (t : DeploymentTier) × (events : Items) × (climb no_text no_number
        unstripped none
        (("noon", to_testnet, some "ada") ∷ ("later", to_testnet, none) ∷ [])
      ≡ ok file)
    × IsState no_text no_number unstripped (load file) t events
    × (level t ≤ 2)
climb-tier_example =
    climb-tier no_text no_number unstripped
      (("noon", to_testnet, some "ada") ∷ ("later", to_testnet, none) ∷ [])

-- Six digits after the point, cut off; the sign is of the dividend alone.
abbrev by_million : ℤ → ℤ → ℤ
by_million (pos n) (pos zero) = pos 0
by_million (pos n) (pos (suc m)) = pos (n * 1000000 / suc m)
by_million _ _ = pos 0

abbrev cut_division : Decimal → Decimal → Decimal
cut_division (m, j) (n, k) = (by_million m n, 6)

cut_share : (part m : ℕ) → part ≤ suc m → part * 1000000 / suc m ≤ 1000000
cut_share part m l = grind arith

cut_division-LawfulDivision : LawfulDivision cut_division
cut_division-LawfulDivision = record { share = λ part whole p l. shared part whole p l }
  where
    shared :
        (part whole : ℕ)
        → 0 < whole
        → part ≤ whole
        → IsShare (cut_division (pos part, 0) (pos whole, 0))
    shared part zero p l = absurd (omega arith)
    shared part (suc m) p l = let c = cut_share part m l in (ground arith, ground (arith, c))

abbrev attempt : Bool → Bool → ℤ → OpportunityRecord
attempt real succeeded t = record {
  opportunity_id = "one";
  detected = true;
  was_real = real;
  submitted = true;
  execution_succeeded = succeeded;
  gross_opportunity_value_usd = dollars 5;
  costs = costs;
  realized_net_profit_usd = dollars 2;
  failed_attempt_cost_usd = dollars 1;
  gas_burn_usd = dollars 1;
  lead_time_ms = pos 9;
  prediction_hit = real;
  timestamp = t;
}

abbrev attempts : List OpportunityRecord
attempts = attempt true false (pos 5) ∷ attempt false true (pos 3) ∷ attempt true false (pos 9) ∷ []

aggregate-bounds_example :
    IsShare (aggregate cut_division attempts).detection_accuracy
    × IsShare (aggregate cut_division attempts).execution_success_rate
    × IsShare (aggregate cut_division attempts).false_positive_rate
    × IsShare (aggregate cut_division attempts).prediction_hit_rate
    × ((aggregate cut_division attempts).sample_size ≡ pos 3)
    × ((aggregate cut_division attempts).consecutive_failures ≤ℤ pos 3)
aggregate-bounds_example = aggregate-bounds cut_division cut_division-LawfulDivision attempts
