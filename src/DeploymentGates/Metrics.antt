-- ===== src/DeploymentGates/Metrics.antt =====
-- `MetricsAggregator.aggregate`. Times are in microseconds. The division of decimals, which rounds,
-- is an argument.
pub mod Rates
use codex_trading_engine.Prelude.{
  String, ℕ, zero, suc, ◌+◌, ◌*◌, ◌/◌, Bool, true, false, not, ◌&&◌, List, [], ◌∷◌, length,
  is_empty, ltb, ◌==◌, if◌then◌else◌,
}
use codex_trading_engine.Prelude.Int.{ℤ, pos, negsuc, pos_part, neg_part, sub_ℕ, leb_ℤ, eqb_ℤ, ◌-ℤ◌}
use codex_trading_engine.DeploymentGates.Decimal.{Decimal, ltb_decimal, add, subtract, sum_from}
use codex_trading_engine.DeploymentGates.Tiers.{CostBreakdown, AggregatedMetrics}

pub record OpportunityRecord : Type 0 where
  pub opportunity_id : String
  pub detected : Bool
  pub was_real : Bool
  pub submitted : Bool
  pub execution_succeeded : Bool
  pub gross_opportunity_value_usd : Decimal
  pub costs : CostBreakdown
  pub realized_net_profit_usd : Decimal
  pub failed_attempt_cost_usd : Decimal
  pub gas_burn_usd : Decimal
  pub lead_time_ms : ℤ
  pub prediction_hit : Bool
  pub timestamp : ℤ

-- `sorted(records, key=lambda item: item.timestamp)`, which keeps equal ones in order
abbrev pub insert_record : OpportunityRecord → List OpportunityRecord → List OpportunityRecord
insert_record r [] = r ∷ []
insert_record r (x ∷ xs) =
    let later = insert_record r xs in
    if leb_ℤ r.timestamp x.timestamp then r ∷ x ∷ xs else x ∷ later

abbrev pub by_timestamp : List OpportunityRecord → List OpportunityRecord
by_timestamp [] = []
by_timestamp (x ∷ xs) = insert_record x (by_timestamp xs)

abbrev pub count_if : (OpportunityRecord → Bool) → List OpportunityRecord → ℕ
count_if test [] = 0
count_if test (x ∷ xs) = (if test x then 1 else 0) + count_if test xs

abbrev pub max_decimal : Decimal → Decimal → Decimal
max_decimal a b = if ltb_decimal a b then b else a

abbrev pub hundredfold : Decimal → Decimal
hundredfold (m, k) = (sub_ℕ (pos_part m * 100) (neg_part m * 100), k)

-- The UTC day of a time.
abbrev pub day_of : ℤ → ℤ
day_of (pos n) = pos (n / 86400000000)
day_of (negsuc n) = negsuc (n / 86400000000)

abbrev pub nothing : Decimal
nothing = (pos 0, 0)

-- `daily_gas[day] = daily_gas.get(day, 0) + gas`
abbrev pub burn : ℤ → Decimal → List (ℤ × Decimal) → List (ℤ × Decimal)
burn day gas [] = (day, add nothing gas) ∷ []
burn day gas ((d, x) ∷ rest) =
    let further = burn day gas rest in
    if eqb_ℤ d day then (d, add x gas) ∷ rest else (d, x) ∷ further

-- The variables of the loop.
pub record Tally : Type 0 where
  pub equity : Decimal
  pub peak : Decimal
  pub max_drawdown : Decimal
  pub consecutive : ℕ
  pub max_consecutive : ℕ
  pub daily_gas : List (ℤ × Decimal)

abbrev pub start : Tally
start = record {
  equity = nothing;
  peak = nothing;
  max_drawdown = nothing;
  consecutive = 0;
  max_consecutive = 0;
  daily_gas = [];
}

abbrev pub run_after : OpportunityRecord → ℕ → ℕ
run_after item n =
    if item.submitted && not item.execution_succeeded
    then n + 1
    else if item.submitted
    then 0
    else n

abbrev pub longest_after : OpportunityRecord → ℕ → ℕ → ℕ
longest_after item n most =
    if item.submitted && not item.execution_succeeded
    then (if ltb most (n + 1) then n + 1 else most)
    else most

-- `max(values, default=Decimal("0"))`
abbrev pub largest_from : Decimal → List Decimal → Decimal
largest_from best [] = best
largest_from best (x ∷ xs) = largest_from (max_decimal best x) xs

abbrev pub largest : List Decimal → Decimal
largest [] = nothing
largest (x ∷ xs) = largest_from x xs

abbrev pub last_time : ℤ → List OpportunityRecord → ℤ
last_time t [] = t
last_time t (x ∷ xs) = last_time x.timestamp xs

abbrev pub first_time : List OpportunityRecord → ℤ
first_time [] = pos 0
first_time (x ∷ xs) = x.timestamp

abbrev pub profits : List OpportunityRecord → List Decimal
profits [] = []
profits (x ∷ xs) = x.realized_net_profit_usd ∷ profits xs

abbrev pub attempt_costs : List OpportunityRecord → List Decimal
attempt_costs [] = []
attempt_costs (x ∷ xs) = x.failed_attempt_cost_usd ∷ attempt_costs xs

abbrev pub burns : List (ℤ × Decimal) → List Decimal
burns [] = []
burns ((d, x) ∷ rest) = x ∷ burns rest

abbrev pub no_metrics : AggregatedMetrics
no_metrics = record {
  sample_size = pos 0;
  observation_hours = nothing;
  detection_accuracy = nothing;
  execution_success_rate = nothing;
  false_positive_rate = nothing;
  expected_net_profit_usd = nothing;
  max_drawdown_pct = nothing;
  max_failed_attempt_cost_usd = nothing;
  daily_gas_burn_usd = nothing;
  consecutive_failures = pos 0;
  prediction_hit_rate = nothing;
}

module _ (divide : Decimal → Decimal → Decimal) where
  -- One round of the loop.
  abbrev pub tally : Tally → OpportunityRecord → Tally
  tally t item =
      let equity = add t.equity item.realized_net_profit_usd in
      let peak = max_decimal t.peak equity in
      record {
        equity = equity;
        peak = peak;
        max_drawdown =
            if ltb_decimal nothing peak
            then max_decimal t.max_drawdown (hundredfold (divide (subtract peak equity) peak))
            else t.max_drawdown;
        consecutive = run_after item t.consecutive;
        max_consecutive = longest_after item t.consecutive t.max_consecutive;
        daily_gas = burn (day_of item.timestamp) item.gas_burn_usd t.daily_gas;
      }

  abbrev pub tally_all : Tally → List OpportunityRecord → Tally
  tally_all t [] = t
  tally_all t (x ∷ xs) = tally_all (tally t x) xs

  -- A share of the records, or nothing where there are none to take it of.
  abbrev pub rate : ℕ → ℕ → Decimal
  rate part whole = if whole == 0 then nothing else divide (pos part, 0) (pos whole, 0)

  abbrev pub metrics_of : List OpportunityRecord → AggregatedMetrics
  metrics_of ordered =
      let t = tally_all start ordered in
      let opportunities = count_if (λ item. item.detected) ordered in
      let submitted = count_if (λ item. item.submitted) ordered in
      record {
        sample_size = pos (length ordered);
        observation_hours =
            divide (last_time (first_time ordered) ordered -ℤ first_time ordered, 6) (pos 3600, 0);
        detection_accuracy =
            rate (count_if (λ item. item.detected && item.was_real) ordered) opportunities;
        execution_success_rate =
            rate (count_if (λ item. item.submitted && item.execution_succeeded) ordered) submitted;
        false_positive_rate =
            rate (count_if (λ item. item.detected && not item.was_real) ordered) opportunities;
        expected_net_profit_usd =
            divide (sum_from nothing (profits ordered)) (pos (length ordered), 0);
        max_drawdown_pct = t.max_drawdown;
        max_failed_attempt_cost_usd = largest (attempt_costs ordered);
        daily_gas_burn_usd = largest (burns t.daily_gas);
        consecutive_failures = pos t.max_consecutive;
        prediction_hit_rate =
            divide (pos (count_if (λ item. item.prediction_hit) ordered), 0)
              (pos (length ordered), 0);
      }

  unfoldable pub aggregate : List OpportunityRecord → AggregatedMetrics
  aggregate records = if is_empty records then no_metrics else metrics_of (by_timestamp records)
