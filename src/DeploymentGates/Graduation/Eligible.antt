-- ===== src/DeploymentGates/Graduation/Eligible.antt =====
-- When a promotion is eligible.
use codex_trading_engine.Prelude.{
  ◌+◌, String, ◌≡◌, refl, ◌↔◌, Bool, true, false, not, ◌&&◌, List, [], ◌++◌, is_empty-nil,
  append-eq-nil, unless, ==_iff, arith, ◌⊎◌, inl, inr, Bool-cases,
}
use codex_trading_engine.Prelude.Int.{pos, leb_ℤ, eqb_ℤ}
use codex_trading_engine.DeploymentGates.Decimal.{leb_decimal, ltb_decimal}
use codex_trading_engine.DeploymentGates.Tiers.{level, is_ready}
use codex_trading_engine.DeploymentGates.Graduation.{
  Graduation, checks, failed, real_funds, is_mainnet, failures_of, evaluate,
}

-- The evidence that the policy of the tier asks for.
pub record IsProven (g : Graduation) : Type 0 where
  pub accurate : leb_decimal g.policy.min_detection_accuracy g.metrics.detection_accuracy ≡ true
  pub executes :
      leb_decimal g.policy.min_execution_success_rate g.metrics.execution_success_rate ≡ true
  pub few_false : leb_decimal g.metrics.false_positive_rate g.policy.max_false_positive_rate ≡ true
  pub profitable :
      leb_decimal g.policy.min_expected_net_profit_usd g.metrics.expected_net_profit_usd ≡ true
  pub drawdown : leb_decimal g.metrics.max_drawdown_pct g.policy.max_drawdown_pct ≡ true
  pub failed_cost :
      leb_decimal g.metrics.max_failed_attempt_cost_usd g.policy.max_failed_attempt_cost_usd ≡ true
  pub gas : leb_decimal g.metrics.daily_gas_burn_usd g.policy.max_daily_gas_burn_usd ≡ true
  pub sampled : leb_ℤ g.policy.min_sample_size g.metrics.sample_size ≡ true
  pub observed : leb_decimal (g.policy.min_observation_hours, 0) g.metrics.observation_hours ≡ true
  pub restarts : leb_ℤ g.policy.min_restart_recoveries g.stability.restart_recoveries ≡ true
  pub interruptions :
      leb_ℤ g.policy.min_network_interruption_recoveries g.stability.network_interruption_recoveries
      ≡ true
  pub no_bugs : g.stability.unresolved_critical_bugs ≡ pos 0
  pub few_failures : leb_ℤ g.metrics.consecutive_failures g.policy.max_consecutive_failures ≡ true
  pub reserve : leb_decimal g.policy.reserve_fund_usd g.reserve_fund_usd ≡ true

-- All that an eligible promotion rests on.
pub record IsEligible (g : Graduation) : Type 0 where
  pub one_up : level g.requested_tier ≡ level g.current_tier + 1
  pub proven : IsProven g
  pub capable : (real_funds g.requested_tier ≡ false) ⊎ (is_ready g.capabilities ≡ true)
  pub surplus :
      (is_mainnet g.requested_tier ≡ false)
      ⊎ (ltb_decimal g.surplus_cash_flow_usd g.policy.min_surplus_cash_flow_usd ≡ false)
  pub approved :
      (real_funds g.requested_tier ≡ false)
      ⊎ (g.policy.requires_human_approval ≡ false)
      ⊎ (g.human_approved ≡ true)

passes :
    (b : Bool) (m : String) (rest : List String)
    → unless b m ++ rest ≡ []
    → (b ≡ true) × (rest ≡ [])
passes true m rest h = (refl, h)
passes false m rest h = absurd (cc)

passes_last : (b : Bool) (m : String) → unless b m ≡ [] → b ≡ true
passes_last true m h = refl
passes_last false m h = absurd (cc)

unguarded : (a b : Bool) → not (a && not b) ≡ true → (a ≡ false) ⊎ (b ≡ true)
unguarded true true h = inr refl
unguarded true false h = absurd (cc)
unguarded false b h = inl refl

guarded : (a b : Bool) → (a ≡ false) ⊎ (b ≡ true) → not (a && not b) ≡ true
guarded a b (inl e) = rw e refl
guarded a b (inr e) = elim (Bool-cases a) [ inl y ↦ rw (y, e) refl | inr n ↦ rw n refl ]

forbidden : (a b : Bool) → not (a && b) ≡ true → (a ≡ false) ⊎ (b ≡ false)
forbidden true true h = absurd (cc)
forbidden true false h = inr refl
forbidden false b h = inl refl

allowed : (a b : Bool) → (a ≡ false) ⊎ (b ≡ false) → not (a && b) ≡ true
allowed a b (inl e) = rw e refl
allowed a b (inr e) = elim (Bool-cases a) [ inl y ↦ rw (y, e) refl | inr n ↦ rw n refl ]

approval : (a b c : Bool) → not (a && (b && not c)) ≡ true → (a ≡ false) ⊎ (b ≡ false) ⊎ (c ≡ true)
approval true b c h = inr (unguarded b c h)
approval false b c h = inl refl

approves : (a b c : Bool) → (a ≡ false) ⊎ (b ≡ false) ⊎ (c ≡ true) → not (a && (b && not c)) ≡ true
approves a b c (inl e) = rw e refl
approves true b c (inr s) = guarded b c s
approves false b c (inr s) = refl

eqb_ℤ-eq : (a b : _) → eqb_ℤ a b ≡ true → a ≡ b
eqb_ℤ-eq a b h = ground arith

failed-IsProven : (g : Graduation) → failed (checks g) ≡ [] → IsProven g
failed-IsProven g h0 =
    let (a1, h1) = passes _ _ _ h0 in
    let (a2, h2) = passes _ _ _ h1 in
    let (a3, h3) = passes _ _ _ h2 in
    let (a4, h4) = passes _ _ _ h3 in
    let (a5, h5) = passes _ _ _ h4 in
    let (a6, h6) = passes _ _ _ h5 in
    let (a7, h7) = passes _ _ _ h6 in
    let (a8, h8) = passes _ _ _ h7 in
    let (a9, h9) = passes _ _ _ h8 in
    let (a10, h10) = passes _ _ _ h9 in
    let (a11, h11) = passes _ _ _ h10 in
    let (a12, h12) = passes _ _ _ h11 in
    let (a13, h13) = passes _ _ _ h12 in
    let (a14, _) = passes _ _ _ h13 in
    record {
      accurate = a1;
      executes = a2;
      few_false = a3;
      profitable = a4;
      drawdown = a5;
      failed_cost = a6;
      gas = a7;
      sampled = a8;
      observed = a9;
      restarts = a10;
      interruptions = a11;
      no_bugs = eqb_ℤ-eq _ _ a12;
      few_failures = a13;
      reserve = a14;
    }

IsProven-failed : (g : Graduation) → IsProven g → failed (checks g) ≡ []
IsProven-failed g p =
    rw
      (
        p.accurate, p.executes, p.few_false, p.profitable, p.drawdown, p.failed_cost, p.gas,
        p.sampled, p.observed, p.restarts, p.interruptions, p.no_bugs, p.few_failures, p.reserve,
      )
      refl

pub failures_of-nil : (g : Graduation) → failures_of g ≡ [] → IsEligible g
unfolding failures_of
failures_of-nil g h0 =
    let (a1, h1) = passes _ _ _ h0 in
    let (a2, h2) = append-eq-nil (failed (checks g)) _ h1 in
    let (a3, h3) = passes _ _ _ h2 in
    let (a4, h4) = passes _ _ _ h3 in
    record {
      one_up = (==_iff _ _).0 a1;
      proven = failed-IsProven g a2;
      capable = unguarded _ _ a3;
      surplus = forbidden _ _ a4;
      approved = approval _ _ _ (passes_last _ _ h4);
    }

nil-failures_of : (g : Graduation) → IsEligible g → failures_of g ≡ []
unfolding failures_of
nil-failures_of g e =
    rw
      (
        (==_iff _ _).1 e.one_up,
        IsProven-failed g e.proven,
        guarded _ _ e.capable,
        allowed _ _ e.surplus,
        approves _ _ _ e.approved,
      )
      refl

-- A promotion is eligible exactly when it goes up one tier, the evidence meets every bound of the
-- policy, for a tier with real funds the network is capable and, where the policy requires a human's
-- approval, a human has approved, and for the Ethereum mainnet the surplus cash flow suffices. Where
-- the policy requires no approval, whether a human has approved decides nothing, also for a tier
-- with real funds.
pub evaluate-eligible_iff :
    (g : Graduation)
    → (((evaluate g).eligible ≡ true) ↔ IsEligible g)
      × ((g.policy.requires_human_approval ≡ true)
          ⊎ ((b : Bool) → evaluate (record g { human_approved = b }) ≡ evaluate g))
unfolding evaluate failures_of
evaluate-eligible_iff g = (
  (λ h. failures_of-nil g (is_empty-nil _ h), λ e. rw (nil-failures_of g e) refl),
  elim (Bool-cases g.policy.requires_human_approval) [
    | inl y ↦ inl y
    | inr n ↦ inr (λ b. rw n refl)
  ],
)
