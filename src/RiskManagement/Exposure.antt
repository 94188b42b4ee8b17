-- ===== src/RiskManagement/Exposure.antt =====
-- On the exposure that a sequence of checked positions builds up.
use codex_trading_engine.Prelude.{
  String, ◌≡◌, refl, ap, ◌∙◌, append-nil, append-eq-nil, ◌↔◌, ◌⊎◌, inl, inr, Bool, true, false, not,
  Option, none, some, List, [], ◌++◌, is_empty, unless,
}
use codex_trading_engine.DeploymentGates.Decimal.{Decimal, ltb_decimal}
use codex_trading_engine.RiskManagement.Limits.{
  ExecutionMode, RiskLevelManager, get_limits, get_thresholds, decimal, multiply,
}
use codex_trading_engine.RiskManagement.Positions.{
  Violation, chain_exposure, pair_exposure, named_pair, pair_violations, loss_floor, violations_of,
  can_execute,
}

-- What a position must satisfy, given its quotient by the portfolio.
pub record IsWithin (m : RiskLevelManager) (notional : Decimal) (chain : String)
    (asset_pair : Option String) (mode : ExecutionMode) (quotient : Decimal) : Type 0 where
  pub notional_below : ltb_decimal (get_limits m mode).max_notional_usd notional ≡ false
  pub portfolio_below :
      ltb_decimal (get_limits m mode).max_portfolio_pct (multiply quotient (decimal 100)) ≡ false
  pub chain_below :
      ltb_decimal (get_limits m mode).max_per_chain (chain_exposure m chain notional) ≡ false
  pub pair_below :
      (named_pair asset_pair ≡ none)
      ⊎ (pair : String) × (named_pair asset_pair ≡ some pair)
        × (ltb_decimal (get_limits m mode).max_per_asset_pair (pair_exposure m pair notional)
            ≡ false)
  pub loss_above_floor :
      ltb_decimal m.daily_pnl (loss_floor m (get_thresholds m mode).max_daily_loss_pct) ≡ false

clear :
    (b : Bool) (v : Violation) (rest : List Violation)
    → unless (not b) v ++ rest ≡ []
    → (b ≡ false) × (rest ≡ [])
clear true v rest h = absurd (cc)
clear false v rest h = (refl, h)

pair_clear :
    (m : RiskLevelManager) (limit notional : Decimal) (p : Option String)
    → pair_violations m limit notional p ≡ []
    → (p ≡ none)
      ⊎ (pair : String) × (p ≡ some pair)
        × (ltb_decimal limit (pair_exposure m pair notional) ≡ false)
pair_clear m limit notional none h = inl refl
pair_clear m limit notional (some pair) h = inr (pair, refl, (clear _ _ [] (append-nil _ ∙ h)).0)

clear_pair :
    (m : RiskLevelManager) (limit notional : Decimal) (p : Option String)
    → (p ≡ none)
      ⊎ (pair : String) × (p ≡ some pair)
        × (ltb_decimal limit (pair_exposure m pair notional) ≡ false)
    → pair_violations m limit notional p ≡ []
clear_pair m limit notional p (inl e) = rw e refl
clear_pair m limit notional p (inr (pair, e, h)) = rw (e) (rw h refl)

violations_of-nil :
    (m : RiskLevelManager) (notional : Decimal) (chain : String) (asset_pair : Option String)
    (mode : ExecutionMode) (quotient : Decimal)
    → violations_of m notional chain asset_pair mode quotient ≡ []
    → IsWithin m notional chain asset_pair mode quotient
violations_of-nil m notional chain asset_pair mode quotient h =
    let (a, h1) = clear _ _ _ h in
    let (b, h2) = clear _ _ _ h1 in
    let (c, h3) = clear _ _ _ h2 in
    let (d, h4) = append-eq-nil _ _ h3 in
    record {
      notional_below = a;
      portfolio_below = b;
      chain_below = c;
      pair_below =
          pair_clear m (get_limits m mode).max_per_asset_pair notional (named_pair asset_pair) d;
      loss_above_floor = (clear _ _ [] (append-nil _ ∙ h4)).0;
    }

nil-violations_of :
    (m : RiskLevelManager) (notional : Decimal) (chain : String) (asset_pair : Option String)
    (mode : ExecutionMode) (quotient : Decimal)
    → IsWithin m notional chain asset_pair mode quotient
    → violations_of m notional chain asset_pair mode quotient ≡ []
nil-violations_of m notional chain asset_pair mode quotient w =
    let p =
      clear_pair m (get_limits m mode).max_per_asset_pair notional (named_pair asset_pair)
        w.pair_below in
    rw (w.notional_below, w.portfolio_below, w.chain_below, p, w.loss_above_floor) refl

module _ (divide : Decimal → Decimal → Option Decimal) where
  -- Where the quotient of the position by the portfolio exists, a position can be executed exactly
  -- when it is no larger than the limit and than its share of the portfolio, its chain's and its
  -- pair's exposure with it are no larger than theirs, and the day's loss is no larger than allowed;
  -- a missing or empty pair has no exposure.
  pub can_execute_iff :
      (m : RiskLevelManager) (notional : Decimal) (chain : String) (asset_pair : Option String)
      (mode : ExecutionMode) (quotient : Decimal)
      → divide notional m.portfolio_value ≡ some quotient
      → (can_execute divide m notional chain asset_pair mode ≡ some (true, []))
        ↔ IsWithin m notional chain asset_pair mode quotient
  unfolding can_execute
  can_execute_iff m notional chain asset_pair mode quotient e =
      let vs = violations_of m notional chain asset_pair mode quotient in
      (
        λ h.
            let h1 : ◌≡◌ {A = Option (Bool × List Violation)} (some (is_empty vs, vs))
                (some (true, [])) =
              rw (can_execute, e) at h in
            let (_, none_left) = option-pair _ _ h1 in
            violations_of-nil m notional chain asset_pair mode quotient none_left,
        λ w.
            (let none_left = nil-violations_of m notional chain asset_pair mode quotient w in
              rw (can_execute, e) (rw none_left refl)),
      )
    where
      option-pair :
          {A B : Type 0} (x y : A × B)
          → ◌≡◌ {A = Option (A × B)} (some x) (some y)
          → (x.0 ≡ y.0) × (x.1 ≡ y.1)
      option-pair x y h = let s : x ≡ y = cc in (ap (λ z. z.0) s, ap (λ z. z.1) s)
