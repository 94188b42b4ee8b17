-- ===== src/RiskManagement/Session.antt =====
-- On a session: positions that are recorded after a check, profits, losses and resets.
use codex_trading_engine.Prelude.{
  ℕ, String, ◌≡◌, refl, inl, inr, true, false, Option, some, Option-cases, [], arith,
}
use codex_trading_engine.Prelude.Int.{pos, neg_part}
use codex_trading_engine.DeploymentGates.Decimal.{Decimal, ltb_decimal, add}
use codex_trading_engine.RiskManagement.Limits.{
  RiskTier, conservative, moderate, aggressive, ExecutionMode, shadow, dry_run, paper, simulation,
  live, RiskLevelManager, new_manager, get_limits, decimal, negate, tier_config, mode_multiplier,
  multiply, hundredth, share,
}
use codex_trading_engine.RiskManagement.Positions.{
  tracked, chain_key, pair_key, named_pair, can_execute, record_position, reset_daily_tracking,
  record_pnl,
}
use codex_trading_engine.RiskManagement.Exposure.{IsWithin, can_execute_iff}
use codex_trading_engine.RiskManagement.Placement.{record_position-chain, record_position-pair}

-- No exposure is above its limit in the mode.
pub record IsBounded (mode : ExecutionMode) (m : RiskLevelManager) : Type 0 where
  pub chains :
      (chain : String)
      → ltb_decimal
          (get_limits m mode).max_per_chain
          (tracked m.position_tracking (chain_key chain))
        ≡ false
  pub pairs :
      (pair : String)
      → ltb_decimal
          (get_limits m mode).max_per_asset_pair
          (tracked m.position_tracking (pair_key pair))
        ≡ false
  pub chain_limit : ltb_decimal (get_limits m mode).max_per_chain (decimal 0) ≡ false
  pub pair_limit : ltb_decimal (get_limits m mode).max_per_asset_pair (decimal 0) ≡ false

module _ (divide : Decimal → Decimal → Option Decimal) where
  -- The managers that a session reaches in which every position is checked in the mode, and then
  -- recorded with the same arguments.
  pub data IsReached (mode : ExecutionMode) (first : RiskLevelManager)
      : RiskLevelManager → Type 0 where
    opened : IsReached mode first first
    placed :
        (m : RiskLevelManager) (position_id : String) (notional : Decimal) (chain : String)
        (asset_pair : Option String)
        → IsReached mode first m
        → can_execute divide m notional chain asset_pair mode ≡ some (true, [])
        → IsReached mode first (record_position m position_id notional chain asset_pair)
    booked :
        (m : RiskLevelManager) (pnl : Decimal)
        → IsReached mode first m
        → IsReached mode first (record_pnl divide m pnl).0
    restarted :
        (m : RiskLevelManager)
        → IsReached mode first m
        → IsReached mode first (reset_daily_tracking m)

module _ (m : RiskLevelManager) (position_id : String) (notional : Decimal) (chain : String) where
  record_position-IsBounded :
      (mode : ExecutionMode) (asset_pair : Option String) (quotient : Decimal)
      → IsBounded mode m
      → IsWithin m notional chain asset_pair mode quotient
      → IsBounded mode (record_position m position_id notional chain asset_pair)
  unfolding record_position get_limits
  record_position-IsBounded mode asset_pair quotient b w = record {
    chains = λ c.
        record_position-chain m position_id notional chain (get_limits m mode).max_per_chain c
          (named_pair asset_pair) (b.chains c) w.chain_below;
    pairs = λ q.
        record_position-pair m position_id notional chain (get_limits m mode).max_per_asset_pair q
          (named_pair asset_pair) (b.pairs q) w.pair_below;
    chain_limit = b.chain_limit;
    pair_limit = b.pair_limit;
  }

module _ (divide : Decimal → Decimal → Option Decimal) where
  executed-IsWithin :
      (m : RiskLevelManager) (notional : Decimal) (chain : String) (asset_pair : Option String)
      (mode : ExecutionMode)
      → can_execute divide m notional chain asset_pair mode ≡ some (true, [])
      → (quotient : Decimal) × IsWithin m notional chain asset_pair mode quotient
  unfolding can_execute
  executed-IsWithin m notional chain asset_pair mode h =
      elim (Option-cases (divide notional m.portfolio_value)) [
        | inl e ↦ absurd (let h1 = rw (can_execute, e) at h in cc)
        | inr (quotient, e) ↦
            (quotient, (can_execute_iff divide m notional chain asset_pair mode quotient e).0 h)
      ]

  record_pnl-IsBounded :
      (mode : ExecutionMode) (m : RiskLevelManager) (pnl : Decimal)
      → IsBounded mode m
      → IsBounded mode (record_pnl divide m pnl).0
  unfolding record_pnl get_limits
  record_pnl-IsBounded mode m pnl b =
      elim (Option-cases (divide (negate (add m.daily_pnl pnl)) m.portfolio_value)) [
        | inl e ↦
            rw (record_pnl, e)
              (record {
                chains = b.chains;
                pairs = b.pairs;
                chain_limit = b.chain_limit;
                pair_limit = b.pair_limit;
              })
        | inr (q, e) ↦
            rw (record_pnl, e)
              (record {
                chains = b.chains;
                pairs = b.pairs;
                chain_limit = b.chain_limit;
                pair_limit = b.pair_limit;
              })
      ]

  reached-IsBounded :
      (mode : ExecutionMode) (first m : RiskLevelManager)
      → IsBounded mode first
      → IsReached divide mode first m
      → IsBounded mode m
  unfolding reset_daily_tracking get_limits
  reached-IsBounded mode first m b opened = b
  reached-IsBounded mode first m b (placed n position_id notional chain asset_pair r h) =
      let (quotient, w) = executed-IsWithin n notional chain asset_pair mode h in
      record_position-IsBounded n position_id notional chain mode asset_pair quotient
        (reached-IsBounded mode first n b r) w
  reached-IsBounded mode first m b (booked n pnl r) =
      record_pnl-IsBounded mode n pnl (reached-IsBounded mode first n b r)
  reached-IsBounded mode first m b (restarted n r) =
      let c = reached-IsBounded mode first n b r in
      record {
        chains = λ x. c.chain_limit;
        pairs = λ x. c.pair_limit;
        chain_limit = c.chain_limit;
        pair_limit = c.pair_limit;
      }

neg-multiply : (x y : Decimal) → neg_part x.0 ≡ 0 → neg_part y.0 ≡ 0 → neg_part (multiply x y).0 ≡ 0
neg-multiply (m, j) (n, k) h g = rw (h, g) (ground arith)

below-nonnegative : (x : Decimal) → neg_part x.0 ≡ 0 → ltb_decimal x (decimal 0) ≡ false
below-nonnegative (m, j) h = rw h (ground arith)

neg-share :
    (x p c : Decimal)
    → neg_part x.0 ≡ 0
    → neg_part p.0 ≡ 0
    → neg_part c.0 ≡ 0
    → neg_part (share x p c).0 ≡ 0
neg-share x p c hx hp hc = neg-multiply (hundredth (multiply x p)) c (neg-multiply x p hx hp) hc

neg-multiplier : (mode : ExecutionMode) → neg_part (mode_multiplier mode).0 ≡ 0
neg-multiplier shadow = refl
neg-multiplier dry_run = refl
neg-multiplier paper = refl
neg-multiplier simulation = refl
neg-multiplier live = refl

neg-per_chain : (tier : RiskTier) → neg_part (tier_config tier).max_per_chain_pct.0 ≡ 0
neg-per_chain conservative = refl
neg-per_chain moderate = refl
neg-per_chain aggressive = refl

neg-per_pair : (tier : RiskTier) → neg_part (tier_config tier).max_per_pair_pct.0 ≡ 0
neg-per_pair conservative = refl
neg-per_pair moderate = refl
neg-per_pair aggressive = refl

-- With a portfolio of no less than zero, every limit is no less than zero.
new_manager-IsBounded :
    (n k : ℕ) (tier : RiskTier) (mode : ExecutionMode)
    → IsBounded mode (new_manager (pos n, k) tier)
unfolding get_limits
new_manager-IsBounded n k tier mode =
    let c =
      neg-share (pos n, k) (tier_config tier).max_per_chain_pct (mode_multiplier mode) refl
        (neg-per_chain tier) (neg-multiplier mode) in
    let p =
      neg-share (pos n, k) (tier_config tier).max_per_pair_pct (mode_multiplier mode) refl
        (neg-per_pair tier) (neg-multiplier mode) in
    let c0 = below-nonnegative _ c in
    let p0 = below-nonnegative _ p in
    record { chains = λ x. c0; pairs = λ x. p0; chain_limit = c0; pair_limit = p0 }

-- In a session that starts with a new manager of a portfolio of no less than zero, and records
-- every position with the arguments of a check in the mode that it has just passed, no chain's and
-- no pair's exposure is ever above its limit in that mode.
pub session-IsBounded :
    (divide : Decimal → Decimal → Option Decimal) (n k : ℕ) (tier : RiskTier) (mode : ExecutionMode)
    (m : RiskLevelManager)
    → IsReached divide mode (new_manager (pos n, k) tier) m
    → IsBounded mode m
session-IsBounded divide n k tier mode m r =
    reached-IsBounded divide mode (new_manager (pos n, k) tier) m
      (new_manager-IsBounded n k tier mode) r
