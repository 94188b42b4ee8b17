-- ===== src/RiskManagement/Placement.antt =====
-- On the entries of the dict of positions after a position is recorded.
use codex_trading_engine.Prelude.{
  String, ◌≡◌, refl, ◌⊎◌, ◌∙◌, inl, inr, false, Option, none, some, List, str_eq, eq_iff,
  Bool-cases,
}
use codex_trading_engine.DeploymentGates.Decimal.{Decimal, ltb_decimal, add}
use codex_trading_engine.RiskManagement.Limits.{RiskLevelManager}
use codex_trading_engine.RiskManagement.Positions.{
  tracked, track, chain_key, pair_key, position_key, chain_exposure, pair_exposure, track_pair,
}
use codex_trading_engine.RiskManagement.Tracking.{
  tracked-track, tracked-track_other, chain-position, pair-position, pair-chain, chain-pair,
}

-- An entry that is set to a value within the limit leaves all entries within theirs.
pub track-below :
    (limit : Decimal) (t : List (String × Decimal)) (k j : String) (x : Decimal)
    → ltb_decimal limit (tracked t j) ≡ false
    → ltb_decimal limit x ≡ false
    → ltb_decimal limit (tracked (track t k x) j) ≡ false
track-below limit t k j x h new = elim (Bool-cases (str_eq k j)) [
  | inl e ↦
      (let s = (eq_iff k j).0 e in
        let q : tracked (track t k x) j ≡ x = rw (← s) (tracked-track t k x) in rw q new)
  | inr n ↦ (let q = tracked-track_other t k j x n in rw q h)
]

pub track_pair-chain :
    (t : List (String × Decimal)) (notional : Decimal) (p : Option String) (chain : String)
    → tracked (track_pair t notional p) (chain_key chain) ≡ tracked t (chain_key chain)
track_pair-chain t notional none chain = refl
track_pair-chain t notional (some pair) chain = tracked-track_other t _ _ _ (chain-pair chain pair)

module _ (m : RiskLevelManager) (position_id : String) (notional : Decimal) (chain : String) where
  -- The dict after the first two of the three entries are set.
  abbrev first_set : List (String × Decimal)
  first_set = track m.position_tracking (position_key position_id) notional

  abbrev second_set : List (String × Decimal)
  second_set =
      track first_set (chain_key chain) (add (tracked first_set (chain_key chain)) notional)

  first_set-chain :
      (c : String) → tracked first_set (chain_key c) ≡ tracked m.position_tracking (chain_key c)
  first_set-chain c = tracked-track_other _ _ _ _ (chain-position c position_id)

  second_set-pair :
      (p : String) → tracked second_set (pair_key p) ≡ tracked m.position_tracking (pair_key p)
  second_set-pair p =
      tracked-track_other _ _ _ _ (pair-chain p chain)
      ∙ tracked-track_other _ _ _ _ (pair-position p position_id)

  pub record_position-chain :
      (limit : Decimal) (c : String) (asset_pair : Option String)
      → ltb_decimal limit (tracked m.position_tracking (chain_key c)) ≡ false
      → ltb_decimal limit (chain_exposure m chain notional) ≡ false
      → ltb_decimal limit (tracked (track_pair second_set notional asset_pair) (chain_key c))
        ≡ false
  record_position-chain limit c asset_pair old new =
      let a = first_set-chain c in
      let b = first_set-chain chain in
      let e = track_pair-chain second_set notional asset_pair c in
      rw e (track-below limit first_set (chain_key chain) (chain_key c) _ (rw a old) (rw b new))

  pub record_position-pair :
      (limit : Decimal) (q : String) (asset_pair : Option String)
      → ltb_decimal limit (tracked m.position_tracking (pair_key q)) ≡ false
      → (asset_pair ≡ none)
        ⊎ (pair : String) × (asset_pair ≡ some pair)
          × (ltb_decimal limit (pair_exposure m pair notional) ≡ false)
      → ltb_decimal limit (tracked (track_pair second_set notional asset_pair) (pair_key q)) ≡ false
  record_position-pair limit q asset_pair old (inl e) = let a = second_set-pair q in rw e (rw a old)
  record_position-pair limit q asset_pair old (inr (pair, e, new)) =
      let a = second_set-pair q in
      let b = second_set-pair pair in
      rw e (track-below limit second_set (pair_key pair) (pair_key q) _ (rw a old) (rw b new))
