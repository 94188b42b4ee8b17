-- ===== src/RiskManagement/Tracking.antt =====
-- On the dict that keeps the positions: what an entry holds after another is set, and the three
-- kinds of key.
use Prim.Native.Char.{Char, code}
use Prim.Native.String.append
use Prim.Native.String.{◌++◌ as ◌~◌}
use codex_trading_engine.Prelude.{
  ℕ, ◌==◌, String, ◌≡◌, refl, inl, inr, false, List, [], ◌∷◌, str_eq, eq_iff, Bool-cases, arith,
}
use codex_trading_engine.DeploymentGates.Decimal.{Decimal}
use codex_trading_engine.RiskManagement.Positions.{
  tracked, track, chain_key, pair_key, position_key,
}

pub tracked-track :
    (t : List (String × Decimal)) (k : String) (x : Decimal) → tracked (track t k x) k ≡ x
tracked-track [] k x = ground (arith, eq_iff k k)
tracked-track ((j, y) ∷ t) k x = ground (arith, eq_iff j k, tracked-track t k x)

pub tracked-track_other :
    (t : List (String × Decimal)) (k j : String) (x : Decimal)
    → str_eq k j ≡ false
    → tracked (track t k x) j ≡ tracked t j
tracked-track_other [] k j x h = ground (arith, eq_iff k j)
tracked-track_other ((i, y) ∷ t) k j x h =
    ground (arith, eq_iff i k, eq_iff i j, eq_iff k j, tracked-track_other t k j x h)

-- The second letter of a key tells which kind it is.
second_code : String → ℕ
second_code String.[] = 0
second_code (String.◌∷◌ c String.[]) = 0
second_code (String.◌∷◌ c (String.◌∷◌ d s)) = code d

two_letters :
    (c d : Char) (s t : String)
    → (String.◌∷◌ c (String.◌∷◌ d s)) ~ t ≡ String.◌∷◌ c (String.◌∷◌ d (s ~ t))
two_letters c d s t = rw (append.cons c (String.◌∷◌ d s) t, append.cons d s t) refl

differ : (s t : String) → (second_code s == second_code t) ≡ false → str_eq s t ≡ false
differ s t h = elim (Bool-cases (str_eq s t)) [
  | inl e ↦
      (let q = (eq_iff s t).0 e in
        absurd (let g : (second_code t == second_code t) ≡ false = rw q at h in ground arith))
  | inr n ↦ n
]

chain-second : (a : String) → second_code (chain_key a) ≡ b'h'
unfolding second_code
chain-second a = let e = two_letters "c" "h" "ain:" a in rw e refl

pair-second : (a : String) → second_code (pair_key a) ≡ b'a'
unfolding second_code
pair-second a = let e = two_letters "p" "a" "ir:" a in rw e refl

position-second : (a : String) → second_code (position_key a) ≡ b'o'
unfolding second_code
position-second a = let e = two_letters "p" "o" "s:" a in rw e refl

pub chain-position : (a b : String) → str_eq (position_key b) (chain_key a) ≡ false
chain-position a b = differ _ _ (rw (position-second b, chain-second a) refl)

pub pair-position : (a b : String) → str_eq (position_key b) (pair_key a) ≡ false
pair-position a b = differ _ _ (rw (position-second b, pair-second a) refl)

pub pair-chain : (a b : String) → str_eq (chain_key b) (pair_key a) ≡ false
pair-chain a b = differ _ _ (rw (chain-second b, pair-second a) refl)

pub chain-pair : (a b : String) → str_eq (pair_key b) (chain_key a) ≡ false
chain-pair a b = differ _ _ (rw (pair-second b, chain-second a) refl)
