-- ===== src/DeploymentGates/Decimal.antt =====
-- Finite decimals: m / 10 ^ k. Sums and differences are exact, as Python's are while they fit the
-- 28 digits of its default context; the infinities and NaN are left out.
use codex_trading_engine.Prelude.{ℕ, ◌+◌, ◌*◌, ◌^◌, Bool, List, [], ◌∷◌, ltb, leb}
use codex_trading_engine.Prelude.Int.{ℤ, pos_part, neg_part, sub_ℕ}

abbrev pub Decimal : Type 0
Decimal = ℤ × ℕ

-- `x <= y` and `x < y`
abbrev pub leb_decimal : Decimal → Decimal → Bool
leb_decimal (m, j) (n, k) =
    leb (pos_part m * 10 ^ k + neg_part n * 10 ^ j) (pos_part n * 10 ^ j + neg_part m * 10 ^ k)

abbrev pub ltb_decimal : Decimal → Decimal → Bool
ltb_decimal (m, j) (n, k) =
    ltb (pos_part m * 10 ^ k + neg_part n * 10 ^ j) (pos_part n * 10 ^ j + neg_part m * 10 ^ k)

abbrev pub add : Decimal → Decimal → Decimal
add (m, j) (n, k) = (
  sub_ℕ (pos_part m * 10 ^ k + pos_part n * 10 ^ j) (neg_part m * 10 ^ k + neg_part n * 10 ^ j),
  j + k,
)

abbrev pub subtract : Decimal → Decimal → Decimal
subtract (m, j) (n, k) = (
  sub_ℕ (pos_part m * 10 ^ k + neg_part n * 10 ^ j) (neg_part m * 10 ^ k + pos_part n * 10 ^ j),
  j + k,
)

-- `sum(values, Decimal("0"))`, from the sum so far
abbrev pub sum_from : Decimal → List Decimal → Decimal
sum_from acc [] = acc
sum_from acc (x ∷ xs) = sum_from (add acc x) xs
