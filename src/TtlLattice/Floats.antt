-- ===== src/TtlLattice/Floats.antt =====
-- `float` of a number, by which eve_q/ttl_lattice.py compares amounts: an integer of more than 53 bits
-- is rounded to the nearest float, ties to an even last bit, and one of 2 ^ 1024 or more raises
-- `OverflowError`.
use codex_trading_engine.Prelude.{
  ℕ, suc, zero, ◌+◌, ◌*◌, ◌/◌, ◌%◌, ◌^◌, Bool, true, false, ◌&&◌, ◌||◌, ◌==◌, ltb, Result, ok, err,
  ◌>>=◌, if◌then◌else◌,
}
use codex_trading_engine.Prelude.Int.{pos, negsuc, leb_ℤ, ◌-ℤ◌}
use codex_trading_engine.Value.{Value, int, float}
use codex_trading_engine.TtlPolicy.Shape.{Raised, raised}
use codex_trading_engine.FlashLiquidity.Candidate.{Float}

-- The bits above the 53 that a float keeps, at most the fuel. 1024 are enough: what has more is out
-- of range whatever is left of it.
abbrev pub excess : ℕ → ℕ → ℕ
excess zero n = 0
excess (suc fuel) n = elim (ltb n (2 ^ 53)) as (λ b. ℕ) [
  | true ↦ 0
  | false ↦ suc (excess fuel (n / 2))
]

-- The multiple of 2 ^ e that is nearest to `n`, ties to the even one.
abbrev pub nearest : ℕ → ℕ → ℕ
nearest n e =
    let q = n / 2 ^ e in
    let r = 2 * (n % 2 ^ e) in
    if ltb (2 ^ e) r || ((r == 2 ^ e) && (q % 2 == 1)) then (q + 1) * 2 ^ e else q * 2 ^ e

abbrev pub in_range : ℕ → Result Raised ℕ
in_range n = if ltb n (2 ^ 1024) then ok n else err raised

abbrev pub float_of_nat : ℕ → Result Raised ℕ
float_of_nat n = in_range (nearest n (excess 1024 n))

-- `float(v)` of a number.
unfoldable pub float_of : Value → Result Raised Float
float_of (int (pos n)) = do m ← float_of_nat n; ok (pos m, 0)
float_of (int (negsuc n)) = do m ← float_of_nat (suc n); ok (pos 0 -ℤ pos m, 0)
float_of (float m k) = ok (m, k)
float_of _ = err raised

-- `_is_number`
abbrev pub is_number : Value → Bool
is_number (int n) = true
is_number (float m k) = true
is_number _ = false

-- `_is_number(v) and not float(v) < 0`
unfoldable pub is_nonnegative_number : Value → Result Raised Bool
unfolding float_of
is_nonnegative_number v = elim (is_number v) as (λ b. Result Raised Bool) [
  | true ↦ (do f ← float_of v; ok (leb_ℤ (pos 0) f.0))
  | false ↦ ok false
]
