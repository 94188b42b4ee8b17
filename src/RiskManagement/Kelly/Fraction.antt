-- ===== src/RiskManagement/Kelly/Fraction.antt =====
-- On the ranges of the optimizer's results.
use native.Mathlib.Nat.{
  pow-zero, pow-suc, mul_assoc, mul_comm, mul_right_comm, mul-le-mul, mul-le-mul_left,
  mul-le-mul_right,
}
use codex_trading_engine.Prelude.{
  ℕ, zero, suc, ◌+◌, ◌*◌, ◌^◌, ◌≤◌, ◌≡◌, refl, ◌⊎◌, inl, inr, subst, true, false, Option, none,
  some, Option-cases, Bool-cases, arith,
}
use codex_trading_engine.Prelude.Int.{ℤ, pos, negsuc, sub_ℕ}
use codex_trading_engine.DeploymentGates.Decimal.{Decimal, leb_decimal, ltb_decimal, subtract}
use codex_trading_engine.RiskManagement.Limits.{decimal, multiply, min_of}
use codex_trading_engine.RiskManagement.Kelly.{
  KellyCriterionOptimizer, clamped, is_zero, clamped_option, numerator, optimal_fraction,
  fraction_or_optimal, ruin_at, size_position, probability_of_ruin,
}

-- No less than zero and no more than the whole.
pub record IsPartOf (whole x : Decimal) : Type 0 where
  pub no_less_than_zero : leb_decimal (decimal 0) x ≡ true
  pub no_more_than_whole : leb_decimal x whole ≡ true

abbrev pub IsFraction : Decimal → Type 0
IsFraction x = IsPartOf (decimal 1) x

leb-of_ltb : (x y : Decimal) → ltb_decimal x y ≡ true → leb_decimal x y ≡ true
leb-of_ltb (m, j) (n, k) h = ground arith

leb-of_not_ltb : (x y : Decimal) → ltb_decimal y x ≡ false → leb_decimal x y ≡ true
leb-of_not_ltb (m, j) (n, k) h = ground arith

min_of-below : (x : Decimal) → leb_decimal (min_of (decimal 1) x) (decimal 1) ≡ true
min_of-below x = elim (Bool-cases (ltb_decimal x (decimal 1))) [
  | inl y ↦ rw y (leb-of_ltb x (decimal 1) y)
  | inr n ↦ rw n refl
]

clamped-IsFraction : (x : Decimal) → IsFraction (clamped x)
clamped-IsFraction x = elim (Bool-cases (ltb_decimal (decimal 0) (min_of (decimal 1) x))) [
  | inl y ↦ rw y (record {
    no_less_than_zero = leb-of_ltb (decimal 0) (min_of (decimal 1) x) y;
    no_more_than_whole = min_of-below x;
  })
  | inr n ↦ rw n (record { no_less_than_zero = refl; no_more_than_whole = refl })
]

-- A fraction is of the form n / 10 ^ k with n ≤ 10 ^ k.
fraction-pos : (m : ℤ) (k : ℕ) → IsFraction (m, k) → (n : ℕ) × (m ≡ pos n) × (n ≤ 10 ^ k)
fraction-pos (pos n) k f = (n, refl, let h = f.no_more_than_whole in ground arith)
fraction-pos (negsuc n) k f = absurd (let h = f.no_less_than_zero in ground arith)

multiply-pos : (a b j k : ℕ) → multiply (pos a, j) (pos b, k) ≡ (pos (a * b), j + k)
multiply-pos a b j k =
    let q : a * 0 + 0 * b ≡ 0 = omega arith in
    let r : a * b + 0 * 0 ≡ a * b = omega arith in
    let s : sub_ℕ (a * b + 0 * 0) (a * 0 + 0 * b) ≡ pos (a * b) = rw (q, r) (ground arith) in
    rw s refl

pow-add : (j k : ℕ) → 10 ^ (j + k) ≡ 10 ^ j * 10 ^ k
pow-add zero k = let s : 0 + k ≡ k = omega arith in rw s (omega (arith, pow-zero 10))
pow-add (suc j) k =
    let e = pow-add j k in
    let s : suc j + k ≡ suc (j + k) = omega arith in
    rw (s, pow-suc 10 (j + k), pow-suc 10 j, e, mul_right_comm (10 ^ j) 10 (10 ^ k)) refl

IsFraction-multiply : (x y : Decimal) → IsFraction x → IsFraction y → IsFraction (multiply x y)
IsFraction-multiply (m, j) (n, k) f g =
    let (a, ea, la) = fraction-pos m j f in
    let (b, eb, lb) = fraction-pos n k g in
    let p = multiply-pos a b j k in
    let l : a * b ≤ 10 ^ (j + k) = rw (pow-add j k) (mul-le-mul la lb) in
    rw (ea, eb) (rw p (within (a * b) (j + k) l))
  where
    within : (n k : ℕ) → n ≤ 10 ^ k → IsFraction (pos n, k)
    within n k l = record { no_less_than_zero = ground arith; no_more_than_whole = ground arith }

part : (c i n k : ℕ) → n * 10 ^ i ≤ c * 10 ^ k → IsPartOf (pos c, i) (pos n, k)
part c i n k l = record { no_less_than_zero = ground arith; no_more_than_whole = ground arith }

-- A fraction of an amount of no less than zero is a part of it.
fraction-of : (c i : ℕ) (x : Decimal) → IsFraction x → IsPartOf (pos c, i) (multiply (pos c, i) x)
fraction-of c i (m, k) f =
    let (a, ea, la) = fraction-pos m k f in
    let p = multiply-pos c a i k in
    let l : c * a ≤ c * 10 ^ k = mul-le-mul_left c la in
    let h : c * a * 10 ^ i ≤ c * 10 ^ (i + k) =
      rw (pow-add i k, mul_comm (10 ^ i) (10 ^ k), ← mul_assoc c (10 ^ k) (10 ^ i))
        (mul-le-mul_right (10 ^ i) l) in
    rw ea (rw p (part c i (c * a) (i + k) h))

clamped_option-IsFraction :
    (o : Option Decimal) (x : Decimal) → clamped_option o ≡ some x → IsFraction x
clamped_option-IsFraction none x h = absurd (cc)
clamped_option-IsFraction (some y) x h =
    let s : clamped y ≡ x = cc in subst IsFraction s (clamped-IsFraction y)

zero-IsFraction : IsFraction (decimal 0)
zero-IsFraction = record { no_less_than_zero = refl; no_more_than_whole = refl }

one-IsFraction : IsFraction (decimal 1)
one-IsFraction = record { no_less_than_zero = refl; no_more_than_whole = refl }

module _ (divide : Decimal → Decimal → Option Decimal) (power : Decimal → ℤ → Option Decimal) where
  optimal_fraction-IsFraction :
      (o : KellyCriterionOptimizer) (x : Decimal)
      → optimal_fraction divide power o ≡ some x
      → IsFraction x
  unfolding optimal_fraction
  optimal_fraction-IsFraction o x h = elim (Bool-cases (leb_decimal o.avg_win (decimal 0))) [
    | inl y ↦
        (let h1 = rw (optimal_fraction, y) at h in
          let s : decimal 0 ≡ x = cc in subst IsFraction s zero-IsFraction)
    | inr n ↦ (let h1 = rw (optimal_fraction, n) at h in clamped_option-IsFraction _ x h1)
  ]

  -- The optimal fraction is computed where no quotient is needed, or where the one that is exists.
  abbrev pub IsComputed : KellyCriterionOptimizer → Type 0
  IsComputed o =
      (leb_decimal o.avg_win (decimal 0) ≡ true)
      ⊎ (q : Decimal) × (divide (numerator o) o.avg_win ≡ some q)

  optimal_fraction-some :
      (o : KellyCriterionOptimizer)
      → IsComputed o
      → (x : Decimal) × (optimal_fraction divide power o ≡ some x)
  unfolding optimal_fraction
  optimal_fraction-some o (inl y) = (decimal 0, rw (optimal_fraction, y) refl)
  optimal_fraction-some o (inr (q, e)) = elim (Bool-cases (leb_decimal o.avg_win (decimal 0))) [
    | inl y ↦ (decimal 0, rw (optimal_fraction, y) refl)
    | inr n ↦ (clamped q, rw (optimal_fraction, n) (rw e refl))
  ]

  -- With a capital of no less than zero and a fraction between zero and one, and where the average
  -- win is no more than zero or the quotient by it exists, the optimal position has a size, which
  -- is no less than zero and no more than the capital.
  pub size_position-IsPartOf :
      (o : KellyCriterionOptimizer) (c i : ℕ) (fractional_kelly : Decimal)
      → IsFraction fractional_kelly
      → IsComputed o
      → (size : Decimal) × (size_position divide power o (pos c, i) none fractional_kelly
          ≡ some size)
        × IsPartOf (pos c, i) size
  unfolding size_position
  size_position-IsPartOf o c i fractional_kelly f computed =
      let (x, e) = optimal_fraction-some o computed in
      (
        multiply (pos c, i) (multiply x fractional_kelly),
        rw (size_position, e) refl,
        fraction-of c i (multiply x fractional_kelly)
            (IsFraction-multiply x fractional_kelly (optimal_fraction-IsFraction o x e) f),
      )

  ruin_at-IsFraction :
      (o : KellyCriterionOptimizer) (trades : ℤ) (fraction p : Decimal)
      → ruin_at divide power o trades fraction ≡ some p
      → IsFraction p
  ruin_at-IsFraction o trades fraction p h = elim (Bool-cases (is_zero fraction)) [
    | inl y ↦
        (let h1 = rw (ruin_at, y) at h in
          let s : decimal 0 ≡ p = cc in subst IsFraction s zero-IsFraction)
    | inr n ↦
        (let h0 = rw (ruin_at, n) at h in
          elim (Bool-cases (is_zero o.win_rate)) [
            | inl y ↦
                (let h1 = rw y at h0 in
                  let s : decimal 1 ≡ p = cc in subst IsFraction s one-IsFraction)
            | inr m ↦
                (let h1 = rw m at h0 in
                  elim (Option-cases (divide (subtract (decimal 1) o.win_rate) o.win_rate)) [
                    | inl e ↦ absurd (let h2 = rw e at h1 in cc)
                    | inr (ratio, e) ↦
                        (let h2 = rw e at h1 in clamped_option-IsFraction (power ratio trades) p h2)
                  ])
          ])
  ]

  -- A probability of ruin, where it does not raise, is between zero and one.
  pub probability_of_ruin-IsFraction :
      (o : KellyCriterionOptimizer) (trades : ℤ) (kelly_fraction : Option Decimal) (p : Decimal)
      → probability_of_ruin divide power o trades kelly_fraction ≡ some p
      → IsFraction p
  unfolding probability_of_ruin
  probability_of_ruin-IsFraction o trades kelly_fraction p h =
      elim (Option-cases (fraction_or_optimal divide power o kelly_fraction)) [
        | inl e ↦ absurd (let h1 = rw (probability_of_ruin, e) at h in cc)
        | inr (x, e) ↦
            (let h1 = rw (probability_of_ruin, e) at h in ruin_at-IsFraction o trades x p h1)
      ]
