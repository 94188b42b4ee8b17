-- ===== src/DeploymentGates/Metrics/Rates.antt =====
-- On the rates and counts of `aggregate` of eve_q/deployment_gates.py.
use codex_trading_engine.Prelude.{
  ℕ, zero, suc, ◌+◌, ◌≤◌, ◌<◌, ◌≡◌, refl, Bool, true, false, not, ◌&&◌, List, [], ◌∷◌, length, ◌==◌,
  arith, Bool-cases, inl, inr,
}
use codex_trading_engine.Prelude.Int.{pos, leb_ℤ, ◌≤ℤ◌}
use codex_trading_engine.DeploymentGates.Decimal.{Decimal, leb_decimal}
use codex_trading_engine.DeploymentGates.Metrics.{
  OpportunityRecord, insert_record, by_timestamp, count_if, nothing, Tally, start, run_after,
  longest_after, tally, tally_all, rate, aggregate,
}

-- Between 0 and 1.
abbrev pub IsShare : Decimal → Type 0
IsShare x = (leb_decimal nothing x ≡ true) × (leb_decimal x (pos 1, 0) ≡ true)

-- What is used of the division: a part of a whole is a share.
pub record LawfulDivision (divide : Decimal → Decimal → Decimal) : Type 0 where
  pub share :
      (part whole : ℕ) → 0 < whole → part ≤ whole → IsShare (divide (pos part, 0) (pos whole, 0))

length-insert_record :
    (r : OpportunityRecord) (xs : List OpportunityRecord)
    → length (insert_record r xs) ≡ suc (length xs)
length-insert_record r [] = refl
length-insert_record r (x ∷ xs) = elim (Bool-cases (leb_ℤ r.timestamp x.timestamp)) [
  | inl y ↦ rw y refl
  | inr n ↦ rw (n, length-insert_record r xs) refl
]

length-by_timestamp : (xs : List OpportunityRecord) → length (by_timestamp xs) ≡ length xs
length-by_timestamp [] = refl
length-by_timestamp (x ∷ xs) =
    rw (length-insert_record x (by_timestamp xs), length-by_timestamp xs) refl

count_if-length :
    (test : OpportunityRecord → Bool) (xs : List OpportunityRecord) → count_if test xs ≤ length xs
count_if-length test [] = omega arith
count_if-length test (x ∷ xs) = ground (arith, count_if-length test xs)

count_if-within :
    (a b : OpportunityRecord → Bool) (xs : List OpportunityRecord)
    → count_if (λ x. a x && b x) xs ≤ count_if a xs
count_if-within a b [] = omega arith
count_if-within a b (x ∷ xs) = ground (arith, count_if-within a b xs)

longest-bounds :
    (x : OpportunityRecord) (n most k : ℕ)
    → n ≤ k
    → most ≤ k
    → (run_after x n ≤ k + 1) × (longest_after x n most ≤ k + 1)
longest-bounds x n most k a b = (ground arith, ground arith)

module _ (divide : Decimal → Decimal → Decimal) where
  tally_all-bound :
      (t : Tally) (xs : List OpportunityRecord) (k : ℕ)
      → t.consecutive ≤ k
      → t.max_consecutive ≤ k
      → (tally_all divide t xs).max_consecutive ≤ k + length xs
  tally_all-bound t [] k a b = omega arith
  tally_all-bound t (x ∷ xs) k a b =
      let (c, d) = longest-bounds x t.consecutive t.max_consecutive k a b in
      let e = tally_all-bound (tally divide t x) xs (k + 1) c d in omega (arith, e)

  rate-IsShare :
      (lawful : LawfulDivision divide) (part whole : ℕ)
      → part ≤ whole
      → IsShare (rate divide part whole)
  rate-IsShare lawful part zero l = (refl, refl)
  rate-IsShare lawful part (suc whole) l =
      let some_whole : (suc whole == 0) ≡ false = ground arith in
      rw some_whole (lawful.share part (suc whole) (omega arith) l)

  -- Where the division takes a part of a whole to a share, the aggregated rates lie between 0 and 1,
  -- the sample size is the number of the records, and the consecutive failures are at most as many.
  pub aggregate-bounds :
      (lawful : LawfulDivision divide) (records : List OpportunityRecord)
      → IsShare (aggregate divide records).detection_accuracy
        × IsShare (aggregate divide records).execution_success_rate
        × IsShare (aggregate divide records).false_positive_rate
        × IsShare (aggregate divide records).prediction_hit_rate
        × ((aggregate divide records).sample_size ≡ pos (length records))
        × ((aggregate divide records).consecutive_failures ≤ℤ pos (length records))
  unfolding aggregate
  aggregate-bounds lawful [] =
      ((refl, refl), (refl, refl), (refl, refl), (refl, refl), refl, omega arith)
  aggregate-bounds lawful (r ∷ rs) =
      let xs = by_timestamp (r ∷ rs) in
      let n : length xs ≡ suc (length rs) = length-by_timestamp (r ∷ rs) in
      (
        rate-IsShare lawful _ _ (count_if-within (λ x. x.detected) (λ x. x.was_real) xs),
        rate-IsShare lawful _ _
            (count_if-within (λ x. x.submitted) (λ x. x.execution_succeeded) xs),
        rate-IsShare lawful _ _ (count_if-within (λ x. x.detected) (λ x. not x.was_real) xs),
        lawful.share _ _ (omega arith) (count_if-length (λ x. x.prediction_hit) xs),
        rw n refl,
        (let b = tally_all-bound start xs 0 (omega arith) (omega arith) in omega arith),
      )
