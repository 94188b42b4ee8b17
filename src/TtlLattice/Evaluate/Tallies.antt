-- ===== src/TtlLattice/Evaluate/Tallies.antt =====
-- What the lists that the loop over the clocks fills have to do with its results.
use codex_trading_engine.Prelude.{
  String, ◌≡◌, refl, inl, inr, List, [], ◌∷◌, ◌++◌, map, subst, ok, >>=-eq-ok, require, Bool-cases,
  if◌then◌else◌,
}
use codex_trading_engine.Prelude.Int.{ℤ, ltb_ℤ, leb_ℤ}
use codex_trading_engine.Prelude.Times.{IsoTime}
use codex_trading_engine.Value.{Value, null, dict, Dict, get, truthy}
use codex_trading_engine.Value.Kinds.{get_or, is_strictly_positive_int}
use codex_trading_engine.TtlLattice.Clocks.{
  ClockResult, Tally, no_tally, join, missing_clock, supplied_clock, is_expired, int_value,
  policy_of, parse_timestamp, clock_round, clock_rounds,
}

-- The clocks of a receipt that have expired, and those that are missing.
abbrev pub expired_results : List ClockResult → List ClockResult
expired_results [] = []
expired_results (c ∷ cs) = if c.expired then c ∷ expired_results cs else expired_results cs

-- The lists of the loop are what the results say.
pub record IsTallied (t : Tally) : Type 0 where
  pub targets_eq :
      t.targets ≡ map (λ (c : ClockResult). c.expiry_target) (expired_results t.results)
  pub names_eq : t.expired_clocks ≡ map (λ (c : ClockResult). c.clock) (expired_results t.results)

expired_results-append :
    (xs ys : List ClockResult)
    → expired_results (xs ++ ys) ≡ expired_results xs ++ expired_results ys
expired_results-append [] ys = refl
expired_results-append (c ∷ cs) ys = elim (Bool-cases c.expired) [
  | inl y ↦ (let e = expired_results-append cs ys in rw (y, e) refl)
  | inr n ↦ (let e = expired_results-append cs ys in rw (n, e) refl)
]

map-append : {A B : Type 0} (f : A → B) (xs ys : List A) → map f (xs ++ ys) ≡ map f xs ++ map f ys
map-append f [] ys = refl
map-append f (x ∷ xs) ys = let e = map-append f xs ys in rw e refl

join-IsTallied : (s t : Tally) → IsTallied s → IsTallied t → IsTallied (join s t)
join-IsTallied s t p q = record {
  targets_eq =
      rw
        (
          expired_results-append s.results t.results,
          map-append (λ (c : ClockResult). c.expiry_target) (expired_results s.results)
              (expired_results t.results),
          p.targets_eq,
          q.targets_eq,
        )
        refl;
  names_eq =
      rw
        (
          expired_results-append s.results t.results,
          map-append (λ (c : ClockResult). c.clock) (expired_results s.results)
              (expired_results t.results),
          p.names_eq,
          q.names_eq,
        )
        refl;
}

missing_clock-IsTallied : (name : String) (policy : Dict) → IsTallied (missing_clock name policy)
missing_clock-IsTallied name policy = elim (Bool-cases (truthy (get policy "required"))) [
  | inl y ↦ rw y (record { targets_eq = refl; names_eq = refl })
  | inr n ↦ rw n (record { targets_eq = refl; names_eq = refl })
]

supplied_clock-IsTallied :
    (t : ℤ) (name : String) (policy : Dict) (o q : ℤ) → IsTallied (supplied_clock t name policy o q)
supplied_clock-IsTallied t name policy o q =
    let max_ttl = int_value (get policy "max_ttl_seconds") in
    elim (Bool-cases (is_expired t o (if ltb_ℤ max_ttl q then max_ttl else q))) [
      | inl y ↦ record { targets_eq = rw y refl; names_eq = rw y refl }
      | inr n ↦ record { targets_eq = rw n refl; names_eq = rw n refl }
    ]

module _ (fromisoformat : String → IsoTime) where
  clock_round-IsTallied :
      (at_time : ℤ) (name : String) (policy : Dict) (v : Value) (t : Tally)
      → clock_round fromisoformat at_time name policy v ≡ ok t
      → IsTallied t
  unfolding clock_round
  clock_round-IsTallied at_time name policy null t h =
      let e : missing_clock name policy ≡ t = cc in
      subst IsTallied e (missing_clock-IsTallied name policy)
  clock_round-IsTallied at_time name policy (dict supplied) t h =
      let (o, _, h1) =
        >>=-eq-ok (parse_timestamp fromisoformat (get supplied "observed_at") name) _ h in
      let (_, _, h2) = >>=-eq-ok (require (leb_ℤ o at_time) _) _ h1 in
      let requested = get_or supplied "ttl_seconds" (get policy "max_ttl_seconds") in
      let (_, _, h3) = >>=-eq-ok (require (is_strictly_positive_int requested) _) _ h2 in
      let e : supplied_clock at_time name policy o (int_value requested) ≡ t = cc in
      subst IsTallied e (supplied_clock-IsTallied at_time name policy o (int_value requested))
  clock_round-IsTallied at_time name policy v t h = absurd (cc)

  pub clock_rounds-IsTallied :
      (at_time : ℤ) (types supplied : Dict) (names : List String) (t : Tally)
      → clock_rounds fromisoformat at_time types supplied names ≡ ok t
      → IsTallied t
  unfolding clock_rounds
  clock_rounds-IsTallied at_time types supplied [] t h =
      let e : no_tally ≡ t = cc in subst IsTallied e (record { targets_eq = refl; names_eq = refl })
  clock_rounds-IsTallied at_time types supplied (name ∷ names) t h =
      let (here, e1, h1) =
        >>=-eq-ok
          (clock_round fromisoformat at_time name (policy_of (get types name)) (get supplied name))
          _ h in
      let (rest, e2, h2) =
        >>=-eq-ok (clock_rounds fromisoformat at_time types supplied names) _ h1 in
      let e : join here rest ≡ t = cc in
      subst IsTallied e (
        join-IsTallied here rest
          (clock_round-IsTallied at_time name (policy_of (get types name)) (get supplied name) here
            e1)
          (clock_rounds-IsTallied at_time types supplied names rest e2))
