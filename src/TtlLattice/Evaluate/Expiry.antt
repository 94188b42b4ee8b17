-- ===== src/TtlLattice/Evaluate/Expiry.antt =====
-- On the clocks that run out.
use codex_trading_engine.Prelude.{
  String, ◌≡◌, refl, subst, ◌∙◌, true, false, ◌||◌, ◌⊎◌, inl, inr, List, [], ◌∷◌, contains,
  is_empty, str_eq, eq_iff, sorted_set, contains-sorted_set, contains-append, ok, >>=-eq-ok,
  require, Bool-cases, if◌then◌else◌, arith,
}
use codex_trading_engine.Prelude.Int.{ℤ, ltb_ℤ, leb_ℤ, scale_ℤ_parts, -ℤ_parts}
use codex_trading_engine.Prelude.Times.{IsoTime}
use codex_trading_engine.Value.{Value, null, dict, Dict, get, keys, truthy}
use codex_trading_engine.Value.Kinds.{get_or, is_strictly_positive_int}
use codex_trading_engine.TtlPolicy.Shape.{key_text}
use codex_trading_engine.TtlLattice.Scope.{Reason}
use codex_trading_engine.TtlLattice.Clocks.{
  Tally, join, missing_clock, supplied_clock, is_expired, int_value, policy_of, parse_timestamp,
  clock_round, clock_rounds,
}
use codex_trading_engine.TtlLattice.Evaluate.{
  LatticeReceipt, settle, active_manifest, evaluate_ttl_lattice,
}
use codex_trading_engine.TtlLattice.Evaluate.Run.{ranks_of, types_of, evaluate-run}

-- A later time, or a smaller TTL, keeps a clock expired.
pub is_expired-later :
    (t u o n m : ℤ)
    → leb_ℤ t u ≡ true
    → leb_ℤ m n ≡ true
    → is_expired t o n ≡ true
    → is_expired u o m ≡ true
is_expired-later t u o n m later smaller h =
    ground (arith, scale_ℤ_parts 1000000 n, scale_ℤ_parts 1000000 m, -ℤ_parts t o, -ℤ_parts u o)

module _ (fromisoformat : String → IsoTime) where
  -- A clock that counts as expired at a time, whatever TTL is asked for it: it is required and not
  -- supplied, or it was observed at least the policy's longest TTL ago.
  abbrev pub IsStale : ℤ → String → Dict → Value → Type 0
  IsStale at_time name policy v =
      (v ≡ null) × (truthy (get policy "required") ≡ true)
      ⊎ (s : Dict) × (o : ℤ) × (v ≡ dict s)
        × (parse_timestamp fromisoformat (get s "observed_at") name ≡ ok o)
        × (is_expired at_time o (int_value (get policy "max_ttl_seconds")) ≡ true)

  capped-le : (m q : ℤ) → leb_ℤ (if ltb_ℤ m q then m else q) m ≡ true
  capped-le m q = ground arith

  leb_refl : (m : ℤ) → leb_ℤ m m ≡ true
  leb_refl m = ground arith

  supplied_clock-expires :
      (at_time : ℤ) (name : String) (policy : Dict) (o q : ℤ)
      → is_expired at_time o (int_value (get policy "max_ttl_seconds")) ≡ true
      → contains (supplied_clock at_time name policy o q).expired_clocks name ≡ true
  supplied_clock-expires at_time name policy o q h =
      let m = int_value (get policy "max_ttl_seconds") in
      let e =
        is_expired-later at_time at_time o m (if ltb_ℤ m q then m else q) (leb_refl at_time)
          (capped-le m q) h in
      let same = (eq_iff name name).1 refl in rw e (rw same refl)

  clock_round-expires :
      (at_time : ℤ) (name : String) (policy : Dict) (v : Value) (t : Tally)
      → IsStale at_time name policy v
      → clock_round fromisoformat at_time name policy v ≡ ok t
      → contains t.expired_clocks name ≡ true
  unfolding clock_round
  clock_round-expires at_time name policy v t (inl (e, q)) h =
      let h1 : clock_round fromisoformat at_time name policy null ≡ ok t = rw e at h in
      let same : missing_clock name policy ≡ t = cc in
      let here = (eq_iff name name).1 refl in
      subst (λ (z : Tally). contains z.expired_clocks name ≡ true) same (rw q (rw here refl))
  clock_round-expires at_time name policy v t (inr (s, o, e, p, q)) h =
      let h1 : clock_round fromisoformat at_time name policy (dict s) ≡ ok t = rw e at h in
      let (o2, e1, h2) =
        >>=-eq-ok (parse_timestamp fromisoformat (get s "observed_at") name) _ h1 in
      let (_, _, h3) = >>=-eq-ok (require (leb_ℤ o2 at_time) _) _ h2 in
      let requested = get_or s "ttl_seconds" (get policy "max_ttl_seconds") in
      let (_, _, h4) = >>=-eq-ok (require (is_strictly_positive_int requested) _) _ h3 in
      let same_time : o ≡ o2 = cc in
      let same : supplied_clock at_time name policy o2 (int_value requested) ≡ t = cc in
      subst (λ (z : Tally). contains z.expired_clocks name ≡ true) same
        (supplied_clock-expires at_time name policy o2 (int_value requested) (rw same_time at q))

  clock_rounds-expires :
      (at_time : ℤ) (types supplied : Dict) (names : List String) (name : String) (t : Tally)
      → contains names name ≡ true
      → IsStale at_time name (policy_of (get types name)) (get supplied name)
      → clock_rounds fromisoformat at_time types supplied names ≡ ok t
      → contains t.expired_clocks name ≡ true
  unfolding clock_rounds
  clock_rounds-expires at_time types supplied [] name t known stale h = absurd (cc)
  clock_rounds-expires at_time types supplied (x ∷ names) name t known stale h =
      let (here, e1, h1) =
        >>=-eq-ok (clock_round fromisoformat at_time x (policy_of (get types x)) (get supplied x)) _
          h in
      let (rest, e2, h2) =
        >>=-eq-ok (clock_rounds fromisoformat at_time types supplied names) _ h1 in
      let same : join here rest ≡ t = cc in
      let both_lists = contains-append here.expired_clocks rest.expired_clocks name in
      let found : (contains here.expired_clocks name || contains rest.expired_clocks name) ≡ true =
        elim (Bool-cases (str_eq x name)) [
          | inl y ↦
              (let e = (eq_iff x name).0 y in
                let c =
                  clock_round-expires at_time name (policy_of (get types name)) (get supplied name)
                    here stale (rw e at e1) in
                rw c refl)
          | inr n ↦
              (let k : contains names name ≡ true = rw n at known in
                let c = clock_rounds-expires at_time types supplied names name rest k stale e2 in
                rw c (ground arith))
        ] in
      subst (λ (z : Tally). contains z.expired_clocks name ≡ true) same (both_lists ∙ found)

settle-approval :
    (manifest snapshot : Dict) (at_time : ℤ) (ranks : Dict) (current : String) (t : Tally)
    (violations : List Reason) (requested : List String) (name : String)
    → contains t.expired_clocks name ≡ true
    → (contains
          (settle manifest snapshot at_time ranks current t violations requested).expired_clocks
          name
        ≡ true)
      × ((settle manifest snapshot at_time ranks current t violations
            requested).human_approval_required
          ≡ true)
unfolding settle
settle-approval manifest snapshot at_time ranks current t violations requested name found =
    let filled : is_empty t.expired_clocks ≡ false = filled_of t.expired_clocks found in
    (found, rw filled (ground arith))
  where
    filled_of : (xs : List String) → contains xs name ≡ true → is_empty xs ≡ false
    filled_of [] h = absurd (cc)
    filled_of (x ∷ xs) h = refl

-- A receipt lists as expired, and calls for a human's approval of, every clock of the manifest that
-- is required and not supplied, or that was observed at least the manifest's longest TTL before the
-- time of the evaluation, whatever TTL the snapshot asks for.
pub evaluate-expires :
    (fromisoformat : String → IsoTime) (snapshot manifest default_manifest : Dict)
    (r : LatticeReceipt) (supplied : Dict) (at_time : ℤ) (name : String)
    → evaluate_ttl_lattice fromisoformat (dict snapshot) manifest default_manifest ≡ ok r
    → get snapshot "clocks" ≡ dict supplied
    → parse_timestamp fromisoformat (get snapshot "evaluated_at") "evaluated_at" ≡ ok at_time
    → contains (keys (types_of (active_manifest manifest default_manifest))) name ≡ true
    → IsStale fromisoformat at_time name
        (policy_of (get (types_of (active_manifest manifest default_manifest)) name))
        (get supplied name)
    → (contains r.expired_clocks name ≡ true) × (r.human_approval_required ≡ true)
evaluate-expires fromisoformat snapshot manifest default_manifest r supplied at_time name h given
      timed known stale =
    let run = evaluate-run fromisoformat snapshot manifest default_manifest r h in
    let active = active_manifest manifest default_manifest in
    let types = types_of active in
    let same_supply : supplied ≡ run.supplied = cc (run.supplied_eq, given) in
    let same_time : at_time ≡ run.evaluated_at = cc (run.timed, timed) in
    let listed : contains (sorted_set (keys types)) name ≡ true =
      contains-sorted_set (keys types) name ∙ known in
    let found =
      clock_rounds-expires fromisoformat run.evaluated_at types run.supplied
        (sorted_set (keys types)) name run.clocks listed (rw (same_supply, same_time) at stale)
        run.clocks_eq in
    subst
      (λ (z : LatticeReceipt).
        (contains z.expired_clocks name ≡ true) × (z.human_approval_required ≡ true))
      run.receipt
      (settle-approval active snapshot run.evaluated_at (ranks_of active)
        (key_text (get snapshot "current_state")) run.clocks run.violations run.requested name
        found)
