-- ===== src/TtlLattice/Evaluate/Run.antt =====
-- What stands behind an evaluation of the lattice that returns.
use codex_trading_engine.Prelude.{
  String, ◌≡◌, List, [], is_empty, is_empty-nil, without, sorted_set, Result, ok, err, >>=-eq-ok,
  require, require-ok,
}
use codex_trading_engine.Prelude.Int.{ℤ}
use codex_trading_engine.Prelude.Times.{IsoTime}
use codex_trading_engine.Value.{Value, list, dict, nil, Dict, empty, get, keys}
use codex_trading_engine.Value.Kinds.{get_or}
use codex_trading_engine.TtlPolicy.Shape.{Raised, key_in, key_text}
use codex_trading_engine.TtlLattice.Manifest.{validate_manifest_shape}
use codex_trading_engine.TtlLattice.Scope.{
  LatticeError, Reason, clocks_input_not_object, string_set, scope_violations, as_lattice_error,
}
use codex_trading_engine.TtlLattice.Clocks.{Tally, policy_of, parse_timestamp, clock_rounds}
use codex_trading_engine.TtlLattice.Evaluate.{
  LatticeReceipt, settle, object_or, active_manifest, evaluate_ttl_lattice,
}

abbrev pub ranks_of : Dict → Dict
ranks_of manifest = policy_of (get manifest "degradation_rank")

abbrev pub types_of : Dict → Dict
types_of manifest = policy_of (get manifest "clock_types")

module _ (fromisoformat : String → IsoTime) where
  -- The values on the way to a receipt.
  pub record LatticeRun (snapshot manifest : Dict) (r : LatticeReceipt) : Type 0 where
    pub evaluated_at : ℤ
    pub supplied : Dict
    pub clocks : Tally
    pub violations : List Reason
    pub requested : List String
    pub shape : validate_manifest_shape manifest ≡ ok []
    pub timed :
        parse_timestamp fromisoformat (get snapshot "evaluated_at") "evaluated_at" ≡ ok evaluated_at
    pub supplied_eq : get snapshot "clocks" ≡ dict supplied
    pub known : sorted_set (without (keys supplied) (keys (types_of manifest))) ≡ []
    pub clocks_eq :
        clock_rounds fromisoformat evaluated_at
          (types_of manifest)
          supplied
          (sorted_set (keys (types_of manifest)))
        ≡ ok clocks
    pub violations_eq :
        scope_violations
          (get_or snapshot "requested_scope" (dict empty))
          (policy_of (get manifest "scope"))
        ≡ ok violations
    pub requested_eq :
        string_set (get_or snapshot "requested_capabilities" (list nil)) "requested_capabilities"
        ≡ ok requested
    pub receipt :
        settle manifest snapshot evaluated_at
          (ranks_of manifest)
          (key_text (get snapshot "current_state"))
          clocks
          violations
          requested
        ≡ r

  as_lattice_error-ok :
      {A : Type 0} (m : Result Raised A) (a : A) → as_lattice_error m ≡ ok a → m ≡ ok a
  as_lattice_error-ok (ok b) a h = cc
  as_lattice_error-ok (err e) a h = absurd (cc)

  object_or-ok : (v : Value) (e : LatticeError) (d : Dict) → object_or v e ≡ ok d → v ≡ dict d
  object_or-ok (dict c) e d h = cc
  object_or-ok v e d h = absurd (cc)

  ok-inj : {A : Type 0} {a b : A} → ◌≡◌ {A = Result LatticeError A} (ok a) (ok b) → a ≡ b
  ok-inj h = cc

  pub evaluate-run :
      (snapshot manifest default_manifest : Dict) (r : LatticeReceipt)
      → evaluate_ttl_lattice fromisoformat (dict snapshot) manifest default_manifest ≡ ok r
      → LatticeRun snapshot (active_manifest manifest default_manifest) r
  unfolding evaluate_ttl_lattice
  evaluate-run snapshot manifest default_manifest r h =
      let active = active_manifest manifest default_manifest in
      let (errors, e1, h1) = >>=-eq-ok (as_lattice_error (validate_manifest_shape active)) _ h in
      let (_, q1, h2) = >>=-eq-ok (require (is_empty errors) _) _ h1 in
      let (at_time, e3, h3) =
        >>=-eq-ok (parse_timestamp fromisoformat (get snapshot "evaluated_at") "evaluated_at") _
          h2 in
      let (known, _, h4) =
        >>=-eq-ok (as_lattice_error (key_in (get snapshot "current_state") (ranks_of active))) _
          h3 in
      let (_, _, h5) = >>=-eq-ok (require known _) _ h4 in
      let (supplied, e6, h6) =
        >>=-eq-ok (object_or (get snapshot "clocks") clocks_input_not_object) _ h5 in
      let (_, q7, h7) =
        >>=-eq-ok
          (require (is_empty (sorted_set (without (keys supplied) (keys (types_of active))))) _) _
          h6 in
      let (clocks, e8, h8) =
        >>=-eq-ok
          (clock_rounds fromisoformat at_time (types_of active) supplied
            (sorted_set (keys (types_of active))))
          _ h7 in
      let (violations, e9, h9) =
        >>=-eq-ok
          (scope_violations (get_or snapshot "requested_scope" (dict empty))
            (policy_of (get active "scope")))
          _ h8 in
      let (requested, e10, h10) =
        >>=-eq-ok
          (string_set (get_or snapshot "requested_capabilities" (list nil))
            "requested_capabilities")
          _ h9 in
      let none_left : errors ≡ [] = is_empty-nil errors (require-ok _ _ q1) in
      record {
        evaluated_at = at_time;
        supplied = supplied;
        clocks = clocks;
        violations = violations;
        requested = requested;
        shape =
            let e = as_lattice_error-ok (validate_manifest_shape active) errors e1 in
            rw none_left at e;
        timed = e3;
        supplied_eq = object_or-ok _ _ _ e6;
        known = is_empty-nil _ (require-ok _ _ q7);
        clocks_eq = e8;
        violations_eq = e9;
        requested_eq = e10;
        receipt = ok-inj h10;
      }
