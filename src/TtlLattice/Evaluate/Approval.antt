-- ===== src/TtlLattice/Evaluate/Approval.antt =====
-- On when an evaluation of the lattice calls for a human's approval, and on what a hard stop is.
use codex_trading_engine.Prelude.{
  String, ◌≡◌, refl, ◌↔◌, subst, Bool, true, false, not, ◌||◌, inl, inr, List, [], is_empty,
  is_empty-nil, sorted_set, both, ok, arith,
}
use codex_trading_engine.Prelude.Int.{ℤ, ltb_ℤ}
use codex_trading_engine.Prelude.Times.{IsoTime}
use codex_trading_engine.Value.{Value, dict, Dict, get}
use codex_trading_engine.Value.Kinds.{texts}
use codex_trading_engine.TtlPolicy.Shape.{key_text}
use codex_trading_engine.TtlLattice.Scope.{Reason}
use codex_trading_engine.TtlLattice.Clocks.{Tally}
use codex_trading_engine.TtlLattice.Evaluate.{
  LatticeReceipt, rank, lowered, settle, active_manifest, evaluate_ttl_lattice,
}
use codex_trading_engine.TtlLattice.Evaluate.Order.{lowered-from}
use codex_trading_engine.TtlLattice.Evaluate.Run.{ranks_of, evaluate-run}

-- Nothing has happened that a human would have to look at.
pub record IsQuiet (current : String) (r : LatticeReceipt) : Type 0 where
  pub same_state : r.effective_state ≡ current
  pub none_expired : r.expired_clocks ≡ []
  pub none_missing : r.missing_required_clocks ≡ []
  pub in_scope : r.scope_violations ≡ []
  pub none_denied : r.denied_capability_hits ≡ []
  pub no_renewal : r.renewal_requested ≡ false

irreflexive : (a : ℤ) → ltb_ℤ a a ≡ false
irreflexive a = ground arith

parts :
    (v d g e m w : Bool)
    → ((not v || not d) || (g || (not e || (not m || w)))) ≡ false
    → (v ≡ true) × (d ≡ true) × (g ≡ false) × (e ≡ true) × (m ≡ true) × (w ≡ false)
parts v d g e m w h = ground arith

unmoved :
    (ranks : Dict) (current l : String) (ts : List Value)
    → l ≡ lowered ranks current ts
    → ltb_ℤ (rank ranks l) (rank ranks current) ≡ false
    → l ≡ current
unmoved ranks current l ts same h = elim (lowered-from ranks current l ts same) [
  | inl s ↦ s
  | inr (_, m) ↦ absurd (ground arith)
]

settle-IsQuiet :
    (manifest snapshot : Dict) (at_time : ℤ) (ranks : Dict) (current : String) (t : Tally)
    (violations : List Reason) (requested : List String)
    → (settle manifest snapshot at_time ranks current t violations
        requested).human_approval_required
      ≡ false
    → IsQuiet current (settle manifest snapshot at_time ranks current t violations requested)
unfolding settle
settle-IsQuiet manifest snapshot at_time ranks current t violations requested h =
    let denied = sorted_set (both requested (texts (get manifest "denied_capabilities"))) in
    let (a, b, c, d, e, f) =
      parts (is_empty violations) (is_empty denied) _ (is_empty t.expired_clocks)
        (is_empty t.missing_clocks) _ h in
    let l = lowered ranks current t.targets in
    let g : ltb_ℤ (rank ranks l) (rank ranks current) ≡ false = rw (a, b) at c in
    record {
      same_state = rw (a, b) (unmoved ranks current l t.targets refl g);
      none_expired = is_empty-nil _ d;
      none_missing = is_empty-nil _ e;
      in_scope = is_empty-nil _ a;
      none_denied = is_empty-nil _ b;
      no_renewal = f;
    }

IsQuiet-settle :
    (manifest snapshot : Dict) (at_time : ℤ) (ranks : Dict) (current : String) (t : Tally)
    (violations : List Reason) (requested : List String)
    → IsQuiet current (settle manifest snapshot at_time ranks current t violations requested)
    → (settle manifest snapshot at_time ranks current t violations
        requested).human_approval_required
      ≡ false
unfolding settle
IsQuiet-settle manifest snapshot at_time ranks current t violations requested q =
    let same : lowered ranks current t.targets ≡ current =
      let e = q.same_state in rw (q.in_scope, q.none_denied) at e in
    rw
      (
        q.in_scope,
        q.none_denied,
        q.none_expired,
        q.none_missing,
        q.no_renewal,
        same,
        irreflexive (rank ranks current),
      )
      refl

-- A receipt calls for a human's approval unless its state is the current one, no clock has expired
-- or is missing, the request is in scope, no denied capability is asked for, and no renewal is.
pub evaluate-approval_iff :
    (fromisoformat : String → IsoTime) (snapshot manifest default_manifest : Dict)
    (r : LatticeReceipt)
    → evaluate_ttl_lattice fromisoformat (dict snapshot) manifest default_manifest ≡ ok r
    → (r.human_approval_required ≡ false) ↔ IsQuiet (key_text (get snapshot "current_state")) r
evaluate-approval_iff fromisoformat snapshot manifest default_manifest r h =
    let run = evaluate-run fromisoformat snapshot manifest default_manifest r h in
    let active = active_manifest manifest default_manifest in
    let current = key_text (get snapshot "current_state") in
    subst (λ (z : LatticeReceipt). (z.human_approval_required ≡ false) ↔ IsQuiet current z)
      run.receipt
      (
        settle-IsQuiet active snapshot run.evaluated_at (ranks_of active) current run.clocks
            run.violations run.requested,
        IsQuiet-settle active snapshot run.evaluated_at (ranks_of active) current run.clocks
            run.violations run.requested,
      )
