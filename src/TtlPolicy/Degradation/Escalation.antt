-- ===== src/TtlPolicy/Degradation/Escalation.antt =====
-- On the mode that an evaluation of eve_q/ttl_policy.py results in.
use codex_trading_engine.Prelude.{
  String, ◌≡◌, refl, sym, ap, ◌∙◌, subst, Bool, true, false, not, ◌&&◌, ◌||◌, ◌⊎◌, inl, inr, List,
  [], ◌∷◌, ◌++◌, Option, is_empty, contains, insert_name, sorted_set, both, ok, >>=-eq-ok,
  if◌then◌else◌, arith, eq_iff,
}
use codex_trading_engine.Prelude.Int.{ℤ}
use codex_trading_engine.Value.{Value, null, str, dict, Dict, get, is_true}
use codex_trading_engine.TtlPolicy.Shape.{gt, key_text}
use codex_trading_engine.TtlPolicy.Evaluate.{
  TtlResult, base_result, degrade_to, trigger_set, as_string_set, evaluate_ttl_state, settled,
  evaluate_open, shorten_ttl_minutes,
}
use codex_trading_engine.TtlPolicy.Degradation.Policy.{valid-IsOrdered}
use codex_trading_engine.TtlPolicy.Degradation.Inversion.{evaluate-inversion}

degrade-cases : (b : Bool) (t m : Value) → (degrade_to b t m ≡ m) ⊎ (degrade_to b t m ≡ t)
degrade-cases true t m = inr refl
degrade-cases false t m = inl refl

-- Where no hard stop was hit, the mode stays or becomes its degradation target.
open-mode :
    (policy state : Dict) (base : TtlResult) (mode : Value) (mp : Dict) (outputs : _) (ttl : Value)
    (signals : List String) (r : TtlResult)
    → evaluate_open policy state base mode mp outputs ttl signals ≡ ok r
    → (r.effective_mode ≡ mode) ⊎ (r.effective_mode ≡ get mp "degradation_target")
open-mode policy state base mode mp outputs ttl signals r h =
    let (sh, _, h1) = >>=-eq-ok (trigger_set (get policy "ttl_shortening_signals")) _ h in
    let (gr, _, h2) = >>=-eq-ok (trigger_set (get policy "graceful_degradation_triggers")) _ h1 in
    let (t, _, h3) =
      >>=-eq-ok
        (if is_true (get mp "ttl_required") && not (is_empty (sorted_set (both signals sh)))
          then shorten_ttl_minutes ttl
          else ok ttl)
        _ h2 in
    last
      (settled base mode state mp outputs t (sorted_set (both signals sh))
        (sorted_set (both signals gr)))
      (cc) (degrade-cases _ (get mp "degradation_target") mode)
  where
    last :
        (q : TtlResult)
        → q ≡ r
        → (q.effective_mode ≡ mode) ⊎ (q.effective_mode ≡ get mp "degradation_target")
        → (r.effective_mode ≡ mode) ⊎ (r.effective_mode ≡ get mp "degradation_target")
    last q e s =
        subst
          (λ (z : TtlResult).
            (z.effective_mode ≡ mode) ⊎ (z.effective_mode ≡ get mp "degradation_target"))
          e s

-- A valid result without a hard stop keeps the mode, or goes to a mode whose rank in the policy is
-- not higher than the rank of the mode.
pub evaluate-never_escalates :
    (to_str : Value → String) (parse_int : String → Option ℤ) (state policy ranks : Dict)
    (r : TtlResult)
    → evaluate_ttl_state to_str parse_int state policy ≡ ok r
    → get policy "authority_rank" ≡ dict ranks
    → r.valid ≡ true
    → r.hard_stop ≡ false
    → (r.effective_mode ≡ get state "mode")
      ⊎ (gt (get ranks (key_text r.effective_mode)) (get ranks (key_text (get state "mode")))
          ≡ ok false)
evaluate-never_escalates to_str parse_int state policy ranks r h er valid stop =
    let run = evaluate-inversion to_str parse_int state policy r h valid in
    let (mp, em, ordered) =
      valid-IsOrdered policy run.modes ranks run.mode run.shape run.modes_eq er run.known in
    let same : run.mode_policy ≡ mp = cc (run.policy_eq, em) in
    elim run.outcome [
      | inl s ↦ absurd (cc (ap (λ (q : TtlResult). q.hard_stop) s.1))
      | inr s ↦
          elim (open-mode policy state (base_result (str run.mode) []) (str run.mode)
            run.mode_policy run.outputs run.ttl run.signals r s.1) [
              | inl k ↦ inl (k ∙ sym run.mode_eq)
              | inr k ↦ inr (rw (k, run.mode_eq, same) ordered.not_higher)
            ]
    ]

pub both-contains :
    (xs ys : List String) (c : String)
    → contains xs c ≡ true
    → contains ys c ≡ true
    → is_empty (both xs ys) ≡ false
unfolding both
both-contains [] ys c h k = cc
both-contains (x ∷ xs) ys c h k = ground (arith, both-contains xs ys c, eq_iff x c)

insert_name-is_empty : (k : String) (xs : List String) → is_empty (insert_name k xs) ≡ false
insert_name-is_empty k [] = refl
insert_name-is_empty k (x ∷ xs) = ground arith

pub sorted_set-is_empty :
    (xs : List String) → is_empty xs ≡ false → is_empty (sorted_set xs) ≡ false
unfolding sorted_set
sorted_set-is_empty [] h = cc
sorted_set-is_empty (x ∷ xs) h = insert_name-is_empty x (sorted_set xs)

contains-append :
    (xs ys : List String) (c : String) → contains (xs ++ ys) c ≡ contains xs c || contains ys c
contains-append [] ys c = refl
contains-append (x ∷ xs) ys c = ground (arith, contains-append xs ys c)

-- If a capability that is requested or claimed is among the policy's hard-stop triggers, a valid
-- result is a hard stop: the mode is `artifact_only`, no TTL is left, a human has to approve.
pub evaluate-stops :
    (to_str : Value → String) (parse_int : String → Option ℤ) (state policy : Dict) (r : TtlResult)
    (requested claimed triggers : List String) (c : String)
    → evaluate_ttl_state to_str parse_int state policy ≡ ok r
    → r.valid ≡ true
    → as_string_set to_str parse_int (get state "requested_capabilities") ≡ ok requested
    → as_string_set to_str parse_int (get state "claimed_capabilities") ≡ ok claimed
    → trigger_set (get policy "hard_stop_triggers") ≡ ok triggers
    → (contains requested c || contains claimed c) ≡ true
    → contains triggers c ≡ true
    → (r.hard_stop ≡ true)
      × (r.effective_mode ≡ str "artifact_only")
      × (r.ttl_minutes ≡ null)
      × (r.human_approval_required ≡ true)
evaluate-stops to_str parse_int state policy r requested claimed triggers c h valid eq ec et k t =
    let run = evaluate-inversion to_str parse_int state policy r h valid in
    let a : run.requested ≡ requested = cc (run.requested_eq, eq) in
    let b : run.claimed ≡ claimed = cc (run.claimed_eq, ec) in
    let d : run.triggers ≡ triggers = cc (run.triggers_eq, et) in
    let hit : is_empty (sorted_set (both (run.requested ++ run.claimed) run.triggers)) ≡ false =
      sorted_set-is_empty _ (both-contains _ _ c (rw (a, b, contains-append) k) (rw d t)) in
    elim run.outcome [
      | inl s ↦ rw (← s.1) (refl, refl, refl, refl)
      | inr s ↦ absurd (cc (hit, s.0))
    ]
