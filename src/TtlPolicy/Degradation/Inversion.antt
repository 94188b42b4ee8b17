-- ===== src/TtlPolicy/Degradation/Inversion.antt =====
-- What stands behind an evaluation that is valid.
use codex_trading_engine.Prelude.{
  String, ◌≡◌, refl, ◌∙◌, ap, true, false, ◌⊎◌, inl, inr, List, [], ◌∷◌, ◌++◌, Option, is_empty,
  is_empty-nil, sorted_set, both, Result, ok, >>=-eq-ok, Bool-cases,
}
use codex_trading_engine.Prelude.Int.{ℤ}
use codex_trading_engine.Value.{Value, str, list, dict, Items, Dict, get, has}
use codex_trading_engine.TtlPolicy.Shape.{
  Raised, unknown_mode, key_in, key_text, validate_ttl_policy_shape,
}
use codex_trading_engine.TtlPolicy.Evaluate.{
  TtlResult, base_result, trigger_set, as_string_set, cap_ttl_minutes, stopped, evaluate_open,
  evaluate_mode, evaluate_in, evaluate_ttl_state,
}

module _ (to_str : Value → String) (parse_int : String → Option ℤ) where
  -- The values on the way to a valid result.
  pub record Run (state policy : Dict) (r : TtlResult) : Type 0 where
    pub mode : String
    pub modes : Dict
    pub mode_policy : Dict
    pub outputs : Items
    pub requested : List String
    pub claimed : List String
    pub triggers : List String
    pub signals : List String
    pub ttl : Value
    pub shape : validate_ttl_policy_shape policy ≡ ok []
    pub mode_eq : get state "mode" ≡ str mode
    pub modes_eq : get policy "modes" ≡ dict modes
    pub known : has modes mode ≡ true
    pub policy_eq : get modes mode ≡ dict mode_policy
    pub signals_eq : as_string_set to_str parse_int (get state "signals") ≡ ok signals
    pub requested_eq :
        as_string_set to_str parse_int (get state "requested_capabilities") ≡ ok requested
    pub claimed_eq : as_string_set to_str parse_int (get state "claimed_capabilities") ≡ ok claimed
    pub triggers_eq : trigger_set (get policy "hard_stop_triggers") ≡ ok triggers
    pub ttl_eq :
        cap_ttl_minutes to_str parse_int (get state "current_ttl_minutes") mode_policy ≡ ok ttl
    pub outcome :
        let hits = sorted_set (both (requested ++ claimed) triggers) in
        (is_empty hits ≡ false) × (stopped (base_result (str mode) []) outputs hits ≡ r)
        ⊎ (is_empty hits ≡ true)
          × (evaluate_open policy state
                (base_result (str mode) [])
                (str mode)
                mode_policy
                outputs
                ttl
                signals
              ≡ ok r)

  -- The same without the shape and the mode.
  record ModeRun (state policy : Dict) (mode : String) (v : Value) (r : TtlResult) : Type 0 where
    mode_policy : Dict
    outputs : Items
    requested : List String
    claimed : List String
    triggers : List String
    signals : List String
    ttl : Value
    policy_eq : v ≡ dict mode_policy
    signals_eq : as_string_set to_str parse_int (get state "signals") ≡ ok signals
    requested_eq :
        as_string_set to_str parse_int (get state "requested_capabilities") ≡ ok requested
    claimed_eq : as_string_set to_str parse_int (get state "claimed_capabilities") ≡ ok claimed
    triggers_eq : trigger_set (get policy "hard_stop_triggers") ≡ ok triggers
    ttl_eq : cap_ttl_minutes to_str parse_int (get state "current_ttl_minutes") mode_policy ≡ ok ttl
    outcome :
        let hits = sorted_set (both (requested ++ claimed) triggers) in
        (is_empty hits ≡ false) × (stopped (base_result (str mode) []) outputs hits ≡ r)
        ⊎ (is_empty hits ≡ true)
          × (evaluate_open policy state
                (base_result (str mode) [])
                (str mode)
                mode_policy
                outputs
                ttl
                signals
              ≡ ok r)

  ok-inj : {A : Type 0} {a b : A} → ◌≡◌ {A = Result Raised A} (ok a) (ok b) → a ≡ b
  ok-inj h = cc

  mode-inversion :
      (state policy : Dict) (mode : String) (v w : Value) (r : TtlResult)
      → evaluate_mode to_str parse_int policy state (base_result (str mode) []) (str mode) v w
        ≡ ok r
      → ModeRun state policy mode v r
  mode-inversion state policy mode (dict mp) (list outputs) r h =
      let (signals, es, h1) =
        >>=-eq-ok (as_string_set to_str parse_int (get state "signals")) _ h in
      let (requested, er, h2) =
        >>=-eq-ok (as_string_set to_str parse_int (get state "requested_capabilities")) _ h1 in
      let (claimed, ec, h3) =
        >>=-eq-ok (as_string_set to_str parse_int (get state "claimed_capabilities")) _ h2 in
      let (triggers, et, h4) = >>=-eq-ok (trigger_set (get policy "hard_stop_triggers")) _ h3 in
      let (ttl, el, h5) =
        >>=-eq-ok (cap_ttl_minutes to_str parse_int (get state "current_ttl_minutes") mp) _ h4 in
      record {
        mode_policy = mp;
        outputs = outputs;
        requested = requested;
        claimed = claimed;
        triggers = triggers;
        signals = signals;
        ttl = ttl;
        policy_eq = refl;
        signals_eq = es;
        requested_eq = er;
        claimed_eq = ec;
        triggers_eq = et;
        ttl_eq = el;
        outcome = elim (Bool-cases (is_empty (sorted_set (both (requested ++ claimed) triggers)))) [
          | inl y ↦ inr (y, rw y at h5)
          | inr n ↦ inl (n, ok-inj (rw n at h5))
        ];
      }
  mode-inversion state policy mode v w r h = cc

  in-inversion :
      (state policy : Dict) (mode v : Value) (r : TtlResult)
      → evaluate_in to_str parse_int policy state mode v ≡ ok r
      → r.valid ≡ true
      → (modes : Dict) × (v ≡ dict modes)
        × (key_in mode modes ≡ ok true)
        × (evaluate_mode to_str parse_int policy state
              (base_result mode [])
              mode
              (get modes (key_text mode))
              (get policy "safe_outputs_after_degradation")
            ≡ ok r)
  in-inversion state policy mode (dict modes) r h t =
      let (known, ek, h1) = >>=-eq-ok (key_in mode modes) _ h in
      elim (Bool-cases known) [
        | inl y ↦ (modes, refl, ek ∙ rw y refl, rw y at h1)
        | inr n ↦ absurd (
            let e : base_result mode (unknown_mode mode ∷ []) ≡ r = ok-inj (rw n at h1) in
            cc (ap (λ (q : TtlResult). q.valid) e))
      ]
  in-inversion state policy mode v r h t = cc

  key_in-text :
      (v : Value) (d : Dict) → key_in v d ≡ ok true → (s : String) × (v ≡ str s) × (has d s ≡ true)
  key_in-text (str s) d h = (s, refl, ok-inj h)
  key_in-text v d h = cc

  pub evaluate-inversion :
      (state policy : Dict) (r : TtlResult)
      → evaluate_ttl_state to_str parse_int state policy ≡ ok r
      → r.valid ≡ true
      → Run state policy r
  unfolding evaluate_ttl_state
  evaluate-inversion state policy r h t =
      let (errors, ee, h1) = >>=-eq-ok (validate_ttl_policy_shape policy) _ h in
      elim (Bool-cases (is_empty errors)) [
        | inr n ↦ absurd (
            let e : base_result (get state "mode") errors ≡ r = ok-inj (rw n at h1) in
            cc (ap (λ (q : TtlResult). q.valid) e))
        | inl y ↦
            (let (modes, em, ek, h2) =
                in-inversion state policy (get state "mode") (get policy "modes") r (rw y at h1)
                  t in
              let (mode, es, known) = key_in-text (get state "mode") modes ek in
              let m =
                mode-inversion state policy mode (get modes mode)
                  (get policy "safe_outputs_after_degradation") r (rw es at h2) in
              record {
                mode = mode;
                modes = modes;
                mode_policy = m.mode_policy;
                outputs = m.outputs;
                requested = m.requested;
                claimed = m.claimed;
                triggers = m.triggers;
                signals = m.signals;
                ttl = m.ttl;
                shape = ee ∙ rw (is_empty-nil errors y) refl;
                mode_eq = es;
                modes_eq = em;
                known = known;
                policy_eq = m.policy_eq;
                signals_eq = m.signals_eq;
                requested_eq = m.requested_eq;
                claimed_eq = m.claimed_eq;
                triggers_eq = m.triggers_eq;
                ttl_eq = m.ttl_eq;
                outcome = m.outcome;
              })
      ]
