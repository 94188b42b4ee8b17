-- ===== src/GateDescent/Sound.antt =====
-- On proposals of eve_q/gate_descent.py without findings.
use codex_trading_engine.Prelude.{
  ℕ, ◌+◌, String, ◌≡◌, refl, Bool, true, false, ◌⊎◌, inl, inr, Option, List, [], ◌∷◌, All,
  append-eq-nil, unless, without, contains, Bool-cases, &&-split,
}
use codex_trading_engine.Prelude.Int.{ℤ}
use codex_trading_engine.Prelude.Times.{IsoTime}
use codex_trading_engine.Value.{
  Value, list, dict, Items, nil, cons, Dict, empty, get, is_true, is_false, is_num, is_str,
}
use codex_trading_engine.Receipts.Hashing.{Hashing}
use codex_trading_engine.GateDescent.Findings
use codex_trading_engine.GateDescent.Findings.{Finding}
use codex_trading_engine.GateDescent.Validate.{
  get_or, compute_artifact_id, status_at, gate_findings, gates_findings, same_count,
  gate_states_findings, transition_findings, flag_findings, flags, unless_empty, checks_of,
  checks_type_findings, not_passed, rollback_findings, texts_of, prohibited_findings,
  evidence_types, readiness_findings, ttl_findings, validate_gate_descent,
}

unless-nil : (b : Bool) (f : Finding) → unless b f ≡ [] → b ≡ true
unless-nil true f e = refl
unless-nil false f e = absurd (cc)

-- The gate states: one object per gate, with its index, name and status.
abbrev pub AreGates : ℕ → List String → Items → Type 0
AreGates i [] nil = Unit
AreGates i (name ∷ names) (cons gate rest) =
    ((g : Dict) × (gate ≡ dict g)
      × (is_num (get g "index") i ≡ true)
      × (is_str (get g "name") name ≡ true)
      × (is_str (get g "status") (status_at i) ≡ true))
    × AreGates (i + 1) names rest
AreGates i _ _ = ⊥

gates-AreGates :
    (i : ℕ) (names : List String) (states : Items)
    → same_count names states ≡ true
    → gates_findings i names states ≡ []
    → AreGates i names states
gates-AreGates i [] nil s e = tt
gates-AreGates i [] (cons x xs) s e = absurd (cc)
gates-AreGates i (n ∷ ns) nil s e = absurd (cc)
gates-AreGates i (n ∷ ns) (cons (dict g) xs) s e =
    let (here, there) = append-eq-nil (gate_findings i n (dict g)) _ e in
    let (a, r) = append-eq-nil _ _ here in
    let (b, c) = append-eq-nil _ _ r in
    (
      (g, refl, unless-nil _ _ a, unless-nil _ _ b, unless-nil _ _ c),
      gates-AreGates (i + 1) ns xs s there,
    )
gates-AreGates i (n ∷ ns) (cons _ xs) s e = absurd (cc)

-- A proposal that goes from Gate 0 to Gate 1 and no further.
pub record IsAdjacent (transition : Dict) : Type 0 where
  pub from_zero : is_num (get transition "current_gate") 0 ≡ true
  pub to_one : is_num (get transition "requested_gate") 1 ≡ true
  pub only_one : is_true (get transition "one_gate_only") ≡ true
  pub no_inheritance : is_false (get transition "downstream_inheritance") ≡ true

transition-IsAdjacent :
    (v : Value) → transition_findings v ≡ [] → (t : Dict) × (v ≡ dict t) × IsAdjacent t
transition-IsAdjacent (dict t) e =
    let (a, r1) = append-eq-nil _ _ e in
    let (b, r2) = append-eq-nil _ _ r1 in
    let (c, d) = append-eq-nil _ _ r2 in
    let (p, q) = &&-split _ _ (unless-nil _ _ a) in
    (
      t,
      refl,
      record {
        from_zero = p;
        to_one = q;
        only_one = unless-nil _ _ c;
        no_inheritance = unless-nil _ _ d;
      },
    )
transition-IsAdjacent _ e = absurd (cc)

without-nil : (xs ys : List String) → without xs ys ≡ [] → All (λ x. contains ys x ≡ true) xs
unfolding without
without-nil [] ys e = tt
without-nil (x ∷ xs) ys e = elim (Bool-cases (contains ys x)) [
  | inl y ↦ (y, without-nil xs ys (rw y at e))
  | inr n ↦ absurd (let q = rw n at e in cc)
]

not_passed-nil :
    (checks : Dict) (xs : List String)
    → not_passed checks xs ≡ []
    → All (λ x. is_true (get checks x) ≡ true) xs
not_passed-nil checks [] e = tt
not_passed-nil checks (x ∷ xs) e =
    let (a, r) = append-eq-nil _ _ e in
    (passed (is_true (get checks x)) a, not_passed-nil checks xs r)
  where
    passed : (b : Bool) → unless b x ≡ [] → b ≡ true
    passed true p = refl
    passed false p = absurd (cc)

empty_of : (xs : List String) (f : List String → Finding) → unless_empty xs f ≡ [] → xs ≡ []
empty_of [] f e = refl
empty_of (x ∷ xs) f e = absurd (cc)

rollback-tested :
    (v : Value)
    → rollback_findings v ≡ []
    → (r : Dict) × (v ≡ dict r)
      × (is_true (get r "tested") ≡ true)
      × (is_num (get r "target_gate") 0 ≡ true)
rollback-tested (dict r) e = elim (Bool-cases (is_true (get r "tested"))) [
  | inl y ↦ (r, refl, y, unless-nil _ _ (rw y at e))
  | inr n ↦ absurd (let q = rw n at e in cc)
]
rollback-tested _ e = absurd (cc)

module _ (h : Hashing) (to_str : Value → String) (parse_int : String → Option ℤ)
    (fromisoformat : String → IsoTime) where
  -- What a ready proposal shows: every check passed, every type of evidence is there, and a rollback
  -- to Gate 0 was tested.
  pub record IsReady (document : Dict) : Type 0 where
    pub eligible : is_true (get document "promotion_eligible") ≡ true
    pub checked :
        All
          (λ c.
            is_true (get (checks_of (get_or document "acceptance_checks" (dict empty))) c) ≡ true)
          Findings.ready_checks
    pub evidenced :
        All
          (λ t.
            contains (evidence_types h to_str parse_int fromisoformat (get document "evidence")) t
            ≡ true)
          Findings.ready_evidence_types
    pub rollback :
        (r : Dict) × (get_or document "rollback" (dict empty) ≡ dict r)
        × (is_true (get r "tested") ≡ true)
        × (is_num (get r "target_gate") 0 ≡ true)

  -- A draft that is not eligible, or a ready proposal.
  abbrev pub HasReadiness : Dict → Type 0
  HasReadiness document =
      (is_str (get document "readiness") "DRAFT" ≡ true)
        × (is_false (get document "promotion_eligible") ≡ true)
      ⊎ (is_str (get document "readiness") "READY_FOR_HUMAN_REVIEW" ≡ true) × IsReady document

  -- A proposal that holds back all authority.
  pub record IsHarmless (document : Dict) : Type 0 where
    pub identified : is_str (get document "artifact_id") (compute_artifact_id h document) ≡ true
    pub states : Items
    pub states_eq : get document "gate_states" ≡ list states
    pub locked : AreGates 0 Findings.gates states
    pub transition : Dict
    pub transition_eq : get_or document "transition" (dict empty) ≡ dict transition
    pub adjacent : IsAdjacent transition
    pub no_command : is_false (get document "artifact_is_command") ≡ true
    pub no_authority : is_false (get document "authority") ≡ true
    pub human : is_true (get document "human_promotion_required") ≡ true
    pub no_execution : is_false (get document "may_execute") ≡ true
    pub no_capital : is_false (get document "may_move_capital") ≡ true
    pub no_secrets : is_false (get document "write_capable_secrets_present") ≡ true
    pub read_only : is_str (get document "connector_mode") "read_only" ≡ true
    pub prohibited : Items
    pub prohibited_eq : get_or document "prohibited_actions" (list nil) ≡ list prohibited
    pub prohibits :
        All
          (λ a. contains (texts_of h to_str parse_int fromisoformat prohibited) a ≡ true)
          Findings.required_prohibited_actions
    pub readiness : HasReadiness document

  states-AreGates :
      (v : Value)
      → gate_states_findings v ≡ []
      → (xs : Items) × (v ≡ list xs) × AreGates 0 Findings.gates xs
  states-AreGates (list xs) e = elim (Bool-cases (same_count Findings.gates xs)) [
    | inl y ↦ (xs, refl, gates-AreGates 0 Findings.gates xs y (rw y at e))
    | inr n ↦ absurd (let q = rw n at e in cc)
  ]
  states-AreGates _ e = absurd (cc)

  prohibited_required :
      (v : Value)
      → prohibited_findings h to_str parse_int fromisoformat v ≡ []
      → (xs : Items) × (v ≡ list xs)
        × All
            (λ a. contains (texts_of h to_str parse_int fromisoformat xs) a ≡ true)
            Findings.required_prohibited_actions
  prohibited_required (list xs) e = (
    xs,
    refl,
    without-nil _ _ (
        empty_of
          (without Findings.required_prohibited_actions
            (texts_of h to_str parse_int fromisoformat xs))
          Findings.prohibited_missing e),
  )
  prohibited_required _ e = absurd (cc)

  readiness_of :
      (document : Dict)
      → readiness_findings h to_str parse_int fromisoformat document
          (checks_of (get_or document "acceptance_checks" (dict empty)))
        ≡ []
      → HasReadiness document
  readiness_of document e = elim (Bool-cases (is_str (get document "readiness") "DRAFT")) [
    | inl y ↦ inl (y, unless-nil _ _ (rw y at e))
    | inr n ↦ elim (Bool-cases (is_str (get document "readiness") "READY_FOR_HUMAN_REVIEW")) [
      | inr m ↦ absurd (let q = rw (n, m) at e in cc)
      | inl y ↦
          (let checks = checks_of (get_or document "acceptance_checks" (dict empty)) in
            let shown = evidence_types h to_str parse_int fromisoformat (get document "evidence") in
            let (a, r1) = append-eq-nil _ _ (rw (n, y) at e) in
            let (b, r2) =
              append-eq-nil
                (unless_empty (not_passed checks Findings.ready_checks) Findings.checks_incomplete)
                _ r1 in
            let (c, d) =
              append-eq-nil
                (unless_empty (without Findings.ready_evidence_types shown)
                  Findings.evidence_missing)
                _ r2 in
            inr (
              y,
              record {
                eligible = unless-nil _ _ a;
                checked = not_passed-nil checks Findings.ready_checks (
                    empty_of (not_passed checks Findings.ready_checks) Findings.checks_incomplete
                      b);
                evidenced = without-nil Findings.ready_evidence_types shown (
                    empty_of (without Findings.ready_evidence_types shown) Findings.evidence_missing
                      c);
                rollback = rollback-tested _ d;
              },
            ))
    ]
  ]

  -- A proposal without findings has its own artifact id, goes from Gate 0 to Gate 1 only with every
  -- later gate locked, claims no authority, prohibits all required actions, and is a draft that is
  -- not eligible or a ready proposal with all checks, all evidence and a tested rollback.
  pub valid-IsHarmless :
      (now : ℤ) (document : Dict)
      → validate_gate_descent h to_str parse_int fromisoformat now document ≡ []
      → IsHarmless document
  unfolding validate_gate_descent
  valid-IsHarmless now document e =
      let (_, r1) = append-eq-nil _ _ e in
      let (_, r2) = append-eq-nil _ _ r1 in
      let (id, r3) = append-eq-nil _ _ r2 in
      let (_, r4) =
        append-eq-nil (ttl_findings h to_str parse_int fromisoformat now document) _ r3 in
      let (gs, r5) = append-eq-nil (gate_states_findings (get document "gate_states")) _ r4 in
      let (tr, r6) =
        append-eq-nil (transition_findings (get_or document "transition" (dict empty))) _ r5 in
      let (fl, r7) = append-eq-nil (flag_findings document flags) _ r6 in
      let (ro, r8) = append-eq-nil _ _ r7 in
      let (pr, r9) =
        append-eq-nil
          (prohibited_findings h to_str parse_int fromisoformat
            (get_or document "prohibited_actions" (list nil)))
          _ r8 in
      let (_, r10) =
        append-eq-nil (checks_type_findings (get_or document "acceptance_checks" (dict empty))) _
          r9 in
      let (_, rd) = append-eq-nil _ _ r10 in
      let (f1, g1) = append-eq-nil _ _ fl in
      let (f2, g2) = append-eq-nil _ _ g1 in
      let (f3, g3) = append-eq-nil _ _ g2 in
      let (f4, g4) = append-eq-nil _ _ g3 in
      let (f5, g5) = append-eq-nil _ _ g4 in
      let (f6, _) = append-eq-nil _ _ g5 in
      let (xs, xs_eq, ok_states) = states-AreGates _ gs in
      let (t, t_eq, ok_transition) = transition-IsAdjacent _ tr in
      let (ps, ps_eq, ok_prohibited) = prohibited_required _ pr in
      record {
        identified = unless-nil _ _ id;
        states = xs;
        states_eq = xs_eq;
        locked = ok_states;
        transition = t;
        transition_eq = t_eq;
        adjacent = ok_transition;
        no_command = unless-nil _ _ f1;
        no_authority = unless-nil _ _ f2;
        human = unless-nil _ _ f3;
        no_execution = unless-nil _ _ f4;
        no_capital = unless-nil _ _ f5;
        no_secrets = unless-nil _ _ f6;
        read_only = unless-nil _ _ ro;
        prohibited = ps;
        prohibited_eq = ps_eq;
        prohibits = ok_prohibited;
        readiness = readiness_of document rd;
      }
