-- ===== src/DeploymentGates/Store/Ladder.antt =====
-- What recording decisions does to the stored tier and to the history.
use codex_trading_engine.Prelude.{
  ◌+◌, ◌≤◌, String, ◌≡◌, refl, sym, ap, ◌∙◌, Bool, true, false, ◌⊎◌, inl, inr, Option, none, some,
  List, [], ◌∷◌, length, ==_iff, Result, ok, ◌>>=◌, Bool-cases, &&-split, not, ◌||◌, if◌then◌else◌,
  arith,
}
use codex_trading_engine.Prelude.Int.{ℤ, pos}
use codex_trading_engine.Value.{Value, int, list, Items, nil, Dict, set_item}
use codex_trading_engine.Value.Update.{
  get-set_item, has-set_item, get-set_item_other, has-set_item_other,
}
use codex_trading_engine.TtlPolicy.Shape.{Raised}
use codex_trading_engine.DeploymentGates.Tiers.{
  DeploymentTier, local_simulation, testnet, low_cost_network, ethereum_mainnet, level, tier_of,
  GraduationDecision,
}
use codex_trading_engine.DeploymentGates.Graduation.{Graduation, evaluate}
use codex_trading_engine.DeploymentGates.Graduation.Eligible.{IsEligible, evaluate-eligible_iff}
use codex_trading_engine.DeploymentGates.Store.{
  load, append, stored_tier, history, with_tier, is_named, normalized, promotion_recorded,
  decision_event, record_decision,
}

||-cases : (a b : Bool) → not a || b ≡ true → (a ≡ false) ⊎ (b ≡ true)
||-cases true b h = inr h
||-cases false b h = inl refl

||-true : (a b : Bool) → (a ≡ false) ⊎ (b ≡ true) → not a || b ≡ true
||-true a b (inl e) = rw e refl
||-true a b (inr e) = ground arith

tier_of-level : (t : DeploymentTier) → tier_of (pos (level t)) ≡ some t
tier_of-level local_simulation = refl
tier_of-level testnet = refl
tier_of-level low_cost_network = refl
tier_of-level ethereum_mainnet = refl

level_inj : (s t : DeploymentTier) → level s ≡ level t → s ≡ t
level_inj s t e =
    let q : some s ≡ some t =
      sym (tier_of-level s) ∙ ap (λ n. tier_of (pos n)) e ∙ tier_of-level t in
    cc

module _ (to_str : Value → String) (parse_int : String → Option ℤ) (strip : String → String) where
  -- A state file with a tier and with a list of events.
  pub record IsState (state : Dict) (t : DeploymentTier) (events : Items) : Type 0 where
    pub tier : stored_tier to_str parse_int strip state ≡ ok t
    pub events_eq : history to_str parse_int strip state ≡ list events

  set-history-tier :
      (state : Dict) (v : Value)
      → stored_tier to_str parse_int strip (set_item state "history" v)
        ≡ stored_tier to_str parse_int strip state
  unfolding stored_tier
  set-history-tier state v =
      rw
        (
          has-set_item_other state "history" "current_tier" v refl,
          get-set_item_other state "history" "current_tier" v refl,
        )
        refl

  set-tier :
      (state : Dict) (t : DeploymentTier)
      → stored_tier to_str parse_int strip (set_item state "current_tier" (int (pos (level t))))
        ≡ ok t
  unfolding stored_tier
  set-tier state t =
      rw
        (
          has-set_item state "current_tier" (int (pos (level t))),
          get-set_item state "current_tier" (int (pos (level t))),
          tier_of-level t,
        )
        refl

  -- What a recorded promotion rests on.
  pub record IsWarranted (d : GraduationDecision) (approved_by : Option String) (t : DeploymentTier)
      : Type 0 where
    pub eligible : d.eligible ≡ true
    pub from_tier : d.current_tier ≡ t
    pub approved :
        (d.human_approval_required ≡ false)
        ⊎ (is_named (normalized to_str parse_int strip approved_by) ≡ true)

  recorded-IsWarranted :
      (d : GraduationDecision) (approved_by : Option String) (t : DeploymentTier)
      → promotion_recorded to_str parse_int strip d approved_by t ≡ true
      → IsWarranted d approved_by t
  recorded-IsWarranted d approved_by t y =
      let (a, b) = &&-split _ _ y in
      let (c, e) = &&-split _ _ b in
      let same : t ≡ d.current_tier = level_inj _ _ ((==_iff _ _).0 e) in
      record { eligible = a; from_tier = sym same; approved = ||-cases _ _ c }

  IsWarranted-recorded :
      (d : GraduationDecision) (approved_by : Option String) (t : DeploymentTier)
      → IsWarranted d approved_by t
      → promotion_recorded to_str parse_int strip d approved_by t ≡ true
  IsWarranted-recorded d approved_by t q =
      let e = (==_iff (level t) (level d.current_tier)).1 (ap level (sym q.from_tier)) in
      rw (q.eligible, e, ||-true _ _ q.approved) refl

  written-IsState :
      (state : Dict) (promoted : Bool) (r t : DeploymentTier) (events : Items)
      → stored_tier to_str parse_int strip state ≡ ok t
      → IsState
          (with_tier to_str parse_int strip promoted r (set_item state "history" (list events)))
          (if promoted then r else t)
          events
  written-IsState state true r t events e = record {
    tier = set-tier (set_item state "history" (list events)) r;
    events_eq =
        rw
          (
            has-set_item_other (set_item state "history" (list events)) "current_tier" "history"
                (int (pos (level r))) refl,
            get-set_item_other (set_item state "history" (list events)) "current_tier" "history"
                (int (pos (level r))) refl,
            has-set_item state "history" (list events),
            get-set_item state "history" (list events),
          )
          refl;
  }
  written-IsState state false r t events e = record {
    tier = set-history-tier state (list events) ∙ e;
    events_eq =
        rw (has-set_item state "history" (list events), get-set_item state "history" (list events))
          refl;
  }

  -- On a state file with a tier and a list of events, recording a decision succeeds, and the event
  -- comes last in the history. The tier becomes the requested one exactly where the decision is
  -- eligible, starts at the stored tier, and an approver is named or the decision requires no
  -- approval, so also without an approver; else the stored tier stays.
  pub record_decision-IsState :
      (now : String) (file : Option Dict) (d : GraduationDecision) (approved_by : Option String)
      (t : DeploymentTier) (events : Items)
      → IsState (load file) t events
      → (state : Dict) × (t' : DeploymentTier) × (record_decision to_str parse_int strip now file d
            approved_by
          ≡ ok state)
        × IsState state t'
            (append events (decision_event to_str parse_int strip now d approved_by t))
        × ((IsWarranted d approved_by t × (t' ≡ d.requested_tier))
            ⊎ (¬ IsWarranted d approved_by t × (t' ≡ t)))
  unfolding record_decision
  record_decision-IsState now file d approved_by t events s =
      let event = decision_event to_str parse_int strip now d approved_by t in
      let promoted = promotion_recorded to_str parse_int strip d approved_by t in
      (
        with_tier to_str parse_int strip promoted d.requested_tier
            (set_item (load file) "history" (list (append events event))),
        if promoted then d.requested_tier else t,
        rw (s.tier, s.events_eq) refl,
        written-IsState (load file) _ d.requested_tier t (append events event) s.tier,
        elim (Bool-cases promoted) [
          | inl y ↦ inl (recorded-IsWarranted d approved_by t y, rw y refl)
          | inr n ↦ inr (λ q. cc (n, IsWarranted-recorded d approved_by t q), rw n refl)
        ],
      )

  -- A recorded promotion of an evaluated request.
  pub record IsPromotion (g : Graduation) (approved_by : Option String) (t t' : DeploymentTier)
      : Type 0 where
    pub eligible : IsEligible g
    pub approved :
        (g.policy.requires_human_approval ≡ false)
        ⊎ (is_named (normalized to_str parse_int strip approved_by) ≡ true)
    pub from_tier : g.current_tier ≡ t
    pub to_tier : g.requested_tier ≡ t'
    pub one_up : level t' ≡ level t + 1

  recorded-IsPromotion :
      (g : Graduation) (approved_by : Option String) (t t' : DeploymentTier)
      → IsWarranted (evaluate g) approved_by t
      → t' ≡ g.requested_tier
      → IsPromotion g approved_by t t'
  unfolding evaluate
  recorded-IsPromotion g approved_by t t' q e =
      let p : IsEligible g = (evaluate-eligible_iff g).0.0 q.eligible in
      record {
        eligible = p;
        approved = q.approved;
        from_tier = q.from_tier;
        to_tier = sym e;
        one_up = rw (e, sym q.from_tier) p.one_up;
      }

  -- On a state file with a tier and a list of events, recording the evaluation of a request succeeds
  -- and leaves a state file whose tier is the one that was stored, or one above it: then the request
  -- was eligible and started at the stored tier, and an approver is named unless the policy requires
  -- no approval.
  pub record_decision-evaluate :
      (now : String) (file : Option Dict) (g : Graduation) (approved_by : Option String)
      (t : DeploymentTier) (events : Items)
      → IsState (load file) t events
      → (state : Dict) × (t' : DeploymentTier) × (events' : Items) × (record_decision to_str
            parse_int strip now file
            (evaluate g)
            approved_by
          ≡ ok state)
        × IsState state t' events'
        × ((t' ≡ t) ⊎ IsPromotion g approved_by t t')
  unfolding evaluate
  record_decision-evaluate now file g approved_by t events s =
      let (state, t', run, s', c) =
        record_decision-IsState now file (evaluate g) approved_by t events s in
      (
        state,
        t',
        append events (decision_event to_str parse_int strip now (evaluate g) approved_by t),
        run,
        s',
        elim c [ inl p ↦ inr (recorded-IsPromotion g approved_by t t' p.0 p.1) | inr n ↦ inl n.1 ],
      )

  -- Evaluating and recording request after request, each with its clock reading and approver.
  abbrev pub climb :
      Option Dict → List (String × Graduation × Option String) → Result Raised (Option Dict)
  climb file [] = ok file
  climb file ((now, g, approved_by) ∷ rest) = do
    state ← record_decision to_str parse_int strip now file (evaluate g) approved_by
    climb (some state) rest

  climb-from :
      (file : Option Dict) (rs : List (String × Graduation × Option String)) (t : DeploymentTier)
      (events : Items)
      → IsState (load file) t events
      → (file' : Option Dict) × (t' : DeploymentTier) × (events' : Items) × (climb file rs
          ≡ ok file')
        × IsState (load file') t' events'
        × (level t ≤ level t')
        × (level t' ≤ level t + length rs)
  climb-from file [] t events s = (file, t, events, refl, s, omega arith, omega arith)
  climb-from file ((now, g, approved_by) ∷ rs) t events s =
      let (state, t1, events1, run, s1, c) =
        record_decision-evaluate now file g approved_by t events s in
      let (file', t', events', run', s', up, few) = climb-from (some state) rs _ _ s1 in
      let step : (level t ≤ level t1) × (level t1 ≤ level t + 1) = elim c [
        | inl e ↦ rw e (omega arith, omega arith)
        | inr p ↦ (let q = p.one_up in (omega arith, omega arith))
      ] in
      (file', t', events', rw run run', s', omega (arith, step.0), omega (arith, step.1))

  -- Starting without a file, evaluating and recording any requests one after the other never raises,
  -- and the tier that is stored in the end is at most the number of the requests.
  pub climb-tier :
      (rs : List (String × Graduation × Option String))
      → (file : Option Dict) × (t : DeploymentTier) × (events : Items) × (climb none rs ≡ ok file)
        × IsState (load file) t events
        × (level t ≤ length rs)
  unfolding stored_tier
  climb-tier rs =
      let (file, t, events, run, s, _, few) =
        climb-from none rs local_simulation nil (record { tier = refl; events_eq = refl }) in
      (file, t, events, run, s, omega (arith, few))
