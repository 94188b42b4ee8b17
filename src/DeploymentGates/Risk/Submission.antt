-- ===== src/DeploymentGates/Risk/Submission.antt =====
-- When the governor lets an entry be submitted, and what a tripped breaker does.
use codex_trading_engine.Prelude.{
  String, ◌≡◌, refl, ◌↔◌, Bool, true, false, not, ◌&&◌, List, [], ◌∷◌, ◌++◌, is_empty, is_empty-nil,
  unless, arith, ◌⊎◌, inl, inr, Bool-cases,
}
use codex_trading_engine.Prelude.Int.{leb_ℤ}
use codex_trading_engine.DeploymentGates.Decimal.{leb_decimal, add}
use codex_trading_engine.DeploymentGates.Tiers.{total}
use codex_trading_engine.DeploymentGates.Risk.{
  CircuitBreaker, trip, BreakerCall, tripping, resetting, after_call, after_calls, Entry,
  reasons_of, evaluate_entry,
}

-- All that a submission rests on.
pub record IsSafe (e : Entry) : Type 0 where
  pub profitable :
      leb_decimal e.expected_gross_profit_usd (add (total e.costs) e.safety_margin_usd) ≡ false
  pub below_loss : leb_decimal e.policy.daily_loss_ceiling_usd e.daily_loss_usd ≡ false
  pub below_gas : leb_decimal e.policy.max_daily_gas_burn_usd e.daily_gas_burn_usd ≡ false
  pub attempts_left : leb_ℤ e.policy.max_attempts_per_hour e.attempts_last_hour ≡ false
  pub failures_left : leb_ℤ e.policy.max_consecutive_failures e.consecutive_failures ≡ false
  pub closed : e.circuit_breaker.tripped ≡ false
  pub not_killed : e.global_kill_switch ≡ false
  pub network : e.network_enabled ≡ true
  pub strategy : e.strategy_enabled ≡ true
  pub approved : (e.live_mode ≡ false) ⊎ (e.human_approved ≡ true)

clears :
    (b : Bool) (m : String) (rest : List String)
    → unless b m ++ rest ≡ []
    → (b ≡ true) × (rest ≡ [])
clears true m rest h = (refl, h)
clears false m rest h = absurd (cc)

clear :
    (b : Bool) (m : String) (rest : List String)
    → unless (not b) m ++ rest ≡ []
    → (b ≡ false) × (rest ≡ [])
clear true m rest h = absurd (cc)
clear false m rest h = (refl, h)

live : (a b : Bool) (m : String) → unless (not (a && not b)) m ≡ [] → (a ≡ false) ⊎ (b ≡ true)
live true true m h = inr refl
live true false m h = absurd (cc)
live false b m h = inl refl

live_ok : (a b : Bool) (m : String) → (a ≡ false) ⊎ (b ≡ true) → unless (not (a && not b)) m ≡ []
live_ok a b m (inl e) = rw e refl
live_ok a b m (inr e) = elim (Bool-cases a) [ inl y ↦ rw (y, e) refl | inr n ↦ rw n refl ]

reasons_of-nil : (e : Entry) → reasons_of e ≡ [] → IsSafe e
unfolding reasons_of
reasons_of-nil e h0 =
    let (a1, h1) = clear _ _ _ h0 in
    let (a2, h2) = clear _ _ _ h1 in
    let (a3, h3) = clear _ _ _ h2 in
    let (a4, h4) = clear _ _ _ h3 in
    let (a5, h5) = clear _ _ _ h4 in
    let (a6, h6) = clear _ _ _ h5 in
    let (a7, h7) = clear _ _ _ h6 in
    let (a8, h8) = clears _ _ _ h7 in
    let (a9, h9) = clears _ _ _ h8 in
    record {
      profitable = a1;
      below_loss = a2;
      below_gas = a3;
      attempts_left = a4;
      failures_left = a5;
      closed = a6;
      not_killed = a7;
      network = a8;
      strategy = a9;
      approved = live _ _ _ h9;
    }

nil-reasons_of : (e : Entry) → IsSafe e → reasons_of e ≡ []
unfolding reasons_of
nil-reasons_of e s =
    rw
      (
        s.profitable, s.below_loss, s.below_gas, s.attempts_left, s.failures_left, s.closed,
        s.not_killed, s.network, s.strategy,
      )
      (live_ok _ _ _ s.approved)

-- An entry is submitted exactly when its gross profit is above the costs and the margin, every
-- ceiling is unreached, the breaker is closed, no kill switch is on, network and strategy are
-- enabled and, in live mode, a human has approved.
pub evaluate_entry-submit_iff : (e : Entry) → ((evaluate_entry e).submit ≡ true) ↔ IsSafe e
unfolding evaluate_entry
evaluate_entry-submit_iff e =
    (λ h. reasons_of-nil e (is_empty-nil _ h), λ s. rw (nil-reasons_of e s) refl)

-- No call in the list is a reset that a human approved.
abbrev pub is_unapproved : BreakerCall → Bool
is_unapproved (tripping reason) = true
is_unapproved (resetting approved) = not approved

abbrev pub all_unapproved : List BreakerCall → Bool
all_unapproved [] = true
all_unapproved (c ∷ cs) = is_unapproved c && all_unapproved cs

after_call-tripped :
    (b : CircuitBreaker) (c : BreakerCall)
    → b.tripped ≡ true
    → is_unapproved c ≡ true
    → (after_call b c).tripped ≡ true
after_call-tripped b (tripping reason) t u = refl
after_call-tripped b (resetting true) t u = absurd (cc)
after_call-tripped b (resetting false) t u = t

after_calls-tripped :
    (b : CircuitBreaker) (cs : List BreakerCall)
    → b.tripped ≡ true
    → all_unapproved cs ≡ true
    → (after_calls b cs).tripped ≡ true
after_calls-tripped b [] t u = t
after_calls-tripped b (c ∷ cs) t u =
    let p : (is_unapproved c ≡ true) × (all_unapproved cs ≡ true) = ground arith in
    after_calls-tripped (after_call b c) cs (after_call-tripped b c t p.0) p.1

-- Once the breaker is tripped, no entry is submitted after any further calls, as long as none of
-- them is a reset with a human's approval.
pub tripped-never_submits :
    (b : CircuitBreaker) (reason : String) (cs : List BreakerCall) (e : Entry)
    → all_unapproved cs ≡ true
    → e.circuit_breaker ≡ after_calls (trip b reason) cs
    → (evaluate_entry e).submit ≡ false
tripped-never_submits b reason cs e u same = elim (Bool-cases (evaluate_entry e).submit) [
  | inr n ↦ n
  | inl y ↦
      (let s : IsSafe e = (evaluate_entry-submit_iff e).0 y in
        let t = after_calls-tripped (trip b reason) cs refl u in
        absurd (let q = rw same at s.closed in cc))
]

-- A breaker has reasons exactly when it is tripped.
abbrev pub IsConsistent : CircuitBreaker → Type 0
IsConsistent b = b.tripped ≡ not (is_empty b.reasons)

append-not_empty : (xs : List String) (x : String) → is_empty (xs ++ x ∷ []) ≡ false
append-not_empty [] x = refl
append-not_empty (y ∷ xs) x = refl

after_call-IsConsistent :
    (b : CircuitBreaker) (c : BreakerCall) → IsConsistent b → IsConsistent (after_call b c)
after_call-IsConsistent b (tripping reason) i = rw (append-not_empty b.reasons reason) refl
after_call-IsConsistent b (resetting true) i = refl
after_call-IsConsistent b (resetting false) i = i

-- Every call of a breaker that has reasons exactly when it is tripped leaves one of that kind, so
-- that after any calls of a new breaker it is tripped exactly when there are reasons.
pub after_calls-IsConsistent :
    (b : CircuitBreaker) (cs : List BreakerCall) → IsConsistent b → IsConsistent (after_calls b cs)
after_calls-IsConsistent b [] i = i
after_calls-IsConsistent b (c ∷ cs) i =
    after_calls-IsConsistent (after_call b c) cs (after_call-IsConsistent b c i)
