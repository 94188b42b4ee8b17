-- ===== src/TtlLattice/Evaluate/Order.antt =====
-- On the state that an evaluation of the lattice results in.
use codex_trading_engine.Prelude.{
  String, ◌≡◌, refl, false, ◌⊎◌, inl, inr, List, [], ◌∷◌, All, map, subst, ok, Bool-cases,
  if◌then◌else◌, arith, ltb→lt,
}
use codex_trading_engine.Prelude.Int.{ℤ, ltb_ℤ, ◌≤ℤ◌, ◌<ℤ◌}
use codex_trading_engine.Prelude.Times.{IsoTime}
use codex_trading_engine.Value.{Value, dict, Dict, get}
use codex_trading_engine.TtlPolicy.Shape.{key_text}
use codex_trading_engine.TtlLattice.Scope.{Reason}
use codex_trading_engine.TtlLattice.Clocks.{ClockResult, Tally}
use codex_trading_engine.TtlLattice.Evaluate.{
  LatticeReceipt, rank, lowered, settle, active_manifest, evaluate_ttl_lattice,
}
use codex_trading_engine.TtlLattice.Evaluate.Tallies.{
  expired_results, IsTallied, clock_rounds-IsTallied,
}
use codex_trading_engine.TtlLattice.Evaluate.Run.{ranks_of, evaluate-run}

-- Some element has the property.
abbrev pub Any : {A : Type 0} → (A → Type 0) → List A → Type 0
Any P [] = ⊥
Any P (x ∷ xs) = P x ⊎ Any P xs

-- One round of the loop over the targets.
abbrev next_of : Dict → String → Value → String
next_of ranks e t = if ltb_ℤ (rank ranks (key_text t)) (rank ranks e) then key_text t else e

next_of-below :
    (ranks : Dict) (e : String) (t : Value)
    → (rank ranks (next_of ranks e t) ≤ℤ rank ranks (key_text t))
      × (rank ranks (next_of ranks e t) ≤ℤ rank ranks e)
next_of-below ranks e t = elim (Bool-cases (ltb_ℤ (rank ranks (key_text t)) (rank ranks e))) [
  | inl y ↦ (let q = ltb→lt _ _ y in rw y (omega arith, omega arith))
  | inr n ↦
      (let m : rank ranks e ≤ℤ rank ranks (key_text t) = ground arith in rw n (m, omega arith))
]

-- `lowered` gives a lower bound of the ranks.
lowered-below :
    (ranks : Dict) (e : String) (ts : List Value) → rank ranks (lowered ranks e ts) ≤ℤ rank ranks e
lowered-below ranks e [] = omega arith
lowered-below ranks e (t ∷ ts) =
    let l = lowered-below ranks (next_of ranks e t) ts in
    let (_, m) = next_of-below ranks e t in omega arith

abbrev IsBelow : Dict → String → Value → Type 0
IsBelow ranks e t = rank ranks e ≤ℤ rank ranks (key_text t)

lowered-each :
    (ranks : Dict) (e l : String) (ts : List Value)
    → l ≡ lowered ranks e ts
    → All (IsBelow ranks l) ts
lowered-each ranks e l [] same = tt
lowered-each ranks e l (t ∷ ts) same =
    let next = next_of ranks e t in
    let below : rank ranks l ≤ℤ rank ranks next = rw same (lowered-below ranks next ts) in
    let (m, _) = next_of-below ranks e t in (omega arith, lowered-each ranks next l ts same)

-- It is the state itself, or a target below it.
pub lowered-from :
    (ranks : Dict) (e l : String) (ts : List Value)
    → l ≡ lowered ranks e ts
    → (l ≡ e) ⊎ (Any (λ t. l ≡ key_text t) ts × (rank ranks l <ℤ rank ranks e))
lowered-from ranks e l [] same = inl same
lowered-from ranks e l (t ∷ ts) same =
    elim (Bool-cases (ltb_ℤ (rank ranks (key_text t)) (rank ranks e))) [
      | inl y ↦
          (let q = ltb→lt _ _ y in
            elim (lowered-from ranks (key_text t) l ts (rw y at same)) [
              | inl s ↦ inr (inl s, rw s q)
              | inr (a, m) ↦ inr (inr a, omega arith)
            ])
      | inr n ↦ elim (lowered-from ranks e l ts (rw n at same)) [
        | inl s ↦ inl s
        | inr (a, m) ↦ inr (inr a, m)
      ]
    ]

-- A receipt's effective state as the lowest among its own and the targets of its expired clocks.
pub record IsLowest (ranks : Dict) (current effective : String) (expired : List ClockResult)
    : Type 0 where
  pub not_raised : rank ranks effective ≤ℤ rank ranks current
  pub below_targets : All (λ (c : ClockResult). IsBelow ranks effective c.expiry_target) expired
  pub attained :
      (effective ≡ current)
      ⊎ Any (λ (c : ClockResult). effective ≡ key_text c.expiry_target) expired
        × (rank ranks effective <ℤ rank ranks current)

All-map :
    {A B : Type 0} (f : A → B) (P : B → Type 0) (xs : List A)
    → All P (map f xs)
    → All (λ x. P (f x)) xs
All-map f P [] h = tt
All-map f P (x ∷ xs) (p, h) = (p, All-map f P xs h)

Any-map :
    {A B : Type 0} (f : A → B) (P : B → Type 0) (xs : List A)
    → Any P (map f xs)
    → Any (λ x. P (f x)) xs
Any-map f P [] h = h
Any-map f P (x ∷ xs) (inl p) = inl p
Any-map f P (x ∷ xs) (inr h) = inr (Any-map f P xs h)

lowered-IsLowest :
    (ranks : Dict) (current effective : String) (t : Tally)
    → IsTallied t
    → effective ≡ lowered ranks current t.targets
    → IsLowest ranks current effective (expired_results t.results)
lowered-IsLowest ranks current effective t tallied same =
    let f : ClockResult → Value = λ (c : ClockResult). c.expiry_target in
    let expired = expired_results t.results in
    let same2 : effective ≡ lowered ranks current (map f expired) = rw tallied.targets_eq at same in
    record {
      not_raised = rw same (lowered-below ranks current t.targets);
      below_targets =
          All-map f (IsBelow ranks effective) expired
            (lowered-each ranks current effective (map f expired) same2);
      attained = elim (lowered-from ranks current effective (map f expired) same2) [
        | inl s ↦ inl s
        | inr (a, l) ↦ inr (Any-map f (λ (t : Value). effective ≡ key_text t) expired a, l)
      ];
    }

settle-IsLowest :
    (manifest snapshot : Dict) (at_time : ℤ) (ranks : Dict) (current : String) (t : Tally)
    (violations : List Reason) (requested : List String)
    → IsTallied t
    → (settle manifest snapshot at_time ranks current t violations requested).hard_stop ≡ false
    → IsLowest ranks current
        (settle manifest snapshot at_time ranks current t violations requested).effective_state
        (expired_results
          (settle manifest snapshot at_time ranks current t violations requested).clock_results)
unfolding settle
settle-IsLowest manifest snapshot at_time ranks current t violations requested tallied go =
    rw go (lowered-IsLowest ranks current (lowered ranks current t.targets) t tallied refl)

-- A receipt without a hard stop has a state of the lowest rank among the current state and the
-- targets of the clocks that it lists as expired: its rank is above none of theirs, and it is the
-- current state or, of a lower rank, one of the targets.
pub evaluate_ttl_lattice-IsLowest :
    (fromisoformat : String → IsoTime) (snapshot manifest default_manifest : Dict)
    (r : LatticeReceipt)
    → evaluate_ttl_lattice fromisoformat (dict snapshot) manifest default_manifest ≡ ok r
    → r.hard_stop ≡ false
    → IsLowest
        (ranks_of (active_manifest manifest default_manifest))
        (key_text (get snapshot "current_state"))
        r.effective_state
        (expired_results r.clock_results)
evaluate_ttl_lattice-IsLowest fromisoformat snapshot manifest default_manifest r h go =
    let active = active_manifest manifest default_manifest in
    let run = evaluate-run fromisoformat snapshot manifest default_manifest r h in
    let tallied = clock_rounds-IsTallied fromisoformat _ _ _ _ run.clocks run.clocks_eq in
    let current = key_text (get snapshot "current_state") in
    subst
      (λ (z : LatticeReceipt).
        (z.hard_stop ≡ false)
        → IsLowest (ranks_of active) current z.effective_state (expired_results z.clock_results))
      run.receipt
      (settle-IsLowest active snapshot run.evaluated_at (ranks_of active) current run.clocks
        run.violations run.requested tallied)
      go
