-- ===== src/TtlPolicy/Degradation/Bounds.antt =====
-- On the TTL that an evaluation of eve_q/ttl_policy.py results in.
use codex_trading_engine.Prelude.{
  ◌/◌, ◌*◌, ◌+◌, ◌≤◌, ℕ, ◌⊎◌, String, ◌≡◌, refl, ap, sym, ◌∙◌, contains, Bool, true, false, not,
  ◌&&◌, inl, inr, List, [], Option, is_empty, sorted_set, both, Result, ok, err, ◌>>=◌, >>=-eq-ok,
  Bool-cases, if◌then◌else◌, arith, &&-split, ltb→lt,
}
use codex_trading_engine.Prelude.Int.{ℤ, pos, negsuc, ltb_ℤ, ◌≤ℤ◌, ◌<ℤ◌}
use codex_trading_engine.Value.{Value, null, int, str, dict, Dict, Items, get, is_true}
use codex_trading_engine.TtlPolicy.Shape.{Raised, key_text}
use codex_trading_engine.TtlPolicy.Evaluate.{
  TtlResult, base_result, trigger_set, as_string_set, evaluate_ttl_state, evaluate_open,
  shorten_ttl_minutes, cap_ttl_minutes, min_ℤ, max_ℤ, int_of, capped,
}
use codex_trading_engine.TtlPolicy.Degradation.Policy.{valid-IsOrdered}
use codex_trading_engine.TtlPolicy.Degradation.Escalation.{both-contains, sorted_set-is_empty}
use codex_trading_engine.TtlPolicy.Degradation.Inversion.{evaluate-inversion}

shorten_cases :
    (n : ℤ)
    → (r : ℤ) × (shorten_ttl_minutes (int n) ≡ ok (int r))
      × (pos 1 ≤ℤ r)
      × (pos 1 ≤ℤ n → r ≤ℤ n)
      × (n <ℤ pos 1 → r ≡ pos 1)
unfolding shorten_ttl_minutes
shorten_cases (pos n) =
    (max_ℤ (pos 1) (pos (n / 2)), refl, ground arith, (λ h. ground arith), (λ h. ground arith))
shorten_cases (negsuc n) = (pos 1, ground arith, ground arith, (λ h. ground arith), (λ h. refl))

min_le : (a b : ℤ) → min_ℤ a b ≤ℤ b
min_le a b = ground arith

capped-le :
    (to_str : Value → String) (parse_int : String → Option ℤ) (o : Result Raised ℤ) (v : Value)
    (m : ℤ) (ttl : Value)
    → v ≡ int m
    → (do t ← o; capped to_str parse_int t v) ≡ ok ttl
    → (t : ℤ) × (ttl ≡ int t) × (t ≤ℤ m)
capped-le to_str parse_int (err x) v m ttl e h = cc
capped-le to_str parse_int (ok t) v m ttl e h =
    let h2 : capped to_str parse_int t (int m) ≡ ok ttl = rw e at h in (min_ℤ t m, cc, min_le t m)

one-le-cases :
    (t m r : ℤ)
    → ltb_ℤ (pos 0) m ≡ true
    → t ≤ℤ m
    → (pos 1 ≤ℤ t → r ≤ℤ t)
    → (t <ℤ pos 1 → r ≡ pos 1)
    → r ≤ℤ m
one-le-cases t m r q l up down = elim (Bool-cases (ltb_ℤ t (pos 1))) [
  | inl y ↦ (let a = down (ltb→lt _ _ y) in let b = ltb→lt _ _ q in rw a (omega arith))
  | inr n ↦ (let k : pos 1 ≤ℤ t = ground arith in let u = up k in omega arith)
]

shortened-le :
    (b : Bool) (t m : ℤ) (w : Value)
    → (b ≡ true → ltb_ℤ (pos 0) m ≡ true)
    → t ≤ℤ m
    → (if b then shorten_ttl_minutes (int t) else ok (int t)) ≡ ok w
    → (n : ℤ) × (w ≡ int n) × (n ≤ℤ m)
shortened-le true t m w p l h =
    let (r, e, one, up, down) = shorten_cases t in (r, cc, one-le-cases t m r (p refl) l up down)
shortened-le false t m w p l h = (t, cc, l)

open-ttl :
    (policy state : Dict) (base : TtlResult) (mode : Value) (mp : Dict) (outputs : Items)
    (signals : List String) (t m : ℤ) (r : TtlResult)
    → (is_true (get mp "ttl_required") ≡ true → ltb_ℤ (pos 0) m ≡ true)
    → t ≤ℤ m
    → evaluate_open policy state base mode mp outputs (int t) signals ≡ ok r
    → (n : ℤ) × (r.ttl_minutes ≡ int n) × (n ≤ℤ m)
open-ttl policy state base mode mp outputs signals t m r p l h =
    let (sh, _, h1) = >>=-eq-ok (trigger_set (get policy "ttl_shortening_signals")) _ h in
    let (gr, _, h2) = >>=-eq-ok (trigger_set (get policy "graceful_degradation_triggers")) _ h1 in
    let b : Bool =
      is_true (get mp "ttl_required") && not (is_empty (sorted_set (both signals sh))) in
    let (w, e, h3) = >>=-eq-ok (if b then shorten_ttl_minutes (int t) else ok (int t)) _ h2 in
    let (n, ew, le) = shortened-le b t m w (λ q. p (&&-split _ _ q).0) l e in
    (n, cc (ap (λ (z : Result Raised TtlResult). ttl_of z) h3, ew), le)
  where
    ttl_of : Result Raised TtlResult → Value
    ttl_of (ok z) = z.ttl_minutes
    ttl_of (err z) = null

module _ (to_str : Value → String) (parse_int : String → Option ℤ) where
  cap-le :
      (v : Value) (mp : Dict) (m : ℤ) (ttl : Value)
      → get mp "max_ttl_minutes" ≡ int m
      → cap_ttl_minutes to_str parse_int v mp ≡ ok ttl
      → (t : ℤ) × (ttl ≡ int t) × (t ≤ℤ m)
  unfolding cap_ttl_minutes
  cap-le null mp m ttl e h = (m, cc, omega arith)
  cap-le v mp m ttl e h =
      capped-le to_str parse_int (int_of to_str parse_int v) (get mp "max_ttl_minutes") m ttl e h

-- Where the policy bounds the TTL of the mode by a number of minutes, a valid result that is no
-- hard stop has a TTL within that bound.
pub evaluate-ttl_capped :
    (to_str : Value → String) (parse_int : String → Option ℤ) (state policy modes ranks mp : Dict)
    (r : TtlResult) (m : ℤ)
    → evaluate_ttl_state to_str parse_int state policy ≡ ok r
    → get policy "modes" ≡ dict modes
    → get policy "authority_rank" ≡ dict ranks
    → get modes (key_text (get state "mode")) ≡ dict mp
    → get mp "max_ttl_minutes" ≡ int m
    → r.valid ≡ true
    → r.hard_stop ≡ false
    → (n : ℤ) × (r.ttl_minutes ≡ int n) × (n ≤ℤ m)
evaluate-ttl_capped to_str parse_int state policy modes ranks mp r m h em er ep ex valid stop =
    let run = evaluate-inversion to_str parse_int state policy r h valid in
    let (mp', ep', ordered) =
      valid-IsOrdered policy run.modes ranks run.mode run.shape run.modes_eq er run.known in
    let same_modes : run.modes ≡ modes = cc (run.modes_eq, em) in
    let here : get modes run.mode ≡ dict mp = rw run.mode_eq at ep in
    let same_run : run.mode_policy ≡ mp = cc (run.policy_eq, here, same_modes) in
    let same : mp' ≡ mp = cc (ep', here, same_modes) in
    let (t, et, l) =
      cap-le to_str parse_int (get state "current_ttl_minutes") run.mode_policy m run.ttl
        (rw same_run ex) run.ttl_eq in
    let positive : is_true (get run.mode_policy "ttl_required") ≡ true → ltb_ℤ (pos 0) m ≡ true =
      λ q. (let z = ordered.bounded (rw same (rw same_run at q)) in rw (same, ex) at z) in
    elim run.outcome [
      | inl s ↦ absurd (cc (ap (λ (z : TtlResult). z.hard_stop) s.1))
      | inr s ↦
          open-ttl policy state (base_result (str run.mode) []) (str run.mode) run.mode_policy
            run.outputs run.signals t m r positive l (rw et at s.1)
    ]

-- `n` is half of `t`, rounded down, or one where `t` is less than two.
pub record IsHalfOf (t n : ℤ) : Type 0 where
  pub half :
      ((k : ℕ) × (1 ≤ k) × (n ≡ pos k) × ((t ≡ pos (2 * k)) ⊎ (t ≡ pos (2 * k + 1))))
      ⊎ ((t ≤ℤ pos 1) × (n ≡ pos 1))

half_cases : (t : ℕ) → (t ≤ 1) ⊎ (1 ≤ t / 2) × ((t ≡ 2 * (t / 2)) ⊎ (t ≡ 2 * (t / 2) + 1))
half_cases t = ground arith

halves : (t : ℕ) → IsHalfOf (pos t) (max_ℤ (pos 1) (pos (t / 2)))
halves t = elim (half_cases t) [
  | inl l ↦ record { half = inr (ground arith, ground arith) }
  | inr (p, inl e) ↦ record { half = inl (t / 2, p, ground arith, inl (ap pos e)) }
  | inr (p, inr e) ↦ record { half = inl (t / 2, p, ground arith, inr (ap pos e)) }
]

shorten_halves :
    (t : ℤ) (w : Value) → shorten_ttl_minutes (int t) ≡ ok w → (n : ℤ) × (w ≡ int n) × IsHalfOf t n
unfolding shorten_ttl_minutes
shorten_halves (pos t) w h = (max_ℤ (pos 1) (pos (t / 2)), cc, halves t)
shorten_halves (negsuc t) w h =
    (max_ℤ (pos 1) (negsuc (t / 2)), cc, record { half = inr (ground arith, ground arith) })

shortened-halves :
    (b : Bool) (t : ℤ) (w : Value)
    → b ≡ true
    → (if b then shorten_ttl_minutes (int t) else ok (int t)) ≡ ok w
    → (n : ℤ) × (w ≡ int n) × IsHalfOf t n
shortened-halves true t w q h = shorten_halves t w h
shortened-halves false t w q h = absurd (cc)

abbrev ttl_of : Result Raised TtlResult → Value × Bool
ttl_of (ok z) = (z.ttl_minutes, z.ttl_shortened)
ttl_of (err z) = (null, false)

open-halved :
    (policy state : Dict) (base : TtlResult) (mode : Value) (mp : Dict) (outputs : Items)
    (signals shortening : List String) (t : ℤ) (r : TtlResult)
    → trigger_set (get policy "ttl_shortening_signals") ≡ ok shortening
    → is_true (get mp "ttl_required") ≡ true
    → is_empty (sorted_set (both signals shortening)) ≡ false
    → evaluate_open policy state base mode mp outputs (int t) signals ≡ ok r
    → (r.ttl_shortened ≡ true) × (n : ℤ) × (r.ttl_minutes ≡ int n) × IsHalfOf t n
open-halved policy state base mode mp outputs signals shortening t r es q hit h =
    let (sh, e1, h1) = >>=-eq-ok (trigger_set (get policy "ttl_shortening_signals")) _ h in
    let (gr, _, h2) = >>=-eq-ok (trigger_set (get policy "graceful_degradation_triggers")) _ h1 in
    let same : sh ≡ shortening = cc (e1, es) in
    let b : Bool =
      is_true (get mp "ttl_required") && not (is_empty (sorted_set (both signals sh))) in
    let on : b ≡ true = rw (q, same, hit) refl in
    let (w, e, h3) = >>=-eq-ok (if b then shorten_ttl_minutes (int t) else ok (int t)) _ h2 in
    let (n, ew, half) = shortened-halves b t w on e in
    let k = ap ttl_of h3 in
    (
      sym (ap (λ (z : Value × Bool). z.1) k) ∙ on,
      n,
      cc (ap (λ (z : Value × Bool). z.0) k, ew),
      half,
    )

-- A TTL of `c` minutes in a mode of at most `m` minutes.
lesser : (c m : ℤ) → (min_ℤ c m ≤ℤ c) × (min_ℤ c m ≤ℤ m) × ((min_ℤ c m ≡ c) ⊎ (min_ℤ c m ≡ m))
lesser c m = elim (Bool-cases (ltb_ℤ m c)) [
  | inl y ↦ rw y (let l = ltb→lt _ _ y in omega (arith, l), omega arith, inr refl)
  | inr n ↦ rw n (omega arith, ground arith, inl refl)
]

-- Where the mode requires a TTL and one of the signals is a shortening signal of the policy, a valid
-- result that is no hard stop has its TTL shortened: the lesser one of the current minutes and the
-- mode's bound is halved, rounding down, and where that lesser one is below two minutes, so also
-- where it is zero or negative, the result is one minute.
pub evaluate-ttl_halved :
    (to_str : Value → String) (parse_int : String → Option ℤ) (state policy modes mp : Dict)
    (r : TtlResult) (c m : ℤ) (signals shortening : List String) (x : String)
    → evaluate_ttl_state to_str parse_int state policy ≡ ok r
    → get policy "modes" ≡ dict modes
    → get modes (key_text (get state "mode")) ≡ dict mp
    → is_true (get mp "ttl_required") ≡ true
    → get state "current_ttl_minutes" ≡ int c
    → get mp "max_ttl_minutes" ≡ int m
    → as_string_set to_str parse_int (get state "signals") ≡ ok signals
    → trigger_set (get policy "ttl_shortening_signals") ≡ ok shortening
    → contains signals x ≡ true
    → contains shortening x ≡ true
    → r.valid ≡ true
    → r.hard_stop ≡ false
    → (r.ttl_shortened ≡ true)
      × (n : ℤ) × (r.ttl_minutes ≡ int n)
      × (t : ℤ) × IsHalfOf t n
      × (t ≤ℤ c)
      × (t ≤ℤ m)
      × ((t ≡ c) ⊎ (t ≡ m))
unfolding cap_ttl_minutes
evaluate-ttl_halved to_str parse_int state policy modes mp r c m signals shortening x h em ep eq ec
      ex eg es k k' valid stop =
    let run = evaluate-inversion to_str parse_int state policy r h valid in
    let same_modes : run.modes ≡ modes = cc (run.modes_eq, em) in
    let here : get modes run.mode ≡ dict mp = rw run.mode_eq at ep in
    let same_run : run.mode_policy ≡ mp = cc (run.policy_eq, here, same_modes) in
    let sigs : run.signals ≡ signals = cc (run.signals_eq, eg) in
    let hit : is_empty (sorted_set (both run.signals shortening)) ≡ false =
      sorted_set-is_empty _ (both-contains _ _ x (rw sigs k) k') in
    let et : run.ttl ≡ int (min_ℤ c m) = cc (rw (ec, same_run, ex) at run.ttl_eq) in
    elim run.outcome [
      | inl s ↦ absurd (cc (ap (λ (z : TtlResult). z.hard_stop) s.1))
      | inr s ↦
          (let (flag, n, en, half) =
              open-halved policy state (base_result (str run.mode) []) (str run.mode)
                run.mode_policy run.outputs run.signals shortening (min_ℤ c m) r es (rw same_run eq)
                hit (rw et at s.1) in
            let (a, b, d) = lesser c m in (flag, n, en, min_ℤ c m, half, a, b, d))
    ]
