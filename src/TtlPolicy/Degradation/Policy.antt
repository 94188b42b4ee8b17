-- ===== src/TtlPolicy/Degradation/Policy.antt =====
-- What a policy without shape errors says of each of its modes.
use codex_trading_engine.Prelude.{
  String, ◌≡◌, refl, ◌∙◌, Bool, true, false, not, List, [], ◌∷◌, ◌++◌, unless, is_empty,
  append-eq-nil, str_eq, eq_iff, Result, ok, >>=-eq-ok, Bool-cases, inl, inr, arith,
}
use codex_trading_engine.Value.{
  Value, null, bool, int, float, str, list, dict, Dict, empty, field, get, has, is_true,
}
use codex_trading_engine.TtlPolicy.Shape.{
  Raised, PolicyError, mode_without_rank, authority_increased, mode_without_ttl, missing_fields,
  required_fields, posture_shape, shape_of, key_in, key_text, gt, rank_errors, ttl_errors,
  target_errors, mode_errors, modes_errors, is_positive_int, validate_ttl_policy_shape,
}

unless-nil : (b : Bool) (e : PolicyError) → unless b e ≡ [] → b ≡ true
unless-nil true e h = refl
unless-nil false e h = ground arith

ok-inj : {A : Type 0} {a b : A} → ◌≡◌ {A = Result Raised A} (ok a) (ok b) → a ≡ b
ok-inj h = cc

-- A mode that is in order: it has a rank, its target is a known mode with a rank that is not
-- higher, and a required TTL has a positive bound.
pub record IsOrdered (ranks modes : Dict) (mode : String) (mode_policy : Dict) : Type 0 where
  pub target_known : key_in (get mode_policy "degradation_target") modes ≡ ok true
  pub not_higher :
      gt (get ranks (key_text (get mode_policy "degradation_target"))) (get ranks mode) ≡ ok false
  pub bounded :
      is_true (get mode_policy "ttl_required") ≡ true
      → is_positive_int (get mode_policy "max_ttl_minutes") ≡ true

ttl_errors-nil :
    (mode : String) (mp : Dict)
    → ttl_errors mode mp ≡ []
    → is_true (get mp "ttl_required") ≡ true
    → is_positive_int (get mp "max_ttl_minutes") ≡ true
ttl_errors-nil mode mp h t = unless-nil _ (mode_without_ttl mode) (rw t at h)

rank_errors-nil :
    (ranks : Dict) (mode target : String)
    → has ranks mode ≡ true
    → rank_errors ranks mode target ≡ ok []
    → gt (get ranks target) (get ranks mode) ≡ ok false
rank_errors-nil ranks mode target k h =
    let (higher, e, q) = >>=-eq-ok (gt (get ranks target) (get ranks mode)) _ (rw k at h) in
    let n : not higher ≡ true = unless-nil _ (authority_increased mode target) (ok-inj q) in
    let f : higher ≡ false = ground arith in e ∙ rw f refl

append-ne-nil : (xs : List PolicyError) (e : PolicyError) → xs ++ e ∷ [] ≡ [] → ⊥
append-ne-nil xs e h = let (_, q) = append-eq-nil xs (e ∷ []) h in cc

target_errors-nil :
    (ranks : Dict) (mode target : String) (mp : Dict) (ranked : List PolicyError)
    → has ranks mode ≡ true
    → target_errors ranks mode target mp ranked ≡ ok []
    → (gt (get ranks target) (get ranks mode) ≡ ok false) × (ttl_errors mode mp ≡ [])
target_errors-nil ranks mode target mp ranked k h = elim (Bool-cases (has ranks target)) [
  | inr n ↦ absurd (append-ne-nil ranked _ (ok-inj (rw n at h)))
  | inl y ↦
      (let (higher, e, q) = >>=-eq-ok (rank_errors ranks mode target) _ (rw y at h) in
        let (_, r) = append-eq-nil ranked _ (ok-inj q) in
        let (a, b) = append-eq-nil higher (ttl_errors mode mp) r in
        (rank_errors-nil ranks mode target k (e ∙ rw a refl), b))
]

target_errors-ranked :
    (ranks : Dict) (mode target : String) (mp : Dict) (ranked : List PolicyError)
    → target_errors ranks mode target mp ranked ≡ ok []
    → ranked ≡ []
target_errors-ranked ranks mode target mp ranked h = elim (Bool-cases (has ranks target)) [
  | inr n ↦ (append-eq-nil ranked _ (ok-inj (rw n at h))).0
  | inl y ↦
      (let (higher, e, q) = >>=-eq-ok (rank_errors ranks mode target) _ (rw y at h) in
        (append-eq-nil ranked _ (ok-inj q)).0)
]

mode_errors-nil :
    (ranks modes : Dict) (mode : String) (v : Value)
    → mode_errors ranks modes mode v ≡ ok []
    → (mp : Dict) × (v ≡ dict mp) × IsOrdered ranks modes mode mp
unfolding mode_errors
mode_errors-nil ranks modes mode (dict mp) h =
    let (known, ek, h1) = >>=-eq-ok (key_in (get mp "degradation_target") modes) _ h in
    elim (Bool-cases known) [
      | inr n ↦ absurd (append-ne-nil _ _ (ok-inj (rw n at h1)))
      | inl y ↦
          (let h2 = rw y at h1 in
            let hm : has ranks mode ≡ true =
              unless-nil _ (mode_without_rank mode) (target_errors-ranked ranks mode _ mp _ h2) in
            let (g, t) = target_errors-nil ranks mode _ mp _ hm h2 in
            (
              mp,
              refl,
              record {
                target_known = ek ∙ rw y refl;
                not_higher = g;
                bounded = ttl_errors-nil mode mp t;
              },
            ))
    ]
mode_errors-nil ranks modes mode null h = cc
mode_errors-nil ranks modes mode (bool b) h = cc
mode_errors-nil ranks modes mode (int n) h = cc
mode_errors-nil ranks modes mode (float m k) h = cc
mode_errors-nil ranks modes mode (str s) h = cc
mode_errors-nil ranks modes mode (list xs) h = cc

modes_errors-nil :
    (ranks modes rest : Dict) (mode : String)
    → modes_errors ranks modes rest ≡ ok []
    → has rest mode ≡ true
    → (mp : Dict) × (get rest mode ≡ dict mp) × IsOrdered ranks modes mode mp
unfolding modes_errors
modes_errors-nil ranks modes empty mode h k = cc
modes_errors-nil ranks modes (field m v rest) mode h k =
    let (here, eh, h1) = >>=-eq-ok (mode_errors ranks modes m v) _ h in
    let (others, eo, h2) = >>=-eq-ok (modes_errors ranks modes rest) _ h1 in
    let (a, b) = append-eq-nil here others (ok-inj h2) in
    elim (Bool-cases (str_eq m mode)) [
      | inl y ↦ rw (y, ← (eq_iff m mode).0 y) (mode_errors-nil ranks modes m v (eh ∙ rw a refl))
      | inr n ↦ rw n (modes_errors-nil ranks modes rest mode (eo ∙ rw b refl) (rw n at k))
    ]

not-empty : (xs : List PolicyError) → is_empty xs ≡ false → xs ≡ [] → ⊥
not-empty [] e h = cc
not-empty (x ∷ xs) e h = cc

-- In a policy without shape errors every mode is in order.
pub valid-IsOrdered :
    (policy modes ranks : Dict) (mode : String)
    → validate_ttl_policy_shape policy ≡ ok []
    → get policy "modes" ≡ dict modes
    → get policy "authority_rank" ≡ dict ranks
    → has modes mode ≡ true
    → (mp : Dict) × (get modes mode ≡ dict mp) × IsOrdered ranks modes mode mp
unfolding validate_ttl_policy_shape
valid-IsOrdered policy modes ranks mode h em er k =
    elim (Bool-cases (is_empty (missing_fields policy required_fields))) [
      | inr n ↦ absurd (not-empty _ n (ok-inj (rw n at h)))
      | inl y ↦
          (let (earlier, _, h1) = >>=-eq-ok (posture_shape (get policy "posture")) _ (rw y at h) in
            let h2 : shape_of policy earlier (dict modes) (dict ranks) ≡ ok [] =
              rw (em, er) at h1 in
            let (found, ef, h3) = >>=-eq-ok (modes_errors ranks modes modes) _ h2 in
            let (_, r) = append-eq-nil earlier _ (ok-inj h3) in
            let (none, _) = append-eq-nil found _ r in
            modes_errors-nil ranks modes modes mode (ef ∙ rw none refl) k)
    ]
