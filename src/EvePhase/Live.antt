-- ===== src/EvePhase/Live.antt =====
-- On the modes of a configuration and the constrained live phase.
use codex_trading_engine.Prelude.{
  String, ◌≡◌, refl, Bool, true, false, ◌&&◌, Option, none, some, ok, str_eq, eq_iff, Bool-cases,
  inl, inr, if◌then◌else◌,
}
use codex_trading_engine.Value.{Value, Dict}
use codex_trading_engine.EvePhase.{
  Phase, simulation, testnet, sandbox, phase_value, aliases, or_else, phase_of_mode, is_constrained,
  PhaseDecision, decide, mode_of, phase_from_config, evaluate_phase,
}

-- Every mode has the phase that it names, or the simulation where it names none: the two aliases
-- never take effect.
pub phase_of_mode-ignores_aliases :
    (mode : String) → phase_of_mode mode ≡ or_else (phase_value mode) simulation
unfolding phase_of_mode
phase_of_mode-ignores_aliases mode = elim (Bool-cases (str_eq mode "shadow_mainnet")) [
  | inl y ↦ (let e : mode ≡ "shadow_mainnet" = (eq_iff mode "shadow_mainnet").0 y in rw e refl)
  | inr n ↦ elim (Bool-cases (str_eq mode "mainnet")) [
    | inl y ↦ (let e : mode ≡ "mainnet" = (eq_iff mode "mainnet").0 y in rw e refl)
    | inr m ↦ plain (phase_value mode) (aliases mode) (rw (n, m) refl)
  ]
]
  where
    plain :
        (o a : Option Phase)
        → a ≡ none
        → elim o as (λ x. Phase) [ none ↦ simulation | some phase ↦ or_else a phase ]
          ≡ or_else o simulation
    plain none a e = refl
    plain (some p) a e = rw e refl

constrained_iff :
    (mode : String)
    → is_constrained (or_else (phase_value mode) simulation) ≡ str_eq mode "constrained_mainnet"
constrained_iff mode = elim (Bool-cases (str_eq mode "constrained_mainnet")) [
  | inl y ↦
      (let e : mode ≡ "constrained_mainnet" = (eq_iff mode "constrained_mainnet").0 y in rw e refl)
  | inr n ↦ rw n (others (str_eq mode "simulation") (str_eq mode "testnet") (str_eq mode "sandbox"))
]
  where
    others :
        (a b c : Bool)
        → is_constrained (
            or_else
              (if a
                then some simulation
                else if b
                then some testnet
                else if c
                then some sandbox
                else none)
              simulation)
          ≡ false
    others true b c = refl
    others false true c = refl
    others false false true = refl
    others false false false = refl

-- Where the configuration has a mode, the phase is decided, and the constrained live run is allowed
-- exactly when the mode is `constrained_mainnet` and a human has reviewed.
pub evaluate_phase-live_iff :
    (to_str : Value → String) (lower : String → String) (cfg : Dict) (human_reviewed : Bool)
    (mode : String)
    → mode_of to_str lower cfg ≡ ok mode
    → (d : PhaseDecision) × (evaluate_phase to_str lower cfg human_reviewed ≡ ok d)
      × (d.allowed_to_run_constrained_live ≡ (str_eq mode "constrained_mainnet" && human_reviewed))
unfolding evaluate_phase phase_from_config
evaluate_phase-live_iff to_str lower cfg human_reviewed mode e = (
  decide (phase_of_mode mode) human_reviewed,
  rw e refl,
  rw (phase_of_mode-ignores_aliases, constrained_iff) refl,
)
