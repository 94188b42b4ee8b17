-- ===== src/Tests/Phases.antt =====
-- A reviewed configuration for the constrained mainnet.
use codex_trading_engine.Prelude.{String, ◌≡◌, refl, true, ◌&&◌, ok, str_eq}
use codex_trading_engine.Value.{Value, str, dict, Dict, empty, field}
use codex_trading_engine.EvePhase.{
  simulation, phase_value, or_else, phase_of_mode, PhaseDecision, evaluate_phase,
}
use codex_trading_engine.EvePhase.Live.{phase_of_mode-ignores_aliases, evaluate_phase-live_iff}

abbrev no_text : Value → String
no_text v = ""

abbrev lowered : String → String
lowered s = s

abbrev constrained : Dict
constrained = field "deployment" (dict (field "mode" (str "constrained_mainnet") empty)) empty

phase_of_mode-ignores_aliases_example :
    phase_of_mode "mainnet" ≡ or_else (phase_value "mainnet") simulation
phase_of_mode-ignores_aliases_example = phase_of_mode-ignores_aliases "mainnet"

evaluate_phase-live_iff_example :
    (d : PhaseDecision) × (evaluate_phase no_text lowered constrained true ≡ ok d)
    × (d.allowed_to_run_constrained_live
        ≡ (str_eq "constrained_mainnet" "constrained_mainnet" && true))
evaluate_phase-live_iff_example =
    evaluate_phase-live_iff no_text lowered constrained true "constrained_mainnet" refl
