-- ===== src/EvePhase.antt =====
-- eve_q/gates/eve_phase.py: the phase that a configuration selects, and what it allows. `str` of
-- what is no text and `str.lower` are arguments.
pub mod Live
use codex_trading_engine.Prelude.{
  String, Bool, true, false, not, ◌&&◌, ◌||◌, Option, none, some, List, [], ◌∷◌, ◌++◌, is_empty,
  unless, str_eq, Result, ok, err, ◌>>=◌, if◌then◌else◌,
}
use codex_trading_engine.Value.{Value, str, dict, Dict, empty, get, has}
use codex_trading_engine.TtlPolicy.Shape.{Raised, raised}

pub data Phase : Type 0 where
  simulation testnet sandbox constrained_mainnet : Phase

-- `EvePhase(mode)`; `none` is the `ValueError`.
abbrev pub phase_value : String → Option Phase
phase_value mode =
    if str_eq mode "simulation"
    then some simulation
    else if str_eq mode "testnet"
    then some testnet
    else if str_eq mode "sandbox"
    then some sandbox
    else if str_eq mode "constrained_mainnet"
    then some constrained_mainnet
    else none

abbrev pub aliases : String → Option Phase
aliases mode =
    if str_eq mode "shadow_mainnet"
    then some simulation
    else if str_eq mode "mainnet"
    then some constrained_mainnet
    else none

abbrev pub or_else : Option Phase → Phase → Phase
or_else none phase = phase
or_else (some alias) phase = alias

-- `aliases.get(mode, EvePhase(mode))`: the second argument is evaluated first, and its `ValueError`
-- gives the simulation.
unfoldable pub phase_of_mode : String → Phase
phase_of_mode mode = elim (phase_value mode) [
  | none ↦ simulation
  | some phase ↦ or_else (aliases mode) phase
]

abbrev pub is_testnet : Phase → Bool
is_testnet testnet = true
is_testnet _ = false

abbrev pub is_sandbox : Phase → Bool
is_sandbox sandbox = true
is_sandbox _ = false

abbrev pub is_simulation : Phase → Bool
is_simulation simulation = true
is_simulation _ = false

abbrev pub is_constrained : Phase → Bool
is_constrained constrained_mainnet = true
is_constrained _ = false

pub record PhaseDecision : Type 0 where
  pub phase : Phase
  pub allowed_to_simulate : Bool
  pub allowed_to_run_testnet : Bool
  pub allowed_to_run_constrained_live : Bool
  pub requires_human_review : Bool
  pub reasons : List String

abbrev pub reasons_for : Phase → Bool → List String
reasons_for phase human_reviewed =
    unless human_reviewed "human_review_missing"
    ++ (unless (not (is_simulation phase)) "simulation_only"
        ++ (unless (not (is_testnet phase)) "testnet_only"
            ++ (unless (not (is_sandbox phase)) "sandbox_only"
                ++ unless (not (is_constrained phase && not human_reviewed))
                    "constrained_live_requires_review")))

abbrev pub decide : Phase → Bool → PhaseDecision
decide phase human_reviewed = record {
  phase = phase;
  allowed_to_simulate = true;
  allowed_to_run_testnet = (is_testnet phase || is_sandbox phase) && human_reviewed;
  allowed_to_run_constrained_live = is_constrained phase && human_reviewed;
  requires_human_review = true;
  reasons =
      if is_empty (reasons_for phase human_reviewed)
      then "approved_with_constraints" ∷ []
      else reasons_for phase human_reviewed;
}

module _ (to_str : Value → String) (lower : String → String) where
  abbrev pub mode_text : Value → String
  mode_text (str s) = lower s
  mode_text v = lower (to_str v)

  -- `str(deployment.get("mode", "simulation")).lower()`
  abbrev pub mode_in : Value → Result Raised String
  mode_in (dict deployment) =
      ok (mode_text (if has deployment "mode" then get deployment "mode" else str "simulation"))
  mode_in _ = err raised

  abbrev pub mode_of : Dict → Result Raised String
  mode_of cfg = mode_in (if has cfg "deployment" then get cfg "deployment" else dict empty)

  unfoldable pub phase_from_config : Dict → Result Raised Phase
  unfolding phase_of_mode
  phase_from_config cfg = do mode ← mode_of cfg; ok (phase_of_mode mode)

  unfoldable pub evaluate_phase : Dict → Bool → Result Raised PhaseDecision
  unfolding phase_from_config
  evaluate_phase cfg human_reviewed = do
    phase ← phase_from_config cfg
    ok (decide phase human_reviewed)
