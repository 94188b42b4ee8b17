-- ===== src/GateDescent/Validate.antt =====
-- `validate_gate_descent` and `compute_artifact_id` of eve_q/gate_descent.py.
use Prim.Native.Char.{code}
use Prim.Native.String.{◌++◌ as ◌~◌}
use codex_trading_engine.Prelude.{
  ℕ, suc, ◌+◌, ◌-◌, ◌/◌, String, Bool, true, false, not, ◌&&◌, ◌||◌, Option, none, some, List, [],
  ◌∷◌, ◌++◌, is_empty, without, unless, ◌==◌, Result, ok, if◌then◌else◌,
}
use codex_trading_engine.Prelude.Int.{ℤ, pos, negsuc, ltb_ℤ, leb_ℤ, eqb_ℤ, ◌-ℤ◌}
use codex_trading_engine.Prelude.Times.{IsoTime, malformed, naive, aware}
use codex_trading_engine.Value.{
  Value, bool, int, str, list, dict, Items, nil, cons, Dict, empty, get, has, set_item, pop, keys,
  is_true, is_false, is_num, is_str, truthy,
}
use codex_trading_engine.Receipts.Hashing.{Hashing, sha256_hex}
use codex_trading_engine.TtlPolicy.Shape.{Raised}
use codex_trading_engine.TtlPolicy.Evaluate.{int_of}
use codex_trading_engine.GateDescent.Findings
use codex_trading_engine.GateDescent.Findings.{Finding}

-- `d.get(k, default)`
abbrev pub get_or : Dict → String → Value → Value
get_or d k v = if has d k then get d k else v

unfoldable pub compute_artifact_id : Hashing → Dict → String
compute_artifact_id h document = sha256_hex h (h.canonical_json_bytes (pop document "artifact_id"))

abbrev pub refresh_artifact_id : Hashing → Dict → Dict
refresh_artifact_id h document =
    set_item document "artifact_id" (str (compute_artifact_id h document))

-- `value.replace("Z", "+00:00")`
abbrev pub without_zulu : String → String
without_zulu String.[] = ""
without_zulu (String.◌∷◌ c s) =
    let rest = without_zulu s in if code c == b'Z' then "+00:00" ~ rest else String.◌∷◌ c rest

-- A time without an offset raises, as one that does not parse.
abbrev pub utc_time : IsoTime → Option ℤ
utc_time malformed = none
utc_time naive = none
utc_time (aware t) = some t

-- `none` where it raises.
unfoldable pub parse_utc : (String → IsoTime) → String → Option ℤ
parse_utc fromisoformat value = utc_time (fromisoformat (without_zulu value))

-- `int(delta.total_seconds())`, towards zero
abbrev pub seconds : ℤ → ℤ
seconds (pos n) = pos (n / 1000000)
seconds (negsuc n) = let q = suc n / 1000000 in if q == 0 then pos 0 else negsuc (q - 1)

-- The parsed TTL fields: created, expires, ttl_seconds.
abbrev pub ttl_times : Option ℤ → Option ℤ → Result Raised ℤ → Option (ℤ × ℤ × ℤ)
ttl_times (some created) (some expires) (ok ttl) = some (created, expires, ttl)
ttl_times _ _ _ = none

abbrev pub ttl_tests : ℤ → Option (ℤ × ℤ × ℤ) → List Finding
ttl_tests now none = Findings.invalid_ttl_fields ∷ []
ttl_tests now (some (created, expires, ttl)) =
    unless (eqb_ℤ ttl (seconds (expires -ℤ created))) Findings.ttl_mismatch
    ++ (unless (not (ltb_ℤ ttl (pos 1) || ltb_ℤ (pos 86400) ttl)) Findings.ttl_out_of_range
        ++ unless (not (leb_ℤ expires now)) Findings.ttl_stale)

abbrev pub status_at : ℕ → String
status_at i = if i == 0 then "ACTIVE" else if i == 1 then "REQUESTED" else "LOCKED"

abbrev pub gate_findings : ℕ → String → Value → List Finding
gate_findings i name (dict gate) =
    unless (is_num (get gate "index") i) (Findings.gate_index_wrong i)
    ++ (unless (is_str (get gate "name") name) (Findings.gate_name_wrong i name)
        ++ unless (is_str (get gate "status") (status_at i))
            (Findings.gate_status_wrong i (status_at i)))
gate_findings i name _ = Findings.gate_not_object i ∷ []

abbrev pub gates_findings : ℕ → List String → Items → List Finding
gates_findings i (name ∷ names) (cons gate rest) =
    gate_findings i name gate ++ gates_findings (i + 1) names rest
gates_findings i _ _ = []

abbrev pub same_count : List String → Items → Bool
same_count [] nil = true
same_count (x ∷ xs) (cons y ys) = same_count xs ys
same_count _ _ = false

abbrev pub gate_states_findings : Value → List Finding
gate_states_findings (list states) =
    if same_count Findings.gates states
    then gates_findings 0 Findings.gates states
    else Findings.gate_count_wrong ∷ []
gate_states_findings _ = Findings.gate_count_wrong ∷ []

-- `isinstance(v, int)`, and the integer; `True` and `False` are 1 and 0.
abbrev pub as_int : Value → Option ℤ
as_int (int n) = some n
as_int (bool true) = some (pos 1)
as_int (bool false) = some (pos 0)
as_int _ = none

abbrev pub one_apart : Option ℤ → Option ℤ → Bool
one_apart (some current) (some requested) = eqb_ℤ (requested -ℤ current) (pos 1)
one_apart _ _ = true

abbrev pub transition_findings : Value → List Finding
transition_findings (dict transition) =
    unless (is_num (get transition "current_gate") 0 && is_num (get transition "requested_gate") 1)
      Findings.not_adjacent
    ++ (unless
          (one_apart (as_int (get transition "current_gate"))
            (as_int (get transition "requested_gate")))
          Findings.not_one_gate
        ++ (unless (is_true (get transition "one_gate_only")) Findings.one_gate_only_not_true
            ++ unless (is_false (get transition "downstream_inheritance"))
                Findings.inheritance_not_false))
transition_findings _ = Findings.transition_not_object ∷ []

abbrev pub flag_findings : Dict → List (String × Bool) → List Finding
flag_findings document [] = []
flag_findings document ((key, true) ∷ rest) =
    unless (is_true (get document key)) (Findings.flag_must_be_true key)
    ++ flag_findings document rest
flag_findings document ((key, false) ∷ rest) =
    unless (is_false (get document key)) (Findings.flag_must_be_false key)
    ++ flag_findings document rest

abbrev pub flags : List (String × Bool)
flags =
    ("artifact_is_command", false)
    ∷ ("authority", false)
    ∷ ("human_promotion_required", true)
    ∷ ("may_execute", false)
    ∷ ("may_move_capital", false)
    ∷ ("write_capable_secrets_present", false)
    ∷ []

-- `if missing: findings.append(...)`
abbrev pub unless_empty : List String → (List String → Finding) → List Finding
unless_empty missing f = unless (is_empty missing) (f missing)

abbrev pub checks_of : Value → Dict
checks_of (dict checks) = checks
checks_of _ = empty

abbrev pub checks_type_findings : Value → List Finding
checks_type_findings (dict checks) = []
checks_type_findings _ = Findings.checks_not_object ∷ []

-- The names whose value in the dictionary is not `True`.
abbrev pub not_passed : Dict → List String → List String
not_passed checks [] = []
not_passed checks (name ∷ names) =
    unless (is_true (get checks name)) name ++ not_passed checks names

abbrev pub rollback_findings : Value → List Finding
rollback_findings (dict rollback) =
    if is_true (get rollback "tested")
    then unless (is_num (get rollback "target_gate") 0) Findings.rollback_target_wrong
    else Findings.rollback_untested ∷ []
rollback_findings _ = Findings.rollback_untested ∷ []

module _ (h : Hashing) (to_str : Value → String) (parse_int : String → Option ℤ)
    (fromisoformat : String → IsoTime) where
  -- `str(v)`
  abbrev pub text_of : Value → String
  text_of (str s) = s
  text_of v = to_str v

  abbrev pub time_of : Dict → String → Option ℤ
  time_of document k =
      if has document k then parse_utc fromisoformat (text_of (get document k)) else none

  abbrev pub ttl_findings : ℤ → Dict → List Finding
  ttl_findings now document = ttl_tests now (
      ttl_times (time_of document "created_at") (time_of document "expires_at")
        (int_of to_str parse_int (get document "ttl_seconds")))

  abbrev pub texts_of : Items → List String
  texts_of nil = []
  texts_of (cons x xs) = text_of x ∷ texts_of xs

  abbrev pub prohibited_findings : Value → List Finding
  prohibited_findings (list prohibited) =
      unless_empty (without Findings.required_prohibited_actions (texts_of prohibited))
        Findings.prohibited_missing
  prohibited_findings _ = Findings.prohibited_not_array ∷ []

  -- What one item of `evidence` adds to the set.
  abbrev pub evidence_type : Value → List String
  evidence_type (dict item) =
      unless (not (truthy (get item "evidence_type"))) (text_of (get item "evidence_type"))
  evidence_type _ = []

  abbrev pub evidence_in : Items → List String
  evidence_in nil = []
  evidence_in (cons x xs) = evidence_type x ++ evidence_in xs

  abbrev pub evidence_types : Value → List String
  evidence_types (list evidence) = evidence_in evidence
  evidence_types _ = []

  abbrev pub readiness_findings : Dict → Dict → List Finding
  readiness_findings document checks =
      if is_str (get document "readiness") "DRAFT"
      then unless (is_false (get document "promotion_eligible")) Findings.draft_eligible
      else if is_str (get document "readiness") "READY_FOR_HUMAN_REVIEW"
      then unless (is_true (get document "promotion_eligible")) Findings.ready_not_eligible
        ++ (unless_empty (not_passed checks Findings.ready_checks) Findings.checks_incomplete
            ++ (unless_empty
                  (without Findings.ready_evidence_types (evidence_types (get document "evidence")))
                  Findings.evidence_missing
                ++ rollback_findings (get_or document "rollback" (dict empty))))
      else Findings.readiness_unknown ∷ []

  unfoldable pub validate_gate_descent : ℤ → Dict → List Finding
  validate_gate_descent now document =
      let checks = checks_of (get_or document "acceptance_checks" (dict empty)) in
      unless (is_str (get document "artifact_type") "GateDescentProposal")
        Findings.artifact_type_wrong
      ++ (unless (is_str (get document "contract_version") "eve_q_gate_descent_v0.1")
            Findings.contract_version_wrong
          ++ (unless (is_str (get document "artifact_id") (compute_artifact_id h document))
                Findings.artifact_id_mismatch
              ++ (ttl_findings now document
                  ++ (gate_states_findings (get document "gate_states")
                      ++ (transition_findings (get_or document "transition" (dict empty))
                          ++ (flag_findings document flags
                              ++ (unless (is_str (get document "connector_mode") "read_only")
                                    Findings.connector_not_read_only
                                  ++ (prohibited_findings
                                        (get_or document "prohibited_actions" (list nil))
                                      ++ (checks_type_findings
                                            (get_or document "acceptance_checks" (dict empty))
                                          ++ (unless_empty
                                                (without Findings.ready_checks (keys checks))
                                                Findings.checks_missing
                                              ++ readiness_findings document checks))))))))))
