-- ===== src/CharityGate/Release.antt =====
-- On when the charity gate releases funds.
use codex_trading_engine.Prelude.{
  String, ◌≡◌, refl, ◌↔◌, Bool, true, false, ◌&&◌, Option, some, ◌++◌, is_empty, unless, not, ◌||◌,
  ◌∙◌, List, str_eq, contains, sorted_set, contains-sorted_set, arith,
}
use codex_trading_engine.Value.{Value, dict, Dict, empty, get, truthy}
use codex_trading_engine.Value.Kinds.{get_or}
use codex_trading_engine.TtlPolicy.Shape.{num_gt}
use codex_trading_engine.FlashLiquidity.Candidate.{Float}
use codex_trading_engine.CharityGate.{
  CharityGateResult, confidence_floor, reliability_floor, score, has_provenance, gate_result,
  evaluate_charity_gate,
}

-- What a release rests on.
pub record IsReleased (proposal inputs : Dict) (human_reviewed receipt_path_available : Bool)
    : Type 0 where
  pub provenance : has_provenance proposal inputs ≡ true
  pub reviewed : human_reviewed ≡ true
  pub receipt : receipt_path_available ≡ true

releases :
    (p h r : Bool)
    → ((is_empty {A = String} (unless p "missing_provenance" ++ unless h "human_review_missing")
          && r)
        ≡ true)
      ↔ ((p ≡ true) × (h ≡ true) × (r ≡ true))
releases true true r = (λ q. (refl, refl, q), λ q. q.2)
releases true false r = (λ q. absurd (cc), λ q. absurd (cc (q.1)))
releases false h r = (λ q. absurd (cc), λ q. absurd (cc (q.0)))

not-not : (b : Bool) → not (not b) ≡ b
not-not true = refl
not-not false = refl

contains-unless :
    (b : Bool) (m : String) (rest : List String) (n : String)
    → contains (unless b m ++ rest) n ≡ ((not b && str_eq m n) || contains rest n)
contains-unless true m rest n = refl
contains-unless false m rest n = ground arith

contains-unless_last : (b : Bool) (m n : String) → contains (unless b m) n ≡ (not b && str_eq m n)
contains-unless_last true m n = refl
contains-unless_last false m n = ground arith

abbrev review : Bool → Bool → Bool → Bool → List String
review a b c d =
    unless a "receipt_path_not_confirmed"
    ++ (unless b "low_confidence"
        ++ (unless c "low_source_reliability" ++ unless d "policy_requested_review"))

contains-review :
    (a b c d : Bool) (n : String)
    → contains (sorted_set (review a b c d)) n ≡ (
        (not a && str_eq "receipt_path_not_confirmed" n)
        || ((not b && str_eq "low_confidence" n)
            || ((not c && str_eq "low_source_reliability" n)
                || (not d && str_eq "policy_requested_review" n))))
contains-review a b c d n =
    rw
      (
        contains-sorted_set (review a b c d) n,
        contains-unless a,
        contains-unless b,
        contains-unless c,
        contains-unless_last d,
      )
      refl

-- Each of the reasons for a review is there exactly where its test fails.
each_review :
    (a b c d : Bool)
    → let rs = sorted_set (review a b c d) in
      (contains rs "receipt_path_not_confirmed" ≡ not a)
      × (contains rs "low_confidence" ≡ not b)
      × (contains rs "low_source_reliability" ≡ not c)
      × (contains rs "policy_requested_review" ≡ not d)
each_review a b c d = (
  contains-review a b c d _ ∙ ground arith,
  contains-review a b c d _ ∙ ground arith,
  contains-review a b c d _ ∙ ground arith,
  contains-review a b c d _ ∙ ground arith,
)

module _ (to_float : Value → Option Float) where
  -- Where the inputs are a dictionary and both scores are numbers, the gate gives a result, which
  -- always calls for a human's review, lets the balance be recorded exactly when there is provenance,
  -- and lets funds be released exactly when there is provenance, a human has reviewed and a receipt
  -- path is available. The reasons for a review name a receipt path that is not available, a
  -- confidence below its floor, a reliability below its floor and a proposal that demands a review,
  -- each exactly where it is so.
  pub evaluate_charity_gate-release_iff :
      (proposal inputs : Dict) (human_reviewed receipt_path_available : Bool)
      (confidence reliability : Float)
      → get_or proposal "inputs" (dict empty) ≡ dict inputs
      → to_float (score proposal inputs "confidence_score") ≡ some confidence
      → to_float (score proposal inputs "telemetry_source_reliability") ≡ some reliability
      → (r : CharityGateResult) × (evaluate_charity_gate to_float proposal human_reviewed
            receipt_path_available
          ≡ some r)
        × (r.requires_human_review ≡ true)
        × (r.allowed_to_record_balance ≡ has_provenance proposal inputs)
        × ((r.allowed_to_release_funds ≡ true)
            ↔ IsReleased proposal inputs human_reviewed receipt_path_available)
        × (contains r.review_reasons "receipt_path_not_confirmed" ≡ not receipt_path_available)
        × (contains r.review_reasons "low_confidence" ≡ num_gt confidence_floor confidence)
        × (contains r.review_reasons "low_source_reliability"
            ≡ num_gt reliability_floor reliability)
        × (contains r.review_reasons "policy_requested_review"
            ≡ truthy (get proposal "requires_human_review"))
  unfolding evaluate_charity_gate gate_result
  evaluate_charity_gate-release_iff proposal inputs human_reviewed receipt_path_available confidence
        reliability e c d =
      let p = has_provenance proposal inputs in
      let (there, back) = releases p human_reviewed receipt_path_available in
      let k =
        each_review receipt_path_available (not (num_gt confidence_floor confidence))
          (not (num_gt reliability_floor reliability))
          (not (truthy (get proposal "requires_human_review"))) in
      (
        gate_result proposal p human_reviewed receipt_path_available confidence reliability,
        rw (evaluate_charity_gate, e) (rw (c, d) refl),
        refl,
        refl,
        (
          λ q. (let (a, b, f) = there q in record { provenance = a; reviewed = b; receipt = f }),
          λ s. back (s.provenance, s.reviewed, s.receipt),
        ),
        k.0,
        k.1 ∙ not-not _,
        k.2 ∙ not-not _,
        k.3 ∙ not-not _,
      )
