-- ===== src/FlashLiquidity/Answer.antt =====
-- On the answers of the verifier that are accepted.
use codex_trading_engine.Prelude.{
  String, ◌≡◌, refl, sym, ap, ◌∙◌, Bool, true, false, not, ◌&&◌, ◌||◌, Option, none, some, List, [],
  ◌∷◌, length, eq_iff, ltb, Result, ok, err, >>=-eq-ok, require, require-ok, Bool-cases, inl, inr,
}
use codex_trading_engine.Prelude.Int.{ℤ, pos, eqb_ℤ}
use codex_trading_engine.Value.{
  Value, null, bool, int, float, str, list, dict, Dict, get, is_false, is_str, eq,
}
use codex_trading_engine.Receipts.Hashing.{Bytes}
use codex_trading_engine.TtlPolicy.Shape.{num_gt}
use codex_trading_engine.FlashLiquidity.Candidate.{Float, zero_float}
use codex_trading_engine.FlashLiquidity.Request.{FlashVerificationRequest, request_dict}
use codex_trading_engine.FlashLiquidity.Verification.{
  FlashVerificationEvidence, ProcessResult, timed_out, not_started, completed, FloatResult,
  FlashError, has_keys, expected_top, bound_fields, unchanged, is_verifier, response_of,
  expected_verification, verification_of, float_of, finite_of, text_of, evidence_of, check_response,
  read_answer, run_rust_flash_verification,
}

-- Evidence of a request.
pub record IsFor (r : FlashVerificationRequest) (e : FlashVerificationEvidence) : Type 0 where
  pub same_request : e.request_id ≡ r.request_id
  pub same_snapshot : e.snapshot_sha256 ≡ r.snapshot_sha256
  pub same_model : e.model_sha256 ≡ r.model_sha256
  pub same_receipt : e.confidence_receipt_id ≡ r.confidence_receipt_id
  pub same_candidate : e.flash_candidate_id ≡ r.flash_candidate.candidate_id
  pub same_route : e.route_candidate_id ≡ r.flash_candidate.route_candidate_id
  pub no_authority : e.authority ≡ false

-- A value that equals a text is that text.
eq-text : (v : Value) (s : String) → eq v (str s) ≡ true → v ≡ str s
unfolding eq
eq-text null s h = absurd (cc)
eq-text (bool true) s h = absurd (cc)
eq-text (bool false) s h = absurd (cc)
eq-text (int n) s h = absurd (cc)
eq-text (float m k) s h = absurd (cc)
eq-text (str t) s h = ap str (sym ((eq_iff s t).0 h))
eq-text (list xs) s h = absurd (cc)
eq-text (dict d) s h = absurd (cc)

unchanged-head :
    (response request : Dict) (f : String) (fs : List String)
    → unchanged response request (f ∷ fs) ≡ ok tt
    → (eq (get response f) (get request f) ≡ true) × (unchanged response request fs ≡ ok tt)
unchanged-head response request f fs h = elim (Bool-cases (eq (get response f) (get request f))) [
  | inl y ↦ (y, rw y at h)
  | inr n ↦ absurd (let h1 = rw n at h in cc)
]

-- The six texts of a response that stands unchanged.
record IsBound (request : FlashVerificationRequest) (response : Dict) : Type 0 where
  same_request : get response "request_id" ≡ str request.request_id
  same_snapshot : get response "snapshot_sha256" ≡ str request.snapshot_sha256
  same_model : get response "model_sha256" ≡ str request.model_sha256
  same_receipt : get response "confidence_receipt_id" ≡ str request.confidence_receipt_id
  same_candidate : get response "flash_candidate_id" ≡ str request.flash_candidate.candidate_id
  same_route : get response "route_candidate_id" ≡ str request.flash_candidate.route_candidate_id

unchanged-IsBound :
    (request : FlashVerificationRequest) (response : Dict)
    → unchanged response (request_dict request) bound_fields ≡ ok tt
    → IsBound request response
unfolding request_dict
unchanged-IsBound request response h =
    let d = request_dict request in
    let t5 : List String = "route_candidate_id" ∷ [] in
    let t4 : List String = "flash_candidate_id" ∷ t5 in
    let t3 : List String = "confidence_receipt_id" ∷ t4 in
    let t2 : List String = "model_sha256" ∷ t3 in
    let t1 : List String = "snapshot_sha256" ∷ t2 in
    let (a, h1) = unchanged-head response d "request_id" t1 h in
    let (b, h2) = unchanged-head response d "snapshot_sha256" t2 h1 in
    let (c, h3) = unchanged-head response d "model_sha256" t3 h2 in
    let (e, h4) = unchanged-head response d "confidence_receipt_id" t4 h3 in
    let (f, h5) = unchanged-head response d "flash_candidate_id" t5 h4 in
    let (g, _) = unchanged-head response d "route_candidate_id" [] h5 in
    record {
      same_request = eq-text _ request.request_id a;
      same_snapshot = eq-text _ request.snapshot_sha256 b;
      same_model = eq-text _ request.model_sha256 c;
      same_receipt = eq-text _ request.confidence_receipt_id e;
      same_candidate = eq-text _ request.flash_candidate.candidate_id f;
      same_route = eq-text _ request.flash_candidate.route_candidate_id g;
    }

module _ (to_str : Value → String) (to_float : Value → FloatResult) where
  evidence_of-IsFor :
      (request : FlashVerificationRequest) (response verification : Dict)
      (e : FlashVerificationEvidence)
      → IsBound request response
      → evidence_of to_str to_float response verification ≡ ok e
      → IsFor request e
  evidence_of-IsFor request response verification e b h =
      let (a1, _, h1) =
        >>=-eq-ok (float_of (to_float (get verification "route_net_log_delta"))) _ h in
      let (a2, _, h2) =
        >>=-eq-ok (float_of (to_float (get verification "route_output_amount"))) _ h1 in
      let (a3, _, h3) =
        >>=-eq-ok (float_of (to_float (get verification "repayment_amount"))) _ h2 in
      let (a4, _, h4) = >>=-eq-ok (float_of (to_float (get verification "net_profit"))) _ h3 in
      let (b1, _, h5) = >>=-eq-ok (finite_of a1) _ h4 in
      let (b2, _, h6) = >>=-eq-ok (finite_of a2) _ h5 in
      let (b3, _, h7) = >>=-eq-ok (finite_of a3) _ h6 in
      let (b4, _, h8) = >>=-eq-ok (finite_of a4) _ h7 in
      let text = text_of to_str to_float in
      record {
        same_request = ap (λ z. text_in (λ x. x.request_id) z) (sym h8) ∙ ap text b.same_request;
        same_snapshot =
            ap (λ z. text_in (λ x. x.snapshot_sha256) z) (sym h8) ∙ ap text b.same_snapshot;
        same_model = ap (λ z. text_in (λ x. x.model_sha256) z) (sym h8) ∙ ap text b.same_model;
        same_receipt =
            ap (λ z. text_in (λ x. x.confidence_receipt_id) z) (sym h8) ∙ ap text b.same_receipt;
        same_candidate =
            ap (λ z. text_in (λ x. x.flash_candidate_id) z) (sym h8) ∙ ap text b.same_candidate;
        same_route =
            ap (λ z. text_in (λ x. x.route_candidate_id) z) (sym h8) ∙ ap text b.same_route;
        no_authority = ap authority_in (sym h8);
      }
    where
      text_in :
          (FlashVerificationEvidence → String)
          → Result FlashError FlashVerificationEvidence
          → String
      text_in f (ok x) = f x
      text_in f (err y) = ""

      authority_in : Result FlashError FlashVerificationEvidence → Bool
      authority_in (ok x) = x.authority
      authority_in (err y) = false

  -- What the process must have answered.
  pub record IsAnswer (loads : Bytes → Option Value) (p : ProcessResult)
      (r : FlashVerificationRequest) (e : FlashVerificationEvidence) : Type 0 where
    pub stdout : Bytes
    pub stderr : Bytes
    pub returncode : ℤ
    pub response : Dict
    pub verification : Dict
    pub ended : p ≡ completed stdout stderr returncode
    pub succeeded : eqb_ℤ returncode (pos 0) ≡ true
    pub decoded : loads stdout ≡ some (dict response)
    pub no_authority : is_false (get response "authority") ≡ true
    pub inner : get response "verification" ≡ dict verification
    pub inner_no_authority : is_false (get verification "authority") ≡ true
    pub evidence : IsFor r e

  response_of-ok : (o : Option Value) (d : Dict) → response_of o ≡ ok d → o ≡ some (dict d)
  response_of-ok none d h = absurd (cc)
  response_of-ok (some (dict c)) d h = let s : c ≡ d = cc in rw s refl
  response_of-ok (some v) d h = absurd (cc)

  verification_of-ok : (v : Value) (d : Dict) → verification_of v ≡ ok d → v ≡ dict d
  verification_of-ok (dict c) d h = elim (Bool-cases (has_keys c expected_verification)) [
    | inl y ↦ (let h1 = rw (verification_of, y) at h in let s : c ≡ d = cc in rw s refl)
    | inr n ↦ absurd (let h1 = rw (verification_of, n) at h in cc)
  ]
  verification_of-ok v d h = absurd (cc)

  -- A response that is accepted.
  record IsAccepted (r : FlashVerificationRequest) (response : Dict) (e : FlashVerificationEvidence)
      : Type 0 where
    verification : Dict
    no_authority : is_false (get response "authority") ≡ true
    inner : get response "verification" ≡ dict verification
    inner_no_authority : is_false (get verification "authority") ≡ true
    evidence : IsFor r e

  check_response-IsAccepted :
      (r : FlashVerificationRequest) (response : Dict) (e : FlashVerificationEvidence)
      → check_response to_str to_float (request_dict r) response ≡ ok e
      → IsAccepted r response e
  unfolding check_response
  check_response-IsAccepted r response e h =
      let (_, _, h1) = >>=-eq-ok (require (has_keys response expected_top) _) _ h in
      let (_, _, h2) =
        >>=-eq-ok
          (require
            (is_str (get response "schema_version") "flash-liquidity-response-v0.1"
              && is_str (get response "status") "verified")
            _)
          _ h1 in
      let (_, u, h3) = >>=-eq-ok (unchanged response (request_dict r) bound_fields) _ h2 in
      let (_, q, h4) = >>=-eq-ok (require (is_false (get response "authority")) _) _ h3 in
      let (_, _, h5) = >>=-eq-ok (require (is_verifier (get response "verifier")) _) _ h4 in
      let (verification, v, h6) = >>=-eq-ok (verification_of (get response "verification")) _ h5 in
      let (_, w, h7) = >>=-eq-ok (require (is_false (get verification "authority")) _) _ h6 in
      record {
        verification = verification;
        no_authority = require-ok _ _ q;
        inner = verification_of-ok (get response "verification") verification v;
        inner_no_authority = require-ok _ _ w;
        evidence = evidence_of-IsFor r response verification e (unchanged-IsBound r response u) h7;
      }

  read_answer-IsAnswer :
      (loads : Bytes → Option Value) (r : FlashVerificationRequest) (p : ProcessResult)
      (e : FlashVerificationEvidence)
      → read_answer to_str to_float loads (request_dict r) p ≡ ok e
      → IsAnswer loads p r e
  read_answer-IsAnswer loads r timed_out e h = absurd (cc)
  read_answer-IsAnswer loads r not_started e h = absurd (cc)
  read_answer-IsAnswer loads r (completed stdout stderr returncode) e h =
      let (_, _, h1) =
        >>=-eq-ok (require (not (ltb 65536 (length stdout) || ltb 65536 (length stderr))) _) _ h in
      let (_, q, h2) = >>=-eq-ok (require (eqb_ℤ returncode (pos 0)) _) _ h1 in
      let (response, d, h3) = >>=-eq-ok (response_of (loads stdout)) _ h2 in
      let a = check_response-IsAccepted r response e h3 in
      record {
        stdout = stdout;
        stderr = stderr;
        returncode = returncode;
        response = response;
        verification = a.verification;
        ended = refl;
        succeeded = require-ok _ _ q;
        decoded = response_of-ok (loads stdout) response d;
        no_authority = a.no_authority;
        inner = a.inner;
        inner_no_authority = a.inner_no_authority;
        evidence = a.evidence;
      }

  -- Evidence is returned only where the process ended with the code zero and printed an object that,
  -- like the verification in it, grants no authority; the evidence then has the identifiers and the
  -- digests of the request, of its candidate and of its route, and grants no authority.
  pub run_rust_flash_verification-IsAnswer :
      (dumps : Dict → Bytes) (loads : Bytes → Option Value) (is_absolute is_file : Bool)
      (run_process : Bytes → ProcessResult) (request : FlashVerificationRequest)
      (timeout_seconds : Float) (e : FlashVerificationEvidence)
      → run_rust_flash_verification to_str to_float dumps loads is_absolute is_file run_process
          request timeout_seconds
        ≡ ok e
      → IsAnswer loads (run_process (dumps (request_dict request))) request e
  unfolding run_rust_flash_verification
  run_rust_flash_verification-IsAnswer dumps loads is_absolute is_file run_process request
        timeout_seconds e h =
      let payload = dumps (request_dict request) in
      let (_, _, h1) = >>=-eq-ok (require is_absolute _) _ h in
      let (_, _, h2) = >>=-eq-ok (require is_file _) _ h1 in
      let (_, _, h3) = >>=-eq-ok (require (num_gt timeout_seconds zero_float) _) _ h2 in
      let (_, _, h4) = >>=-eq-ok (require (not (ltb 65536 (length payload))) _) _ h3 in
      read_answer-IsAnswer loads request (run_process payload) e h4
