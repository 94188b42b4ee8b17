-- ===== src/Receipts/Audit/Chain.antt =====
-- What a valid audit says of the ledger, entry by entry.
use codex_trading_engine.Prelude.{
  ℕ, zero, suc, ◌+◌, String, ◌≡◌, refl, ◌↔◌, Bool, true, false, some, [], ◌∷◌, get_elem?,
  is_empty-nil, append-eq-nil, unless, arith,
}
use codex_trading_engine.Value.{Value, null, bool, Dict, get, truthy, is_false, is_num, is_str, eq}
use codex_trading_engine.Receipts.Seal.{Ledger}
use codex_trading_engine.Receipts.Audit.{event_errors, audit_events, audit_receipt_ledger}

-- One entry in its place: its number, the fields that it must have, its posture and its link to
-- the entry before it.
pub record IsLink (index : ℕ) (previous : Value) (event : Dict) : Type 0 where
  pub numbered : is_num (get event "sequence") index ≡ true
  pub has_cid : truthy (get event "cid") ≡ true
  pub has_digest : truthy (get event "local_sha256") ≡ true
  pub no_authority : is_str (get event "execution_authority") "none" ≡ true
  pub no_command : is_false (get event "artifact_is_command") ≡ true
  pub no_execution : is_false (get event "may_execute") ≡ true
  pub no_capital : is_false (get event "may_move_capital") ≡ true
  pub linked : eq (get event "previous_cid") previous ≡ true

unless-nil : (b : Bool) (e : Value) → unless b e ≡ [] → b ≡ true
unless-nil true e h = refl
unless-nil false e h = ground arith

event_errors-nil : (i : ℕ) (p : Value) (e : Dict) → event_errors i p e ≡ [] → IsLink i p e
unfolding event_errors
event_errors-nil i p e h =
    let (h1, r1) = append-eq-nil _ _ h in
    let (h2, r2) = append-eq-nil _ _ r1 in
    let (h3, r3) = append-eq-nil _ _ r2 in
    let (h4, r4) = append-eq-nil _ _ r3 in
    let (h5, r5) = append-eq-nil _ _ r4 in
    let (h6, r6) = append-eq-nil _ _ r5 in
    let (h7, h8) = append-eq-nil _ _ r6 in
    record {
      numbered = unless-nil _ _ h1;
      has_cid = unless-nil _ _ h2;
      has_digest = unless-nil _ _ h3;
      no_authority = unless-nil _ _ h4;
      no_command = unless-nil _ _ h5;
      no_execution = unless-nil _ _ h6;
      no_capital = unless-nil _ _ h7;
      linked = unless-nil _ _ h8;
    }

nil-event_errors : (i : ℕ) (p : Value) (e : Dict) → IsLink i p e → event_errors i p e ≡ []
unfolding event_errors
nil-event_errors i p e l = rw (
  l.numbered, l.has_cid, l.has_digest, l.no_authority, l.no_command, l.no_execution, l.no_capital,
  l.linked,
)

abbrev pub IsChain : ℕ → Value → Ledger → Type 0
IsChain i p [] = Unit
IsChain i p (e ∷ es) = IsLink i p e × IsChain (i + 1) (get e "cid") es

pub audit_events-nil :
    (i : ℕ) (p : Value) (es : Ledger) → (audit_events i p es).0 ≡ [] → IsChain i p es
unfolding audit_events
audit_events-nil i p [] h = tt
audit_events-nil i p (e ∷ es) h =
    let (now, later) = append-eq-nil (event_errors i p e) _ h in
    (event_errors-nil i p e now, audit_events-nil (i + 1) (get e "cid") es later)

pub nil-audit_events :
    (i : ℕ) (p : Value) (es : Ledger) → IsChain i p es → (audit_events i p es).0 ≡ []
unfolding audit_events
nil-audit_events i p [] h = refl
nil-audit_events i p (e ∷ es) (l, c) =
    rw (nil-event_errors i p e l) (nil-audit_events (i + 1) (get e "cid") es c)

-- The CID of the entry before position `i`; before the first stands `first`.
abbrev pub cid_before : Value → Ledger → ℕ → Value
cid_before first es zero = first
cid_before first [] (suc i) = first
cid_before first (e ∷ es) (suc i) = cid_before (get e "cid") es i

IsChain-get_elem? :
    (k : ℕ) (p : Value) (es : Ledger)
    → IsChain k p es
    → (i : ℕ) (e : Dict) → get_elem? es i ≡ some e
    → IsLink (k + i) (cid_before p es i) e
IsChain-get_elem? k p [] c i e h = cc
IsChain-get_elem? k p (x ∷ es) (l, c) zero e h =
    let e1 : x ≡ e = cc in let e2 : k + 0 ≡ k = omega arith in rw (e2, ← e1) l
IsChain-get_elem? k p (x ∷ es) (l, c) (suc i) e h =
    let e2 : k + suc i ≡ k + 1 + i = omega arith in
    rw e2 (IsChain-get_elem? (k + 1) (get x "cid") es c i e h)

get_elem?-IsChain :
    (k : ℕ) (p : Value) (es : Ledger)
    → ((i : ℕ) (e : Dict) → get_elem? es i ≡ some e → IsLink (k + i) (cid_before p es i) e)
    → IsChain k p es
get_elem?-IsChain k p [] h = tt
get_elem?-IsChain k p (x ∷ es) h =
    let e2 : k + 0 ≡ k = omega arith in
    (
      rw e2 at (h 0 x refl),
      get_elem?-IsChain (k + 1) (get x "cid") es (λ i e q. shift i (h (suc i) e q)),
    )
  where
    shift : {v : Value} {e : Dict} (i : ℕ) → IsLink (k + suc i) v e → IsLink (k + 1 + i) v e
    shift {v} {e} i l = let e3 : k + 1 + i ≡ k + suc i = omega arith in rw e3 l

abbrev pub IsValidLedger : Ledger → Type 0
IsValidLedger es = IsChain 1 null es

pub valid-IsChain :
    (path : String) (es : Ledger)
    → get (audit_receipt_ledger path es) "valid" ≡ bool true
    → IsValidLedger es
unfolding audit_receipt_ledger
valid-IsChain path es h = audit_events-nil 1 null es (is_empty-nil _ (cc))

pub IsChain-valid :
    (path : String) (es : Ledger)
    → IsValidLedger es
    → get (audit_receipt_ledger path es) "valid" ≡ bool true
unfolding audit_receipt_ledger
IsChain-valid path es h = rw (nil-audit_events 1 null es h)

-- An audit is valid exactly when every entry is in its place: the entry at position i has the
-- number i + 1, a CID, a digest and the non-executing posture, and its `previous_cid` is the CID
-- of the entry before it, or nothing for the first.
pub audit-valid_iff :
    (path : String) (events : Ledger)
    → (get (audit_receipt_ledger path events) "valid" ≡ bool true) ↔ (
        (i : ℕ) (e : Dict)
        → get_elem? events i ≡ some e
        → IsLink (1 + i) (cid_before null events i) e)
audit-valid_iff path events = (
  λ h. IsChain-get_elem? 1 null events (valid-IsChain path events h),
  λ h. IsChain-valid path events (get_elem?-IsChain 1 null events h),
)
