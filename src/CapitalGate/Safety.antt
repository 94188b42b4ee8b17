-- ===== src/CapitalGate/Safety.antt =====
-- On the conditions of the gate, and on the gate after sealing.
use codex_trading_engine.Prelude.{
  String, ◌≡◌, refl, ◌↔◌, Bool, true, false, not, ◌&&◌, Option, none, some, List, [], ◌∷◌, ◌++◌,
  str_eq, eq_refl, Result, ok, err, ◌>>◌, require, require-ok, arith,
}
use codex_trading_engine.Value.{
  Value, bool, str, list, items, Dict, get, is_true, is_false, is_list, is_str,
}
use codex_trading_engine.Receipts.Hashing.{Hashing, LawfulHashing}
use codex_trading_engine.Receipts.Ipfs.{IpfsWriter}
use codex_trading_engine.Receipts.Envelope.{opt_str}
use codex_trading_engine.Receipts.Seal.{Ledger, Sealed, seal_receipt, absent, is_complete_status}
use codex_trading_engine.Receipts.Seal.Chain.{audit-seal_receipt}
use codex_trading_engine.Receipts.Audit.{audit_receipt_ledger, receipt_cids}
use codex_trading_engine.CapitalGate.{
  audit_may_move_capital, Completion, certificate, listed, member, is_action_kind, cid_text,
  validate_ledger_audit, build_completion_certificate,
}

-- What a certificate rests on.
pub record IsAccounted (c : Completion) : Type 0 where
  pub kind : is_action_kind c.action_kind ≡ true
  pub status : is_complete_status c.target_status ≡ true
  pub has_cid : absent c.receipt_cid ≡ false
  pub has_source : (str_eq c.action_kind "charity_tx" && absent c.source_receipt_cid) ≡ false
  pub has_anchor : (c.require_merkle_anchor && absent c.merkle_anchor_cid) ≡ false
  pub audit_valid : is_true (get c.ledger_audit "valid") ≡ true
  pub in_ledger : listed (get c.ledger_audit "receipt_cids") (cid_text c.receipt_cid) ≡ true
  pub no_authority : is_str (get c.ledger_audit "execution_authority") "none" ≡ true
  pub no_command : is_false (get c.ledger_audit "artifact_is_command") ≡ true
  pub no_execution : is_false (get c.ledger_audit "may_execute") ≡ true
  pub no_capital : is_false (get c.ledger_audit "may_move_capital") ≡ true

then-ok :
    {E B : Type 0} (b : Bool) (e : E) (m : Result E B) {r : B}
    → (require b e >> m) ≡ ok r
    → (b ≡ true) × (m ≡ ok r)
then-ok true e m h = (refl, h)
then-ok false e m h = cc

listed-is_list : (v : Value) (s : String) → listed v s ≡ true → is_list v ≡ true
listed-is_list (list xs) s h = refl
listed-is_list _ s h = cc

not-true : (b : Bool) → not b ≡ true → b ≡ false
not-true b h = ground arith

unit-ok :
    {E B : Type 0} (m : Result E Unit) (r : B) {q : B} → (m >> ok r) ≡ ok q → (m ≡ ok tt) × (r ≡ q)
unit-ok (ok tt) r h = (refl, cc)
unit-ok (err e) r h = cc

certified-IsAccounted :
    (c : Completion) (r : Dict)
    → build_completion_certificate c ≡ ok r
    → IsAccounted c × (certificate c ≡ r)
unfolding build_completion_certificate
certified-IsAccounted c r h =
    let (k, h1) = then-ok _ _ _ h in
    let (st, h2) = then-ok _ _ _ h1 in
    let (ci, h3) = then-ok _ _ _ h2 in
    let (so, h4) = then-ok _ _ _ h3 in
    let (an, h5) = then-ok _ _ _ h4 in
    let (au, e) =
      unit-ok (validate_ledger_audit c.ledger_audit (cid_text c.receipt_cid)) (certificate c) h5 in
    let (v, a1) = then-ok _ _ _ au in
    let (_, a2) = then-ok _ _ _ a1 in
    let (l, a3) = then-ok _ _ _ a2 in
    let (na, a4) = then-ok _ _ _ a3 in
    let (nc, a5) = then-ok _ _ _ a4 in
    let (ne, a6) = then-ok _ _ _ a5 in
    (
      record {
        kind = k;
        status = st;
        has_cid = not-true _ ci;
        has_source = not-true _ so;
        has_anchor = not-true _ an;
        audit_valid = v;
        in_ledger = l;
        no_authority = na;
        no_command = nc;
        no_execution = ne;
        no_capital =
            require-ok (is_false (get c.ledger_audit "may_move_capital")) audit_may_move_capital a6;
      },
      e,
    )

IsAccounted-certified :
    (c : Completion) (r : Dict)
    → IsAccounted c
    → certificate c ≡ r
    → build_completion_certificate c ≡ ok r
unfolding build_completion_certificate
IsAccounted-certified c r a e =
    rw
      (
        a.kind,
        a.status,
        a.has_cid,
        a.has_source,
        a.has_anchor,
        a.audit_valid,
        listed-is_list _ _ a.in_ledger,
        a.in_ledger,
        a.no_authority,
        a.no_command,
        a.no_execution,
        a.no_capital,
        e,
      )
      refl

-- The gate certifies a completion exactly when all its conditions hold, and then with the one
-- certificate that repeats the request.
pub build_completion_certificate_iff :
    (c : Completion) (r : Dict)
    → (build_completion_certificate c ≡ ok r) ↔ (IsAccounted c × (certificate c ≡ r))
build_completion_certificate_iff c r =
    (certified-IsAccounted c r, λ p. IsAccounted-certified c r p.0 p.1)

member-append_last : (xs : List Value) (s : String) → member (items (xs ++ str s ∷ [])) s ≡ true
member-append_last [] s = rw eq_refl refl
member-append_last (x ∷ xs) s = ground (arith, member-append_last xs s)

audit-posture :
    (path : String) (es : Ledger)
    → (is_str (get (audit_receipt_ledger path es) "execution_authority") "none" ≡ true)
      × (is_false (get (audit_receipt_ledger path es) "artifact_is_command") ≡ true)
      × (is_false (get (audit_receipt_ledger path es) "may_execute") ≡ true)
      × (is_false (get (audit_receipt_ledger path es) "may_move_capital") ≡ true)
unfolding audit_receipt_ledger
audit-posture path es = (refl, refl, refl, refl)

-- If the audit of a ledger is valid and a trade's receipt is sealed on top of its latest CID, under
-- a CID that is not empty, then the gate certifies the trade under the audit of the new ledger.
pub seal-then-certify :
    (h : Hashing) (lawful : LawfulHashing h) {S : Type 0} (w : IpfsWriter S) (path : String)
    (receipt : Dict) (previous : Option String) (s s' : S) (l l' : Ledger) (r : Sealed)
    → seal_receipt w h receipt previous s l ≡ (ok r, s', l')
    → str_eq r.cid "" ≡ false
    → get (audit_receipt_ledger path l) "valid" ≡ bool true
    → get (audit_receipt_ledger path l) "latest_cid" ≡ opt_str previous
    → let c : Completion = record {
      action_kind = "trade";
      target_status = "SETTLED";
      receipt_cid = some r.cid;
      ledger_audit = audit_receipt_ledger path l';
      source_receipt_cid = none;
      merkle_anchor_cid = none;
      require_merkle_anchor = false;
    } in
      build_completion_certificate c ≡ ok (certificate c)
seal-then-certify h lawful w path receipt previous s s' l l' r run n valid latest =
    let (v, _, m) =
      audit-seal_receipt h lawful w path receipt previous s s' l l' r run n valid latest in
    (build_completion_certificate_iff _ _).1 (
      record {
        kind = refl;
        status = refl;
        has_cid = n;
        has_source = refl;
        has_anchor = refl;
        audit_valid = rw v refl;
        in_ledger = rw m (member-append_last (receipt_cids l) r.cid);
        no_authority = (audit-posture path l').0;
        no_command = (audit-posture path l').1;
        no_execution = (audit-posture path l').2;
        no_capital = (audit-posture path l').3;
      },
      refl,
    )
