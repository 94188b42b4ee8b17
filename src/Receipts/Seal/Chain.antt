-- ===== src/Receipts/Seal/Chain.antt =====
-- On the audit of a ledger to which a receipt was sealed.
use codex_trading_engine.Prelude.{
  ℕ, suc, ◌+◌, String, ◌≡◌, refl, true, false, Option, none, some, [], ◌∷◌, ◌++◌, length, str_eq,
  eq_refl, ok, arith, Bool-cases, inl, inr,
}
use codex_trading_engine.Prelude.Int.{pos}
use codex_trading_engine.Value.{
  Value, null, bool, int, str, list, Dict, items, get, truthy, eq, is_num,
}
use codex_trading_engine.Receipts.Hashing.{Bytes, Hashing, LawfulHashing, digest_not_empty}
use codex_trading_engine.Receipts.Envelope.{opt_str}
use codex_trading_engine.Receipts.Ipfs.{IpfsWriter}
use codex_trading_engine.Receipts.Audit.{audit_events, receipt_cids, audit_receipt_ledger}
use codex_trading_engine.Receipts.Audit.Chain.{IsLink, IsChain, IsChain-valid, valid-IsChain}
use codex_trading_engine.Receipts.Seal.{Ledger, Sealed, append_event, pinned_event, seal_receipt}
use codex_trading_engine.Receipts.Seal.Outcome.{IsSealed, seal_receipt-Outcome}

-- The CID that the entry after the ledger's last has to name.
abbrev pub last_cid : Value → Ledger → Value
last_cid first [] = first
last_cid first (e ∷ es) = last_cid (get e "cid") es

pub audit_events-last : (i : ℕ) (p : Value) (es : Ledger) → (audit_events i p es).1 ≡ last_cid p es
unfolding audit_events
audit_events-last i p [] = refl
audit_events-last i p (e ∷ es) = audit_events-last (i + 1) (get e "cid") es

last_cid-snoc : (p : Value) (es : Ledger) (e : Dict) → last_cid p (es ++ e ∷ []) ≡ get e "cid"
last_cid-snoc p [] e = refl
last_cid-snoc p (x ∷ es) e = last_cid-snoc (get x "cid") es e

receipt_cids-snoc :
    (es : Ledger) (e : Dict)
    → truthy (get e "cid") ≡ true
    → receipt_cids (es ++ e ∷ []) ≡ receipt_cids es ++ get e "cid" ∷ []
unfolding receipt_cids
receipt_cids-snoc [] e t = rw t
receipt_cids-snoc (x ∷ es) e t = elim (Bool-cases (truthy (get x "cid"))) [
  | inl y ↦ rw (y, receipt_cids-snoc es e t)
  | inr n ↦ rw (n, receipt_cids-snoc es e t)
]

IsChain-snoc :
    (k : ℕ) (p : Value) (es : Ledger) (e : Dict)
    → IsChain k p es
    → IsLink (k + length es) (last_cid p es) e
    → IsChain k p (es ++ e ∷ [])
IsChain-snoc k p [] e c l = let q : k + 0 ≡ k = omega arith in (rw q at l, tt)
IsChain-snoc k p (x ∷ es) e (l0, c) l =
    let q : k + suc (length es) ≡ k + 1 + length es = omega arith in
    (l0, IsChain-snoc (k + 1) (get x "cid") es e c (rw q at l))

eq-opt_str : (o : Option String) → eq (opt_str o) (opt_str o) ≡ true
unfolding eq
eq-opt_str none = refl
eq-opt_str (some s) = eq_refl s

is_num_self : (n : ℕ) → is_num (int (pos n)) n ≡ true
is_num_self n = ground arith

module _ (h : Hashing) (lawful : LawfulHashing h) where
  appended-IsLink :
      (receipt : Dict) (previous : Option String) (envelope : Dict) (cid : String) (data' : Bytes)
      (l : Ledger)
      → str_eq cid "" ≡ false
      → IsLink
          (1 + length l)
          (opt_str previous)
          (append_event l (pinned_event h receipt previous envelope cid data')).0
  appended-IsLink receipt previous envelope cid data' l c =
      let q : length l + 1 ≡ 1 + length l = omega arith in
      record {
        numbered = rw q (is_num_self (1 + length l));
        has_cid = rw c;
        has_digest = rw (digest_not_empty lawful data');
        no_authority = refl;
        no_command = refl;
        no_execution = refl;
        no_capital = refl;
        linked = eq-opt_str previous;
      }

  module _ {S : Type 0} (w : IpfsWriter S) where
    -- If the audit of a ledger is valid and a receipt is sealed on top of its latest CID, under a
    -- CID that is not empty, then the audit of the new ledger is valid, its latest CID is the
    -- sealed one, and its members are those of before and the sealed one.
    pub audit-seal_receipt :
        (path : String) (receipt : Dict) (previous : Option String) (s s' : S) (l l' : Ledger)
        (r : Sealed)
        → seal_receipt w h receipt previous s l ≡ (ok r, s', l')
        → str_eq r.cid "" ≡ false
        → get (audit_receipt_ledger path l) "valid" ≡ bool true
        → get (audit_receipt_ledger path l) "latest_cid" ≡ opt_str previous
        → (get (audit_receipt_ledger path l') "valid" ≡ bool true)
          × (get (audit_receipt_ledger path l') "latest_cid" ≡ str r.cid)
          × (get (audit_receipt_ledger path l') "receipt_cids"
              ≡ list (items (receipt_cids l ++ str r.cid ∷ [])))
    unfolding audit_receipt_ledger
    audit-seal_receipt path receipt previous s s' l l' r run c valid latest =
        let done : IsSealed w h receipt previous s' l l' r =
          rw run at (seal_receipt-Outcome w h receipt previous s l) in
        let link : IsLink (1 + length l) (opt_str previous) r.ledger_event = rw done.entry (
          appended-IsLink receipt previous r.envelope r.cid (h.canonical_json_bytes r.envelope) l
            c) in
        let chain : IsChain 1 null (l ++ r.ledger_event ∷ []) =
          IsChain-snoc 1 null l r.ledger_event (valid-IsChain path l valid)
            (rw (← audit_events-last 1 null l, latest) link) in
        let cid : get r.ledger_event "cid" ≡ str r.cid = rw done.entry in
        (
          rw done.extended (IsChain-valid path _ chain),
          rw (done.extended, audit_events-last, last_cid-snoc) cid,
          rw (done.extended, receipt_cids-snoc l r.ledger_event link.has_cid, cid),
        )
