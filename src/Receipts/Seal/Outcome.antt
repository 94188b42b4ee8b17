-- ===== src/Receipts/Seal/Outcome.antt =====
-- What a call of `seal_receipt` has done when it returns, and when it raises.
use codex_trading_engine.Prelude.{
  String, ◌≡◌, refl, Bool, true, false, Option, none, some, [], ◌∷◌, ◌++◌, Result, ok, err, arith,
  Bool-cases, inl, inr,
}
use codex_trading_engine.Value.{Dict}
use codex_trading_engine.Receipts.Hashing.{Bytes, Hashing}
use codex_trading_engine.Receipts.Payload.{SealError}
use codex_trading_engine.Receipts.Envelope.{build_receipt_envelope}
use codex_trading_engine.Receipts.Ipfs.{IpfsWriter}
use codex_trading_engine.Receipts.Seal.{
  Ledger, Sealed, append_event, pinned_event, bytes_eq, record_pinned, after_pin, verify_pin,
  seal_envelope, seal_receipt,
}

pub bytes_eq_refl : (x : Bytes) → bytes_eq x x ≡ true
bytes_eq_refl [] = refl
bytes_eq_refl (a ∷ x) = ground (arith, bytes_eq_refl x)

bytes_eq-eq : (x y : Bytes) → bytes_eq x y ≡ true → x ≡ y
bytes_eq-eq [] [] h = refl
bytes_eq-eq [] (b ∷ y) h = cc
bytes_eq-eq (a ∷ x) [] h = cc
bytes_eq-eq (a ∷ x) (b ∷ y) h = ground (arith, bytes_eq-eq x y)

module _ {S : Type 0} (w : IpfsWriter S) (h : Hashing) where
  -- What stands behind a sealed receipt: an envelope that was built, its bytes pinned under the
  -- CID and read back unchanged, and one new entry at the end of the ledger.
  pub record IsSealed (receipt : Dict) (previous : Option String) (s' : S) (old new : Ledger)
      (r : Sealed) : Type 0 where
    pub built : build_receipt_envelope h receipt previous ≡ ok r.envelope
    pub pinned : w.is_pinned s' r.cid ≡ some true
    pub resolved : w.cat s' r.cid ≡ some (h.canonical_json_bytes r.envelope)
    pub entry :
        r.ledger_event
        ≡ (append_event old (
            pinned_event h receipt previous r.envelope r.cid (h.canonical_json_bytes r.envelope))).0
    pub extended : new ≡ old ++ r.ledger_event ∷ []

  -- How a call ended: sealed, or an error that leaves the ledger as it was.
  abbrev pub Outcome : Dict → Option String → Ledger → Result SealError Sealed × S × Ledger → Type 0
  Outcome receipt previous old (ok r, s', new) = IsSealed receipt previous s' old new r
  Outcome receipt previous old (err e, s', new) = new ≡ old

  record_pinned-Outcome :
      (receipt : Dict) (previous : Option String) (envelope : Dict) (cid : String)
      (o : Option Bytes) (s : S) (l : Ledger)
      → build_receipt_envelope h receipt previous ≡ ok envelope
      → w.is_pinned s cid ≡ some true
      → w.cat s cid ≡ o
      → Outcome receipt previous l
          (record_pinned w h receipt previous envelope (h.canonical_json_bytes envelope) cid o s l)
  unfolding record_pinned
  record_pinned-Outcome receipt previous envelope cid none s l b p c = refl
  record_pinned-Outcome receipt previous envelope cid (some x) s l b p c =
      elim (Bool-cases (bytes_eq x (h.canonical_json_bytes envelope))) [
        | inl same ↦ rw same (record {
          built = b;
          pinned = p;
          resolved = cc (bytes_eq-eq x _ same);
          entry = refl;
          extended = refl;
        })
        | inr other ↦ rw other refl
      ]

  after_pin-Outcome :
      (receipt : Dict) (previous : Option String) (envelope : Dict) (cid : String) (o : Option Bool)
      (s : S) (l : Ledger)
      → build_receipt_envelope h receipt previous ≡ ok envelope
      → w.is_pinned s cid ≡ o
      → Outcome receipt previous l
          (after_pin w h receipt previous envelope (h.canonical_json_bytes envelope) cid o s l)
  unfolding after_pin
  after_pin-Outcome receipt previous envelope cid none s l b p = refl
  after_pin-Outcome receipt previous envelope cid (some true) s l b p =
      record_pinned-Outcome receipt previous envelope cid (w.cat s cid) s l b p refl
  after_pin-Outcome receipt previous envelope cid (some false) s l b p = refl

  verify_pin-Outcome :
      (receipt : Dict) (previous : Option String) (envelope : Dict) (o : Option (String × S))
      (s : S) (l : Ledger)
      → build_receipt_envelope h receipt previous ≡ ok envelope
      → Outcome receipt previous l
          (verify_pin w h receipt previous envelope (h.canonical_json_bytes envelope) o s l)
  unfolding verify_pin
  verify_pin-Outcome receipt previous envelope none s l b = refl
  verify_pin-Outcome receipt previous envelope (some (cid, s')) s l b =
      after_pin-Outcome receipt previous envelope cid (w.is_pinned s' cid) s' l b refl

  seal_envelope-Outcome :
      (receipt : Dict) (previous : Option String) (o : Result SealError Dict) (s : S) (l : Ledger)
      → build_receipt_envelope h receipt previous ≡ o
      → Outcome receipt previous l (seal_envelope w h receipt previous o s l)
  unfolding seal_envelope
  seal_envelope-Outcome receipt previous (err e) s l b = refl
  seal_envelope-Outcome receipt previous (ok envelope) s l b =
      verify_pin-Outcome receipt previous envelope
        (w.add_and_pin s (h.canonical_json_bytes envelope)) s l b

  -- Whatever the writer does, `seal_receipt` either raises and leaves the ledger as it was, or
  -- returns with the envelope built from the receipt, its bytes pinned and read back unchanged
  -- under the returned CID, and the ledger longer by exactly the event of that CID.
  pub seal_receipt-Outcome :
      (receipt : Dict) (previous : Option String) (s : S) (l : Ledger)
      → Outcome receipt previous l (seal_receipt w h receipt previous s l)
  unfolding seal_receipt
  seal_receipt-Outcome receipt previous s l =
      seal_envelope-Outcome receipt previous (build_receipt_envelope h receipt previous) s l refl
