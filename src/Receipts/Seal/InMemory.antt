-- ===== src/Receipts/Seal/InMemory.antt =====
-- Sealing with a writer that adds every text and keeps its promises: `InMemoryIpfsWriter`.
use codex_trading_engine.Prelude.{String, ◌≡◌, Option, some, [], ◌∷◌, ◌++◌, ok}
use codex_trading_engine.Value.{Dict, set_item, str, get}
use codex_trading_engine.Receipts.Hashing.{Hashing, sha256_hex}
use codex_trading_engine.Receipts.Payload.{validate_receipt_payload}
use codex_trading_engine.Receipts.Envelope.{
  unsigned_envelope, envelope_digest, build_receipt_envelope,
}
use codex_trading_engine.Receipts.Ipfs.{IpfsWriter, FaithfulWriter}
use codex_trading_engine.Receipts.Seal.{
  Ledger, Sealed, append_event, pinned_event, record_pinned, after_pin, verify_pin, seal_receipt,
}
use codex_trading_engine.Receipts.Seal.Outcome.{bytes_eq_refl}

-- The envelope that a valid payload gets.
abbrev pub envelope_of : Hashing → Dict → Option String → Dict
envelope_of h receipt previous =
    let e = unsigned_envelope receipt previous in
    set_item e "local_sha256" (str (envelope_digest h e))

-- The call's result with a faithful writer.
abbrev pub sealed_as : Hashing → Dict → Option String → String → Ledger → Sealed
sealed_as h receipt previous cid l =
    let e = envelope_of h receipt previous in
    let data' = h.canonical_json_bytes e in
    record {
      cid = cid;
      local_sha256 = sha256_hex h data';
      envelope_sha256 = get e "local_sha256";
      envelope = e;
      ledger_event = (append_event l (pinned_event h receipt previous e cid data')).0;
    }

module _ {S : Type 0} (w : IpfsWriter S) (faithful : FaithfulWriter w) (h : Hashing) where
  -- With a faithful writer that accepts the envelope, a receipt with a valid payload is sealed.
  pub seal_receipt-succeeds :
      (receipt : Dict) (previous : Option String) (s s' : S) (l : Ledger) (cid : String)
      → validate_receipt_payload receipt ≡ ok tt
      → w.add_and_pin s (h.canonical_json_bytes (envelope_of h receipt previous)) ≡ some (cid, s')
      → seal_receipt w h receipt previous s l ≡ (
        ok (sealed_as h receipt previous cid l),
        s',
        l ++ (sealed_as h receipt previous cid l).ledger_event ∷ [],
      )
  unfolding seal_receipt build_receipt_envelope
  seal_receipt-succeeds receipt previous s s' l cid valid added =
      let data' = h.canonical_json_bytes (envelope_of h receipt previous) in
      rw (
        valid,
        build_receipt_envelope,
        added,
        verify_pin,
        after_pin,
        faithful.pinned s s' data' cid added,
        faithful.reads_back s s' data' cid added,
        record_pinned,
        bytes_eq_refl data',
      )
