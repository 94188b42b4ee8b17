-- ===== src/Tests/World.antt =====
-- A digest and a serialiser to run the receipt code with, and receipts to seal.
use codex_trading_engine.Prelude.{
  ℕ, zero, suc, ◌+◌, ◌%◌, ◌<◌, String, refl, true, [], ◌∷◌, All, none, some, arith,
}
use codex_trading_engine.Value.{Dict, empty, field, str, bool, dict, size}
use codex_trading_engine.Receipts.Hashing.{Bytes, Hashing, LawfulHashing}
use codex_trading_engine.Receipts.Ipfs.{InMemoryIpfsWriter, mock_cid}
use codex_trading_engine.Receipts.Seal.{Ledger, Sealed}
use codex_trading_engine.Receipts.Seal.InMemory.{envelope_of, sealed_as}

abbrev total : Bytes → ℕ
total [] = 0
total (b ∷ x) = b + total x

abbrev sevens : ℕ → Bytes
sevens zero = []
sevens (suc n) = 7 ∷ sevens n

abbrev pub checksum : Bytes → Bytes
checksum x = total x % 256 ∷ sevens 31

abbrev pub toy : Hashing
toy = record { canonical_json_bytes = λ d. size d ∷ []; sha256 = checksum }

pub toy-LawfulHashing : LawfulHashing toy
toy-LawfulHashing = record {
  digest_length = λ x. refl;
  digest_bytes = λ x. (omega arith, all_sevens 31);
}
  where
    all_sevens : (n : ℕ) → All (λ b. b < 256) (sevens n)
    all_sevens zero = tt
    all_sevens (suc n) = (omega arith, all_sevens n)

abbrev pub trade : Dict
trade =
    field "receipt_type" (str "TradeReceipt")
      (field "fill" (dict (field "dry" (bool true) empty)) empty)

abbrev pub no_objects : InMemoryIpfsWriter
no_objects = record { objects = []; pins = [] }

abbrev pub first_cid : String
first_cid = mock_cid toy (toy.canonical_json_bytes (envelope_of toy trade none))

abbrev pub first_sealed : Sealed
first_sealed = sealed_as toy trade none first_cid []

abbrev pub first_ledger : Ledger
first_ledger = first_sealed.ledger_event ∷ []

abbrev pub first_store : InMemoryIpfsWriter
first_store = record {
  objects = (first_cid, toy.canonical_json_bytes (envelope_of toy trade none)) ∷ [];
  pins = first_cid ∷ [];
}

abbrev pub second_cid : String
second_cid = mock_cid toy (toy.canonical_json_bytes (envelope_of toy trade (some first_cid)))

abbrev pub second_sealed : Sealed
second_sealed = sealed_as toy trade (some first_cid) second_cid first_ledger

abbrev pub second_ledger : Ledger
second_ledger = first_sealed.ledger_event ∷ second_sealed.ledger_event ∷ []
