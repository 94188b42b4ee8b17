-- ===== src/Receipts/Ipfs.antt =====
-- The IPFS writer that sealing uses, as an interface, and `InMemoryIpfsWriter` of
-- eve_q/immutable_receipts.py, which fills it.
use Prim.Native.String
use codex_trading_engine.Prelude.{
  String, ◌≡◌, Bool, true, Option, none, some, List, [], ◌∷◌, contains, arith, str_eq, eq_refl,
  if◌then◌else◌,
}
use codex_trading_engine.Receipts.Hashing.{Bytes, Hashing, sha256_hex}

-- `none` is an exception.
pub record IpfsWriter (S : Type 0) : Type 0 where
  pub add_and_pin : S → Bytes → Option (String × S)
  pub is_pinned : S → String → Option Bool
  pub cat : S → String → Option Bytes

-- What a faithful writer promises: what it has just added is pinned and reads back.
pub record FaithfulWriter {S : Type 0} (w : IpfsWriter S) : Type 0 where
  pub pinned :
      (s s' : S) (data' : Bytes) (cid : String)
      → w.add_and_pin s data' ≡ some (cid, s')
      → w.is_pinned s' cid ≡ some true
  pub reads_back :
      (s s' : S) (data' : Bytes) (cid : String)
      → w.add_and_pin s data' ≡ some (cid, s')
      → w.cat s' cid ≡ some data'

abbrev pub lookup : String → List (String × Bytes) → Option Bytes
lookup k [] = none
lookup k ((j, v) ∷ m) = if str_eq j k then some v else lookup k m

abbrev pub insert : String → Bytes → List (String × Bytes) → List (String × Bytes)
insert k v [] = (k, v) ∷ []
insert k v ((j, w) ∷ m) = if str_eq j k then (j, v) ∷ m else (j, w) ∷ insert k v m

pub record InMemoryIpfsWriter : Type 0 where
  pub objects : List (String × Bytes)
  pub pins : List String

-- `self.pins.add(cid)`
abbrev pub add_pin : List String → String → List String
add_pin pins cid = if contains pins cid then pins else cid ∷ pins

-- `MOCK_CID_PREFIX + sha256_hex(data)`
abbrev pub mock_cid : Hashing → Bytes → String
mock_cid h data' = String.◌++◌ "mock-ipfs-" (sha256_hex h data')

unfoldable pub in_memory : Hashing → IpfsWriter InMemoryIpfsWriter
in_memory h = record {
  add_and_pin = λ s data'.
      let cid = mock_cid h data' in
      some (cid, record { objects = insert cid data' s.objects; pins = add_pin s.pins cid });
  is_pinned = λ s cid. some (contains s.pins cid);
  cat = λ s cid. lookup cid s.objects;
}

lookup-insert_self :
    (k : String) (v : Bytes) (m : List (String × Bytes)) → lookup k (insert k v m) ≡ some v
lookup-insert_self k v [] = rw eq_refl
lookup-insert_self k v ((j, w) ∷ m) = ground (arith, lookup-insert_self k v m)

contains-add_pin : (pins : List String) (cid : String) → contains (add_pin pins cid) cid ≡ true
contains-add_pin pins cid = ground (arith, eq_refl cid)

-- The in-memory writer is faithful, whatever digest it is given.
pub in_memory-FaithfulWriter : (h : Hashing) → FaithfulWriter (in_memory h)
unfolding in_memory
in_memory-FaithfulWriter h = record {
  pinned = λ s s' data' cid e. ground (arith, contains-add_pin s.pins (mock_cid h data'));
  reads_back =
      λ s s' data' cid e. ground (arith, lookup-insert_self (mock_cid h data') data' s.objects);
}
