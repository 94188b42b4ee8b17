-- ===== src/Receipts/Merkle/Digests.antt =====
-- On the rounds of the Merkle root where the leaves are digests.
use codex_trading_engine.Prelude.{
  ℕ, zero, suc, ◌+◌, ◌*◌, ◌≤◌, ◌<◌, String, ◌≡◌, ◌↔◌, refl, Option, none, some, List, [], ◌∷◌, ◌++◌,
  length, All, map, arith,
}
use codex_trading_engine.Receipts.Hex.{from_hex}
use codex_trading_engine.Receipts.Hashing.{
  Bytes, Hashing, sha256_hex, LawfulHashing, from_hex-sha256_hex,
}
use codex_trading_engine.Receipts.Seal.{Ledger}
use codex_trading_engine.Receipts.Merkle.{
  event_leaf_hash, merkle_parent, next_level, reduce_level, merkle_root, merkle_packet,
  build_receipt_merkle_audit,
}

-- A text that is the hexadecimal digest of something.
abbrev pub IsDigest : Hashing → String → Type 0
IsDigest h s = (x : Bytes) × (s ≡ sha256_hex h x)

abbrev pub or_none : Option Bytes → Bytes
or_none none = []
or_none (some b) = b

-- What `merkle_parent` hashes for two texts.
abbrev pub pair_input : String → String → Bytes
pair_input left right = or_none (from_hex left) ++ or_none (from_hex right)

module _ (h : Hashing) where
  -- The level above, where no `ValueError` can be raised.
  abbrev pub above : List String → List String
  above [] = []
  above (left ∷ []) = sha256_hex h (pair_input left left) ∷ []
  above (left ∷ right ∷ level) = sha256_hex h (pair_input left right) ∷ above level

  pub above-IsDigest : (level : List String) → All (IsDigest h) (above level)
  above-IsDigest [] = tt
  above-IsDigest (left ∷ []) = ((_, refl), tt)
  above-IsDigest (left ∷ right ∷ level) = ((_, refl), above-IsDigest level)

  pub length-above : (level : List String) → 2 * length (above level) ≤ length level + 1
  length-above [] = omega arith
  length-above (left ∷ []) = omega arith
  length-above (left ∷ right ∷ level) = omega (arith, length-above level)

  pub map-IsDigest : (events : Ledger) → All (IsDigest h) (map (event_leaf_hash h) events)
  unfolding event_leaf_hash
  map-IsDigest [] = tt
  map-IsDigest (e ∷ events) = ((_, refl), map-IsDigest events)

  module _ (lawful : LawfulHashing h) where
    pub from_hex-IsDigest : (s : String) (d : IsDigest h s) → from_hex s ≡ some (h.sha256 d.0)
    from_hex-IsDigest s (x, e) = rw e (from_hex-sha256_hex lawful x)

    parent-IsDigest :
        (l r : String)
        → IsDigest h l
        → IsDigest h r
        → merkle_parent h l r ≡ some (sha256_hex h (pair_input l r))
    unfolding merkle_parent
    parent-IsDigest l r dl dr = rw (from_hex-IsDigest l dl, from_hex-IsDigest r dr)

    pub next_level-eq-above :
        (level : List String) → All (IsDigest h) level → next_level h level ≡ some (above level)
    unfolding next_level
    next_level-eq-above [] d = refl
    next_level-eq-above (l ∷ []) d = rw (parent-IsDigest l l d.0 d.0)
    next_level-eq-above (l ∷ r ∷ level) (dl, (dr, ds)) =
        rw (parent-IsDigest l r dl dr, next_level-eq-above level ds)

    pub reduce_level-total :
        (fuel : ℕ) (level : List String)
        → length level ≤ fuel
        → 0 < length level
        → All (IsDigest h) level
        → (root : String) × (reduce_level h fuel level ≡ some root) × IsDigest h root
    unfolding reduce_level
    reduce_level-total fuel [] f p d = absurd (omega arith)
    reduce_level-total fuel (x ∷ []) f p d = (x, refl, d.0)
    reduce_level-total zero (x ∷ y ∷ level) f p d = absurd (omega arith)
    reduce_level-total (suc fuel) (x ∷ y ∷ level) f p d =
        rw (next_level-eq-above (x ∷ y ∷ level) d) (
          reduce_level-total fuel (above (x ∷ y ∷ level))
            (omega (arith, length-above (x ∷ y ∷ level))) (omega arith)
            (above-IsDigest (x ∷ y ∷ level)))

    -- The Merkle root of one digest or more is computed, and is a digest.
    pub merkle_root-IsDigest :
        (x : String) (xs : List String)
        → All (IsDigest h) (x ∷ xs)
        → (r : String) × (merkle_root h (x ∷ xs) ≡ some (some r)) × IsDigest h r
    unfolding merkle_root
    merkle_root-IsDigest x xs d =
        let (root, e, g) =
          reduce_level-total (length (x ∷ xs)) (x ∷ xs) (omega arith) (omega arith) d in
        (root, rw e refl, g)

    -- The Merkle audit of any ledger returns a packet, the one with the root of the ledger's leaf
    -- hashes, and there is no root exactly when the ledger is empty.
    pub build_receipt_merkle_audit-total :
        (path : String) (period : Option String) (events : Ledger)
        → (root : Option String) × (merkle_root h (map (event_leaf_hash h) events) ≡ some root)
          × (build_receipt_merkle_audit h path period events
              ≡ some (merkle_packet h path period events root))
          × ((events ≡ []) ↔ (root ≡ none))
    unfolding build_receipt_merkle_audit merkle_root
    build_receipt_merkle_audit-total path period [] = (none, refl, refl, (λ e. refl, λ e. refl))
    build_receipt_merkle_audit-total path period (e ∷ events) =
        let (root, q, g) =
          merkle_root-IsDigest (event_leaf_hash h e) (map (event_leaf_hash h) events)
            (map-IsDigest (e ∷ events)) in
        (some root, q, rw q refl, (λ r. absurd (cc), λ r. absurd (cc)))
