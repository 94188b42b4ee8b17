-- ===== src/MerkleTree.antt =====
-- eve_q/merkle_proofs.py: the Merkle tree over a batch of leaves, and inclusion proofs. An odd last
-- hash goes up unchanged. `none` is the `ValueError` of `bytes.fromhex`.
pub mod Route
pub mod Inclusion
pub mod Batch
use Prim.Native.String.{count}
use codex_trading_engine.Prelude.{
  ℕ, zero, suc, ◌+◌, ◌-◌, ◌*◌, ◌/◌, ◌%◌, ◌^◌, String, Bool, true, false, Option, none, some, List,
  [], ◌∷◌, ◌++◌, length, get_elem?, str_eq, ◌==◌, ltb, if◌then◌else◌, Result, ok, err,
}
use codex_trading_engine.Prelude.Int.{ℤ, pos, negsuc}
use codex_trading_engine.Receipts.Hex.{from_hex, codes}
use codex_trading_engine.Receipts.Hashing.{Bytes, Hashing, sha256_hex}
use codex_trading_engine.Receipts.Merkle.{◌>>=◌}

pub record MerkleProof : Type 0 where
  pub leaf_hash : String
  pub path : List String
  pub indices : ℕ
  pub root_hash : String

-- The UTF-8 bytes of one code point, and of a text.
abbrev utf8 : ℕ → Bytes
utf8 c =
    if ltb c 128
    then c ∷ []
    else if ltb c 2048
    then (192 + c / 64) ∷ (128 + c % 64) ∷ []
    else if ltb c 65536
    then (224 + c / 4096) ∷ (128 + c / 64 % 64) ∷ (128 + c % 64) ∷ []
    else (240 + c / 262144) ∷ (128 + c / 4096 % 64) ∷ (128 + c / 64 % 64) ∷ (128 + c % 64) ∷ []

encode_codes : List ℕ → Bytes
encode_codes [] = []
encode_codes (c ∷ cs) = utf8 c ++ encode_codes cs

unfoldable pub encode : String → Bytes
unfolding encode_codes
encode s = encode_codes (codes s)

-- `n |= 1 << k`
abbrev pub set_bit : ℕ → ℕ → ℕ
set_bit n k = if n / 2 ^ k % 2 == 1 then n else n + 2 ^ k

-- `n ^ 1`
abbrev pub flip_low : ℕ → ℕ
flip_low n = if n % 2 == 0 then n + 1 else n - 1

pub data ProofError : Type 0 where
  index_error value_error : ProofError

module _ (h : Hashing) where
  unfoldable pub hash_pair : String → String → Option String
  hash_pair left right = do l ← from_hex left; r ← from_hex right; some (sha256_hex h (l ++ r))

  -- The conditional takes in the prefix: a value of odd length is hashed without `LEAF`.
  unfoldable pub hash_leaf : String → Option String
  hash_leaf value =
      if count value % 2 == 0
      then (do bytes ← from_hex value; some (sha256_hex h (codes "LEAF" ++ bytes)))
      else some (sha256_hex h (encode value))

  unfoldable pub hash_leaves : List String → Option (List String)
  hash_leaves [] = some []
  hash_leaves (leaf ∷ leaves) = do x ← hash_leaf leaf; xs ← hash_leaves leaves; some (x ∷ xs)

  -- One round of the `while`.
  unfoldable pub next_level : List String → Option (List String)
  next_level [] = some []
  next_level (x ∷ []) = some (x ∷ [])
  next_level (x ∷ y ∷ level) = do
    parent ← hash_pair x y
    rest ← next_level level
    some (parent ∷ rest)

  -- The levels from this one to the last, at most `fuel` rounds.
  unfoldable pub build_levels : ℕ → List String → Option (List (List String))
  build_levels fuel [] = some ([] ∷ [])
  build_levels fuel (x ∷ []) = some ((x ∷ []) ∷ [])
  build_levels zero (x ∷ y ∷ level) = some ((x ∷ y ∷ level) ∷ [])
  build_levels (suc fuel) (x ∷ y ∷ level) = do
    above ← next_level (x ∷ y ∷ level)
    tree ← build_levels fuel above
    some ((x ∷ y ∷ level) ∷ tree)

  -- A level is at most half the one below (rounded up), so its length is fuel enough.
  unfoldable pub build_tree : List String → Option (List (List String))
  build_tree leaves = do level ← hash_leaves leaves; build_levels (length level) level

  -- The first hash of the last level.
  unfoldable pub root : List (List String) → String
  root [] = sha256_hex h []
  root ([] ∷ []) = sha256_hex h []
  root ((x ∷ level) ∷ []) = x
  root (level ∷ above ∷ tree) = root (above ∷ tree)

  -- The loop of `proof` over all levels but the last, with its three variables.
  unfoldable pub proof_loop : List (List String) → ℕ → List String → ℕ → List String × ℕ
  proof_loop [] current path indices = (path, indices)
  proof_loop (level ∷ []) current path indices = (path, indices)
  proof_loop (level ∷ above ∷ tree) current path indices =
      let (path', indices') = elim (get_elem? level (flip_low current)) as (λ o. List String × ℕ) [
        | none ↦ (path, indices)
        | some sibling ↦ (
          path ++ sibling ∷ [],
          if current % 2 == 1 then set_bit indices (length path) else indices,
        )
      ] in
      proof_loop (above ∷ tree) (current / 2) path' indices'

  abbrev pub proof_at : List (List String) → String → ℕ → MerkleProof
  proof_at tree leaf_hash i =
      let (path, indices) = proof_loop tree i [] 0 in
      record { leaf_hash = leaf_hash; path = path; indices = indices; root_hash = root tree }

  -- `MerkleTree(leaves).proof(leaf_index)`, the tree being built.
  unfoldable pub proof : List String → List (List String) → ℤ → Result ProofError MerkleProof
  proof leaves tree (negsuc n) = err index_error
  proof leaves tree (pos i) = elim (get_elem? leaves i) [
    | none ↦ err index_error
    | some leaf ↦ elim (hash_leaf leaf) [
      | none ↦ err value_error
      | some leaf_hash ↦ ok (proof_at tree leaf_hash i)
    ]
  ]

  -- The loop of `verify`, from path position `i`.
  unfoldable pub verify_loop : ℕ → ℕ → String → List String → Option String
  verify_loop indices i current [] = some current
  verify_loop indices i current (sibling ∷ path) =
      elim (if indices / 2 ^ i % 2 == 1
        then hash_pair sibling current
        else hash_pair current sibling) [
          | none ↦ none
          | some above ↦ verify_loop indices (i + 1) above path
        ]

  unfoldable pub verify : MerkleProof → Option Bool
  verify p = do
    current ← verify_loop p.indices 0 p.leaf_hash p.path
    some (str_eq current p.root_hash)

  -- `verify_batch`, in the order of the indices; the first proof that does not verify ends it.
  unfoldable pub verify_batch : List String → List (List String) → List ℤ → Result ProofError Bool
  verify_batch leaves tree [] = ok true
  verify_batch leaves tree (i ∷ indices) =
      let rest = verify_batch leaves tree indices in
      elim (proof leaves tree i) [
        | err e ↦ err e
        | ok p ↦ elim (verify p) [ none ↦ err value_error | some b ↦ if b then rest else ok false ]
      ]
