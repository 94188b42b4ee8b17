-- ===== src/Tests/Trees.antt =====
-- Proofs of inclusion in a tree over three leaves.
use codex_trading_engine.Prelude.{
  String, ◌≡◌, refl, true, none, some, List, [], ◌∷◌, map, ok, err, arith,
}
use codex_trading_engine.Prelude.Int.{pos, negsuc}
use codex_trading_engine.Receipts.Hex.{to_hex, from_hex}
use codex_trading_engine.Receipts.Hashing.{sha256_hex}
use codex_trading_engine.MerkleTree.{
  MerkleProof, index_error, encode, hash_pair, hash_leaf, hash_leaves, next_level, build_levels,
  build_tree, root, proof, verify, verify_batch,
}
use codex_trading_engine.MerkleTree.Inclusion.{proof-verify, proof-index_error}
use codex_trading_engine.MerkleTree.Batch.{verify_batch-true}
use codex_trading_engine.Tests.World.{toy}

abbrev cids : List String
cids = "00ff" ∷ "abc" ∷ "0102" ∷ []

abbrev tree : List (List String)
tree = elim (build_tree toy cids) [ none ↦ [] | some t ↦ t ]

proof-verify_example :
    (p : MerkleProof) × (proof toy cids tree (pos 2) ≡ ok p)
    × (hash_leaf toy "0102" ≡ some p.leaf_hash)
    × (p.root_hash ≡ root toy tree)
    × (verify toy p ≡ some true)
unfolding build_tree build_levels next_level hash_leaves hash_leaf hash_pair sha256_hex to_hex
    from_hex encode
proof-verify_example = proof-verify toy cids tree 2 "0102" refl refl

outside_the_leaves :
    (proof toy cids tree (negsuc 0) ≡ err index_error)
    × (proof toy cids tree (pos 3) ≡ err index_error)
outside_the_leaves = proof-index_error toy cids tree 3 0 (omega arith)

verify_batch-true_example : verify_batch toy cids tree (map pos (2 ∷ 0 ∷ [])) ≡ ok true
unfolding build_tree build_levels next_level hash_leaves hash_leaf hash_pair sha256_hex to_hex
    from_hex encode
verify_batch-true_example =
    verify_batch-true toy cids tree (2 ∷ 0 ∷ []) refl (omega arith, (omega arith, tt))
