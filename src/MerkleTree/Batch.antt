-- ===== src/MerkleTree/Batch.antt =====
-- On `verify_batch` of eve_q/merkle_proofs.py.
use codex_trading_engine.Prelude.{
  ℕ, zero, suc, ◌<◌, String, ◌≡◌, refl, true, some, List, [], ◌∷◌, length, get_elem?, map, All, ok,
  arith,
}
use codex_trading_engine.Prelude.Int.{pos}
use codex_trading_engine.Receipts.Hashing.{Hashing}
use codex_trading_engine.MerkleTree.{build_tree, verify_batch}
use codex_trading_engine.MerkleTree.Inclusion.{proof-verify}

inside :
    (leaves : List String) (i : ℕ)
    → i < length leaves
    → (leaf : String) × (get_elem? leaves i ≡ some leaf)
inside [] i l = absurd (omega arith)
inside (x ∷ leaves) zero l = (x, refl)
inside (x ∷ leaves) (suc i) l = inside leaves i (omega arith)

module _ (h : Hashing) where
  -- In a tree that was built, every batch of indices of leaves verifies.
  pub verify_batch-true :
      (leaves : List String) (tree : List (List String)) (indices : List ℕ)
      → build_tree h leaves ≡ some tree
      → All (λ i. i < length leaves) indices
      → verify_batch h leaves tree (map pos indices) ≡ ok true
  unfolding verify_batch
  verify_batch-true leaves tree [] e a = refl
  verify_batch-true leaves tree (i ∷ indices) e (l, a) =
      let (leaf, g) = inside leaves i l in
      let (p, q, _, _, v) = proof-verify h leaves tree i leaf e g in
      rw (verify_batch, q, v) (verify_batch-true leaves tree indices e a)
