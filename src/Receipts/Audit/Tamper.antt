-- ===== src/Receipts/Audit/Tamper.antt =====
-- On audits of a ledger from which an entry was taken.
use native.Mathlib.Nat.{one-le-pow}
use codex_trading_engine.Prelude.{
  ℕ, suc, ◌+◌, ◌*◌, ◌^◌, ◌<◌, String, ◌≡◌, ◌≢◌, true, [], ◌∷◌, ◌++◌, length, length-append,
  append_assoc, arith, Option-cases, inl, inr,
}
use codex_trading_engine.Prelude.Int.{ℤ, pos}
use codex_trading_engine.Value.{Value, null, bool, Dict, get, is_num, number, num_eq}
use codex_trading_engine.Receipts.Seal.{Ledger}
use codex_trading_engine.Receipts.Audit.{audit_receipt_ledger}
use codex_trading_engine.Receipts.Audit.Chain.{IsChain, valid-IsChain}

scaled_unique : (a b p : ℕ) → 0 < p → a * p ≡ b * p → a ≡ b
scaled_unique a b p h e = grind arith

num_eq_unique :
    (v : ℤ × ℕ) (m n : ℕ) → num_eq v (pos m, 0) ≡ true → num_eq v (pos n, 0) ≡ true → m ≡ n
num_eq_unique (v, k) m n h g =
    let p : 0 < 2 ^ k = one-le-pow k 2 (omega arith) in scaled_unique m n (2 ^ k) p (ground (arith))

-- A value equals one number at most.
is_num_unique : (v : Value) (m n : ℕ) → is_num v m ≡ true → is_num v n ≡ true → m ≡ n
is_num_unique v m n h g = elim (Option-cases (number v)) [
  | inl e ↦ cc
  | inr (x, e) ↦ num_eq_unique x m n (rw e at h) (rw e at g)
]

IsChain-append :
    (k : ℕ) (p : Value) (xs : Ledger) (e : Dict) (ys : Ledger)
    → IsChain k p (xs ++ e ∷ ys)
    → is_num (get e "sequence") (k + length xs) ≡ true
IsChain-append k p [] e ys (l, c) = let q : k + 0 ≡ k = omega arith in rw q l.numbered
IsChain-append k p (x ∷ xs) e ys (l, c) =
    let q : k + suc (length xs) ≡ k + 1 + length xs = omega arith in
    rw q (IsChain-append (k + 1) (get x "cid") xs e ys c)

-- No entry but the last can be removed from a valid ledger so that the audit stays valid; read
-- the other way round, no entry can be slipped in before another.
pub audit-detects_removal :
    (path : String) (xs : Ledger) (e y : Dict) (ys : Ledger)
    → get (audit_receipt_ledger path (xs ++ e ∷ y ∷ ys)) "valid" ≡ bool true
    → get (audit_receipt_ledger path (xs ++ y ∷ ys)) "valid" ≢ bool true
audit-detects_removal path xs e y ys h g =
    let whole : IsChain 1 null ((xs ++ e ∷ []) ++ y ∷ ys) =
      rw append_assoc (valid-IsChain path (xs ++ e ∷ y ∷ ys) h) in
    let cut : IsChain 1 null (xs ++ y ∷ ys) = valid-IsChain path (xs ++ y ∷ ys) g in
    let at_cut : is_num (get y "sequence") (1 + length xs) ≡ true =
      IsChain-append 1 null xs y ys cut in
    let at_whole : is_num (get y "sequence") (1 + length (xs ++ e ∷ [])) ≡ true =
      IsChain-append 1 null (xs ++ e ∷ []) y ys whole in
    let same : 1 + length xs ≡ 1 + length (xs ++ e ∷ []) =
      is_num_unique (get y "sequence") _ _ at_cut at_whole in
    omega (arith, length-append xs (e ∷ []))
