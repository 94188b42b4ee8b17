-- ===== src/Receipts/Merkle/Binding.antt =====
-- On two lists of leaves with one Merkle root. A collision is two different texts with one digest.
use codex_trading_engine.Prelude.{
  ℕ, zero, suc, String, ◌≡◌, ◌≢◌, refl, sym, ap, ◌∙◌, subst, Option, none, some, List, [], ◌∷◌,
  ◌++◌, length, All, arith, ◌⊎◌, inl, inr,
}
use codex_trading_engine.Receipts.Hex.{from_hex, to_hex}
use codex_trading_engine.Receipts.Hashing.{
  Bytes, Hashing, sha256_hex, LawfulHashing, from_hex-sha256_hex,
}
use codex_trading_engine.Receipts.Merkle.{◌>>=◌, reduce_level, merkle_root}
use codex_trading_engine.Receipts.Merkle.Digests.{
  IsDigest, pair_input, above, above-IsDigest, from_hex-IsDigest, next_level-eq-above,
}

abbrev pub In : Bytes → List Bytes → Type 0
In x [] = ⊥
In x (y ∷ ys) = (x ≡ y) ⊎ In x ys

In-left : (x : Bytes) (xs ys : List Bytes) → In x xs → In x (xs ++ ys)
In-left x [] ys i = absurd i
In-left x (z ∷ xs) ys (inl e) = inl e
In-left x (z ∷ xs) ys (inr i) = inr (In-left x xs ys i)

In-right : (x : Bytes) (xs ys : List Bytes) → In x ys → In x (xs ++ ys)
In-right x [] ys i = i
In-right x (z ∷ xs) ys i = inr (In-right x xs ys i)

-- What is hashed to get from a level to the one above, and from the leaves to the root.
abbrev pub level_inputs : List String → List Bytes
level_inputs [] = []
level_inputs (l ∷ []) = pair_input l l ∷ []
level_inputs (l ∷ r ∷ level) = pair_input l r ∷ level_inputs level

append_inj : (a b c d : Bytes) → length a ≡ length c → a ++ b ≡ c ++ d → (a ≡ c) × (b ≡ d)
append_inj [] b [] d n e = (refl, e)
append_inj [] b (x ∷ c) d n e = absurd (omega arith)
append_inj (x ∷ a) b [] d n e = absurd (omega arith)
append_inj (x ∷ a) b (y ∷ c) d n e =
    let step : (x ≡ y) × (a ++ b ≡ c ++ d) = ground arith in
    let (p, q) = append_inj a b c d (omega arith) step.1 in ground arith

-- Equality of byte strings is decided.
Bytes-cases : (x y : Bytes) → (x ≡ y) ⊎ (x ≢ y)
Bytes-cases [] [] = inl refl
Bytes-cases [] (b ∷ y) = inr (λ e. cc)
Bytes-cases (a ∷ x) [] = inr (λ e. cc)
Bytes-cases (a ∷ x) (b ∷ y) = ground (arith, Bytes-cases x y)

root-inversion :
    (o : Option String) (r : Option String)
    → (do root ← o; some (some root)) ≡ some r
    → (u : String) × (o ≡ some u) × (r ≡ some u)
root-inversion none r e = cc
root-inversion (some u) r e = (u, refl, cc)

module _ (h : Hashing) where
  abbrev pub root_inputs : ℕ → List String → List Bytes
  root_inputs fuel [] = []
  root_inputs fuel (x ∷ []) = []
  root_inputs zero (x ∷ y ∷ level) = []
  root_inputs (suc fuel) (x ∷ y ∷ level) =
      level_inputs (x ∷ y ∷ level) ++ root_inputs fuel (above h (x ∷ y ∷ level))

  length-above_eq :
      (xs ys : List String) → length xs ≡ length ys → length (above h xs) ≡ length (above h ys)
  length-above_eq [] [] n = refl
  length-above_eq [] (y ∷ ys) n = absurd (omega arith)
  length-above_eq (x ∷ xs) [] n = absurd (omega arith)
  length-above_eq (x ∷ []) (y ∷ []) n = refl
  length-above_eq (x ∷ []) (y ∷ z ∷ ys) n = absurd (omega arith)
  length-above_eq (x ∷ z ∷ xs) (y ∷ []) n = absurd (omega arith)
  length-above_eq (x ∷ z ∷ xs) (y ∷ w ∷ ys) n = omega (arith, length-above_eq xs ys (omega arith))

  -- Two different texts of the two lists with one digest.
  pub record Collision (xs ys : List Bytes) : Type 0 where
    pub left : Bytes
    pub right : Bytes
    pub left_hashed : In left xs
    pub right_hashed : In right ys
    pub differ : left ≢ right
    pub same_digest : h.sha256 left ≡ h.sha256 right

  widen :
      (a b c d : List Bytes)
      → ((x : Bytes) → In x a → In x c)
      → ((x : Bytes) → In x b → In x d)
      → Collision a b
      → Collision c d
  widen a b c d f g k = record {
    left = k.left;
    right = k.right;
    left_hashed = f k.left k.left_hashed;
    right_hashed = g k.right k.right_hashed;
    differ = k.differ;
    same_digest = k.same_digest;
  }

  module _ (lawful : LawfulHashing h) where
    digest-inj : (x y : Bytes) → sha256_hex h x ≡ sha256_hex h y → h.sha256 x ≡ h.sha256 y
    digest-inj x y e =
        cc (from_hex-sha256_hex lawful x, from_hex-sha256_hex lawful y, ap from_hex e)

    same_hex :
        (l m : String) (dl : IsDigest h l) (dm : IsDigest h m)
        → h.sha256 dl.0 ≡ h.sha256 dm.0
        → l ≡ m
    unfolding sha256_hex
    same_hex l m (x, e) (y, f) g = e ∙ (ap to_hex g ∙ sym f)

    pair-inj :
        (l r l' r' : String)
        → IsDigest h l
        → IsDigest h r
        → IsDigest h l'
        → IsDigest h r'
        → pair_input l r ≡ pair_input l' r'
        → (l ≡ l') × (r ≡ r')
    pair-inj l r l' r' dl dr dl' dr' e =
        let same : h.sha256 dl.0 ++ h.sha256 dr.0 ≡ h.sha256 dl'.0 ++ h.sha256 dr'.0 =
          rw
            (
              from_hex-IsDigest h lawful l dl,
              from_hex-IsDigest h lawful r dr,
              from_hex-IsDigest h lawful l' dl',
              from_hex-IsDigest h lawful r' dr',
            )
            at e in
        let n : length (h.sha256 dl.0) ≡ length (h.sha256 dl'.0) =
          lawful.digest_length dl.0 ∙ sym (lawful.digest_length dl'.0) in
        let (a, b) = append_inj _ _ _ _ n same in (same_hex l l' dl dl' a, same_hex r r' dr dr' b)

    -- One hash that agrees: the pairs are equal or they collide.
    pair-binding :
        (x y : Bytes) (xs ys : List Bytes)
        → In x xs
        → In y ys
        → sha256_hex h x ≡ sha256_hex h y
        → (x ≡ y) ⊎ Collision xs ys
    pair-binding x y xs ys i j e = elim (Bytes-cases x y) [
      | inl same ↦ inl same
      | inr other ↦ inr (record {
        left = x;
        right = y;
        left_hashed = i;
        right_hashed = j;
        differ = other;
        same_digest = digest-inj x y e;
      })
    ]

    above-binding :
        (xs ys : List String)
        → length xs ≡ length ys
        → All (IsDigest h) xs
        → All (IsDigest h) ys
        → above h xs ≡ above h ys
        → (xs ≡ ys) ⊎ Collision (level_inputs xs) (level_inputs ys)
    above-binding [] [] n dx dy e = inl refl
    above-binding [] (y ∷ ys) n dx dy e = absurd (omega arith)
    above-binding (x ∷ xs) [] n dx dy e = absurd (omega arith)
    above-binding (x ∷ []) (y ∷ z ∷ ys) n dx dy e = absurd (omega arith)
    above-binding (x ∷ z ∷ xs) (y ∷ []) n dx dy e = absurd (omega arith)
    above-binding (x ∷ []) (y ∷ []) n dx dy e =
        elim (pair-binding (pair_input x x) (pair_input y y) (pair_input x x ∷ [])
          (pair_input y y ∷ []) (inl refl) (inl refl) (cc)) [
            | inl same ↦ (let (p, _) = pair-inj x x y y dx.0 dx.0 dy.0 dy.0 same in inl (cc))
            | inr k ↦ inr k
          ]
    above-binding (a ∷ b ∷ xs) (c ∷ d ∷ ys) n (da, (db, dx)) (dc, (dd, dy)) e =
        elim (pair-binding (pair_input a b) (pair_input c d) (level_inputs (a ∷ b ∷ xs))
          (level_inputs (c ∷ d ∷ ys)) (inl refl) (inl refl) (cc)) [
            | inr k ↦ inr k
            | inl same ↦ elim (above-binding xs ys (omega arith) dx dy (cc)) [
              | inr k ↦ inr (widen _ _ _ _ (λ x i. inr i) (λ x i. inr i) k)
              | inl rest ↦ (let (p, q) = pair-inj a b c d da db dc dd same in inl (cc))
            ]
          ]

    reduce_level-binding :
        (fuel : ℕ) (xs ys : List String) {r : String}
        → length xs ≡ length ys
        → All (IsDigest h) xs
        → All (IsDigest h) ys
        → reduce_level h fuel xs ≡ some r
        → reduce_level h fuel ys ≡ some r
        → (xs ≡ ys) ⊎ Collision (root_inputs fuel xs) (root_inputs fuel ys)
    unfolding reduce_level
    reduce_level-binding fuel [] [] n dx dy e f = inl refl
    reduce_level-binding fuel [] (y ∷ ys) n dx dy e f = absurd (omega arith)
    reduce_level-binding fuel (x ∷ xs) [] n dx dy e f = absurd (omega arith)
    reduce_level-binding fuel (x ∷ []) (y ∷ z ∷ ys) n dx dy e f = absurd (omega arith)
    reduce_level-binding fuel (x ∷ z ∷ xs) (y ∷ []) n dx dy e f = absurd (omega arith)
    reduce_level-binding fuel (x ∷ []) (y ∷ []) n dx dy e f = inl (cc)
    reduce_level-binding zero (a ∷ b ∷ xs) (c ∷ d ∷ ys) n dx dy e f = cc
    reduce_level-binding (suc fuel) (a ∷ b ∷ xs) (c ∷ d ∷ ys) n dx dy e f =
        let up = above h (a ∷ b ∷ xs) in
        let up' = above h (c ∷ d ∷ ys) in
        elim (reduce_level-binding fuel up up' (length-above_eq (a ∷ b ∷ xs) (c ∷ d ∷ ys) n)
          (above-IsDigest h (a ∷ b ∷ xs)) (above-IsDigest h (c ∷ d ∷ ys))
          (rw (next_level-eq-above h lawful (a ∷ b ∷ xs) dx) at e)
          (rw (next_level-eq-above h lawful (c ∷ d ∷ ys) dy) at f)) [
            | inr k ↦ inr (
                widen _ _ _ _ (λ x. In-right x (level_inputs (a ∷ b ∷ xs)) (root_inputs fuel up))
                  (λ x. In-right x (level_inputs (c ∷ d ∷ ys)) (root_inputs fuel up')) k)
            | inl same ↦ elim (above-binding (a ∷ b ∷ xs) (c ∷ d ∷ ys) n dx dy same) [
              | inl done ↦ inl done
              | inr k ↦ inr (
                  widen _ _ _ _ (λ x. In-left x (level_inputs (a ∷ b ∷ xs)) (root_inputs fuel up))
                    (λ x. In-left x (level_inputs (c ∷ d ∷ ys)) (root_inputs fuel up')) k)
            ]
          ]

    -- Two lists of as many digests with the same Merkle root are equal, or two different texts that
    -- are hashed on the way to the two roots have one digest.
    pub merkle_root-binding :
        (xs ys : List String) (r : Option String)
        → length xs ≡ length ys
        → All (IsDigest h) xs
        → All (IsDigest h) ys
        → merkle_root h xs ≡ some r
        → merkle_root h ys ≡ some r
        → (xs ≡ ys) ⊎ Collision (root_inputs (length xs) xs) (root_inputs (length ys) ys)
    unfolding merkle_root
    merkle_root-binding [] [] r n dx dy e f = inl refl
    merkle_root-binding [] (y ∷ ys) r n dx dy e f = absurd (omega arith)
    merkle_root-binding (x ∷ xs) [] r n dx dy e f = absurd (omega arith)
    merkle_root-binding (x ∷ xs) (y ∷ ys) r n dx dy e f =
        let (u, eu, ru) = root-inversion (reduce_level h (length (x ∷ xs)) (x ∷ xs)) r e in
        let (v, ev, rv) = root-inversion (reduce_level h (length (y ∷ ys)) (y ∷ ys)) r f in
        let uv : v ≡ u = cc in
        let m : length ys ≡ length xs = omega arith in
        subst
          (λ k.
            (x ∷ xs ≡ y ∷ ys)
            ⊎ Collision (root_inputs (suc (length xs)) (x ∷ xs)) (root_inputs (suc k) (y ∷ ys)))
          (sym m)
          (reduce_level-binding (suc (length xs)) (x ∷ xs) (y ∷ ys) n dx dy eu
            (subst (λ k. reduce_level h (suc k) (y ∷ ys) ≡ some u) m (ev ∙ ap some uv)))
