-- ===== src/Receipts/Merkle/Duplicate.antt =====
-- On the Merkle root and the number of the leaves.
use codex_trading_engine.Prelude.{
  ℕ, zero, suc, ◌+◌, ◌*◌, ◌%◌, ◌≤◌, String, ◌≡◌, refl, Option, none, some, List, [], ◌∷◌, ◌++◌,
  length, length-append, arith, Option-cases, inl, inr,
}
use codex_trading_engine.Receipts.Hashing.{Hashing}
use codex_trading_engine.Receipts.Merkle.{
  ◌>>=◌, merkle_parent, next_level, reduce_level, merkle_root,
}

module _ (h : Hashing) where
  next_level-twice :
      (xs : List String) (y : String)
      → length xs % 2 ≡ 0
      → next_level h (xs ++ y ∷ y ∷ []) ≡ next_level h (xs ++ y ∷ [])
  unfolding next_level
  next_level-twice [] y e = refl
  next_level-twice (x ∷ []) y e = absurd (omega arith)
  next_level-twice (a ∷ b ∷ xs) y e = rw (next_level-twice xs y (omega arith))

  impossible :
      {A : Type 0} (xs : List String) (ys : List A) (o : Option String)
      (f : String → List String → List A)
      → next_level h xs ≡ none
      → (do parent ← o; rest ← next_level h xs; some (f parent rest)) ≡ some ys
      → ⊥
  impossible xs ys o f n e = ground arith

  next_level-length :
      (xs ys : List String) → next_level h xs ≡ some ys → 2 * length ys ≤ length xs + 1
  unfolding next_level
  next_level-length [] ys e = ground arith
  next_level-length (x ∷ []) ys e = ground arith
  next_level-length (x ∷ y ∷ xs) ys e = elim (Option-cases (next_level h xs)) [
    | inl n ↦ absurd (impossible xs ys (merkle_parent h x y) ◌∷◌ n e)
    | inr (zs, n) ↦ ground (arith, next_level-length xs zs n)
  ]

  -- More rounds than a level needs change nothing.
  more_fuel :
      (f : ℕ) (xs : List String) → length xs ≤ f → reduce_level h (suc f) xs ≡ reduce_level h f xs
  unfolding reduce_level
  more_fuel f [] l = refl
  more_fuel f (x ∷ []) l = refl
  more_fuel zero (x ∷ y ∷ xs) l = absurd (omega arith)
  more_fuel (suc f) (x ∷ y ∷ xs) l = elim (Option-cases (next_level h (x ∷ y ∷ xs))) [
    | inl n ↦ rw n
    | inr (zs, n) ↦ rw n (more_fuel f zs (omega (arith, next_level-length (x ∷ y ∷ xs) zs n)))
  ]

  reduce_level-step :
      (f : ℕ) (x y : String) (xs : List String)
      → reduce_level h (suc f) (x ∷ y ∷ xs)
        ≡ (do up ← next_level h (x ∷ y ∷ xs); reduce_level h f up)
  unfolding reduce_level
  reduce_level-step f x y xs = refl

  -- A list of at least three leaves with an odd number of them has the root of the list with its
  -- last leaf written once more.
  pub merkle_root-duplicate :
      (a b : String) (xs : List String) (y : String)
      → length xs % 2 ≡ 0
      → merkle_root h (a ∷ b ∷ xs ++ y ∷ y ∷ []) ≡ merkle_root h (a ∷ b ∷ xs ++ y ∷ [])
  unfolding merkle_root
  merkle_root-duplicate a b xs y e =
      let same : next_level h (a ∷ b ∷ xs ++ y ∷ y ∷ []) ≡ next_level h (a ∷ b ∷ xs ++ y ∷ []) =
        next_level-twice (a ∷ b ∷ xs) y (omega arith) in
      let longer : length (xs ++ y ∷ y ∷ []) ≡ suc (length (xs ++ y ∷ [])) =
        omega (arith, length-append xs (y ∷ []), length-append xs (y ∷ y ∷ [])) in
      rw (reduce_level-step, reduce_level-step, same, longer)
        (elim (Option-cases (next_level h (a ∷ b ∷ xs ++ y ∷ []))) [
          | inl n ↦ rw n
          | inr (zs, n) ↦ rw (
            n,
            more_fuel (suc (length (xs ++ y ∷ []))) zs (omega (arith, next_level-length _ zs n)),
          )
        ])
