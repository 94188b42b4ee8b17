-- ===== src/Prelude/Names.antt =====
-- Sets of texts as lists: Python's `set` operations and `sorted` on them.
use Prim.Native.Nat.{Ordering}
use Prim.Native.String.{String, compare}
use mathlib.Core.Path.{◌≡◌, refl}
use mathlib.Core.Logic.{◌⊎◌, inl, inr}
use mathlib.Core.Bool.{◌||◌}
use text.Mathlib.Text.{◌==◌ as str_eq}
use text.Mathlib.TextEquality.{path_by_compare}
use native.Mathlib.Omega.{arith}
use mathlib.Core.List.{List, [], ◌∷◌}
use codex_trading_engine.Prelude.Tests.{if◌then◌else◌}
use codex_trading_engine.Prelude.Lists.{contains}

-- A text put into a sorted list without repetition.
abbrev pub insert_name : String → List String → List String
insert_name k [] = k ∷ []
insert_name k (x ∷ xs) =
    let further = insert_name k xs in
    elim (compare k x) [
      | Ordering.lt ↦ k ∷ x ∷ xs
      | Ordering.eq ↦ x ∷ xs
      | Ordering.gt ↦ x ∷ further
    ]

-- `sorted(set(names))`
unfoldable pub sorted_set : List String → List String
sorted_set [] = []
sorted_set (x ∷ xs) = insert_name x (sorted_set xs)

-- `xs & ys` and `xs - ys`, in the order of `xs`.
unfoldable pub both : List String → List String → List String
both [] ys = []
both (x ∷ xs) ys = let rest = both xs ys in if contains ys x then x ∷ rest else rest

unfoldable pub without : List String → List String → List String
without [] ys = []
without (x ∷ xs) ys = let rest = without xs ys in if contains ys x then rest else x ∷ rest

-- Membership in a sorted set.
compare-cases :
    (s t : String)
    → (compare s t ≡ Ordering.lt) ⊎ (compare s t ≡ Ordering.eq) ⊎ (compare s t ≡ Ordering.gt)
compare-cases s t = by_case (compare s t) refl
  where
    by_case :
        (o : Ordering)
        → compare s t ≡ o
        → (compare s t ≡ Ordering.lt) ⊎ (compare s t ≡ Ordering.eq) ⊎ (compare s t ≡ Ordering.gt)
    by_case Ordering.lt e = inl e
    by_case Ordering.eq e = inr (inl e)
    by_case Ordering.gt e = inr (inr e)

contains-insert_name :
    (k : String) (xs : List String) (n : String)
    → contains (insert_name k xs) n ≡ (str_eq k n || contains xs n)
contains-insert_name k [] n = refl
contains-insert_name k (x ∷ xs) n = elim (compare-cases k x) [
  | inl e ↦ (let s : insert_name k (x ∷ xs) ≡ k ∷ x ∷ xs = rw (insert_name, e) refl in rw s refl)
  | inr (inl e) ↦
      (let s : insert_name k (x ∷ xs) ≡ x ∷ xs = rw (insert_name, e) refl in
        let same = path_by_compare k x e in rw (s, same) (ground arith))
  | inr (inr e) ↦
      (let s : insert_name k (x ∷ xs) ≡ x ∷ insert_name k xs = rw (insert_name, e) refl in
        let l = contains-insert_name k xs n in rw (s, l) (ground arith))
]

pub contains-sorted_set :
    (xs : List String) (n : String) → contains (sorted_set xs) n ≡ contains xs n
unfolding sorted_set
contains-sorted_set [] n = refl
contains-sorted_set (x ∷ xs) n =
    let l = contains-sorted_set xs n in
    let e = contains-insert_name x (sorted_set xs) n in rw (e, l) refl
