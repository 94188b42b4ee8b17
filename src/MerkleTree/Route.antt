-- ===== src/MerkleTree/Route.antt =====
-- The loops of `proof` and `verify` against a plain description: the route from a leaf to the root
-- as a list of siblings, each with the side on which it stands.
use native.Mathlib.Nat.{div-div-eq-div-mul, pow-suc, div-eq_of_lt}
use codex_trading_engine.Prelude.{
  ℕ, suc, ◌+◌, ◌*◌, ◌/◌, ◌%◌, ◌^◌, ◌<◌, String, ◌≡◌, refl, ◌∙◌, Bool, true, false, Option, none,
  some, List, [], ◌∷◌, ◌++◌, append-nil, append_assoc, length, length-append, get_elem?, ◌==◌,
  if◌then◌else◌, arith, Bool-cases, Option-cases, inl, inr,
}
use codex_trading_engine.Receipts.Hashing.{Hashing}
use codex_trading_engine.MerkleTree.{set_bit, flip_low, hash_pair, proof_loop, verify_loop}

-- `true`: the sibling is the left one.
abbrev pub Route : Type 0
Route = List (String × Bool)

abbrev pub hop : Option String → ℕ → Route
hop none i = []
hop (some sibling) i = (sibling, i % 2 == 1) ∷ []

abbrev pub route : List (List String) → ℕ → Route
route [] i = []
route (level ∷ []) i = []
route (level ∷ above ∷ tree) i =
    hop (get_elem? level (flip_low i)) i ++ route (above ∷ tree) (i / 2)

abbrev pub siblings : Route → List String
siblings [] = []
siblings ((s, b) ∷ r) = s ∷ siblings r

-- The sides as a number, the first in its lowest bit.
abbrev pub sides : Route → ℕ
sides [] = 0
sides ((s, b) ∷ r) = (if b then 1 else 0) + 2 * sides r

-- A route climbed from a hash.
abbrev pub climb : Hashing → String → Route → Option String
climb h x [] = some x
climb h x ((s, b) ∷ r) = elim (if b then hash_pair h s x else hash_pair h x s) [
  | none ↦ none
  | some y ↦ climb h y r
]

double_pow : (k : ℕ) → 2 ^ suc k ≡ 2 * 2 ^ k
double_pow k = rw pow-suc (omega arith)

-- A bit above all that are set is set by adding its weight.
set_bit-add : (n k : ℕ) → n < 2 ^ k → set_bit n k ≡ n + 2 ^ k
set_bit-add n k lt = let e : n / 2 ^ k ≡ 0 = div-eq_of_lt lt in rw e refl

pow_longer : (path : List String) (s : String) → 2 ^ length (path ++ s ∷ []) ≡ 2 * 2 ^ length path
pow_longer path s =
    let e : length (path ++ s ∷ []) ≡ suc (length path) =
      omega (arith, length-append path (s ∷ [])) in
    rw e (double_pow (length path))

below_longer :
    (path : List String) (s : String) (n : ℕ)
    → n < 2 ^ length path
    → n + 2 ^ length path < 2 ^ length (path ++ s ∷ [])
below_longer path s n lt = omega (arith, pow_longer path s)

-- One hop more, on side `b`, in the two variables of the loop.
longer :
    (path : List String) (s : String) (rest : List String) (m n b v : ℕ)
    → m ≡ n + 2 ^ length path * b
    → ◌≡◌ {A = List String × ℕ}
        ((path ++ s ∷ []) ++ rest, m + 2 ^ length (path ++ s ∷ []) * v)
        (path ++ s ∷ rest, n + 2 ^ length path * (b + 2 * v))
longer path s rest m n b v q =
    let e : m + 2 ^ length (path ++ s ∷ []) * v ≡ n + 2 ^ length path * (b + 2 * v) =
      rw pow_longer (omega arith) in
    rw (e, append_assoc) refl

-- The loop of `proof` collects the route: its siblings, and its sides above the bits already set.
pub proof_loop-route :
    (h : Hashing) (tree : List (List String)) (i : ℕ) (path : List String) (indices : ℕ)
    → indices < 2 ^ length path
    → proof_loop h tree i path indices
      ≡ (path ++ siblings (route tree i), indices + 2 ^ length path * sides (route tree i))
unfolding proof_loop
proof_loop-route h [] i path n lt =
    let e : n + 2 ^ length path * 0 ≡ n = omega arith in rw (append-nil, e) refl
proof_loop-route h (level ∷ []) i path n lt =
    let e : n + 2 ^ length path * 0 ≡ n = omega arith in rw (append-nil, e) refl
proof_loop-route h (level ∷ above ∷ tree) i path n lt =
    elim (Option-cases (get_elem? level (flip_low i))) [
      | inl e ↦ rw e (proof_loop-route h (above ∷ tree) (i / 2) path n lt)
      | inr (s, e) ↦ elim (Bool-cases (i % 2 == 1)) [
        | inl p ↦
            rw (e, p, set_bit-add n (length path) lt)
              (proof_loop-route h (above ∷ tree) (i / 2) (path ++ s ∷ []) (n + 2 ^ length path)
                  (below_longer path s n lt)
                ∙ longer path s (siblings (route (above ∷ tree) (i / 2))) (n + 2 ^ length path) n 1
                    (sides (route (above ∷ tree) (i / 2))) (omega arith))
        | inr p ↦
            rw (e, p)
              (proof_loop-route h (above ∷ tree) (i / 2) (path ++ s ∷ []) n
                  (omega (arith, below_longer path s n lt))
                ∙ longer path s (siblings (route (above ∷ tree) (i / 2))) n n 0
                    (sides (route (above ∷ tree) (i / 2))) (omega arith))
      ]
    ]

next_bit : (n i : ℕ) → n / 2 ^ (i + 1) ≡ n / 2 ^ i / 2
next_bit n i = let e : i + 1 ≡ suc i = omega arith in rw (e, pow-suc, ← div-div-eq-div-mul) refl

climb_on :
    (o : Option String) {f g : String → Option String}
    → ((y : String) → f y ≡ g y)
    → elim o as (λ x. Option String) [ none ↦ none | some y ↦ f y ]
      ≡ elim o as (λ x. Option String) [ none ↦ none | some y ↦ g y ]
climb_on none h = refl
climb_on (some y) h = h y

-- The loop of `verify` climbs the route that its path and the bits from `i` on give.
pub verify_loop-climb :
    (h : Hashing) (indices i : ℕ) (x : String) (r : Route)
    → indices / 2 ^ i ≡ sides r
    → verify_loop h indices i x (siblings r) ≡ climb h x r
unfolding verify_loop
verify_loop-climb h n i x [] e = refl
verify_loop-climb h n i x ((s, true) ∷ r) e =
    let bit : (n / 2 ^ i % 2 == 1) ≡ true = ground (arith, next_bit n i) in
    let up : n / 2 ^ (i + 1) ≡ sides r = omega (arith, next_bit n i) in
    rw (bit, verify_loop) (climb_on (hash_pair h s x) (λ y. verify_loop-climb h n (i + 1) y r up))
verify_loop-climb h n i x ((s, false) ∷ r) e =
    let bit : (n / 2 ^ i % 2 == 1) ≡ false = ground (arith, next_bit n i) in
    let up : n / 2 ^ (i + 1) ≡ sides r = omega (arith, next_bit n i) in
    rw (bit, verify_loop) (climb_on (hash_pair h x s) (λ y. verify_loop-climb h n (i + 1) y r up))
