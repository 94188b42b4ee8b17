-- ===== src/MerkleTree/Inclusion.antt =====
-- On `proof` and `verify` of eve_q/merkle_proofs.py together, over a tree that was built.
use codex_trading_engine.Prelude.{
  ℕ, zero, suc, ◌+◌, ◌*◌, ◌/◌, ◌%◌, ◌^◌, ◌≤◌, String, ◌≡◌, refl, ◌∙◌, true, Option, none, some,
  List, [], ◌∷◌, ◌++◌, length, get_elem?, ◌==◌, if◌then◌else◌, arith, eq_refl, ok, err,
}
use codex_trading_engine.Prelude.Int.{pos, negsuc}
use codex_trading_engine.Receipts.Hashing.{Hashing}
use codex_trading_engine.Receipts.Merkle.{◌>>=◌}
use codex_trading_engine.MerkleTree.{
  index_error, MerkleProof, flip_low, hash_pair, hash_leaf, hash_leaves, next_level, build_levels,
  build_tree, root, proof_at, proof, verify,
}
use codex_trading_engine.MerkleTree.Route.{
  Route, hop, route, sides, climb, proof_loop-route, verify_loop-climb,
}

bind-some :
    {A B : Type 0} (o : Option A) (f : A → Option B) {b : B}
    → (o >>= f) ≡ some b
    → (a : A) × (o ≡ some a) × (f a ≡ some b)
bind-some none f e = cc
bind-some (some a) f e = (a, refl, e)

flip_low_two : (i : ℕ) → flip_low (suc (suc i)) ≡ suc (suc (flip_low i))
flip_low_two i = ground arith

hop_side : (o : Option String) (i j : ℕ) → (i % 2 == 1) ≡ (j % 2 == 1) → hop o i ≡ hop o j
hop_side none i j e = refl
hop_side (some s) i j e = rw e refl

hop_two :
    (a b : String) (level : List String) (i : ℕ)
    → hop (get_elem? (a ∷ b ∷ level) (flip_low (suc (suc i)))) (suc (suc i))
      ≡ hop (get_elem? level (flip_low i)) i
hop_two a b level i =
    let f : flip_low (suc (suc i)) ≡ suc (suc (flip_low i)) = flip_low_two i in
    let s : (suc (suc i) % 2 == 1) ≡ (i % 2 == 1) = ground arith in
    rw (f, hop_side (get_elem? level (flip_low i)) (suc (suc i)) i s) refl

one_climb :
    (o : Option String) {p : String}
    → o ≡ some p
    → elim o as (λ x. Option String) [ none ↦ none | some y ↦ some y ] ≡ some p
one_climb none e = e
one_climb (some y) e = e

outside : (xs : List String) (n : ℕ) → length xs ≤ n → get_elem? xs n ≡ none
outside [] n l = refl
outside (x ∷ xs) zero l = absurd (omega arith)
outside (x ∷ xs) (suc n) l = outside xs n (omega arith)

module _ (h : Hashing) where
  -- One level up: the hop from position `i` leads to the hash at position `i / 2`.
  hop-climb :
      (level above : List String) (i : ℕ) {x : String}
      → next_level h level ≡ some above
      → get_elem? level i ≡ some x
      → (y : String) × (get_elem? above (i / 2) ≡ some y)
        × (climb h x (hop (get_elem? level (flip_low i)) i) ≡ some y)
  unfolding next_level
  hop-climb [] above i e g = cc
  hop-climb (a ∷ []) above zero {x} e g = (x, cc, refl)
  hop-climb (a ∷ []) above (suc i) e g = cc
  hop-climb (a ∷ b ∷ level) above zero {x} e g =
      let (p, ep, r) = bind-some (hash_pair h a b) _ e in
      let (rest, _, q) = bind-some (next_level h level) _ r in
      let ea : p ∷ rest ≡ above = cc in
      let ex : x ≡ a = cc in (p, rw (← ea) refl, one_climb _ (rw ex ep))
  hop-climb (a ∷ b ∷ level) above (suc zero) {x} e g =
      let (p, ep, r) = bind-some (hash_pair h a b) _ e in
      let (rest, _, q) = bind-some (next_level h level) _ r in
      let ea : p ∷ rest ≡ above = cc in
      let ex : x ≡ b = cc in (p, rw (← ea) refl, one_climb _ (rw ex ep))
  hop-climb (a ∷ b ∷ level) above (suc (suc i)) {x} e g =
      let (p, _, r) = bind-some (hash_pair h a b) _ e in
      let (rest, er, q) = bind-some (next_level h level) _ r in
      let ea : p ∷ rest ≡ above = cc in
      let (y, gy, cy) = hop-climb level rest i {x = x} er g in
      let half : suc (suc i) / 2 ≡ suc (i / 2) = omega arith in
      (y, rw (half, ← ea) gy, rw (hop_two a b level i) cy)

  length-next_level :
      (level above : List String)
      → next_level h level ≡ some above
      → 2 * length above ≤ length level + 1
  unfolding next_level
  length-next_level [] above e = ground arith
  length-next_level (x ∷ []) above e = ground arith
  length-next_level (a ∷ b ∷ level) above e =
      let (p, _, r) = bind-some (hash_pair h a b) _ e in
      let (rest, er, q) = bind-some (next_level h level) _ r in
      let ea : p ∷ rest ≡ above = cc in rw (← ea) (omega (arith, length-next_level level rest er))

  climb_on :
      (o : Option String) (r q : Route) {y : String}
      → elim o as (λ x. Option String) [ none ↦ none | some z ↦ climb h z r ] ≡ some y
      → ((z : String) → climb h z r ≡ some y → climb h z (r ++ q) ≡ climb h y q)
      → elim o as (λ x. Option String) [ none ↦ none | some z ↦ climb h z (r ++ q) ] ≡ climb h y q
  climb_on none r q e f = cc
  climb_on (some z) r q e f = f z e

  levels-head :
      (fuel : ℕ) (level : List String) (tree : List (List String))
      → build_levels h fuel level ≡ some tree
      → (rest : List (List String)) × (tree ≡ level ∷ rest)
  unfolding build_levels
  levels-head fuel [] tree e = ([], cc)
  levels-head fuel (a ∷ []) tree e = ([], cc)
  levels-head zero (a ∷ b ∷ level) tree e = ([], cc)
  levels-head (suc fuel) (a ∷ b ∷ level) tree e =
      let (above, _, r) = bind-some (next_level h (a ∷ b ∷ level)) _ e in
      let (rest, _, q) = bind-some (build_levels h fuel above) _ r in (rest, cc)

  climb-append :
      (x : String) (r q : Route) {y : String}
      → climb h x r ≡ some y
      → climb h x (r ++ q) ≡ climb h y q
  climb-append x [] q {y} e = let ex : x ≡ y = cc in rw ex refl
  climb-append x ((s, b) ∷ r) q {y} e =
      climb_on (if b then hash_pair h s x else hash_pair h x s) r q e (λ z f. climb-append z r q f)

  -- From any position of the first level the route climbs to the root.
  route-climb :
      (fuel : ℕ) (level : List String) (tree : List (List String)) (i : ℕ) {x : String}
      → length level ≤ suc fuel
      → build_levels h fuel level ≡ some tree
      → get_elem? level i ≡ some x
      → climb h x (route tree i) ≡ some (root h tree)
  unfolding build_levels root
  route-climb fuel [] tree i l e g = cc
  route-climb fuel (a ∷ []) tree zero {x} l e g =
      let et : (a ∷ []) ∷ [] ≡ tree = cc in rw (← et) (cc)
  route-climb fuel (a ∷ []) tree (suc i) l e g = cc
  route-climb zero (a ∷ b ∷ level) tree i l e g = absurd (omega arith)
  route-climb (suc fuel) (a ∷ b ∷ level) tree i {x} l e g =
      let (above, en, r) = bind-some (next_level h (a ∷ b ∷ level)) _ e in
      let (t, eb, q) = bind-some (build_levels h fuel above) _ r in
      let (rest, et) = levels-head fuel above t eb in
      let (y, gy, cy) = hop-climb (a ∷ b ∷ level) above i {x = x} en g in
      let shape : (a ∷ b ∷ level) ∷ above ∷ rest ≡ tree = cc in
      let small : length above ≤ suc fuel =
        omega (arith, length-next_level (a ∷ b ∷ level) above en) in
      let ih : climb h y (route (above ∷ rest) (i / 2)) ≡ some (root h (above ∷ rest)) =
        rw et at (route-climb fuel above t (i / 2) {x = y} small eb gy) in
      rw (← shape) (
        climb-append x (hop (get_elem? (a ∷ b ∷ level) (flip_low i)) i)
          (route (above ∷ rest) (i / 2)) cy
        ∙ ih)

  leaf-hashed :
      (leaves level : List String) (i : ℕ) {leaf : String}
      → hash_leaves h leaves ≡ some level
      → get_elem? leaves i ≡ some leaf
      → (x : String) × (hash_leaf h leaf ≡ some x) × (get_elem? level i ≡ some x)
  unfolding hash_leaves
  leaf-hashed [] level i e g = cc
  leaf-hashed (v ∷ leaves) level zero {leaf} e g =
      let (x, ex, r) = bind-some (hash_leaf h v) _ e in
      let (xs, _, q) = bind-some (hash_leaves h leaves) _ r in
      let el : x ∷ xs ≡ level = cc in let ev : v ≡ leaf = cc in (x, rw (← ev) ex, rw (← el) refl)
  leaf-hashed (v ∷ leaves) level (suc i) {leaf} e g =
      let (x, _, r) = bind-some (hash_leaf h v) _ e in
      let (xs, exs, q) = bind-some (hash_leaves h leaves) _ r in
      let el : x ∷ xs ≡ level = cc in
      let (y, ey, gy) = leaf-hashed leaves xs i {leaf = leaf} exs g in (y, ey, rw (← el) gy)

  proof-returns :
      (leaves : List String) (tree : List (List String)) (i : ℕ) {leaf x : String}
      → get_elem? leaves i ≡ some leaf
      → hash_leaf h leaf ≡ some x
      → proof h leaves tree (pos i) ≡ ok (proof_at h tree x i)
  unfolding proof
  proof-returns leaves tree i g e = rw (g, proof, e) refl

  verify-proof_at :
      (level : List String) (tree : List (List String)) (i : ℕ) {x : String}
      → build_levels h (length level) level ≡ some tree
      → get_elem? level i ≡ some x
      → verify h (proof_at h tree x i) ≡ some true
  unfolding verify
  verify-proof_at level tree i {x} b g =
      let bits : (0 + 1 * sides (route tree i)) / 2 ^ 0 ≡ sides (route tree i) = omega arith in
      rw (
        proof_loop-route h tree i [] 0 (omega arith),
        verify_loop-climb h _ 0 x (route tree i) bits,
        route-climb (length level) level tree i {x = x} (omega arith) b g,
        eq_refl,
      )

  -- In a tree that was built, the proof of every leaf is returned, carries the leaf's hash and the
  -- tree's root, and verifies.
  pub proof-verify :
      (leaves : List String) (tree : List (List String)) (i : ℕ) (leaf : String)
      → build_tree h leaves ≡ some tree
      → get_elem? leaves i ≡ some leaf
      → (p : MerkleProof) × (proof h leaves tree (pos i) ≡ ok p)
        × (hash_leaf h leaf ≡ some p.leaf_hash)
        × (p.root_hash ≡ root h tree)
        × (verify h p ≡ some true)
  unfolding build_tree
  proof-verify leaves tree i leaf e g =
      let (level, el, bl) = bind-some (hash_leaves h leaves) _ e in
      let (x, ex, gx) = leaf-hashed leaves level i {leaf = leaf} el g in
      (
        proof_at h tree x i,
        proof-returns leaves tree i g ex,
        ex,
        refl,
        verify-proof_at level tree i bl gx,
      )

  -- At a negative index, and at one from the number of the leaves on, `proof` raises `IndexError`.
  pub proof-index_error :
      (leaves : List String) (tree : List (List String)) (n m : ℕ)
      → length leaves ≤ n
      → (proof h leaves tree (negsuc m) ≡ err index_error)
        × (proof h leaves tree (pos n) ≡ err index_error)
  unfolding proof
  proof-index_error leaves tree n m l = (refl, rw (outside leaves n l, proof) refl)
