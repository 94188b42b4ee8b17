-- ===== src/Prelude/Results.antt =====
-- A computation that may raise. `abbrev`, so that a chain computes wherever it stands.
use mathlib.Core.Path.{◌≡◌, refl}
use mathlib.Core.Bool.{Bool, true, false}

pub data Result {ℓ} (E A : Type ℓ) : Type ℓ where
  ok : A → Result E A
  err : E → Result E A

-- `if not test: raise e`
abbrev pub require : {E : Type 0} → Bool → E → Result E Unit
require test e = elim test [ true ↦ ok tt | false ↦ err e ]

infixl 5 ◌>>=◌ ◌>>◌
abbrev pub ◌>>=◌ {ℓ} : {E A B : Type ℓ} → Result E A → (A → Result E B) → Result E B
m >>= next = elim m [ ok result ↦ next result | err raised ↦ err raised ]

abbrev pub ◌>>◌ : {E B : Type 0} → Result E Unit → Result E B → Result E B
first >> second = first >>= λ _. second

-- A chain that returns: its first step returned, and then the rest did.
pub >>=-eq-ok {ℓ} :
    {E A B : Type ℓ} (first : Result E A) (next : A → Result E B) {last : B}
    → (first >>= next) ≡ ok last
    → (middle : A) × (first ≡ ok middle) × (next middle ≡ ok last)
>>=-eq-ok (err raised) next chain = absurd (cc)
>>=-eq-ok (ok result) next chain = (result, refl, chain)

pub require-ok : {E : Type 0} (b : Bool) (e : E) {u : Unit} → require b e ≡ ok u → b ≡ true
require-ok true e h = refl
require-ok false e h = cc
