-- ===== src/Receipts/Hex.antt =====
-- `bytes.hex` and `bytes.fromhex`: two lower-case digits for each byte, and back. `from_hex` takes
-- digits of both cases and skips blanks between bytes; `none` is its `ValueError`.
use Prim.Native.Char.{Char, code}
use codex_trading_engine.Prelude.{
  ℕ, zero, suc, ◌+◌, ◌-◌, ◌*◌, ◌/◌, ◌%◌, ◌<◌, ◌≤◌, ◌⊎◌, inl, inr, String, ◌≡◌, refl, Bool, true,
  false, ◌&&◌, ◌||◌, not, Option, none, some, List, [], ◌∷◌, All, arith, leb, ◌==◌, if◌then◌else◌,
  &&-split,
}

abbrev pub Bytes : Type 0
Bytes = List ℕ

abbrev pub codes : String → List ℕ
codes String.[] = []
codes (String.◌∷◌ c s) = code c ∷ codes s

hex_digit : ℕ → Char
hex_digit n =
    if n == 0
    then "0"
    else if n == 1
    then "1"
    else if n == 2
    then "2"
    else if n == 3
    then "3"
    else if n == 4
    then "4"
    else if n == 5
    then "5"
    else if n == 6
    then "6"
    else if n == 7
    then "7"
    else if n == 8
    then "8"
    else if n == 9
    then "9"
    else if n == 10
    then "a"
    else if n == 11
    then "b"
    else if n == 12
    then "c"
    else if n == 13
    then "d"
    else if n == 14
    then "e"
    else "f"

unfoldable pub to_hex : Bytes → String
unfolding hex_digit
to_hex [] = String.[]
to_hex (b ∷ bs) = String.◌∷◌ (hex_digit (b / 16)) (String.◌∷◌ (hex_digit (b % 16)) (to_hex bs))

is_space : ℕ → Bool
is_space c = c == 32 || (leb 9 c && leb c 13)

hex_value : ℕ → Option ℕ
hex_value c =
    if leb b'0' c && leb c b'9'
    then some (c - b'0')
    else if leb b'a' c && leb c b'f'
    then some (c - b'a' + 10)
    else if leb b'A' c && leb c b'F'
    then some (c - b'A' + 10)
    else none

abbrev join : Option ℕ → Option ℕ → Option Bytes → Option Bytes
join (some a) (some b) (some bs) = some ((a * 16 + b) ∷ bs)
join _ _ _ = none

-- `none` where no text follows the first digit.
scan_hex : List ℕ → Option Bytes
unfolding is_space hex_value
scan_hex [] = some []
scan_hex (c ∷ []) = if is_space c then some [] else none
scan_hex (c ∷ d ∷ cs) =
    let skipped = scan_hex (d ∷ cs) in
    let rest = scan_hex cs in if is_space c then skipped else join (hex_value c) (hex_value d) rest

unfoldable pub from_hex : String → Option Bytes
unfolding scan_hex
from_hex s = scan_hex (codes s)

abbrev is_some_num : Option ℕ → ℕ → Bool
is_some_num none n = false
is_some_num (some m) n = m == n

is_some_num-eq : (o : Option ℕ) (n : ℕ) → is_some_num o n ≡ true → o ≡ some n
is_some_num-eq none n h = cc
is_some_num-eq (some m) n h = ground arith

digit_ok : ℕ → Bool
unfolding hex_value hex_digit is_space
digit_ok n = not (is_space (code (hex_digit n))) && is_some_num (hex_value (code (hex_digit n))) n

-- The test holds from 0 to `last`.
holds_up_to : (ℕ → Bool) → ℕ → Bool
holds_up_to test zero = test zero
holds_up_to test (suc last) = holds_up_to test last && test (suc last)

holds_at : (test : ℕ → Bool) (last m : ℕ) → m ≤ last → holds_up_to test last ≡ true → test m ≡ true
unfolding holds_up_to
holds_at test zero m l h = let e : m ≡ zero = omega arith in rw e h
holds_at test (suc last) m l h =
    let (before, here) = &&-split _ _ h in
    elim (le-cases m last l) [ inl e ↦ rw e here | inr k ↦ holds_at test last m k before ]
  where
    le-cases : (a b : ℕ) → a ≤ suc b → (a ≡ suc b) ⊎ (a ≤ b)
    le-cases a b k = ground arith

digit_table : holds_up_to digit_ok 15 ≡ true
unfolding holds_up_to digit_ok
digit_table = refl

not-true : (b : Bool) → not b ≡ true → b ≡ false
not-true b h = ground arith

digit-read :
    (n : ℕ)
    → n < 16
    → (is_space (code (hex_digit n)) ≡ false) × (hex_value (code (hex_digit n)) ≡ some n)
unfolding digit_ok
digit-read n lt =
    let (blank, read) = &&-split _ _ (holds_at digit_ok 15 n (omega arith) digit_table) in
    (not-true _ blank, is_some_num-eq _ n read)

-- What is written as hexadecimal reads back.
pub from_hex-to_hex : (bs : Bytes) → All (λ b. b < 256) bs → from_hex (to_hex bs) ≡ some bs
unfolding from_hex to_hex
from_hex-to_hex [] h = refl
from_hex-to_hex (b ∷ bs) (lt, h) =
    let (solid, high) = digit-read (b / 16) (omega arith) in
    let (_, low) = digit-read (b % 16) (omega arith) in
    let whole : b / 16 * 16 + b % 16 ≡ b = omega arith in
    rw (solid, high, low, from_hex-to_hex bs h, whole)
