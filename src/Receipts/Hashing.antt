-- ===== src/Receipts/Hashing.antt =====
-- What the receipt code takes from Python's `json` and `hashlib`: a serialiser and a digest. Both
-- are parameters. `LawfulHashing` states what is documented of SHA-256: 32 bytes.
use codex_trading_engine.Prelude.{
  ◌<◌, String, ◌≡◌, refl, false, All, length, [], ◌∷◌, arith, str_eq, some, Bool-cases, inl, inr,
  sym, ◌∙◌, eq_iff,
}
use Prim.Native.Char.{Char}
use text.Mathlib.TextLemmas.{cons≢nil}
use codex_trading_engine.Value.{Dict}
use codex_trading_engine.Receipts.Hex
use codex_trading_engine.Receipts.Hex.{to_hex, from_hex, from_hex-to_hex}

abbrev pub Bytes : Type 0
Bytes = Hex.Bytes

pub record Hashing : Type 0 where
  -- `json.dumps(value, sort_keys=True, separators=(",", ":")).encode("utf-8")`
  pub canonical_json_bytes : Dict → Bytes
  -- `hashlib.sha256(data).digest()`
  pub sha256 : Bytes → Bytes

-- `hashlib.sha256(data).hexdigest()`
unfoldable pub sha256_hex : Hashing → Bytes → String
sha256_hex h data' = to_hex (h.sha256 data')

pub record LawfulHashing (h : Hashing) : Type 0 where
  pub digest_length : (data' : Bytes) → length (h.sha256 data') ≡ 32
  pub digest_bytes : (data' : Bytes) → All (λ b. b < 256) (h.sha256 data')

-- A text with a first character is not the empty text.
pub str_eq-cons : {c : Char} (s t : String) → t ≡ String.◌∷◌ c s → str_eq t "" ≡ false
str_eq-cons s t e = elim (Bool-cases (str_eq t "")) [
  | inl y ↦ absurd (cons≢nil (sym e ∙ (eq_iff t "").0 y))
  | inr n ↦ n
]

module _ {h : Hashing} (lawful : LawfulHashing h) where
  pub digest_not_empty : (data' : Bytes) → str_eq (sha256_hex h data') "" ≡ false
  unfolding sha256_hex to_hex
  digest_not_empty data' = written (h.sha256 data') (lawful.digest_length data')
    where
      written : (d : Bytes) → length d ≡ 32 → str_eq (to_hex d) "" ≡ false
      written [] e = absurd (omega arith)
      written (b ∷ d) e = str_eq-cons _ (to_hex (b ∷ d)) refl

  pub from_hex-sha256_hex : (data' : Bytes) → from_hex (sha256_hex h data') ≡ some (h.sha256 data')
  unfolding sha256_hex
  from_hex-sha256_hex data' = from_hex-to_hex (h.sha256 data') (lawful.digest_bytes data')
