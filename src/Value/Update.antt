-- ===== src/Value/Update.antt =====
-- Reading a dictionary after `d[k] = v`.
use codex_trading_engine.Prelude.{
  String, ◌≡◌, refl, true, false, str_eq, eq_refl, eq_iff, arith, Bool-cases, inl, inr,
}
use codex_trading_engine.Value.{Value, Dict, empty, field, get, has, set_item}

-- The key itself is there, with the new value.
pub get-set_item : (d : Dict) (k : String) (v : Value) → get (set_item d k v) k ≡ v
get-set_item empty k v = rw eq_refl refl
get-set_item (field j w d) k v = ground (arith, get-set_item d k v)

pub has-set_item : (d : Dict) (k : String) (v : Value) → has (set_item d k v) k ≡ true
has-set_item empty k v = rw eq_refl refl
has-set_item (field j w d) k v = ground (arith, has-set_item d k v)

-- Any other key reads as before.
pub get-set_item_other :
    (d : Dict) (k m : String) (v : Value) → str_eq k m ≡ false → get (set_item d k v) m ≡ get d m
get-set_item_other empty k m v n = rw n refl
get-set_item_other (field j w d) k m v n = elim (Bool-cases (str_eq j k)) [
  | inl y ↦
      (let e : j ≡ k = (eq_iff j k).0 y in let q : str_eq j m ≡ false = rw e n in rw (y, q) refl)
  | inr o ↦ rw (o, get-set_item_other d k m v n) refl
]

pub has-set_item_other :
    (d : Dict) (k m : String) (v : Value) → str_eq k m ≡ false → has (set_item d k v) m ≡ has d m
has-set_item_other empty k m v n = rw n refl
has-set_item_other (field j w d) k m v n = elim (Bool-cases (str_eq j k)) [
  | inl y ↦
      (let e : j ≡ k = (eq_iff j k).0 y in let q : str_eq j m ≡ false = rw e n in rw (y, q) refl)
  | inr o ↦ rw (o, has-set_item_other d k m v n) refl
]
