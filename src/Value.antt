-- ===== src/Value.antt =====
-- The values that `json.loads` gives and that the gates read: Python objects as one data type. A
-- float is the finite binary fraction m / 2 ^ k; infinities and NaN are left out. The functions are
-- the Python operations that the modelled code applies to such values.
pub mod Update
pub mod Kinds
use codex_trading_engine.Prelude.{
  ℕ, suc, ◌+◌, ◌*◌, ◌^◌, String, Bool, true, false, not, ◌&&◌, Option, none, some, List, [], ◌∷◌,
  str_eq, ◌==◌, if◌then◌else◌,
}
use codex_trading_engine.Prelude.Int.{ℤ, pos, pos_part, neg_part}

mutual
  pub data Value : Type 0 where
    null : Value
    bool : Bool → Value
    int : ℤ → Value
    float : ℤ → ℕ → Value
    str : String → Value
    list : Items → Value
    dict : Dict → Value

  pub data Items : Type 0 where
    nil : Items
    cons : Value → Items → Items

  -- in insertion order
  pub data Dict : Type 0 where
    empty : Dict
    field : String → Value → Dict → Dict

abbrev pub items : List Value → Items
items [] = nil
items (x ∷ xs) = cons x (items xs)

abbrev pub elements : Items → List Value
elements nil = []
elements (cons x xs) = x ∷ elements xs

abbrev pub strings : List String → Items
strings [] = nil
strings (x ∷ xs) = cons (str x) (strings xs)

-- `d.get(k)`: a missing key and a stored `None` read the same.
abbrev pub get : Dict → String → Value
get empty k = null
get (field j v d) k = if str_eq j k then v else get d k

-- `k in d`
abbrev pub has : Dict → String → Bool
has empty k = false
has (field j v d) k = if str_eq j k then true else has d k

-- `d[k] = v`: an old key keeps its place.
abbrev pub set_item : Dict → String → Value → Dict
set_item empty k v = field k v empty
set_item (field j w d) k v = if str_eq j k then field j v d else field j w (set_item d k v)

-- `{**d, **e}`
abbrev pub update : Dict → Dict → Dict
update d empty = d
update d (field k v e) = update (set_item d k v) e

-- `d.pop(k, None)`
abbrev pub pop : Dict → String → Dict
pop empty k = empty
pop (field j v d) k = if str_eq j k then d else field j v (pop d k)

abbrev pub keys : Dict → List String
keys empty = []
keys (field k v d) = k ∷ keys d

-- `bool(v)`
abbrev pub truthy : Value → Bool
truthy null = false
truthy (bool b) = b
truthy (int n) = not (pos_part n + neg_part n == 0)
truthy (float m k) = not (pos_part m + neg_part m == 0)
truthy (str s) = not (str_eq s "")
truthy (list nil) = false
truthy (list (cons x xs)) = true
truthy (dict empty) = false
truthy (dict (field k v d)) = true

-- `v is True` and `v is False`
abbrev pub is_true : Value → Bool
is_true (bool true) = true
is_true _ = false

abbrev pub is_false : Value → Bool
is_false (bool false) = true
is_false _ = false

abbrev pub is_list : Value → Bool
is_list (list xs) = true
is_list _ = false

abbrev pub is_dict : Value → Bool
is_dict (dict d) = true
is_dict _ = false

-- `isinstance(v, int) and not isinstance(v, bool)`
abbrev pub is_int : Value → Bool
is_int (int n) = true
is_int _ = false

-- A number as a fraction m / 2 ^ k; `True` and `False` count as 1 and 0.
abbrev pub number : Value → Option (ℤ × ℕ)
number (bool true) = some (pos 1, 0)
number (bool false) = some (pos 0, 0)
number (int n) = some (n, 0)
number (float m k) = some (m, k)
number _ = none

abbrev pub num_eq : ℤ × ℕ → ℤ × ℕ → Bool
num_eq (m, j) (n, k) =
    (pos_part m * 2 ^ k + neg_part n * 2 ^ j) == (pos_part n * 2 ^ j + neg_part m * 2 ^ k)

abbrev pub num_opt_eq : Option (ℤ × ℕ) → Option (ℤ × ℕ) → Bool
num_opt_eq (some a) (some b) = num_eq a b
num_opt_eq _ _ = false

-- `v == s` for a text `s`
abbrev pub is_str : Value → String → Bool
is_str (str t) s = str_eq t s
is_str _ s = false

-- `v == n` for a number `n`
abbrev pub is_num : Value → ℕ → Bool
is_num v n = num_opt_eq (number v) (some (pos n, 0))

abbrev pub size : Dict → ℕ
size empty = 0
size (field k v d) = suc (size d)

-- `v == w`; two dicts are equal in any order of their keys.
unfoldable mutual
  pub eq : Value → Value → Bool
  eq null w = elim w [ null ↦ true | _ ↦ false ]
  eq (bool b) w = num_opt_eq (number (bool b)) (number w)
  eq (int n) w = num_opt_eq (number (int n)) (number w)
  eq (float m k) w = num_opt_eq (number (float m k)) (number w)
  eq (str s) w = is_str w s
  eq (list xs) w = elim w [ list ys ↦ eq_items xs ys | _ ↦ false ]
  eq (dict d) w = elim w [ dict e ↦ (size d == size e) && eq_within d e | _ ↦ false ]

  pub eq_items : Items → Items → Bool
  eq_items nil ys = elim ys [ nil ↦ true | _ ↦ false ]
  eq_items (cons x xs) ys = elim ys [ nil ↦ false | cons y zs ↦ eq x y && eq_items xs zs ]

  pub eq_within : Dict → Dict → Bool
  eq_within empty e = true
  eq_within (field k v d) e = has e k && (eq v (get e k) && eq_within d e)
