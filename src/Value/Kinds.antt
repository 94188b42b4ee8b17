-- ===== src/Value/Kinds.antt =====
-- Tests of Python values that several validators make.
use codex_trading_engine.Prelude.{
  String, Bool, true, false, not, ◌&&◌, ◌||◌, List, [], ◌∷◌, str_eq, if◌then◌else◌,
}
use codex_trading_engine.Prelude.Int.{pos, leb_ℤ, ltb_ℤ}
use codex_trading_engine.Value.{
  Value, int, str, list, dict, Items, nil, cons, Dict, empty, field, get, has, eq, is_num,
}

-- `isinstance(v, str) and v`
abbrev pub is_filled_text : Value → Bool
is_filled_text (str s) = not (str_eq s "")
is_filled_text _ = false

abbrev pub all_filled_texts : Items → Bool
all_filled_texts nil = true
all_filled_texts (cons x xs) = is_filled_text x && all_filled_texts xs

-- `isinstance(v, list) and all(isinstance(item, str) and item for item in v)`
abbrev pub is_text_list : Value → Bool
is_text_list (list xs) = all_filled_texts xs
is_text_list _ = false

-- The texts of a list.
abbrev pub texts_in : Items → List String
texts_in nil = []
texts_in (cons (str s) xs) = s ∷ texts_in xs
texts_in (cons v xs) = texts_in xs

abbrev pub texts : Value → List String
texts (list xs) = texts_in xs
texts _ = []

-- `d.values()`
abbrev pub values : Dict → List Value
values empty = []
values (field k v d) = v ∷ values d

-- `hash(v)` does not raise.
abbrev pub is_hashable : Value → Bool
is_hashable (list xs) = false
is_hashable (dict d) = false
is_hashable _ = true

abbrev pub all_hashable : List Value → Bool
all_hashable [] = true
all_hashable (v ∷ vs) = is_hashable v && all_hashable vs

unfoldable pub occurs : Value → List Value → Bool
occurs v [] = false
occurs v (w ∷ ws) = eq v w || occurs v ws

-- `len(set(vs)) == len(vs)`
unfoldable pub all_distinct : List Value → Bool
all_distinct [] = true
all_distinct (v ∷ vs) = not (occurs v vs) && all_distinct vs

-- `isinstance(v, int) and not isinstance(v, bool)`, with a lower bound
abbrev pub is_nonnegative_int : Value → Bool
is_nonnegative_int (int n) = leb_ℤ (pos 0) n
is_nonnegative_int _ = false

abbrev pub is_strictly_positive_int : Value → Bool
is_strictly_positive_int (int n) = ltb_ℤ (pos 0) n
is_strictly_positive_int _ = false

-- `d.get(k, default)`
abbrev pub get_or : Dict → String → Value → Value
get_or d k v = if has d k then get d k else v

-- `v in {True, False}` for a hashable `v`
abbrev pub is_zero_or_one : Value → Bool
is_zero_or_one v = is_num v 1 || is_num v 0
