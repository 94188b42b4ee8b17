-- ===== src/PinningRegistry/Complete.antt =====
-- On a receipt without drifts: all pins and all watched files.
use mathlib.Core.Bool.{false≢true}
use codex_trading_engine.Prelude.{
  String, ◌≡◌, refl, ap, ◌⊎◌, inl, inr, Bool, true, false, Option, none, some, List, [], ◌∷◌, ◌++◌,
  All, is_empty, is_empty-nil, append-eq-nil, contains, Result, ok, >>=-eq-ok, require, Bool-cases,
  Option-cases,
}
use codex_trading_engine.Value.{Value, list, dict, Items, nil, cons, elements, Dict, get, is_str}
use codex_trading_engine.Value.Kinds.{get_or}
use codex_trading_engine.TtlPolicy.Shape.{key_text}
use codex_trading_engine.Receipts.Hashing.{Bytes}
use codex_trading_engine.PinningRegistry.Repository.{
  Repository, PinningRegistryError, Drift, object_of, load_json_object, is_unblank,
  validate_safe_posture,
}
use codex_trading_engine.PinningRegistry.Pins.{Progress, check_pins}
use codex_trading_engine.PinningRegistry.Validate.{
  PinningReceipt, surface_drifts, found_by, watch, watched, relative_to_root, pins_of, receipt_of,
  validate_registry,
}
use codex_trading_engine.PinningRegistry.Documents.{IsSafe, validate_safe_posture-nil}
use codex_trading_engine.PinningRegistry.Sound.{IsPinnedValue, paths_of, check_pins-nil}

-- The candidates of a pattern that are files are pinned.
abbrev pub IsRegistered : List String → String × Bool → Type 0
IsRegistered paths (relative, is_file) = (is_file ≡ false) ⊎ (contains paths relative ≡ true)

module _ (files : Repository) where
  abbrev pub IsWatched : List String → Value → Type 0
  IsWatched paths v =
      (candidates : List (String × Bool)) × (files.glob (key_text v) ≡ some candidates)
      × All (IsRegistered paths) candidates

  surface_drifts-nil :
      (paths : List String) (cs : List (String × Bool))
      → surface_drifts paths cs ≡ []
      → All (IsRegistered paths) cs
  surface_drifts-nil paths [] h = tt
  surface_drifts-nil paths ((relative, false) ∷ cs) h = (inl refl, surface_drifts-nil paths cs h)
  surface_drifts-nil paths ((relative, true) ∷ cs) h = elim (Bool-cases (contains paths relative)) [
    | inl y ↦ (inr y, surface_drifts-nil paths cs (rw y at h))
    | inr n ↦ absurd (let h1 = rw n at h in cc)
  ]

  found_by-ok :
      (pattern' : String) (cs : List (String × Bool))
      → found_by files pattern' ≡ ok cs
      → files.glob pattern' ≡ some cs
  found_by-ok pattern' cs h = elim (Option-cases (files.glob pattern')) [
    | inl e ↦ absurd (let h1 = rw (found_by, e) at h in cc)
    | inr (ds, e) ↦ (let h1 = rw (found_by, e) at h in cc)
  ]

  watch-nil :
      (paths : List String) (vs : Items)
      → watch files paths vs ≡ ok []
      → All (IsWatched paths) (elements vs)
  unfolding watch
  watch-nil paths nil h = tt
  watch-nil paths (cons v vs) h =
      let (_, _, h1) = >>=-eq-ok (require (is_unblank files v) _) _ h in
      let (cs, e, h2) = >>=-eq-ok (found_by files (key_text v)) _ h1 in
      let (rest, f, h3) = >>=-eq-ok (watch files paths vs) _ h2 in
      let q : surface_drifts paths cs ++ rest ≡ [] = cc in
      let (a, b) = append-eq-nil (surface_drifts paths cs) rest q in
      (
        (cs, found_by-ok (key_text v) cs e, surface_drifts-nil paths cs a),
        watch-nil paths vs (rw b at f),
      )

  watched-nil :
      (paths : List String) (v : Value)
      → watched files paths v ≡ ok []
      → (patterns : Items) × (v ≡ list patterns) × All (IsWatched paths) (elements patterns)
  watched-nil paths (list patterns) h = (patterns, refl, watch-nil paths patterns h)
  watched-nil paths v h = absurd (cc)

  -- More paths register at least as much.
  widen_candidates :
      (paths more : List String) (cs : List (String × Bool))
      → ((x : String) → contains paths x ≡ true → contains more x ≡ true)
      → All (IsRegistered paths) cs
      → All (IsRegistered more) cs
  widen_candidates paths more [] f h = tt
  widen_candidates paths more ((relative, is_file) ∷ cs) f (inl y, h) =
      (inl y, widen_candidates paths more cs f h)
  widen_candidates paths more ((relative, is_file) ∷ cs) f (inr y, h) =
      (inr (f relative y), widen_candidates paths more cs f h)

  widen_patterns :
      (paths more : List String) (vs : List Value)
      → ((x : String) → contains paths x ≡ true → contains more x ≡ true)
      → All (IsWatched paths) vs
      → All (IsWatched more) vs
  widen_patterns paths more [] f h = tt
  widen_patterns paths more (v ∷ vs) f ((cs, e, a), h) =
      ((cs, e, widen_candidates paths more cs f a), widen_patterns paths more vs f h)

  -- The registry is a file with an object of safe posture, all its pins are as they say, and every
  -- file that its patterns find is the path of a pin.
  pub record IsClosed (registry_file : Option Bytes) : Type 0 where
    pub raw : Bytes
    pub registry : Dict
    pub pins : Items
    pub patterns : Items
    pub present : registry_file ≡ some raw
    pub decoded : files.loads raw ≡ some (dict registry)
    pub posture : IsSafe registry
    pub pins_eq : get registry "pins" ≡ list pins
    pub pinned : All (IsPinnedValue files) (elements pins)
    pub patterns_eq : get_or registry "watched_globs" (list nil) ≡ list patterns
    pub closed : All (IsWatched (paths_of files pins)) (elements patterns)

  object_of-ok : (o : Option Value) (d : Dict) → object_of o ≡ ok d → o ≡ some (dict d)
  object_of-ok none d h = absurd (cc)
  object_of-ok (some (dict c)) d h = let s : c ≡ d = cc in rw s refl
  object_of-ok (some v) d h = absurd (cc)

  load_json_object-ok :
      (found : Option Bytes) (raw : Bytes) (d : Dict)
      → load_json_object files found ≡ ok (raw, d)
      → (found ≡ some raw) × (files.loads raw ≡ some (dict d))
  unfolding load_json_object
  load_json_object-ok none raw d h = absurd (cc)
  load_json_object-ok (some b) raw d h =
      let (c, e, h1) = >>=-eq-ok (object_of (files.loads b)) _ h in
      let q : ◌≡◌ {A = Bytes × Dict} (b, c) (raw, d) = cc in
      let x = ap (λ (z : Bytes × Dict). z.0) q in
      let y = ap (λ (z : Bytes × Dict). z.1) q in
      (rw x refl, rw (← x, ← y) (object_of-ok (files.loads b) c e))

  pins_of-ok : (v : Value) (pins : Items) → pins_of v ≡ ok pins → v ≡ list pins
  pins_of-ok (list (cons v vs)) pins h = let s : cons v vs ≡ pins = cc in rw s refl
  pins_of-ok v pins h = absurd (cc)

  -- The loop over the pins starts with the drifts of the registry itself.
  abbrev start : Dict → String → Progress
  start registry path = record {
    pin_ids = [];
    registered_paths = [];
    drifts = validate_safe_posture registry "registry" path;
  }

  closing :
      (registry_file : Option Bytes) (raw : Bytes) (registry : Dict) (path : String) (pins : Items)
      (checked : Progress) (surfaces : List Drift)
      → load_json_object files registry_file ≡ ok (raw, registry)
      → pins_of (get registry "pins") ≡ ok pins
      → check_pins files (start registry path) pins ≡ ok checked
      → watched files checked.registered_paths (get_or registry "watched_globs" (list nil))
        ≡ ok surfaces
      → is_empty (checked.drifts ++ surfaces) ≡ true
      → IsClosed registry_file
  closing registry_file raw registry path pins checked surfaces e f g w none_left =
      let (a, b) = append-eq-nil checked.drifts surfaces (is_empty-nil _ none_left) in
      let (posture, pinned, registered) =
        check_pins-nil files pins (start registry path) checked g a in
      let (patterns, patterns_eq, found) =
        watched-nil checked.registered_paths (get_or registry "watched_globs" (list nil))
          (rw b at w) in
      let (present, decoded) = load_json_object-ok registry_file raw registry e in
      record {
        raw = raw;
        registry = registry;
        pins = pins;
        patterns = patterns;
        present = present;
        decoded = decoded;
        posture = validate_safe_posture-nil registry "registry" path posture;
        pins_eq = pins_of-ok (get registry "pins") pins f;
        pinned = pinned;
        patterns_eq = patterns_eq;
        closed =
            widen_patterns checked.registered_paths (paths_of files pins) (elements patterns)
              (λ x i. elim (registered x i) [ inl y ↦ y | inr n ↦ absurd (false≢true n) ]) found;
      }

  all_pinned-of_ok :
      (r s : PinningReceipt)
      → ◌≡◌ {A = Result PinningRegistryError PinningReceipt} (ok r) (ok s)
      → s.all_pinned ≡ true
      → r.all_pinned ≡ true
  all_pinned-of_ok r s h t = let e : r ≡ s = cc in rw e t

  -- A receipt that reports no drift shows that the registry is a file with an object of safe
  -- posture, that each of its pins is the path of a file in the root with the digest that is pinned,
  -- the fields that are expected, and a safe posture, and that every file that a watched pattern
  -- finds is the path of a pin.
  pub validate_registry-IsClosed :
      (registry_file : Option Bytes) (registry_path : Option String) (r : PinningReceipt)
      → validate_registry files registry_file registry_path ≡ ok r
      → r.all_pinned ≡ true
      → IsClosed registry_file
  unfolding validate_registry
  validate_registry-IsClosed registry_file registry_path r h all_pinned =
      let (found, e, h1) = >>=-eq-ok (load_json_object files registry_file) _ h in
      let (_, _, h2) =
        >>=-eq-ok
          (require (is_str (get found.1 "registry_version") "cross_repo_pinning_registry_v0.1") _) _
          h1 in
      let (_, _, h3) =
        >>=-eq-ok (require (is_str (get found.1 "drift_policy") "fail_closed") _) _ h2 in
      let (path, _, h4) = >>=-eq-ok (relative_to_root registry_path) _ h3 in
      let (pins, f, h5) = >>=-eq-ok (pins_of (get found.1 "pins")) _ h4 in
      let (checked, g, h6) = >>=-eq-ok (check_pins files (start found.1 path) pins) _ h5 in
      let (surfaces, w, h7) =
        >>=-eq-ok
          (watched files checked.registered_paths (get_or found.1 "watched_globs" (list nil))) _
          h6 in
      closing registry_file found.0 found.1 path pins checked surfaces e f g w (
        all_pinned-of_ok
          (receipt_of files path found.0 checked.pin_ids (checked.drifts ++ surfaces)) r h7
          all_pinned)
