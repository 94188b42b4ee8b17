-- ===== src/PinningRegistry/Sound.antt =====
-- On what a loop without drifts shows of the pins.
use codex_trading_engine.Prelude.{
  String, ◌≡◌, refl, sym, ◌∙◌, ap, ◌⊎◌, inl, inr, true, not, some, List, [], ◌∷◌, ◌++◌, All,
  append-eq-nil, contains, sorted_set, str_eq, ok, >>=-eq-ok, require, require-ok, Bool-cases,
  Option-cases, arith,
}
use codex_trading_engine.Value.{
  Value, str, dict, Items, nil, cons, elements, Dict, empty, get, keys, is_false, is_str, eq,
}
use codex_trading_engine.Value.Kinds.{get_or}
use codex_trading_engine.TtlPolicy.Shape.{key_text}
use codex_trading_engine.Receipts.Hashing.{Bytes}
use codex_trading_engine.Receipts.Hex.{to_hex}
use codex_trading_engine.PinningRegistry.Repository.{Repository, is_unblank, resolve_inside}
use codex_trading_engine.PinningRegistry.Pins.{
  file_drifts, Progress, object_pin, check_pin, check_pins,
}
use codex_trading_engine.PinningRegistry.Documents.{IsSafe, file_drifts-nil}

-- What a pin without drift says of its file.
pub record IsPinned (files : Repository) (pin : Dict) : Type 0 where
  pub target : String
  pub raw : Bytes
  pub document : Dict
  pub expected_json : Dict
  pub no_authority : is_false (get pin "authority") ≡ true
  pub inside_root : files.inside (key_text (get pin "path")) ≡ some target
  pub present : files.read target ≡ some raw
  pub digest : is_str (get pin "raw_sha256") (to_hex (files.sha256 raw)) ≡ true
  pub decoded : files.loads raw ≡ some (dict document)
  pub described : get_or pin "expected_json" (dict empty) ≡ dict expected_json
  pub fields_match :
      All
        (λ name. eq (get document name) (get expected_json name) ≡ true)
        (sorted_set (keys expected_json))
  pub safe : IsSafe document

module _ (files : Repository) where
  resolve_inside-ok :
      (v : Value) (target : String)
      → resolve_inside files v ≡ ok target
      → files.inside (key_text v) ≡ some target
  unfolding resolve_inside
  resolve_inside-ok (str s) target h = elim (Bool-cases (str_eq (files.strip s) "")) [
    | inl y ↦ absurd (let h1 = rw (resolve_inside, y) at h in cc)
    | inr n ↦
        (let h1 = rw (resolve_inside, n) at h in
          elim (Option-cases (files.inside s)) [
            | inl e ↦ absurd (let h2 = rw e at h1 in cc)
            | inr (t, e) ↦ (let h2 = rw e at h1 in cc)
          ])
  ]
  resolve_inside-ok v target h = absurd (cc)

  object_pin-ok : (v : Value) (pin : Dict) → object_pin v ≡ ok pin → v ≡ dict pin
  object_pin-ok (dict d) pin h = cc
  object_pin-ok v pin h = absurd (cc)

  -- The path of a pin.
  abbrev pub path_of : Value → String
  path_of (dict pin) = key_text (get pin "path")
  path_of _ = ""

  abbrev pub IsPinnedValue : Value → Type 0
  IsPinnedValue v = (pin : Dict) × (v ≡ dict pin) × IsPinned files pin

  check_pin-nil :
      (pin_ids registered_paths : List String) (v : Value) (p : Progress)
      → check_pin files pin_ids registered_paths v ≡ ok p
      → (p.registered_paths ≡ path_of v ∷ registered_paths) × ((p.drifts ≡ []) → IsPinnedValue v)
  unfolding check_pin
  check_pin-nil pin_ids registered_paths v p h =
      let (pin, e, h1) = >>=-eq-ok (object_pin v) _ h in
      let (_, _, h2) = >>=-eq-ok (require (is_unblank files (get pin "pin_id")) _) _ h1 in
      let pin_id = key_text (get pin "pin_id") in
      let (_, _, h3) = >>=-eq-ok (require (not (contains pin_ids pin_id)) _) _ h2 in
      let (_, _, h4) = >>=-eq-ok (require (is_unblank files (get pin "path")) _) _ h3 in
      let path = key_text (get pin "path") in
      let (_, _, h5) = >>=-eq-ok (require (not (contains registered_paths path)) _) _ h4 in
      let (_, _, h6) = >>=-eq-ok (require (is_str (get pin "drift_policy") "fail_closed") _) _ h5 in
      let (_, q, h7) = >>=-eq-ok (require (is_false (get pin "authority")) _) _ h6 in
      let (target, r, h8) = >>=-eq-ok (resolve_inside files (get pin "path")) _ h7 in
      let (found, f, h9) = >>=-eq-ok (file_drifts files pin pin_id path (files.read target)) _ h8 in
      let same = object_pin-ok v pin e in
      let last : record {
        pin_ids = pin_id ∷ pin_ids;
        registered_paths = path ∷ registered_paths;
        drifts = found;
      }
          ≡ p =
        cc in
      (
        rw same (sym (ap (λ (z : Progress). z.registered_paths) last)),
        λ clean.
            let z : found ≡ [] = ap (λ (z : Progress). z.drifts) last ∙ clean in
            let file = file_drifts-nil files pin pin_id path (files.read target) (rw z at f) in
            (
              pin,
              same,
              record {
                target = target;
                raw = file.raw;
                document = file.document;
                expected_json = file.inner.expected_json;
                no_authority = require-ok _ _ q;
                inside_root = resolve_inside-ok (get pin "path") target r;
                present = file.present;
                digest = file.digest;
                decoded = file.decoded;
                described = file.inner.described;
                fields_match = file.inner.fields_match;
                safe = file.inner.safe;
              },
            ),
      )

  -- The paths of pins.
  abbrev pub paths_of : Items → List String
  paths_of nil = []
  paths_of (cons v vs) = path_of v ∷ paths_of vs

  -- The loop registers the paths of the pins, and nothing else.
  pub check_pins-nil :
      (vs : Items) (p : Progress) (last : Progress)
      → check_pins files p vs ≡ ok last
      → last.drifts ≡ []
      → (p.drifts ≡ [])
        × All IsPinnedValue (elements vs)
        × ((x : String)
            → contains last.registered_paths x ≡ true
            → (contains (paths_of vs) x ≡ true) ⊎ (contains p.registered_paths x ≡ true))
  unfolding check_pins
  check_pins-nil nil p last h clean =
      let same : p ≡ last = cc in
      (ap (λ (z : Progress). z.drifts) same ∙ clean, tt, λ x found. inr (rw same found))
  check_pins-nil (cons v vs) p last h clean =
      let (next, e, h1) = >>=-eq-ok (check_pin files p.pin_ids p.registered_paths v) _ h in
      let (paths, pinned) = check_pin-nil p.pin_ids p.registered_paths v next e in
      let (none_yet, rest, registered) =
        check_pins-nil vs
          (record {
            pin_ids = next.pin_ids;
            registered_paths = next.registered_paths;
            drifts = p.drifts ++ next.drifts;
          })
          last h1 clean in
      let (a, b) = append-eq-nil p.drifts next.drifts none_yet in
      (
        a,
        (pinned b, rest),
        λ x found. elim (registered x found) [
          | inl y ↦ inl (rw y (ground arith))
          | inr y ↦
              (let z = rw paths at y in
                elim (Bool-cases (str_eq (path_of v) x)) [
                  | inl i ↦ inl (rw i refl)
                  | inr n ↦ inr (rw n at z)
                ])
        ],
      )
