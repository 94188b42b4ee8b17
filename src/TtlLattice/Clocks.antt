-- ===== src/TtlLattice/Clocks.antt =====
-- `_parse_timestamp` and the loop over the clock types.
use Prim.Native.Char.{code}
use codex_trading_engine.Prelude.{
  String, Bool, true, false, Option, none, some, List, [], ◌∷◌, ◌++◌, str_eq, ◌==◌, Result, ok, err,
  ◌>>=◌, ◌>>◌, require, if◌then◌else◌,
}
use codex_trading_engine.Prelude.Int.{ℤ, pos, ◌-ℤ◌, ltb_ℤ, leb_ℤ, scale_ℤ}
use codex_trading_engine.Prelude.Times.{IsoTime, malformed, naive, aware}
use codex_trading_engine.Value.{Value, null, int, str, dict, Dict, get, truthy}
use codex_trading_engine.Value.Kinds.{is_strictly_positive_int, get_or}
use codex_trading_engine.GateDescent.Validate.{seconds}
use codex_trading_engine.TtlLattice.Scope.{
  LatticeError, not_a_time, not_iso, no_timezone, clock_not_object, clock_in_future, clock_bad_ttl,
  Reason, required_clock_missing, clock_expired, ttl_capped_to,
}

-- `value[:-1] + "+00:00" if value.endswith("Z") else value`
abbrev pub zulu : String → String
zulu String.[] = ""
zulu (String.◌∷◌ c String.[]) = if code c == b'Z' then "+00:00" else String.◌∷◌ c String.[]
zulu (String.◌∷◌ c (String.◌∷◌ d s)) = String.◌∷◌ c (zulu (String.◌∷◌ d s))

abbrev pub utc_of : IsoTime → String → Result LatticeError ℤ
utc_of malformed name = err (not_iso name)
utc_of naive name = err (no_timezone name)
utc_of (aware t) name = ok t

-- A clock's line in the receipt.
pub record ClockResult : Type 0 where
  pub clock : String
  pub missing : Bool
  pub required : Bool
  pub observed_at : Option ℤ
  pub age_seconds : Option ℤ
  pub requested_ttl_seconds : Option ℤ
  pub effective_ttl_seconds : Value
  pub ttl_capped : Bool
  pub expired : Bool
  pub expiry_target : Value
  pub on_expiry : Value

-- The five lists that the loop fills.
pub record Tally : Type 0 where
  pub results : List ClockResult
  pub expired_clocks : List String
  pub missing_clocks : List String
  pub targets : List Value
  pub reasons : List Reason

abbrev pub no_tally : Tally
no_tally = record {
  results = [];
  expired_clocks = [];
  missing_clocks = [];
  targets = [];
  reasons = [];
}

abbrev pub join : Tally → Tally → Tally
join s t = record {
  results = s.results ++ t.results;
  expired_clocks = s.expired_clocks ++ t.expired_clocks;
  missing_clocks = s.missing_clocks ++ t.missing_clocks;
  targets = s.targets ++ t.targets;
  reasons = s.reasons ++ t.reasons;
}

-- A clock that is not supplied.
abbrev pub missing_clock : String → Dict → Tally
missing_clock name policy =
    if truthy (get policy "required")
    then record {
      results =
          record {
            clock = name;
            missing = true;
            required = true;
            observed_at = none;
            age_seconds = none;
            requested_ttl_seconds = none;
            effective_ttl_seconds = get policy "max_ttl_seconds";
            ttl_capped = false;
            expired = true;
            expiry_target = get policy "expiry_target";
            on_expiry = get policy "on_expiry";
          }
          ∷ [];
      expired_clocks = name ∷ [];
      missing_clocks = name ∷ [];
      targets = get policy "expiry_target" ∷ [];
      reasons = required_clock_missing name ∷ [];
    }
    else no_tally

abbrev pub int_value : Value → ℤ
int_value (int n) = n
int_value _ = pos 0

-- `age_exact >= effective_ttl`
abbrev pub is_expired : ℤ → ℤ → ℤ → Bool
is_expired evaluated_at observed_at effective =
    leb_ℤ (scale_ℤ 1000000 effective) (evaluated_at -ℤ observed_at)

-- A clock that is supplied, its time and TTL being read.
abbrev pub supplied_clock : ℤ → String → Dict → ℤ → ℤ → Tally
supplied_clock evaluated_at name policy observed_at requested =
    let max_ttl = int_value (get policy "max_ttl_seconds") in
    let effective = if ltb_ℤ max_ttl requested then max_ttl else requested in
    let capped = ltb_ℤ effective requested in
    let over = is_expired evaluated_at observed_at effective in
    record {
      results =
          record {
            clock = name;
            missing = false;
            required = truthy (get policy "required");
            observed_at = some observed_at;
            age_seconds = some (seconds (evaluated_at -ℤ observed_at));
            requested_ttl_seconds = some requested;
            effective_ttl_seconds = int effective;
            ttl_capped = capped;
            expired = over;
            expiry_target = get policy "expiry_target";
            on_expiry = get policy "on_expiry";
          }
          ∷ [];
      expired_clocks = if over then name ∷ [] else [];
      missing_clocks = [];
      targets = if over then get policy "expiry_target" ∷ [] else [];
      reasons =
          (if over then clock_expired name (get policy "on_expiry") ∷ [] else [])
          ++ (if capped then ttl_capped_to name requested effective ∷ [] else []);
    }

abbrev pub policy_of : Value → Dict
policy_of (dict policy) = policy
policy_of _ = Dict.empty

module _ (fromisoformat : String → IsoTime) where
  unfoldable pub parse_timestamp : Value → String → Result LatticeError ℤ
  parse_timestamp (str s) name =
      if str_eq s "" then err (not_a_time name) else utc_of (fromisoformat (zulu s)) name
  parse_timestamp _ name = err (not_a_time name)

  -- One round of the loop.
  unfoldable pub clock_round : ℤ → String → Dict → Value → Result LatticeError Tally
  clock_round evaluated_at name policy null = ok (missing_clock name policy)
  clock_round evaluated_at name policy (dict supplied) = do
    observed_at ← parse_timestamp (get supplied "observed_at") name
    require (leb_ℤ observed_at evaluated_at) (clock_in_future name)
    let requested = get_or supplied "ttl_seconds" (get policy "max_ttl_seconds")
    require (is_strictly_positive_int requested) (clock_bad_ttl name)
    ok (supplied_clock evaluated_at name policy observed_at (int_value requested))
  clock_round evaluated_at name policy _ = err (clock_not_object name)

  -- The loop over the sorted names.
  unfoldable pub clock_rounds : ℤ → Dict → Dict → List String → Result LatticeError Tally
  clock_rounds evaluated_at types supplied [] = ok no_tally
  clock_rounds evaluated_at types supplied (name ∷ names) = do
    here ← clock_round evaluated_at name (policy_of (get types name)) (get supplied name)
    rest ← clock_rounds evaluated_at types supplied names
    ok (join here rest)
