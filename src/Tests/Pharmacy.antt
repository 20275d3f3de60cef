-- ===== src/Tests/Pharmacy.antt =====
-- Runs of the pharmacy roster, and each of its theorems at a concrete input.
use istanbulmcp.Prelude.{ℕ, ◌+◌, ◌-◌, Option, none, some, List, [], ◌∷◌, true, false}
use istanbulmcp.Prelude.Int.{pos}
use istanbulmcp.Prelude.Bytes.{codes}
use istanbulmcp.Cache.{CachedSourceData, SourceLoadResult, returned}
use istanbulmcp.Envelope.{fresh, not_complete}
use istanbulmcp.Validation.{Float, nan, number}
use istanbulmcp.Services.{
  Text, Value, dict, text, amount, Members, no_members, member, Python, SourceError, Reply, value,
}
use istanbulmcp.Services.Pharmacy.{Pharmacy, Totals, load_roster}
use istanbulmcp.Services.Pharmacy.Roster.{IsLoad, load_roster_accounts}
use istanbulmcp.Services.Pharmacy.Near.{Limits, Nearby, Warning, no_end_time, roster_only}

-- The distance of two numbers.
abbrev gap : Float → Float → Float
gap (number (pos a)) (number (pos b)) = number (pos ((a - b) + (b - a)))
gap a b = nan

abbrev to_float : Value → Option Float
to_float (amount x) = some x
to_float v = none

-- Functions that are simple enough to run; the distance is that of the latitudes.
abbrev pub simple_python : Python
simple_python = record {
  nfkc = λ t. t;
  nfkd = λ t. t;
  casefold = λ t. t;
  is_combining = λ c. false;
  str = λ v. [];
  to_float = to_float;
  round = λ n d. d;
  fixed = λ n x. [];
  sha256 = λ t. t;
  urlencode = λ ps. [];
  plus = λ a b. a;
  minus = gap;
  times = λ a b. b;
  divided = λ a b. a;
  radians = λ a. a;
  sin = λ a. a;
  cos = λ a. a;
  sqrt = λ a. a;
  atan2 = λ a b. a;
}

abbrev raw : Text → Members → Value
raw name more = dict (
    member "ADI" (text name) (
      member "ADRES" (text (codes "A"))
        (member "ILCEADI" (text (codes "K")) (member "ILCEID" (text (codes "1")) more))))

abbrev at : ℕ → Members
at lat =
    member "LAT" (amount (number (pos lat))) (member "LON" (amount (number (pos 5))) no_members)

-- A located row, the same row again, one without a name, and one without a location.
abbrev raws : List Value
raws =
    raw (codes "N") (at 41)
    ∷ raw (codes "N") (at 41)
    ∷ raw (codes " ") no_members
    ∷ raw (codes "M") no_members
    ∷ []

abbrev limits : Limits
limits = record { default_limit = pos 10; max_limit = pos 50; max_radius_m = pos 2000 }

roster : Option (SourceLoadResult (List Pharmacy) Totals)
roster = load_roster simple_python none raws

load_roster_accounts_example : IsLoad simple_python none raws (load_roster simple_python none raws)
load_roster_accounts_example = load_roster_accounts simple_python none raws

abbrev pharmacy : ℕ → Pharmacy
pharmacy lat = record {
  source_id = codes "ibb:1";
  name = codes "N";
  phone = none;
  district = codes "K";
  district_id = codes "1";
  lat = some (number (pos lat));
  lon = some (number (pos 5));
  duty_ends_at = none;
  address = codes "A";
  maps_url = none;
  maps_search_url = none;
  location_precision = "coordinate";
}

abbrev cached : CachedSourceData (List Pharmacy) Totals SourceError
cached = record {
  value = pharmacy 49 ∷ pharmacy 41 ∷ [];
  refreshed_at_iso = "2026-01-01T00:00:00+00:00";
  is_fresh = true;
  is_stale = false;
  error = none;
  metadata = none;
}

abbrev centre : Option Float
centre = some (number (pos 40))

-- Both lie within the radius, and the limit leaves one.
abbrev reply : Reply Nearby Warning
reply = record {
  shown = (record { row = pharmacy 41; distance_m = pos 1 }) ∷ [];
  result = record {
    returned = 1;
    matched = some 2;
    truncated = some true;
    scope = "data";
    next_step = some not_complete;
  };
  freshness = fresh;
  warnings = no_end_time ∷ roster_only ∷ [];
}
