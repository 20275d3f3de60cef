-- ===== src/Services/Water/Service.antt =====
-- app/services/iski.py: the tools on water faults, over what the cache gives back. A member of a
-- fault that a tool compares is a text or missing; other values there are not modelled.
pub mod Laws
use istanbulmcp.Prelude.{
  ℕ, zero, suc, ◌+◌, ◌*◌, String, Bool, true, false, not, ◌&&◌, ◌||◌, ◌==◌, Option, none, some,
  List, [], ◌∷◌, ◌++◌, map, filter, collect, take, length, str_eq, if◌then◌else◌,
}
use istanbulmcp.Prelude.Int.{ℤ, pos, leb_ℤ, pos_part}
use istanbulmcp.Prelude.Bytes.{codes, same_bytes}
use istanbulmcp.Prelude.Sort.{sort}
use istanbulmcp.Prelude.Rows.{le_by, le_texts}
use istanbulmcp.Cache.{CachedSourceData, SourceLoadResult, Outcome, returned, raised}
use istanbulmcp.Envelope.{FreshnessStatus, fresh, stale}
use istanbulmcp.Validation.{
  Float, nan, number, le_float, Validated, raises, accepts, ◌>>=◌, validate_lat_lon,
  validate_radius, validate_text, resolve_limit,
}
use istanbulmcp.Services.{
  Text, Value, dict, array, amount, flag, Members, Elements, no_elements, element, elements, get,
  truthy, Python, str_of, or_empty, whole, normalize_place, haversine_m, SourceError, exceeded,
  failure, Reply, Answer, refused, rate_limited, source_error, answered, page, ask,
}
use istanbulmcp.Services.Water
use istanbulmcp.Services.Water.{Result, ok, Marks, member_of, text_member}
use istanbulmcp.Services.Water.Chain.{Ending}

-- The metadata of a load: the marks of the client.
unfoldable pub load_active_fault_geojson : Ending Value → Result (SourceLoadResult Value Marks)
load_active_fault_geojson (ok v, marks) = ok (record {
  value = v;
  metadata = some marks;
  max_cache_age_seconds = elim marks.max_age [ none ↦ none | some n ↦ some (pos n) ];
})
load_active_fault_geojson (Water.raises e, marks) = Water.raises e

-- `source_mode`: that of the metadata, or else that of the client.
unfoldable pub source_mode :
    CachedSourceData Value Marks SourceError → Option String → Option String
source_mode cached of_client = elim cached.metadata [
  | none ↦ of_client
  | some m ↦ elim m.source [ none ↦ of_client | some s ↦ some s ]
]

abbrev pub is_snapshot : Option String → Bool
is_snapshot none = false
is_snapshot (some mode) = str_eq mode "snapshot"

abbrev pub is_source_stale : Option Marks → Bool
is_source_stale none = false
is_source_stale (some m) = m.is_stale

unfoldable pub cache_freshness :
    CachedSourceData Value Marks SourceError → Option String → FreshnessStatus
cache_freshness cached mode =
    if cached.is_stale || is_source_stale cached.metadata || is_snapshot mode then stale else fresh

pub data Warning : Type 0 where
  cached_copy snapshot_fallback no_numbers relay_stale : Warning
  tool_note : String → Warning

-- `_source_warnings`, each insertion at the front.
unfoldable pub source_warnings :
    CachedSourceData Value Marks SourceError → Option String → String → List Warning
source_warnings cached mode note =
    (if cached.is_stale then cached_copy ∷ [] else [])
    ++ (if is_snapshot mode then snapshot_fallback ∷ [] else [])
    ++ (if elim mode [ none ↦ false | some m ↦ str_eq m "relay_edevlet" ]
        then no_numbers ∷ []
        else [])
    ++ (if is_source_stale cached.metadata then relay_stale ∷ [] else [])
    ++ tool_note note ∷ []

-- `float(x)` of a number; bool is a kind of int.
abbrev pub numeric : Value → Option Float
numeric (amount x) = some x
numeric (flag true) = some (whole 1)
numeric (flag false) = some (whole 0)
numeric v = none

-- A list that begins with two numbers is a point.
abbrev pub leading_point : Elements → Option (Float × Float)
leading_point (element a (element b rest)) = elim (numeric a) [
  | none ↦ none
  | some x ↦ elim (numeric b) [ none ↦ none | some y ↦ some (x, y) ]
]
leading_point vs = none

unfoldable mutual
  -- `_iter_lon_lat`
  pub iter_lon_lat : Value → List (Float × Float)
  iter_lon_lat (array vs) =
      let nested = iter_elements vs in elim (leading_point vs) [ some p ↦ p ∷ [] | none ↦ nested ]
  iter_lon_lat v = []

  pub iter_elements : Elements → List (Float × Float)
  iter_elements no_elements = []
  iter_elements (element v vs) = iter_lon_lat v ++ iter_elements vs

pub record FaultRow : Type 0 where
  pub fault_number : Text
  pub district : Option Text
  pub started_at : Option Text
  pub center : Option (Float × Float)

-- A row at a distance.
pub record NearRow : Type 0 where
  pub row : FaultRow
  pub distance_m : ℤ

abbrev pub start_key : FaultRow → List Text
start_key r = or_empty r.started_at ∷ r.fault_number ∷ []

-- The centre, the radius and the limit of `nearby_faults`.
unfoldable pub nearby_arguments :
    ℤ → ℤ → ℤ → Float × Float → ℤ → Option ℤ → Validated ((Float × Float) × (ℤ × ℤ))
unfolding validate_lat_lon validate_radius resolve_limit
nearby_arguments default_limit max_limit max_radius_m (lat, lon) radius_m limit = do
  centre ← validate_lat_lon lat lon
  radius ← validate_radius radius_m max_radius_m
  n ← resolve_limit limit default_limit max_limit
  accepts (centre, (radius, n))

module _ (py : Python) where
  abbrev pub sum_from : Float → List Float → Float
  sum_from total [] = total
  sum_from total (x ∷ xs) = sum_from (py.plus total x) xs

  -- `sum(...) / len(points)`, rounded.
  unfoldable pub mean : List Float → Float
  mean xs = elim (py.divided (sum_from (whole 0) xs) (whole (length xs))) [
    | nan ↦ nan
    | number n ↦ number (py.round 6 n)
  ]

  unfoldable pub geometry_center : Value → Option (Float × Float)
  unfolding iter_lon_lat mean
  geometry_center geometry =
      let points = iter_lon_lat (member_of "coordinates" geometry) in
      if length points == 0
      then none
      else some (mean (map (λ p. p.1) points), mean (map (λ p. p.0) points))

  unfoldable pub fault_row : Value → FaultRow
  unfolding get truthy text_member geometry_center
  fault_row feature =
      let props = member_of "properties" feature in
      let number' = member_of "ARIZA_NO" props in
      record {
        fault_number = if truthy number' then str_of py number' else [];
        district = text_member "ILCE_ADI" props;
        started_at = text_member "BASLAMA_TARIHI" props;
        center = geometry_center (member_of "geometry" feature);
      }

  unfoldable pub fault_rows : Value → List FaultRow
  unfolding elements fault_row
  fault_rows body = elim (member_of "features" body) [
    | array fs ↦ map fault_row (elements fs)
    | _ ↦ []
  ]

  abbrev pub within : ℤ → FaultRow → Float → Option NearRow
  within radius row nan = none
  within radius row (number d) =
      if le_float (number d) (whole (pos_part radius))
      then some (record { row = row; distance_m = py.round 1 d })
      else none

  unfoldable pub near_row : Float × Float → ℤ → FaultRow → Option NearRow
  unfolding haversine_m
  near_row (lat, lon) radius row = elim row.center [
    | none ↦ none
    | some (y, x) ↦ within radius row (haversine_m py lat lon y x)
  ]

  -- In the order of their rounded distances, equal ones as they come.
  unfoldable pub nearby_faults :
      ℤ
      → ℤ
      → ℤ
      → Float × Float
      → ℤ
      → Option ℤ
      → Outcome Value Marks SourceError
      → Option String
      → Answer NearRow Warning
  unfolding ask page sort fault_rows near_row nearby_arguments source_mode cache_freshness
      source_warnings
  nearby_faults default_limit max_limit max_radius_m centre radius_m limit source of_client =
      ask (nearby_arguments default_limit max_limit max_radius_m centre radius_m limit) source
        λ (c, (radius, n)) cached.
          let mode = source_mode cached of_client in
          page n
            (sort (le_by leb_ℤ (λ r. r.distance_m))
              (collect (near_row c radius) (fault_rows cached.value)))
            (cache_freshness cached mode) (source_warnings cached mode "distances use the centre")

  -- `normalize_place` of a district. What unicodedata.normalize makes of None is an argument, none
  -- where it raises.
  unfoldable pub place_of : Option Text → Option Text → Option Text
  unfolding normalize_place
  place_of unnamed none = unnamed
  place_of unnamed (some d) = some (normalize_place py d)

  -- `normalize_place(row.get("district", "")) == wanted`; none is the exception.
  unfoldable pub of_district : Option Text → Text → List FaultRow → Option (List FaultRow)
  unfolding normalize_place place_of
  of_district unnamed wanted [] = some []
  of_district unnamed wanted (r ∷ rs) =
      let later = of_district unnamed wanted rs in
      elim (place_of unnamed r.district) [
        | none ↦ none
        | some d ↦ elim later [
          | none ↦ none
          | some rest ↦ some (if same_bytes d (normalize_place py wanted) then r ∷ rest else rest)
        ]
      ]

  -- `validate_text(district, ...) if district else None`
  unfoldable pub safe_district : Option Text → Validated (Option Text)
  unfolding validate_text
  safe_district none = accepts none
  safe_district (some []) = accepts none
  safe_district (some (c ∷ t)) = do d ← validate_text (c ∷ t) "district" 80 1; accepts (some d)

  unfoldable pub faults_arguments : ℤ → ℤ → Option Text → Option ℤ → Validated (ℤ × Option Text)
  unfolding safe_district resolve_limit
  faults_arguments default_limit max_limit district limit = do
    n ← resolve_limit limit default_limit max_limit
    d ← safe_district district
    accepts (n, d)

  -- The rows of the district that was asked for, if one was.
  abbrev pub chosen_rows : Option Text → Option Text → List FaultRow → Option (List FaultRow)
  chosen_rows unnamed none rows = some rows
  chosen_rows unnamed (some d) rows = of_district unnamed d rows

  -- A reply, or none for an exception of the filter.
  unfoldable pub faults_reply :
      Option Text
      → ℤ
      → Option Text
      → CachedSourceData Value Marks SourceError
      → Option String
      → Option (Reply FaultRow Warning)
  unfolding page sort fault_rows of_district source_mode cache_freshness source_warnings
  faults_reply unnamed limit district cached of_client =
      let mode = source_mode cached of_client in
      elim (chosen_rows unnamed district (fault_rows cached.value)) [
        | none ↦ none
        | some rows ↦ some (
            page limit (sort (le_by le_texts start_key) rows) (cache_freshness cached mode)
              (source_warnings cached mode "no source_updated_at"))
      ]
