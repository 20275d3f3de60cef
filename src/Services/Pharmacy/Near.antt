-- ===== src/Services/Pharmacy/Near.antt =====
-- app/services/pharmacy.py: the tools `nearby` and `by_district`.
pub mod Laws
use istanbulmcp.Prelude.{
  ℕ, zero, suc, ◌+◌, String, Bool, true, false, not, ◌&&◌, ◌||◌, leb, ltb, Option, none, some, List,
  [], ◌∷◌, ◌++◌, map, filter, any, collect, if◌then◌else◌,
}
use istanbulmcp.Prelude.Int.{ℤ, pos, ltb_ℤ, leb_ℤ, pos_part}
use istanbulmcp.Prelude.Bytes.{same_bytes}
use istanbulmcp.Prelude.Sort.{sort}
use istanbulmcp.Prelude.Rows.{le_by, le_texts, then_by}
use istanbulmcp.Cache.{CachedSourceData, Outcome}
use istanbulmcp.Envelope.{FreshnessStatus, fresh, stale}
use istanbulmcp.Timetable.Search.{words, join_words}
use istanbulmcp.Validation.{
  Float, nan, number, le_float, Validated, raises, accepts, invalid, ◌>>=◌, validate_lat_lon,
  validate_radius, validate_limit, validate_text,
}
use istanbulmcp.Services.{
  Text, Python, whole, normalize_place, haversine_m, Given, missing, mistyped, value, SourceError,
  Answer, page, ask,
}
use istanbulmcp.Services.Pharmacy.{Pharmacy, Totals}

-- The settings that the tools read.
pub record Limits : Type 0 where
  pub default_limit : ℤ
  pub max_limit : ℤ
  pub max_radius_m : ℤ

abbrev pub min_ℤ : ℤ → ℤ → ℤ
min_ℤ a b = if leb_ℤ a b then a else b

-- A finite number that is no bool; none is an argument of another type.
unfoldable pub finite : String → Option Float → Validated Float
finite field (some (number n)) = accepts (number n)
finite field _ = raises (invalid field none none)

unfoldable pub validate_coordinates : Option Float → Option Float → Validated (Float × Float)
unfolding finite validate_lat_lon
validate_coordinates lat lon = do x ← finite "lat" lat; y ← finite "lon" lon; validate_lat_lon x y

unfoldable pub check_radius : Limits → Given ℤ → Validated ℤ
unfolding validate_radius
check_radius limits missing = validate_radius (pos 1000) (min_ℤ limits.max_radius_m (pos 5000))
check_radius limits mistyped = raises (invalid "radius_m" none none)
check_radius limits (value r) = validate_radius r (min_ℤ limits.max_radius_m (pos 5000))

unfoldable pub check_limit : Limits → Given ℤ → Validated ℤ
unfolding validate_limit
check_limit limits missing =
    validate_limit (min_ℤ limits.default_limit (pos 100)) (min_ℤ limits.max_limit (pos 100))
check_limit limits mistyped = raises (invalid "limit" none none)
check_limit limits (value n) = validate_limit n (min_ℤ limits.max_limit (pos 100))

-- The centre, the radius and the limit of `nearby`.
unfoldable pub nearby_arguments :
    Limits → Option Float → Option Float → Given ℤ → Given ℤ → Validated ((Float × Float) × (ℤ × ℤ))
unfolding check_limit check_radius validate_coordinates
nearby_arguments limits lat lon radius_m limit = do
  centre ← validate_coordinates lat lon
  radius ← check_radius limits radius_m
  n ← check_limit limits limit
  accepts (centre, (radius, n))

pub data Warning : Type 0 where
  not_renewed no_end_time no_location roster_only whole_district : Warning

abbrev pub no_end : Pharmacy → Bool
no_end p = elim p.duty_ends_at [ none ↦ true | some t ↦ false ]

-- `metadata.get("geo_eligible_total", 0) < metadata.get("accepted_total", 0)`
abbrev pub some_unlocated : Option Totals → Bool
some_unlocated none = false
some_unlocated (some t) = ltb t.geo_eligible_total t.accepted_total

unfoldable pub roster_warnings : CachedSourceData (List Pharmacy) Totals SourceError → List Warning
roster_warnings cached =
    (if cached.is_stale then not_renewed ∷ [] else [])
    ++ (if any no_end cached.value then no_end_time ∷ [] else [])
    ++ (if some_unlocated cached.metadata then no_location ∷ [] else [])
    ++ roster_only ∷ []

unfoldable pub roster_freshness :
    CachedSourceData (List Pharmacy) Totals SourceError → FreshnessStatus
roster_freshness cached = if cached.is_stale then stale else fresh

-- A row with its distance in metres, rounded to tenths.
pub record Nearby : Type 0 where
  pub row : Pharmacy
  pub distance_m : ℤ

module _ (py : Python) where
  -- The row of a distance within the radius.
  abbrev pub within : ℤ → Pharmacy → Float → Option Nearby
  within radius row nan = none
  within radius row (number d) =
      if le_float (number d) (whole (pos_part radius))
      then some (record { row = row; distance_m = py.round 1 d })
      else none

  unfoldable pub near : Float × Float → ℤ → Pharmacy → Option Nearby
  unfolding haversine_m
  near (lat, lon) radius row = elim row.lat [
    | none ↦ none
    | some x ↦ elim row.lon [
      | none ↦ none
      | some y ↦ within radius row (haversine_m py lat lon x y)
    ]
  ]

  unfoldable pub nearby_key : Nearby → List Text
  unfolding normalize_place
  nearby_key n = normalize_place py n.row.name ∷ n.row.source_id ∷ []

  -- `(row["distance_m"], normalize_place(row["name"]), row["source_id"])`
  abbrev pub le_nearby : Nearby → Nearby → Bool
  le_nearby = then_by (le_by leb_ℤ (λ n. n.distance_m)) (le_by le_texts nearby_key)

  unfoldable pub nearby :
      Limits
      → Option Float
      → Option Float
      → Given ℤ
      → Given ℤ
      → Outcome (List Pharmacy) Totals SourceError
      → Answer Nearby Warning
  unfolding ask page sort near roster_warnings roster_freshness nearby_arguments
  nearby limits lat lon radius_m limit roster =
      ask (nearby_arguments limits lat lon radius_m limit) roster λ (centre, (radius, n)) cached.
        page n (sort le_nearby (collect (near centre radius) cached.value))
          (roster_freshness cached) (roster_warnings cached)

  abbrev pub letter_or_digit : ℕ → Bool
  letter_or_digit c = (leb b'a' c && leb c b'z') || (leb b'0' c && leb c b'9')

  -- `split` drops what `re.sub` puts in place of other characters, one space or several.
  unfoldable pub normalize_district : Text → Text
  unfolding normalize_place words join_words
  normalize_district t =
      join_words (words (map (λ c. if letter_or_digit c then c else b' ') (normalize_place py t)))

  unfoldable pub name_key : Pharmacy → List Text
  unfolding normalize_place
  name_key p = normalize_place py p.name ∷ p.source_id ∷ []

  abbrev pub of_district : Text → Pharmacy → Bool
  of_district wanted p = same_bytes (normalize_district p.district) (normalize_district wanted)

  unfoldable pub by_district :
      Limits → Text → Given ℤ → Outcome (List Pharmacy) Totals SourceError → Answer Pharmacy Warning
  unfolding ask page sort roster_warnings roster_freshness check_limit validate_text
  by_district limits district limit roster =
      let arguments : Validated (Text × ℤ) = validate_text district "district" 80 1 >>= λ safe.
      check_limit limits limit >>= λ n. accepts (safe, n) in
      ask arguments roster λ (wanted, n) cached.
        page n (sort (le_by le_texts name_key) (filter (of_district wanted) cached.value))
          (roster_freshness cached) (roster_warnings cached ++ whole_district ∷ [])
