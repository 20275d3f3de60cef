-- ===== src/Services/Pharmacy.antt =====
-- app/services/pharmacy.py, and the payload of app/connectors/ibb_pharmacy.py: the roster of
-- pharmacies on duty. What the cache gives back is an argument of the tools.

pub mod Roster
pub mod Near
use istanbulmcp.Timetable.Fields.{◌>>=◌}
use istanbulmcp.Prelude.{
  ℕ, zero, suc, ◌+◌, String, Bool, true, false, not, ◌&&◌, ◌||◌, ◌==◌, ltb, Option, none, some,
  List, [], ◌∷◌, ◌++◌, any, all, length, if◌then◌else◌,
}
use istanbulmcp.Prelude.Int.{ℤ, pos, ltb_ℤ}
use istanbulmcp.Prelude.Bytes.{codes, same_bytes}
use istanbulmcp.Cache.{SourceLoadResult}
use istanbulmcp.Validation.{Float, nan, number, between}
use istanbulmcp.Services.{
  Text, Value, dict, array, elements, lookup, get, Python, or_empty, normalize_place, text_or_none,
  float_or_none, google_maps_url, google_maps_search_url,
}

-- `all(isinstance(row, dict) for row in rows)`
abbrev pub is_dict : Value → Bool
is_dict (dict ms) = true
is_dict _ = false

-- `_parse_payload`: the rows, or none for IbbPharmacyPayloadError.
unfoldable pub parse_payload : Value → Option (List Value)
unfolding lookup elements
parse_payload (dict payload) = elim (get "ArrayOfAramaList" payload) [
  | dict wrapper ↦ elim (lookup "AramaList" wrapper) [
    | some (dict row) ↦ some (dict row ∷ [])
    | some (array rows) ↦ if all is_dict (elements rows) then some (elements rows) else none
    | _ ↦ none
  ]
  | _ ↦ none
]
parse_payload _ = none

-- A row of the roster. The fields that are always None are left out, `duty_ends_at` excepted.
pub record Pharmacy : Type 0 where
  pub source_id : Text
  pub name : Text
  pub phone : Option Text
  pub district : Text
  pub district_id : Text
  pub lat : Option Float
  pub lon : Option Float
  pub duty_ends_at : Option Text
  pub address : Text
  pub maps_url : Option Text
  pub maps_search_url : Option Text
  pub location_precision : String

abbrev pub is_located : Pharmacy → Bool
is_located p = elim p.lat [
  | none ↦ false
  | some lat ↦ elim p.lon [ none ↦ false | some lon ↦ true ]
]

abbrev pub is_zero : Float → Bool
is_zero nan = false
is_zero (number n) = not (ltb_ℤ n (pos 0) || ltb_ℤ (pos 0) n)

-- `"|".join(parts)`
unfoldable pub join_bars : List Text → Text
join_bars [] = []
join_bars (t ∷ []) = t
join_bars (t ∷ u ∷ ts) = t ++ (b'|' ∷ join_bars (u ∷ ts))

module _ (py : Python) where
  -- `_valid_latitude` with 90 and `_valid_longitude` with 180.
  unfoldable pub valid_coordinate : ℕ → Value → Option Float
  unfolding float_or_none
  valid_coordinate bound v = elim (float_or_none py v) [
    | none ↦ none
    | some x ↦ if between bound x && not (is_zero x) then some x else none
  ]

  abbrev pub fixed_or_empty : Option Float → Text
  fixed_or_empty none = []
  fixed_or_empty (some x) = py.fixed 7 x

  -- The row of a name, an address, a district and its number that are not empty.
  unfoldable pub pharmacy_row :
      Text → Text → Text → Text → Option Float → Option Float → Option Text → Pharmacy
  unfolding join_bars normalize_place google_maps_url google_maps_search_url
  pharmacy_row name address district district_id lat lon phone =
      let located : Bool = elim lat [ none ↦ false | some x ↦ true ] in
      let identity = join_bars (
        district_id
        ∷ normalize_place py name
        ∷ normalize_place py address
        ∷ normalize_place py (or_empty phone)
        ∷ fixed_or_empty lat
        ∷ fixed_or_empty lon
        ∷ []) in
      record {
        source_id = codes "ibb:" ++ py.sha256 identity;
        name = name;
        phone = phone;
        district = district;
        district_id = district_id;
        lat = lat;
        lon = lon;
        duty_ends_at = none;
        address = address;
        maps_url = google_maps_url py lat lon;
        maps_search_url =
            if located
            then none
            else google_maps_search_url py (name ∷ address ∷ district ∷ codes "İstanbul" ∷ []);
        location_precision = if located then "coordinate" else "address_search";
      }

  unfoldable pub normalize_row : Value → Option Pharmacy
  unfolding get text_or_none valid_coordinate pharmacy_row
  normalize_row (dict raw) = do
    name ← text_or_none py (get "ADI" raw)
    address ← text_or_none py (get "ADRES" raw)
    district ← text_or_none py (get "ILCEADI" raw)
    district_id ← text_or_none py (get "ILCEID" raw)
    let lat = valid_coordinate 90 (get "LAT" raw)
    let lon = valid_coordinate 180 (get "LON" raw)
    let phone = text_or_none py (get "TELEFON" raw)
    let row = pharmacy_row name address district district_id
    some (elim lat [
      | none ↦ row none none phone
      | some x ↦ elim lon [ none ↦ row none none phone | some y ↦ row (some x) (some y) phone ]
    ])
  normalize_row _ = none

-- The variables of the loop in `_load_roster`.
pub record Tally : Type 0 where
  pub accepted : List Pharmacy
  pub seen_ids : List Text
  pub skipped_total : ℕ
  pub invalid_total : ℕ
  pub duplicate_total : ℕ
  pub geo_eligible_total : ℕ

abbrev pub no_rows : Tally
no_rows = record {
  accepted = [];
  seen_ids = [];
  skipped_total = 0;
  invalid_total = 0;
  duplicate_total = 0;
  geo_eligible_total = 0;
}

-- The body of the loop, on a normalized row.
unfoldable pub count_row : Tally → Option Pharmacy → Tally
count_row t none = record t {
  skipped_total = t.skipped_total + 1;
  invalid_total = t.invalid_total + 1;
}
count_row t (some p) =
    if any (λ id. same_bytes id p.source_id) t.seen_ids
    then record t { skipped_total = t.skipped_total + 1; duplicate_total = t.duplicate_total + 1 }
    else record t {
      accepted = t.accepted ++ p ∷ [];
      seen_ids = t.seen_ids ++ p.source_id ∷ [];
      geo_eligible_total = if is_located p then t.geo_eligible_total + 1 else t.geo_eligible_total;
    }

-- The metadata of the roster.
pub record Totals : Type 0 where
  pub reported_total : ℕ
  pub received_total : ℕ
  pub accepted_total : ℕ
  pub skipped_total : ℕ
  pub invalid_total : ℕ
  pub duplicate_total : ℕ
  pub geo_eligible_total : ℕ

abbrev pub totals : ℕ → Tally → Totals
totals reported t = record {
  reported_total = reported;
  received_total = reported;
  accepted_total = length t.accepted;
  skipped_total = t.skipped_total;
  invalid_total = t.invalid_total;
  duplicate_total = t.duplicate_total;
  geo_eligible_total = t.geo_eligible_total;
}

module _ (py : Python) where
  unfoldable pub count_rows : Tally → List Value → Tally
  unfolding count_row
  count_rows t [] = t
  count_rows t (raw ∷ raws) = count_rows (count_row t (normalize_row py raw)) raws

  -- None is IbbPharmacyPayloadError: rows were reported, and none is valid.
  unfoldable pub load_roster :
      Option ℤ → List Value → Option (SourceLoadResult (List Pharmacy) Totals)
  unfolding count_rows
  load_roster max_cache_age_seconds raw_rows =
      let t = count_rows no_rows raw_rows in
      if ltb 0 (length raw_rows) && length t.accepted == 0
      then none
      else some (record {
        value = t.accepted;
        metadata = some (totals (length raw_rows) t);
        max_cache_age_seconds = max_cache_age_seconds;
      })
