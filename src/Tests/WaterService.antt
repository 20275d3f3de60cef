-- ===== src/Tests/WaterService.antt =====
-- Two faults at points, one of them without a district, in old data of the relay.
use istanbulmcp.Prelude.{ℕ, ◌≡◌, refl, none, some, [], ◌∷◌, true, false, collect}
use istanbulmcp.Prelude.Int.{ℤ, pos, leb_ℤ}
use istanbulmcp.Prelude.Bytes.{codes}
use istanbulmcp.Prelude.Rows.{le_by}
use istanbulmcp.Cache.{CachedSourceData, SourceLoadResult, Outcome, returned}
use istanbulmcp.Envelope.{stale, not_complete}
use istanbulmcp.Validation.{Float, number, accepts}
use istanbulmcp.Services.{
  Value, dict, array, text, amount, Members, no_members, member, no_elements, element, SourceError,
  Reply, answered,
}
use istanbulmcp.Services.Page.{IsPage}
use istanbulmcp.Services.Water.{ok, Marks, marked}
use istanbulmcp.Services.Water.Service.{
  load_active_fault_geojson, source_mode, cache_freshness, Warning, relay_stale, tool_note, NearRow,
  near_row, fault_rows, nearby_arguments, nearby_faults,
}
use istanbulmcp.Services.Water.Service.Laws.{IsAsked, AreNear, nearby_faults_sound}
use istanbulmcp.Tests.Pharmacy.{simple_python}

abbrev fault_at : ℕ → Members → Value
fault_at lat more = dict (
    member "properties" (dict more) (
      member "geometry"
        (dict (
          member "coordinates"
            (array
              (element (amount (number (pos 5))) (element (amount (number (pos lat))) no_elements)))
            no_members))
        no_members))

abbrev two_faults : Value
two_faults = dict (
    member "features"
      (array (
        element (fault_at 47 (member "ILCE_ADI" (text (codes "K")) no_members))
          (element (fault_at 42 no_members) no_elements)))
      no_members)

abbrev marks : Marks
marks = marked "relay_geojson" none true

abbrev load : SourceLoadResult Value Marks
load = record { value = two_faults; metadata = some marks; max_cache_age_seconds = none }

abbrev cached : CachedSourceData Value Marks SourceError
cached = record {
  value = two_faults;
  refreshed_at_iso = "2026-01-01T00:00:00+00:00";
  is_fresh = true;
  is_stale = false;
  error = none;
  metadata = some marks;
}

is_loaded : load_active_fault_geojson (ok two_faults, marks) ≡ ok load
unfolding load_active_fault_geojson
is_loaded = refl

-- The cache's copy is fresh, and the relay's reply was not.
is_stale_data : cache_freshness cached (source_mode cached none) ≡ stale
unfolding cache_freshness source_mode
is_stale_data = refl

abbrev centre : Float × Float
centre = (number (pos 40), number (pos 5))

-- The simple mean puts both at zero, so the first comes first.
abbrev near_reply : Reply NearRow Warning
near_reply = record {
  shown =
      (record {
        row = record {
          fault_number = [];
          district = some (codes "K");
          started_at = none;
          center = some (number (pos 0), number (pos 0));
        };
        distance_m = pos 40;
      })
      ∷ [];
  result = record {
    returned = 1;
    matched = some 2;
    truncated = some true;
    scope = "data";
    next_step = some not_complete;
  };
  freshness = stale;
  warnings = relay_stale ∷ tool_note "distances use the centre" ∷ [];
}

finds_one :
    nearby_faults simple_python
      (pos 10)
      (pos 50)
      (pos 1000)
      centre
      (pos 100)
      (some (pos 1))
      (returned cached)
      none
    ≡ answered near_reply
unfolding nearby_faults
finds_one = refl

nearby_faults_sound_example :
    (c : Float × Float) × (radius : ℤ) × (n : ℤ) × (d : CachedSourceData Value Marks SourceError)
    × (nearby_arguments (pos 10) (pos 50) (pos 1000) centre (pos 100) (some (pos 1))
        ≡ accepts (c, (radius, n)))
    × (◌≡◌ {A = Outcome Value Marks SourceError} (returned cached) (returned d))
    × IsAsked simple_python (pos 10) (pos 50) (pos 1000) centre (pos 100) (some (pos 1)) c radius n
    × AreNear simple_python c radius
        (fault_rows simple_python d.value)
        (collect (near_row simple_python c radius) (fault_rows simple_python d.value))
    × IsPage
        (le_by leb_ℤ (λ x. x.distance_m))
        n
        (collect (near_row simple_python c radius) (fault_rows simple_python d.value))
        near_reply
nearby_faults_sound_example =
    nearby_faults_sound simple_python (pos 10) (pos 50) (pos 1000) centre (pos 100) (some (pos 1))
      (returned cached) none near_reply finds_one
