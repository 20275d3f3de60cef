-- ===== src/Tests/Water.antt =====
-- The sources of water faults and dam levels: a relay whose reply is stale, and sources that fail.
use istanbulmcp.Prelude.{ℕ, ◌≡◌, ◌≤◌, ◌-◌, ◌+◌, refl, none, some, [], ◌∷◌, true, find?}
use istanbulmcp.Prelude.Bytes.{codes, is_space, same_bytes}
use istanbulmcp.Services.{
  Text, Value, dict, array, text, null, no_members, member, no_elements, element,
}
use istanbulmcp.Services.Water.{
  Result, ok, raises, http_error, payload_error, Clock, aware, SnapshotSettings, DatedPayload,
  snapshot_payload, validate_fault_payload,
}
use istanbulmcp.Services.Water.Chain.{
  Settings, fall_back, validated_faults, active_faults, dam_sources, dams,
}
use istanbulmcp.Services.Water.Chain.Laws.{
  IsUnwrapped, IsTime, first_or, failures, usable, active_faults-first, chosen, errors_of, offers,
  is_fresh, first_of, dams-chosen, snapshot_payload_sound,
}
use istanbulmcp.Services.Water.Official.{feature_collection, api_fault_feature, faults_from_api}
use istanbulmcp.Services.Water.Official.Laws.{faults_from_api-valid}
use istanbulmcp.Tests.Pharmacy.{simple_python}

abbrev clock : Clock
clock = record {
  loads =
      λ t. some (dict (member "payload" null (member "captured_at" (text (codes "T")) no_members)));
  fromisoformat = λ t. some (aware 5);
  isoformat = λ n. codes "T";
  now = aware 7;
}

abbrev snapshot : SnapshotSettings
snapshot = record { raw_json = some (codes "{}"); captured_at = null; max_age = 10 }

abbrev settings : Settings
settings = record { has_relay = true; has_api_token = true; snapshot = snapshot }

abbrev stale_faults : Value
stale_faults = dict (
    member "type" (text (codes "FeatureCollection")) (
      member "features" (array no_elements)
        (member "relay_cache_status" (text (codes "stale")) no_members)))

abbrev relay : Result Value
relay = ok stale_faults

abbrev official : Result Value
official = raises http_error

abbrev direct : Result Value
direct = raises payload_error

active_faults-first_example :
    active_faults clock settings relay official direct
    ≡ first_or
        (fall_back clock snapshot validate_fault_payload (
          failures clock settings
            (validated_faults relay)
            (validated_faults official)
            (validated_faults direct)))
        (usable clock settings
          (validated_faults relay)
          (validated_faults official)
          (validated_faults direct))
unfolding validate_fault_payload same_bytes
active_faults-first_example = active_faults-first clock settings relay official direct tt refl refl

abbrev stale_dams : Result Value
stale_dams = ok (
    dict (
      member "data" (array (element (dict no_members) no_elements))
        (member "relay_cache_status" (text (codes "stale")) no_members)))

dams-chosen_example :
    dams clock settings stale_dams official direct
    ≡ chosen clock snapshot
        (errors_of (dam_sources settings stale_dams official direct))
        (find? is_fresh (offers (dam_sources settings stale_dams official direct)))
        (first_of none (offers (dam_sources settings stale_dams official direct)))
unfolding dam_sources
dams-chosen_example = dams-chosen clock settings stale_dams official direct (tt, (refl, (refl, tt)))

abbrev taken : DatedPayload
taken = record { payload = null; captured_at = codes "T"; remaining = 8 }

is_taken : snapshot_payload clock snapshot (codes "{}") ≡ ok taken
unfolding snapshot_payload is_space
is_taken = refl

snapshot_payload_sound_example :
    (now captured : ℕ) × (whole stamp : Value) × (clock.now ≡ aware now)
    × (clock.loads (codes "{}") ≡ some whole)
    × IsUnwrapped whole snapshot.captured_at taken.payload stamp
    × IsTime clock stamp captured
    × (captured ≤ now)
    × (taken.captured_at ≡ clock.isoformat captured)
    × ((now - captured) + taken.remaining ≡ snapshot.max_age)
snapshot_payload_sound_example = snapshot_payload_sound clock snapshot (codes "{}") taken is_taken

-- One district, with one fault.
abbrev districts : Result Value
districts = ok (
    dict (
      member "data"
        (array (element (dict (member "ilceKodu" (text (codes "7")) no_members)) no_elements))
        no_members))

abbrev detail : Text → Result Value
detail code = ok (dict (member "data" (array (element (dict no_members) no_elements)) no_members))

abbrev collected : Value
collected = feature_collection (api_fault_feature (dict no_members) ∷ [])

collects : faults_from_api simple_python districts detail ≡ ok collected
unfolding faults_from_api
collects = refl

faults_from_api-valid_example : validate_fault_payload collected ≡ ok collected
faults_from_api-valid_example =
    faults_from_api-valid simple_python detail districts collected collects
