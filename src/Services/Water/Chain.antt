-- ===== src/Services/Water/Chain.antt =====
-- app/connectors/iski.py, active_faults and dams: the sources are tried in turn, a stale reply of
-- the relay is held back, and a configured snapshot comes last. What each request comes to is an
-- argument, read only where the code makes it.
pub mod Laws
use istanbulmcp.Prelude.{
  ℕ, String, Bool, true, false, Option, none, some, List, [], ◌∷◌, ◌++◌, if◌then◌else◌,
}
use istanbulmcp.Prelude.Bytes.{codes, same_bytes}
use istanbulmcp.Services.{Text, Value}
use istanbulmcp.Services.Water.{
  ErrorKind, uncaught, payload_error, Result, ok, raises, ◌>>=◌, has_text, relay_cached_at,
  validate_fault_payload, DamReply, validated_dams, dam_rows, Marks, no_marks, marked, Clock,
  SnapshotSettings, snapshot_payload,
}

-- `_try_json_source`: a body, an exception that is caught, or one that is not.
pub data Tried (T : Type 0) : Type 0 where
  body : T → Tried T
  caught : ErrorKind → Tried T
  escaped : ErrorKind → Tried T

abbrev pub is_caught : ErrorKind → Bool
is_caught uncaught = false
is_caught e = true

unfoldable pub try_json_source : {T : Type 0} → Result T → Tried T
try_json_source (ok v) = body v
try_json_source (raises e) = if is_caught e then caught e else escaped e

-- `errors[-1]`, or the error that no source is configured.
unfoldable pub last_error : List ErrorKind → ErrorKind
last_error [] = payload_error
last_error (e ∷ []) = e
last_error (e ∷ f ∷ es) = last_error (f ∷ es)

pub record Settings : Type 0 where
  pub has_relay : Bool
  pub has_api_token : Bool
  pub snapshot : SnapshotSettings

-- How a call ends, and the marks it leaves on the client.
abbrev pub Ending : Type 0 → Type 0
Ending T = Result T × Marks

-- What is left when no source answered: the configured snapshot, or the last error.
unfoldable pub fall_back :
    {T : Type 0} → Clock → SnapshotSettings → (Value → Result T) → List ErrorKind → Ending T
unfolding snapshot_payload last_error
fall_back clock settings check errors = elim settings.raw_json [
  | none ↦ (raises (last_error errors), no_marks)
  | some raw_json ↦ elim (snapshot_payload clock settings raw_json) [
    | raises e ↦ (raises e, no_marks)
    | ok s ↦ elim (check s.payload) [
      | raises e ↦ (raises e, no_marks)
      | ok v ↦ (
        ok v,
        record {
          source = some "snapshot";
          updated_at = some s.captured_at;
          is_stale = false;
          max_age = some s.remaining;
        },
      )
    ]
  ]
]

abbrev pub fault_mode : Value → String
fault_mode v = if has_text "relay_source" "edevlet" v then "relay_edevlet" else "relay_geojson"

-- The chain of `active_faults`, on what `_validated_faults` makes of each request.
module _ (clock : Clock) (settings : Settings) (official direct : Result Value) where
  unfoldable pub after_direct : Option Value → List ErrorKind → Ending Value
  unfolding fall_back relay_cached_at validate_fault_payload
  after_direct (some v) errors = (ok v, marked (fault_mode v) (relay_cached_at v) true)
  after_direct none errors = fall_back clock settings.snapshot validate_fault_payload errors

  unfoldable pub from_direct : Option Value → List ErrorKind → Ending Value
  unfolding try_json_source
  from_direct stale_relay errors = elim (try_json_source direct) [
    | body v ↦ (ok v, marked "live_geojson" none false)
    | caught e ↦ after_direct stale_relay (errors ++ e ∷ [])
    | escaped e ↦ (raises e, no_marks)
  ]

  unfoldable pub from_official : Option Value → List ErrorKind → Ending Value
  unfolding try_json_source from_direct
  from_official stale_relay errors =
      if settings.has_api_token
      then elim (try_json_source official) [
        | body v ↦ (ok v, marked "official_api" none false)
        | caught e ↦ from_direct stale_relay (errors ++ e ∷ [])
        | escaped e ↦ (raises e, no_marks)
      ]
      else from_direct stale_relay errors

  abbrev pub of_relay : Value → Ending Value
  of_relay v =
      if has_text "relay_cache_status" "stale" v
      then from_official (some v) []
      else (ok v, marked (fault_mode v) (relay_cached_at v) false)

  unfoldable pub from_relay : Result Value → Ending Value
  unfolding try_json_source from_official
  from_relay relay =
      if settings.has_relay
      then elim (try_json_source relay) [
        | body v ↦ of_relay v
        | caught e ↦ from_official none (e ∷ [])
        | escaped e ↦ (raises e, no_marks)
      ]
      else from_official none []

abbrev pub validated_faults : Result Value → Result Value
validated_faults operation = operation >>= validate_fault_payload

unfoldable pub active_faults :
    Clock → Settings → Result Value → Result Value → Result Value → Ending Value
unfolding from_relay
active_faults clock settings relay official direct =
    from_relay clock settings (validated_faults official) (validated_faults direct)
      (validated_faults relay)

-- A source of dam levels: the mode it stands for, and what its request comes to.
abbrev pub DamSource : Type 0
DamSource = String × Result DamReply

abbrev pub dam_mode : String → DamReply → String
dam_mode source_mode r = elim r.relay_source [
  | none ↦ source_mode
  | some s ↦ if same_bytes s (codes "edevlet") then "relay_edevlet" else source_mode
]

-- `stale_relay or (rows, mode, cached_at)`
abbrev pub first_stale : Option (String × DamReply) → String × DamReply → String × DamReply
first_stale none r = r
first_stale (some s) r = s

-- The loop over the sources.
unfoldable pub try_dams :
    Clock
    → SnapshotSettings
    → Option (String × DamReply)
    → List ErrorKind
    → List DamSource
    → Ending (List Value)
unfolding try_json_source fall_back
try_dams clock settings (some (mode, r)) errors [] = (ok r.rows, marked mode r.cached_at true)
try_dams clock settings none errors [] = fall_back clock settings dam_rows errors
try_dams clock settings stale_relay errors ((source_mode, load) ∷ sources) =
    elim (try_json_source load) [
      | escaped e ↦ (raises e, no_marks)
      | caught e ↦ try_dams clock settings stale_relay (errors ++ e ∷ []) sources
      | body r ↦
          let mode = dam_mode source_mode r in
          let later =
            try_dams clock settings (some (first_stale stale_relay (mode, r))) errors sources in
          if r.is_stale then later else (ok r.rows, marked mode r.cached_at false)
    ]

abbrev pub official_dams : Value → Result DamReply
official_dams v = dam_rows v >>= λ rows.
    ok (record { rows = rows; relay_source = none; cached_at = none; is_stale = false })

unfoldable pub dam_sources : Settings → Result Value → Result Value → Result Value → List DamSource
unfolding validated_dams
dam_sources settings relay official direct =
    (if settings.has_relay then ("relay_json", relay >>= validated_dams) ∷ [] else [])
    ++ (if settings.has_api_token then ("official_api", official >>= official_dams) ∷ [] else [])
    ++ ("live_json", direct >>= validated_dams) ∷ []

unfoldable pub dams :
    Clock → Settings → Result Value → Result Value → Result Value → Ending (List Value)
unfolding try_dams dam_sources
dams clock settings relay official direct =
    try_dams clock settings.snapshot none [] (dam_sources settings relay official direct)
