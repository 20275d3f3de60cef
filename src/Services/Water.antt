-- ===== src/Services/Water.antt =====
-- app/connectors/iski.py: the sources of water faults and dam levels, one behind the other. What a
-- request comes to, JSON decoding and time stamps are arguments; times are microseconds.
pub mod Chain
pub mod Official
pub mod Service
use istanbulmcp.Prelude.{
  ℕ, zero, suc, ◌+◌, ◌-◌, ◌*◌, String, Bool, true, false, not, ◌&&◌, ◌||◌, leb, ltb, ◌==◌, Option,
  none, some, List, [], ◌∷◌, ◌++◌, map, filter, any, all, length, if◌then◌else◌, ◌≡◌, refl, arith,
}
use istanbulmcp.Prelude.Bytes.{codes, same_bytes, strip}
use istanbulmcp.Timetable.Search.{occurs_in}
use istanbulmcp.Services.{
  Text, Value, dict, array, text, null, Members, no_members, member, Elements, no_elements, element,
  elements, lookup, get, truthy, Python, str_of,
}

-- The exceptions that `_try_json_source` catches, and all others.
pub data ErrorKind : Type 0 where
  http_error payload_error limit_exceeded decode_error uncaught : ErrorKind

pub data Result (T : Type 0) : Type 0 where
  ok : T → Result T
  raises : ErrorKind → Result T

infixl 5 ◌>>=◌ ◌>>◌
abbrev pub ◌>>=◌ : {T U : Type 0} → Result T → (T → Result U) → Result U
m >>= next = elim m [ ok t ↦ next t | raises e ↦ raises e ]

abbrev pub ◌>>◌ : {U : Type 0} → Result (Unit {0}) → Result U → Result U
check >> rest = check >>= λ (done : Unit {0}). rest

-- A chain that ends well went well up to its last step.
pub ok-bind :
    {T U : Type 0} (m : Result T) (next : T → Result U) (u : U)
    → (m >>= next) ≡ ok u
    → (t : T) × (m ≡ ok t) × (next t ≡ ok u)
ok-bind (ok t) next u h = (t, refl, h)
ok-bind (raises e) next u h = absurd (ground arith)

abbrev pub require : Bool → Result (Unit {0})
require test = if test then ok tt else raises payload_error

abbrev pub is_dict : Value → Bool
is_dict (dict ms) = true
is_dict v = false

-- `isinstance(v, dict) and v.get(key) == t`
abbrev pub has_text : String → String → Value → Bool
has_text key t (dict ms) = elim (get key ms) [ text s ↦ same_bytes s (codes t) | _ ↦ false ]
has_text key t v = false

-- `v.get(key) if isinstance(v, dict) else None`
abbrev pub member_of : String → Value → Value
member_of key (dict ms) = get key ms
member_of key v = null

-- A text member, or None.
unfoldable pub text_member : String → Value → Option Text
text_member key v = elim (member_of key v) [ text s ↦ some s | _ ↦ none ]

-- A feature of the list of faults: its properties, and a geometry that is an object or missing.
unfoldable pub valid_feature : Value → Bool
unfolding get
valid_feature (dict ms) =
    is_dict (get "properties" ms)
    && elim (get "geometry" ms) [ null ↦ true | dict g ↦ true | _ ↦ false ]
valid_feature v = false

unfoldable pub validate_fault_payload : Value → Result Value
unfolding get valid_feature elements
validate_fault_payload body = do
  require (has_text "type" "FeatureCollection" body)
  elim (member_of "features" body) [
    | array fs ↦ if all valid_feature (elements fs) then ok body else raises payload_error
    | _ ↦ raises payload_error
  ]

unfoldable pub relay_cached_at : Value → Option Text
unfolding text_member
relay_cached_at body = text_member "relay_cached_at" body

unfoldable pub dam_rows : Value → Result (List Value)
unfolding get elements
dam_rows body = elim (member_of "data" body) [
  | array rows ↦
      if not (length (elements rows) == 0) && all is_dict (elements rows)
      then ok (elements rows)
      else raises payload_error
  | _ ↦ raises payload_error
]

-- Rows of dams, with what the relay tells of them.
pub record DamReply : Type 0 where
  pub rows : List Value
  pub relay_source : Option Text
  pub cached_at : Option Text
  pub is_stale : Bool

unfoldable pub validated_dams : Value → Result DamReply
unfolding text_member relay_cached_at dam_rows
validated_dams body = do
  rows ← dam_rows body
  ok (record {
    rows = rows;
    relay_source = text_member "relay_source" body;
    cached_at = relay_cached_at body;
    is_stale = has_text "relay_cache_status" "stale" body;
  })

-- The fields `last_..._source`, `..._source_updated_at`, `..._source_stale` and
-- `..._cache_max_age_seconds` of the client; the age is in microseconds.
pub record Marks : Type 0 where
  pub source : Option String
  pub updated_at : Option Text
  pub is_stale : Bool
  pub max_age : Option ℕ

abbrev pub no_marks : Marks
no_marks = record { source = none; updated_at = none; is_stale = false; max_age = none }

abbrev pub marked : String → Option Text → Bool → Marks
marked source at is_stale = record {
  source = some source;
  updated_at = at;
  is_stale = is_stale;
  max_age = none;
}

-- A `datetime`, which may have no time zone.
pub data Stamp : Type 0 where
  naive : Stamp
  aware : ℕ → Stamp

-- `json.loads`, `datetime.fromisoformat` and `isoformat`; none is an exception.
pub record Clock : Type 0 where
  pub loads : Text → Option Value
  pub fromisoformat : Text → Option Stamp
  pub isoformat : ℕ → Text
  pub now : Stamp

-- What is configured to fall back on.
pub record SnapshotSettings : Type 0 where
  pub raw_json : Option Text
  pub captured_at : Value
  pub max_age : ℕ

-- `value.replace("Z", "+00:00")`
unfoldable pub replace_z : Text → Text
replace_z [] = []
replace_z (c ∷ t) = if c == b'Z' then codes "+00:00" ++ replace_z t else c ∷ replace_z t

abbrev pub in_utc : Option Stamp → Result ℕ
in_utc (some (aware t)) = ok t
in_utc (some naive) = raises payload_error
in_utc none = raises payload_error

unfoldable pub snapshot_timestamp : Clock → Value → Result ℕ
unfolding strip replace_z
snapshot_timestamp clock (text t) =
    if length (strip t) == 0
    then raises payload_error
    else in_utc (clock.fromisoformat (replace_z t))
snapshot_timestamp clock v = raises payload_error

-- The payload and its time: those of a wrapper, or the whole and the configured time.
unfoldable pub unwrapped : Value → Value → Value × Value
unfolding lookup get
unwrapped (dict ms) configured = elim (lookup "payload" ms) [
  | some payload ↦ (payload, get "captured_at" ms)
  | none ↦ (dict ms, configured)
]
unwrapped v configured = (v, configured)

pub record DatedPayload : Type 0 where
  pub payload : Value
  pub captured_at : Text
  pub remaining : ℕ

abbrev pub decoded : Option Value → Result Value
decoded none = raises payload_error
decoded (some v) = ok v

-- Only a snapshot that is neither from the future nor too old is used.
unfoldable pub snapshot_payload : Clock → SnapshotSettings → Text → Result DatedPayload
unfolding snapshot_timestamp unwrapped
snapshot_payload clock settings raw_json = do
  whole ← decoded (clock.loads raw_json)
  let payload = (unwrapped whole settings.captured_at).0
  captured ← snapshot_timestamp clock (unwrapped whole settings.captured_at).1
  now ← in_utc (some clock.now)
  require (leb captured now && leb (now - captured) settings.max_age)
  ok (record {
    payload = payload;
    captured_at = clock.isoformat captured;
    remaining = settings.max_age - (now - captured);
  })
