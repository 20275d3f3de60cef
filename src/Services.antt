-- ===== src/Services.antt =====
-- What the services share: decoded JSON as it comes from a source, app/services/places.py's
-- normalize_place, app/core/geo.py, and the answer of a tool. Python's own functions on texts and
-- floats are an argument.
pub mod Page
pub mod Pharmacy
pub mod Water
pub mod Disruptions
pub mod Accessibility
pub mod Facilities
use istanbulmcp.Prelude.{
  ℕ, zero, suc, ◌*◌, String, Bool, true, false, not, ◌&&◌, ◌||◌, ◌==◌, Option, none, some, List, [],
  ◌∷◌, ◌++◌, map, filter, length, take, if◌then◌else◌, str_eq,
}
use istanbulmcp.Prelude.Int.{ℤ, pos, ltb_ℤ, pos_part}
use istanbulmcp.Prelude.Bytes.{codes, strip}
use istanbulmcp.Validation.{
  Validated, raises, accepts, Float, nan, number, degree, between, InputValidationError,
}
use istanbulmcp.Cache.{CachedSourceData, Outcome, returned, raised}
use istanbulmcp.Envelope.{ResultInfo, FreshnessStatus, fresh, stale, result_info}
use istanbulmcp.Timetable.Search.{words, join_words}

abbrev pub Text : Type 0
Text = List ℕ

mutual
  -- Decoded JSON. The keys of an object are looked up by name.
  pub data Value : Type 0 where
    dict : Members → Value
    array : Elements → Value
    text : Text → Value
    amount : Float → Value
    flag : Bool → Value
    null : Value

  pub data Members : Type 0 where
    no_members : Members
    member : String → Value → Members → Members

  pub data Elements : Type 0 where
    no_elements : Elements
    element : Value → Elements → Elements

-- `key in d`, with the value.
unfoldable pub lookup : String → Members → Option Value
lookup key no_members = none
lookup key (member k v ms) = if str_eq k key then some v else lookup key ms

-- `d.get(key)`
unfoldable pub get : String → Members → Value
unfolding lookup
get key ms = elim (lookup key ms) [ none ↦ null | some v ↦ v ]

unfoldable pub elements : Elements → List Value
elements no_elements = []
elements (element v vs) = v ∷ elements vs

-- `bool(value)`
unfoldable pub truthy : Value → Bool
truthy (dict no_members) = false
truthy (dict (member k v ms)) = true
truthy (array no_elements) = false
truthy (array (element v vs)) = true
truthy (text s) = not (length s == 0)
truthy (amount nan) = true
truthy (amount (number n)) = ltb_ℤ n (pos 0) || ltb_ℤ (pos 0) n
truthy (flag b) = b
truthy null = false

-- `a or b`
abbrev pub or_else : Value → Value → Value
or_else a b = if truthy a then a else b

-- `t or None`
abbrev pub non_empty : Text → Option Text
non_empty t = if length t == 0 then none else some t

-- `t or ""`
abbrev pub or_empty : Option Text → Text
or_empty none = []
or_empty (some t) = t

-- Python's functions on texts and numbers. `str` is asked for values that are not texts;
-- `to_float` gives none where `float` raises.
pub record Python : Type 0 where
  pub nfkc : Text → Text
  pub nfkd : Text → Text
  pub casefold : Text → Text
  pub is_combining : ℕ → Bool
  pub str : Value → Text
  pub to_float : Value → Option Float
  pub round : ℕ → ℤ → ℤ
  pub fixed : ℕ → Float → Text
  pub sha256 : Text → Text
  pub urlencode : List (String × Text) → Text
  pub plus : Float → Float → Float
  pub minus : Float → Float → Float
  pub times : Float → Float → Float
  pub divided : Float → Float → Float
  pub radians : Float → Float
  pub sin : Float → Float
  pub cos : Float → Float
  pub sqrt : Float → Float
  pub atan2 : Float → Float → Float

-- `float(n)` of a whole number.
abbrev pub whole : ℕ → Float
whole n = number (pos (n * degree))

-- The table of `str.maketrans`.
abbrev pub replaced : ℕ → ℕ
replaced c =
    if c == 305 || c == 304
    then b'i'
    else if c == 246
    then b'o'
    else if c == 252
    then b'u'
    else if c == 351
    then b's'
    else if c == 287
    then b'g'
    else if c == 231
    then b'c'
    else if c == b',' || c == b'.' || c == b'/' || c == b'(' || c == b')'
    then b' '
    else c

module _ (py : Python) where
  -- `str(value)`
  abbrev pub str_of : Value → Text
  str_of (text t) = t
  str_of v = py.str v

  unfoldable pub normalize_place : Text → Text
  unfolding words join_words strip
  normalize_place value =
      let normalized = py.casefold (strip (py.nfkc value)) in
      let translated = py.nfkd (map replaced normalized) in
      join_words (words (filter (λ c. not (py.is_combining c)) translated))

  -- `text_or_none`: None, or the text without the white space around it, or None if nothing is left.
  unfoldable pub text_or_none : Value → Option Text
  unfolding strip
  text_or_none null = none
  text_or_none v = non_empty (strip (str_of v))

  unfoldable pub float_or_none : Value → Option Float
  float_or_none null = none
  float_or_none (text []) = none
  float_or_none v = py.to_float v

  unfoldable pub haversine_m : Float → Float → Float → Float → Float
  haversine_m lat1 lon1 lat2 lon2 =
      let half = λ (x : Float). py.divided x (whole 2) in
      let squared = λ (x : Float). py.times x x in
      let d_phi = py.radians (py.minus lat2 lat1) in
      let d_lambda = py.radians (py.minus lon2 lon1) in
      let a = py.plus (squared (py.sin (half d_phi))) (
        py.times (py.times (py.cos (py.radians lat1)) (py.cos (py.radians lat2)))
          (squared (py.sin (half d_lambda)))) in
      py.times (py.times (whole 2) (whole 6371000))
        (py.atan2 (py.sqrt a) (py.sqrt (py.minus (whole 1) a)))

  unfoldable pub google_maps_url : Option Float → Option Float → Option Text
  google_maps_url (some lat) (some lon) =
      if between 90 lat && between 180 lon
      then some (
          codes "https://www.google.com/maps/search/?api=1&query="
          ++ py.fixed 6 lat
          ++ (b',' ∷ py.fixed 6 lon))
      else none
  google_maps_url _ _ = none

-- `", ".join(...)`
unfoldable pub join_commas : List Text → Text
join_commas [] = []
join_commas (t ∷ []) = t
join_commas (t ∷ u ∷ ts) = t ++ (b',' ∷ b' ' ∷ join_commas (u ∷ ts))

unfoldable pub google_maps_search_url : Python → List Text → Option Text
unfolding join_commas strip
google_maps_search_url py parts =
    let query = join_commas (filter (λ t. not (length t == 0)) (map strip parts)) in
    if length query == 0
    then none
    else some (
        codes "https://www.google.com/maps/search/?"
        ++ py.urlencode (("api", codes "1") ∷ ("query", query) ∷ []))

-- An argument of a tool: left out, of another type than the tool takes, or a value.
pub data Given (T : Type 0) : Type 0 where
  missing : Given T
  mistyped : Given T
  value : T → Given T

-- What a source's load raises: the limiter's error with its delay, or any other exception.
pub data SourceError : Type 0 where
  exceeded : ℕ → SourceError
  failure : Text → SourceError

-- An answer with rows, and the warnings by their cause.
pub record Reply (R W : Type 0) : Type 0 where
  pub shown : List R
  pub result : ResultInfo
  pub freshness : FreshnessStatus
  pub warnings : List W

-- How a tool ends: the three error envelopes, or an answer.
pub data Answer (R W : Type 0) : Type 0 where
  refused : InputValidationError → Answer R W
  rate_limited : ℕ → Answer R W
  source_error : Text → Answer R W
  answered : Reply R W → Answer R W

-- The rows up to the limit, with the number of those that matched.
unfoldable pub page : {R W : Type 0} → ℤ → List R → FreshnessStatus → List W → Reply R W
unfolding result_info
page limit matching freshness warnings =
    let kept = take (pos_part limit) matching in
    record {
      shown = kept;
      result = result_info (length kept) (some (length matching)) none "data";
      freshness = freshness;
      warnings = warnings;
    }

-- The `try` blocks around a tool: the arguments are validated, and then the source is read.
unfoldable pub ask :
    {Q V M R W : Type 0}
    → Validated Q
    → Outcome V M SourceError
    → (Q → CachedSourceData V M SourceError → Reply R W)
    → Answer R W
ask (raises error) outcome reply = refused error
ask (accepts q) (raised (exceeded delay)) reply = rate_limited delay
ask (accepts q) (raised (failure error)) reply = source_error error
ask (accepts q) (returned cached) reply = answered (reply q cached)
