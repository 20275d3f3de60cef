-- ===== src/Timetable/Fields.antt =====
-- app/connectors/gtfs_schedule.py and app/connectors/gtfs.py: the fields of a GTFS row. `none` is
-- GtfsScheduleError, unless the comment says otherwise.
pub mod Times
use istanbulmcp.Prelude.{
  ℕ, zero, suc, ◌+◌, ◌-◌, ◌*◌, ◌/◌, ◌%◌, ◌^◌, Bool, true, false, not, ◌&&◌, ◌||◌, Option, none,
  some, List, [], ◌∷◌, ◌++◌, ltb, leb, ◌==◌, all, any, length, if◌then◌else◌,
}
use istanbulmcp.Prelude.Bytes.{strip, same_bytes}
use istanbulmcp.Timetable.{Text, Decimal}

infixl 5 ◌>>=◌ ◌>>◌
abbrev pub ◌>>=◌ {ν μ} : {T : Type ν} {U : Type μ} → Option T → (T → Option U) → Option U
m >>= next = elim m [ none ↦ none | some value ↦ next value ]

abbrev pub ◌>>◌ {μ} : {U : Type μ} → Option (Unit {0}) → Option U → Option U
check >> rest = check >>= λ (done : Unit {0}). rest

-- `if not test: raise GtfsScheduleError`
abbrev pub require : Bool → Option (Unit {0})
require test = if test then some tt else none

-- A row as the dict that the CSV reader builds.
abbrev pub Row : Type 0
Row = List (Text × Text)

-- `row.get(key, "")`
unfoldable pub get : Text → Row → Text
get key [] = []
get key ((k, v) ∷ row) = if same_bytes k key then v else get key row

abbrev is_empty : Text → Bool
is_empty s = length s == 0

-- `_text`, with the cap of 500 characters that every call has.
unfoldable pub text_field : Row → Text → Bool → Option Text
unfolding get
text_field row key required =
    let value = strip (get key row) in
    if (required && is_empty value) || ltb 500 (length value) || any (λ c. c == 0) value
    then none
    else some value

abbrev pub is_digit : ℕ → Bool
is_digit c = leb b'0' c && leb c b'9'

abbrev pub digit : ℕ → ℕ
digit c = c - b'0'

unfoldable pub number_from : ℕ → Text → ℕ
number_from n [] = n
number_from n (c ∷ s) = number_from (n * 10 + digit c) s

-- `_enum`: one of the allowed digits, or the default where the text is empty.
unfoldable pub enum_field : Text → List ℕ → Option ℕ → Option ℕ
enum_field [] allowed default = default
enum_field (c ∷ []) allowed default =
    if any (λ a. a + b'0' == c) allowed then some (digit c) else none
enum_field (c ∷ d ∷ s) allowed default = none

-- `_date`; `is_date` is what datetime.strptime accepts of eight digits.
unfoldable pub date_field : (ℕ → Bool) → Text → Option ℕ
unfolding number_from
date_field is_date value =
    let n = number_from 0 value in
    if length value == 8 && all is_digit value && is_date n then some n else none

abbrev pub max_departure_seconds : ℕ
max_departure_seconds = 72 * 3600 - 1

-- What follows the hours: ":", minutes, ":", seconds.
unfoldable pub minutes_seconds : ℕ → Text → Option ℕ
minutes_seconds hours (p ∷ m ∷ n ∷ q ∷ s ∷ t ∷ []) =
    let total = hours * 3600 + (digit m * 10 + digit n) * 60 + (digit s * 10 + digit t) in
    if p == b':'
      && (is_digit m && leb m b'5')
      && is_digit n
      && q == b':'
      && (is_digit s && leb s b'5')
      && is_digit t
      && leb total max_departure_seconds
    then some total
    else none
minutes_seconds hours _ = none

-- `parse_schedule_time`: an empty text is an untimed stop, `some none`.
unfoldable pub parse_schedule_time : Text → Option (Option ℕ)
unfolding minutes_seconds
parse_schedule_time [] = some none
parse_schedule_time (a ∷ []) = none
parse_schedule_time (a ∷ b ∷ rest) =
    if not (is_digit a)
    then none
    else elim (minutes_seconds (if is_digit b then digit a * 10 + digit b else digit a)
        (if is_digit b then rest else b ∷ rest)) [ none ↦ none | some total ↦ some (some total) ]

-- `f"{n:02}"`, for the numbers below 100 of a service day's hours.
abbrev pub two_digits : ℕ → Text → Text
two_digits n rest = (b'0' + n / 10) ∷ (b'0' + n % 10) ∷ rest

-- `gtfs_departure_time` of app/services/gtfs_schedule.py
unfoldable pub format_time : ℕ → Text
format_time seconds =
    two_digits (seconds / 3600)
      (b':' ∷ two_digits (seconds / 60 % 60) (b':' ∷ two_digits (seconds % 60) []))

-- `text.split(".")`
unfoldable pub split_dots : Text → List Text
split_dots [] = [] ∷ []
split_dots (c ∷ s) = elim (split_dots s) [
  | [] ↦ []
  | part ∷ parts ↦ if c == b'.' then [] ∷ part ∷ parts else (c ∷ part) ∷ parts
]

unfoldable pub concat : List Text → Text
concat [] = []
concat (p ∷ ps) = p ++ concat ps

abbrev is_group : Text → Bool
is_group p = length p == 3 && all is_digit p

-- GROUPED_COORDINATE_RE: a number with separators of thousands; its digits.
unfoldable pub grouped : List Text → Option Text
unfolding concat
grouped [] = none
grouped (p ∷ ps) =
    if leb 1 (length p)
      && leb (length p) 3
      && all is_digit p
      && leb 2 (length ps)
      && leb (length ps) 4
      && all is_group ps
    then some (p ++ concat ps)
    else none

-- DECIMAL_COORDINATE_RE behind the sign.
unfoldable pub plain : List Text → Option Decimal
unfolding number_from
plain (a ∷ []) =
    if leb 1 (length a) && all is_digit a
    then some (record { digits = number_from 0 a; places = 0 })
    else none
plain (a ∷ b ∷ []) =
    if (leb 1 (length a) || leb 1 (length b)) && all is_digit a && all is_digit b
    then some (record { digits = number_from 0 (a ++ b); places = length b })
    else none
plain _ = none

-- A negative number is outside every bound, so a sign of "-" gives none, which here is None.
unfoldable pub decimal : Text → Option Decimal
unfolding split_dots plain
decimal [] = none
decimal (c ∷ s) =
    if c == b'-'
    then none
    else if c == b'+'
    then plain (split_dots s)
    else plain (split_dots (c ∷ s))

-- `lower <= number <= upper`, with the bounds in hundredths.
abbrev within : ℕ → ℕ → Decimal → Bool
within lower upper d =
    leb (lower * 10 ^ d.places) (d.digits * 100) && leb (d.digits * 100) (upper * 10 ^ d.places)

pub data Axis : Type 0 where
  lat lon : Axis

-- `parse_gtfs_coordinate` of a text; none is None.
unfoldable pub parse_gtfs_coordinate : Text → Axis → Option Decimal
unfolding grouped decimal split_dots number_from
parse_gtfs_coordinate value axis =
    let s = strip value in
    let read : Option Decimal = elim (grouped (split_dots s)) [
      | some ds ↦ some (record { digits = number_from 0 ds; places = length ds - 2 })
      | none ↦ decimal s
    ] in
    elim read [
      | none ↦ none
      | some d ↦ elim axis [
        | lat ↦ if within 4070 4150 d then some d else none
        | lon ↦ if within 2780 3020 d then some d else none
      ]
    ]

-- `repair_mojibake`: `cp1254` is the byte of a character in Windows-1254, `decode` UTF-8 decoding.
module _ (cp1254 : ℕ → Option ℕ) (decode : List ℕ → Option Text) where
  abbrev byte_of : ℕ → Option ℕ
  byte_of c = if leb 128 c && leb c 159 then some c else cp1254 c

  unfoldable pub raw_bytes : Text → Option (List ℕ)
  raw_bytes [] = some []
  raw_bytes (c ∷ s) = do b ← byte_of c; rest ← raw_bytes s; some (b ∷ rest)

  unfoldable pub repair_mojibake : Text → Text
  unfolding raw_bytes
  repair_mojibake value =
      if any (λ c. c == 195 || c == 196 || c == 197) value
      then (let repaired : Option Text = raw_bytes value >>= decode in
          elim repaired [ none ↦ value | some t ↦ t ])
      else value
