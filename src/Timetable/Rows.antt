-- ===== src/Timetable/Rows.antt =====
-- app/connectors/gtfs_schedule.py, GtfsScheduleClient._values: what becomes of one row of a table.
-- `is_date` and `repair` are datetime.strptime and repair_mojibake with their codecs.
use istanbulmcp.Prelude.{
  ℕ, ◌-◌, Bool, true, false, not, ◌&&◌, ◌||◌, Option, none, some, List, [], ◌∷◌, ltb, leb, ◌==◌,
  all, length, if◌then◌else◌, String,
}
use istanbulmcp.Prelude.Bytes.{codes, same_bytes}
use istanbulmcp.Timetable.{Text, Calendar, CalendarDate, Route, Stop, Trip, StopTime}
use istanbulmcp.Timetable.Fields.{
  ◌>>=◌, ◌>>◌, require, Row, text_field, enum_field, date_field, parse_schedule_time,
  parse_gtfs_coordinate, lat, lon, is_digit, number_from,
}

pub data Kind : Type 0 where
  agency calendar calendar_dates routes stops trips stop_times : Kind

pub data Value : Type 0 where
  agency_row : Value
  calendar_row : Calendar → Value
  calendar_date_row : CalendarDate → Value
  route_row : Route → Value
  stop_row : Stop → Value
  trip_row : Trip → Value
  stop_time_row : StopTime → Value

-- REQUIRED: the columns that a table must have.
abbrev pub required_columns : Kind → List String
required_columns agency = "agency_timezone" ∷ []
required_columns calendar =
    "service_id" ∷ "monday" ∷ "tuesday" ∷ "wednesday" ∷ "thursday" ∷ "friday" ∷ "saturday"
    ∷ "sunday" ∷ "start_date" ∷ "end_date" ∷ []
required_columns calendar_dates = "service_id" ∷ "date" ∷ "exception_type" ∷ []
required_columns routes = "route_id" ∷ "route_short_name" ∷ "route_long_name" ∷ []
required_columns stops = "stop_id" ∷ "stop_name" ∷ "stop_lat" ∷ "stop_lon" ∷ []
required_columns trips = "trip_id" ∷ "route_id" ∷ "service_id" ∷ "trip_headsign" ∷ []
required_columns stop_times =
    "trip_id" ∷ "stop_id" ∷ "stop_sequence" ∷ "arrival_time" ∷ "departure_time" ∷ []

abbrev weekday_names : List String
weekday_names =
    "monday" ∷ "tuesday" ∷ "wednesday" ∷ "thursday" ∷ "friday" ∷ "saturday" ∷ "sunday" ∷ []

-- `get(key)` and `get(key, required=False)`
abbrev needed : Row → String → Option Text
needed row key = text_field row (codes key) true

abbrev optional : Row → String → Option Text
optional row key = text_field row (codes key) false

-- `value or None`
abbrev or_none : Text → Option Text
or_none [] = none
or_none (c ∷ s) = some (c ∷ s)

-- The flags of the weekdays, Monday first.
unfoldable pub weekdays_of : Row → List String → Option (List Bool)
weekdays_of row [] = some []
weekdays_of row (day ∷ days) = do
  s ← needed row day
  n ← enum_field s (0 ∷ 1 ∷ []) none
  rest ← weekdays_of row days
  some ((n == 1) ∷ rest)

-- `[0-9]{1,8}` and its number.
unfoldable pub sequence_of : Text → Option ℕ
unfolding number_from
sequence_of s =
    if leb 1 (length s) && leb (length s) 8 && all is_digit s then some (number_from 0 s) else none

-- The location type of the source where it is one of "0" to "4"; none is None.
unfoldable pub location_type_of : Text → Option ℕ
location_type_of s = elim s [
  | [] ↦ none
  | c ∷ more ↦ if length more == 0 && leb b'0' c && leb c b'4' then some (c - b'0') else none
]

-- Both coordinates, or neither.
abbrev pub both {ℓ} : {A B : Type ℓ} → Option A → Option B → Option (A × B)
both (some a) (some b) = some (a, b)
both (some a) none = none
both none b = none

abbrev pub is_after : Option ℕ → Option ℕ → Bool
is_after (some a) (some b) = ltb b a
is_after (some a) none = false
is_after none b = false

abbrev is_some : Option ℕ → Bool
is_some none = false
is_some (some n) = true

unfoldable pub stop_time_values : Row → Option StopTime
unfolding sequence_of
stop_time_values row = do
  a ← optional row "arrival_time"
  arrival ← parse_schedule_time a
  d ← optional row "departure_time"
  departure ← parse_schedule_time d
  require (not (is_after arrival departure))
  s ← needed row "stop_sequence"
  sequence ← sequence_of s
  t ← optional row "timepoint"
  timepoint ← enum_field t (0 ∷ 1 ∷ []) (some 1)
  require (not (timepoint == 1) || (is_some arrival && is_some departure))
  trip ← needed row "trip_id"
  stop ← needed row "stop_id"
  p ← optional row "pickup_type"
  pickup ← enum_field p (0 ∷ 1 ∷ 2 ∷ 3 ∷ []) (some 0)
  some (record {
    trip_id = trip;
    stop_id = stop;
    stop_sequence = sequence;
    departure_seconds = departure;
    timepoint = timepoint;
    pickup_type = pickup;
    arrival_seconds = arrival;
  })

module _ (is_date : ℕ → Bool) (repair : Text → Text) where
  unfoldable pub calendar_values : Row → Option Calendar
  unfolding weekdays_of
  calendar_values row = do
    days ← weekdays_of row weekday_names
    s ← needed row "start_date"
    start ← date_field is_date s
    e ← needed row "end_date"
    end ← date_field is_date e
    require (leb start end)
    service ← needed row "service_id"
    some (record { service_id = service; weekdays = days; start_date = start; end_date = end })

  unfoldable pub stop_values : Row → Option Stop
  unfolding location_type_of
  stop_values row = do
    y ← optional row "stop_lat"
    x ← optional row "stop_lon"
    kind ← optional row "location_type"
    stop ← needed row "stop_id"
    name ← needed row "stop_name"
    code ← optional row "stop_code"
    desc ← optional row "stop_desc"
    some (record {
      stop_id = stop;
      stop_name = repair name;
      position = both (parse_gtfs_coordinate y lat) (parse_gtfs_coordinate x lon);
      stop_code = or_none code;
      stop_desc = or_none (repair desc);
      location_type = location_type_of kind;
      source_location_type = or_none kind;
    })

  -- `_values`
  unfoldable pub values : Kind → Row → Option Value
  unfolding calendar_values stop_values stop_time_values
  values agency row = do
    zone ← needed row "agency_timezone"
    require (same_bytes zone (codes "Europe/Istanbul"))
    some agency_row
  values calendar row = do c ← calendar_values row; some (calendar_row c)
  values calendar_dates row = do
    service ← needed row "service_id"
    d ← needed row "date"
    date ← date_field is_date d
    e ← needed row "exception_type"
    exception ← enum_field e (1 ∷ 2 ∷ []) none
    some (
        calendar_date_row
          (record { service_id = service; date = date; exception_type = exception }))
  values routes row = do
    route ← needed row "route_id"
    short ← optional row "route_short_name"
    long ← optional row "route_long_name"
    some (route_row (record { route_id = route; line = repair short; route_name = repair long }))
  values stops row = do s ← stop_values row; some (stop_row s)
  values trips row = do
    trip ← needed row "trip_id"
    route ← needed row "route_id"
    service ← needed row "service_id"
    headsign ← optional row "trip_headsign"
    direction ← optional row "direction_id"
    some (
        trip_row (record {
          trip_id = trip;
          route_id = route;
          service_id = service;
          headsign = repair headsign;
          direction_id = or_none direction;
        }))
  values stop_times row = do t ← stop_time_values row; some (stop_time_row t)
