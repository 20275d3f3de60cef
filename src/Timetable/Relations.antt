-- ===== src/Timetable/Relations.antt =====
-- app/connectors/gtfs_schedule.py: the queries of _validate_relations and _finalize over the staged
-- tables. A query that selects offending rows is a test that finds none.
pub mod Order
use istanbulmcp.Prelude.{
  ℕ, ◌+◌, Bool, true, false, not, ◌&&◌, ◌||◌, Option, none, some, List, [], ◌∷◌, ◌++◌, ltb, leb,
  ◌==◌, all, any, filter, find?, length, map, min, max, if◌then◌else◌,
}
use istanbulmcp.Prelude.Bytes.{same_bytes}
use istanbulmcp.Timetable.{Text, Calendar, CalendarDate, Route, Stop, Trip, StopTime, Tables}

-- `COALESCE(a, b)`
abbrev pub coalesce : Option ℕ → Option ℕ → Option ℕ
coalesce (some a) b = some a
coalesce none b = b

-- `MAX` and `MIN`, null over no rows; `max_known` passes over nulls.
unfoldable pub max_known : List (Option ℕ) → Option ℕ
max_known [] = none
max_known (none ∷ xs) = max_known xs
max_known (some n ∷ xs) = elim (max_known xs) [ none ↦ some n | some m ↦ some (max n m) ]

unfoldable pub min_of : List ℕ → Option ℕ
min_of [] = none
min_of (n ∷ xs) = elim (min_of xs) [ none ↦ some n | some m ↦ some (min n m) ]

abbrev pub earlier : StopTime → StopTime → Bool
earlier s p = same_bytes p.trip_id s.trip_id && ltb p.stop_sequence s.stop_sequence

-- `previous_time` of the window over the rows of the trip that stand before.
unfoldable pub previous_time : List StopTime → StopTime → Option ℕ
unfolding max_known
previous_time ss s =
    max_known (map (λ p. coalesce p.departure_seconds p.arrival_seconds) (filter (earlier s) ss))

-- `COALESCE(arrival_seconds, departure_seconds) < previous_time`
unfoldable pub runs_backwards : List StopTime → StopTime → Bool
runs_backwards ss s = elim (coalesce s.arrival_seconds s.departure_seconds) [
  | none ↦ false
  | some t ↦ elim (previous_time ss s) [ none ↦ false | some p ↦ ltb t p ]
]

abbrev pub has_route : Tables → Trip → Bool
has_route t trip = any (λ r. same_bytes r.route_id trip.route_id) t.routes

abbrev pub has_service : Tables → Trip → Bool
has_service t trip =
    any (λ c. same_bytes c.service_id trip.service_id) t.calendar
    || any (λ d. same_bytes d.service_id trip.service_id) t.calendar_dates

abbrev pub has_trip_and_stop : Tables → StopTime → Bool
has_trip_and_stop t s =
    any (λ r. same_bytes r.trip_id s.trip_id) t.trips
    && any (λ p. same_bytes p.stop_id s.stop_id) t.stops

abbrev pub is_served : Tables → Trip → Bool
is_served t trip = any (λ s. same_bytes s.trip_id trip.trip_id) t.stop_times

abbrev pub is_timed : StopTime → Bool
is_timed s = elim s.departure_seconds [ none ↦ false | some n ↦ true ]

-- `_validate_relations`
unfoldable pub validate_relations : Tables → Bool
validate_relations t =
    all (has_route t) t.trips
    && all (has_service t) t.trips
    && all (has_trip_and_stop t) t.stop_times
    && all (is_served t) t.trips
    && any is_timed t.stop_times
    && all (λ s. not (runs_backwards t.stop_times s)) t.stop_times

-- The first and the last day of service.
abbrev pub added_dates : Tables → List ℕ
added_dates t = map (λ d. d.date) (filter (λ d. d.exception_type == 1) t.calendar_dates)

abbrev pub lesser : Option ℕ → Option ℕ → Option ℕ
lesser none b = b
lesser (some a) none = some a
lesser (some a) (some b) = some (min a b)

unfoldable pub calendar_start : Tables → Option ℕ
unfolding min_of
calendar_start t = lesser (min_of (map (λ c. c.start_date) t.calendar)) (min_of (added_dates t))

unfoldable pub calendar_end : Tables → Option ℕ
unfolding max_known
calendar_end t =
    max_known (map (λ c. some c.end_date) t.calendar ++ map (λ d. some d) (added_dates t))

pub record Metadata : Type 0 where
  pub max_departure_seconds : Option ℕ
  pub untimed_total : ℕ
  pub invalid_coordinate_total : ℕ
  pub invalid_location_type_total : ℕ
  pub first_day : Option ℕ
  pub last_day : Option ℕ

abbrev has_unknown_type : Stop → Bool
has_unknown_type p = elim p.source_location_type [
  | none ↦ false
  | some s ↦ elim p.location_type [ none ↦ true | some n ↦ false ]
]

-- `_finalize`
unfoldable pub finalize : Tables → Metadata
unfolding max_known
finalize t = record {
  max_departure_seconds = max_known (map (λ s. s.departure_seconds) t.stop_times);
  untimed_total = length (filter (λ s. not (is_timed s)) t.stop_times);
  invalid_coordinate_total =
      length (filter (λ p. elim p.position [ none ↦ true | some q ↦ false ]) t.stops);
  invalid_location_type_total = length (filter has_unknown_type t.stops);
  first_day = calendar_start t;
  last_day = calendar_end t;
}

-- A stop time with what a query joins to it, USING(trip_id), USING(route_id) and by its stop.
pub record Joined : Type 0 where
  pub stop_time : StopTime
  pub trip : Trip
  pub route : Route

unfoldable pub join : Tables → StopTime → Option Joined
join t s = elim (find? (λ r. same_bytes r.trip_id s.trip_id) t.trips) [
  | none ↦ none
  | some trip ↦ elim (find? (λ r. same_bytes r.route_id trip.route_id) t.routes) [
    | none ↦ none
    | some route ↦ some (record { stop_time = s; trip = trip; route = route })
  ]
]
