-- ===== src/Tests/Timetable.antt =====
-- A feed with one line, one stop and one trip, each service day at one o'clock.
use istanbulmcp.Prelude.{
  ℕ, ◌≡◌, refl, Bool, true, false, none, some, List, [], ◌∷◌, ◌==◌, ◌≤◌, ◌<◌, ◌*◌, All, arith, take,
}
use istanbulmcp.Prelude.Bytes.{codes, same_bytes, strip, is_space}
use istanbulmcp.Prelude.Sort.{sort}
use istanbulmcp.Timetable.{Text, Calendar, Route, Stop, Trip, StopTime, Tables}
use istanbulmcp.Timetable.Fields.{text_field, enum_field, parse_schedule_time, format_time}
use istanbulmcp.Timetable.Fields.Times.{parse-format}
use istanbulmcp.Timetable.Rows.{values, stop_times}
use istanbulmcp.Timetable.Staging.{
  Ingested, ingest, valid_header, ingest_rows, ingest_row, same_key, compatible, table_row_cap,
}
use istanbulmcp.Timetable.Staging.Keys.{ingest_accounts, IsKeyed, used}
use istanbulmcp.Timetable.Relations.{
  join, validate_relations, runs_backwards, previous_time, calendar_start, calendar_end,
}
use istanbulmcp.Timetable.Relations.Order.{validate_relations-IsComplete, IsComplete}
use istanbulmcp.Timetable.Departures.{
  limited_rows, day_rows, collect, active_services, Place, by_id, Departure, Selected, select_stops,
  query, final_le, day_micros,
}
use istanbulmcp.Timetable.Departures.Days.{IsWithinDay}
use istanbulmcp.Timetable.Departures.Complete.{days_from, query_complete, all_rows}
use istanbulmcp.Timetable.Publish.{add_columns, Database, publish_schedule, require_snapshot}
use istanbulmcp.Timetable.Publish.Readers.{reader_consistent, Attempt, publish_all, Holds}
use istanbulmcp.Timetable.Search.{Ratios}

abbrev service : Calendar
service = record {
  service_id = codes "W";
  weekdays = true ∷ true ∷ true ∷ true ∷ true ∷ true ∷ true ∷ [];
  start_date = 5;
  end_date = 20;
}

abbrev stop : Stop
stop = record {
  stop_id = codes "S";
  stop_name = codes "levent";
  position = none;
  stop_code = none;
  stop_desc = none;
  location_type = none;
  source_location_type = none;
}

abbrev trip : Trip
trip = record {
  trip_id = codes "T";
  route_id = codes "R";
  service_id = codes "W";
  headsign = codes "x";
  direction_id = none;
}

abbrev route : Route
route = record { route_id = codes "R"; line = codes "15F"; route_name = [] }

abbrev time : StopTime
time = record {
  trip_id = codes "T";
  stop_id = codes "S";
  stop_sequence = 1;
  departure_seconds = some 3600;
  timepoint = 1;
  pickup_type = 0;
  arrival_seconds = some 3600;
}

abbrev pub tables : Tables
tables = record {
  calendar = service ∷ [];
  calendar_dates = [];
  routes = route ∷ [];
  stops = stop ∷ [];
  trips = trip ∷ [];
  stop_times = time ∷ [];
}

parse-format_example : parse_schedule_time (format_time 95400) ≡ some (some 95400)
parse-format_example = parse-format 95400 (omega arith)

abbrev header : List Text
header =
    codes "trip_id"
    ∷ codes " stop_id"
    ∷ codes "stop_sequence"
    ∷ codes "arrival_time"
    ∷ codes "departure_time"
    ∷ []

abbrev row : List Text
row = codes "T" ∷ codes "S" ∷ codes "2" ∷ codes "2:00:00" ∷ codes "02:00:00" ∷ []

abbrev later : StopTime
later = record time {
  stop_sequence = 2;
  departure_seconds = some 7200;
  arrival_seconds = some 7200;
}

-- The second of two equal rows is skipped.
abbrev ingested : Ingested
ingested = record {
  tables = record tables { stop_times = time ∷ later ∷ [] };
  count = 1;
  skipped = 1;
}

abbrev any_date : ℕ → Bool
any_date n = true

abbrev pub same : Text → Text
same s = s

ingest_accounts_example :
    (2 ≡ used any_date same (row ∷ [] ∷ row ∷ []))
    × (used any_date same (row ∷ [] ∷ row ∷ []) ≤ 9)
    × (used any_date same (row ∷ [] ∷ row ∷ []) ≤ table_row_cap stop_times)
    × (0 < 1)
    × IsKeyed (time ∷ later ∷ [])
unfolding ingest valid_header strip is_space same_bytes ingest_rows ingest_row values text_field
    parse_schedule_time enum_field same_key compatible
ingest_accounts_example =
    ingest_accounts any_date same stop_times header (row ∷ [] ∷ row ∷ []) 9 tables ingested (tt, tt)
      refl

validate_relations-IsComplete_example : IsComplete tables
unfolding validate_relations same_bytes runs_backwards previous_time
validate_relations-IsComplete_example = validate_relations-IsComplete tables refl

abbrev pub self : ℕ → ℕ
self n = n

abbrev pub noon : ℕ
noon = 10 * day_micros

abbrev pub place : Place
place = by_id (codes "S")

abbrev pub chosen : List Selected
chosen = record { stop = stop; distance = none } ∷ []

abbrev pub shown : List Departure
shown =
    record {
      stop = record { stop = stop; distance = none };
      joined = record { stop_time = time; trip = trip; route = route };
      service_day = 10;
      seconds = 3600;
    }
    ∷ []

pub in_day : All IsWithinDay tables.stop_times
in_day = (λ n e. ground (arith, e), tt)

query_complete_example :
    shown ≡ take 3 (sort final_le (all_rows self tables chosen none noon (days_from 0 20)))
unfolding select_stops same_bytes query calendar_start calendar_end sort limited_rows day_rows
    collect join active_services
query_complete_example =
    query_complete self tables chosen none noon in_day self place 3 (some 3600) shown 20 refl
      (omega arith) (omega arith) refl

abbrev empty_tables : Tables
empty_tables = record {
  calendar = [];
  calendar_dates = [];
  routes = [];
  stops = [];
  trips = [];
  stop_times = [];
}

abbrev fresh : Database
fresh = record { stop_columns = []; tables = empty_tables; meta = none }

-- The fourth statement fails.
abbrev fourth : ℕ → Bool
fourth n = n == 4

abbrev never : ℕ → Bool
never n = false

abbrev attempts : List Attempt
attempts =
    record { raises = never; staged = tables; snapshot_id = codes "N"; profile = codes "P" }
    ∷ record {
      raises = fourth;
      staged = empty_tables;
      snapshot_id = codes "M";
      profile = codes "P";
    }
    ∷ []

reader_consistent_example :
    Holds attempts (publish_all attempts fresh).tables (codes "N") (codes "P")
unfolding publish_all publish_schedule require_snapshot add_columns same_bytes
reader_consistent_example = reader_consistent attempts fresh (codes "N") (codes "P") refl refl

abbrev pub ratios : Ratios
ratios = record { real_quick = λ s. 0; quick = λ s. 0; exact_ratio = λ s. 0 }
