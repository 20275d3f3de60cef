-- ===== src/Timetable.antt =====
-- The published IETT timetable: app/connectors/gtfs_schedule.py reads it, app/storage/gtfs_schedule.py
-- publishes it and app/services/gtfs_schedule.py answers from it. These are the rows of its tables.
-- Texts are lists of code points; a service date is its eight digits as a number.
pub mod Fields
pub mod Rows
pub mod Staging
pub mod Relations
pub mod Departures
pub mod Publish
pub mod Search
pub mod Load
pub mod Service
pub mod Resources
use istanbulmcp.Prelude.{ℕ, Bool, Option, List}

abbrev pub Text : Type 0
Text = List ℕ

-- What a decimal text writes: its digits as one number, of which `places` stand behind the point.
pub record Decimal : Type 0 where
  pub digits : ℕ
  pub places : ℕ

pub record Calendar : Type 0 where
  pub service_id : Text
  pub weekdays : List Bool
  pub start_date : ℕ
  pub end_date : ℕ

pub record CalendarDate : Type 0 where
  pub service_id : Text
  pub date : ℕ
  pub exception_type : ℕ

pub record Route : Type 0 where
  pub route_id : Text
  pub line : Text
  pub route_name : Text

pub record Stop : Type 0 where
  pub stop_id : Text
  pub stop_name : Text
  pub position : Option (Decimal × Decimal)
  pub stop_code : Option Text
  pub stop_desc : Option Text
  pub location_type : Option ℕ
  pub source_location_type : Option Text

pub record Trip : Type 0 where
  pub trip_id : Text
  pub route_id : Text
  pub service_id : Text
  pub headsign : Text
  pub direction_id : Option Text

pub record StopTime : Type 0 where
  pub trip_id : Text
  pub stop_id : Text
  pub stop_sequence : ℕ
  pub departure_seconds : Option ℕ
  pub timepoint : ℕ
  pub pickup_type : ℕ
  pub arrival_seconds : Option ℕ

pub record Tables : Type 0 where
  pub calendar : List Calendar
  pub calendar_dates : List CalendarDate
  pub routes : List Route
  pub stops : List Stop
  pub trips : List Trip
  pub stop_times : List StopTime
