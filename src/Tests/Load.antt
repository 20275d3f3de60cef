-- ===== src/Tests/Load.antt =====
-- A load of the six tables of a feed with one trip.
use istanbulmcp.Prelude.{
  ℕ, ◌≡◌, refl, String, Bool, true, false, Option, none, some, List, [], ◌∷◌, ◌++◌, ◌==◌, map,
  filter, length, not, if◌then◌else◌,
}
use istanbulmcp.Prelude.Bytes.{codes, same_bytes, strip, is_space, strip_left}
use istanbulmcp.Timetable.Fields.{text_field, enum_field, date_field, parse_schedule_time}
use istanbulmcp.Timetable.Staging.{ingest, valid_header, ingest_rows, ingest_row}
use istanbulmcp.Timetable.Relations.{validate_relations, runs_backwards, previous_time}
use istanbulmcp.Timetable.{Text}
use istanbulmcp.Timetable.Rows.{values, Kind, agency, calendar, routes, stops, trips, stop_times}
use istanbulmcp.Timetable.Publish.{add_columns, Database, run_steps, publish_schedule}
use istanbulmcp.Timetable.Load.{
  Resource, Member, Settings, Codecs, Loaded, load, load_resources, load_resource, fresh,
}
use istanbulmcp.Timetable.Load.Sound.{load_sound, Ends}

abbrev onto_first : ℕ → List Text → List Text
onto_first c [] = (c ∷ []) ∷ []
onto_first c (w ∷ ws) = (c ∷ w) ∷ ws

abbrev split_on : ℕ → Text → List Text
split_on d [] = [] ∷ []
split_on d (c ∷ s) = let rest = split_on d s in if c == d then [] ∷ rest else onto_first c rest

abbrev split_rows : ℕ → Text → Option (List (List Text))
split_rows d s = some (map (split_on d) (filter (λ l. not (length l == 0)) (split_on 10 s)))

abbrev two_lines : String → String → Text
two_lines header row = codes header ++ (10 ∷ codes row)

abbrev zipped : List ℕ → Option (List Member)
zipped content = some (
    record {
      filename = codes "stop_times.txt";
      is_encrypted = false;
      file_size = 90;
      content = content;
    }
    ∷ [])

abbrev codecs : Codecs
codecs = record {
  lower = λ s. s;
  is_date = λ n. true;
  repair = λ s. s;
  decode = λ s. some s;
  csv = split_rows;
  unzip = zipped;
}

abbrev settings : Settings
settings = record { max_bytes = 900; max_uncompressed_bytes = 900; max_rows = 9 }

abbrev file : Kind → String → String → Resource
file kind header row = record {
  kind = kind;
  size = none;
  response = record {
    status_code = 200;
    content_encoding = none;
    content_type = none;
    content_length = none;
    chunks = two_lines header row ∷ [];
  };
}

abbrev resources : List Resource
resources =
    file agency "agency_timezone" "Europe/Istanbul"
    ∷ file calendar
        "service_id,monday,tuesday,wednesday,thursday,friday,saturday,sunday,start_date,end_date"
        "W,1,1,1,1,1,0,0,20260101,20261231"
    ∷ file routes "route_id,route_short_name,route_long_name" "R,15F,x"
    ∷ file stops "stop_id,stop_name,stop_lat,stop_lon" "S,levent,41.0,29.0"
    ∷ file trips "trip_id,route_id,service_id,trip_headsign" "T,R,W,x"
    ∷ file stop_times "trip_id,stop_id,stop_sequence,arrival_time,departure_time"
        "T,S,1,25:00:00,25:00:00"
    ∷ []

abbrev never : ℕ → Bool
never n = false

abbrev before : Database
before = record { stop_columns = []; tables = fresh.tables; meta = none }

abbrev after : Database × Option Loaded
after = load codecs settings false false never (codes "N") (codes "P") resources before

load_sound_example : Ends codecs settings false (codes "N") (codes "P") before after.0 after.1
load_sound_example =
    load_sound codecs settings false false never (codes "N") (codes "P") resources before after.0
      after.1 refl

abbrev returned : Option Loaded → Bool
returned none = false
returned (some l) = true

-- The load of these files returns.
load_returns : returned after.1 ≡ true
unfolding load load_resources load_resource same_bytes strip is_space strip_left ingest valid_header
    ingest_rows ingest_row values text_field enum_field date_field parse_schedule_time
    validate_relations runs_backwards previous_time run_steps publish_schedule add_columns
load_returns = refl
