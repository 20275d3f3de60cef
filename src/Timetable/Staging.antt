-- ===== src/Timetable/Staging.antt =====
-- app/connectors/gtfs_schedule.py: _ingest fills the staging tables from the rows that csv.reader
-- yields. SQLite's primary keys and the trigger reject_conflicting_stop_times are tests on the rows
-- at hand; a batch inserts row by row, and the deadline between batches is left out.
pub mod Keys
use istanbulmcp.Prelude.{
  ℕ, zero, suc, ◌+◌, ◌-◌, Bool, true, false, not, ◌&&◌, ◌||◌, Option, none, some, List, [], ◌∷◌,
  ◌++◌, ltb, leb, ◌==◌, all, any, filter, length, map, min, if◌then◌else◌, String,
}
use istanbulmcp.Prelude.Bytes.{codes, same_bytes, strip}
use istanbulmcp.Timetable.{Text, Tables, StopTime}
use istanbulmcp.Timetable.Fields.{◌>>=◌, ◌>>◌, require, Row, text_field}
use istanbulmcp.Timetable.Rows.{
  Kind, agency, calendar, calendar_dates, routes, stops, trips, stop_times, Value, agency_row,
  calendar_row, calendar_date_row, route_row, stop_row, trip_row, stop_time_row, required_columns,
  values,
}

abbrev pub same_time : Option ℕ → Option ℕ → Bool
same_time none none = true
same_time (some a) (some b) = a == b
same_time none (some b) = false
same_time (some a) none = false

abbrev pub is_none : Option ℕ → Bool
is_none none = true
is_none (some n) = false

-- `s.trip_id=NEW.trip_id AND s.stop_sequence=NEW.stop_sequence`
unfoldable pub same_key : StopTime → StopTime → Bool
same_key s new = same_bytes s.trip_id new.trip_id && s.stop_sequence == new.stop_sequence

-- The rows that the trigger lets a new row meet: the same one, or both untimed.
unfoldable pub compatible : StopTime → StopTime → Bool
compatible s new =
    s.timepoint == new.timepoint
    && s.pickup_type == new.pickup_type
    && ((same_bytes s.stop_id new.stop_id
          && same_time s.arrival_seconds new.arrival_seconds
          && same_time s.departure_seconds new.departure_seconds)
        || (s.timepoint == 0
            && is_none s.arrival_seconds
            && is_none s.departure_seconds
            && is_none new.arrival_seconds
            && is_none new.departure_seconds))

-- INSERT ... ON CONFLICT DO NOTHING behind the trigger: the table and whether a row was added.
unfoldable pub insert_stop_time : List StopTime → StopTime → Option (List StopTime × Bool)
insert_stop_time table new =
    if any (λ s. same_key s new && not (compatible s new)) table
    then none
    else if any (λ s. same_key s new) table
    then some (table, false)
    else some (table ++ new ∷ [], true)

-- INSERT into a table with a primary key.
abbrev keyed {ℓ} : {A : Type ℓ} → (A → A → Bool) → List A → A → Option (List A)
keyed same table new = if any (λ r. same r new) table then none else some (table ++ new ∷ [])

-- `_insert` of one row: the tables and the number of rows added.
unfoldable pub insert : Tables → Value → Option (Tables × ℕ)
unfolding insert_stop_time
insert t agency_row = some (t, 1)
insert t (calendar_row r) = do
  rows ← keyed (λ a b. same_bytes a.service_id b.service_id) t.calendar r
  some (record t { calendar = rows }, 1)
insert t (calendar_date_row r) = do
  rows ← keyed (λ a b. same_bytes a.service_id b.service_id && a.date == b.date) t.calendar_dates r
  some (record t { calendar_dates = rows }, 1)
insert t (route_row r) = do
  rows ← keyed (λ a b. same_bytes a.route_id b.route_id) t.routes r
  some (record t { routes = rows }, 1)
insert t (stop_row r) = do
  rows ← keyed (λ a b. same_bytes a.stop_id b.stop_id) t.stops r
  some (record t { stops = rows }, 1)
insert t (trip_row r) = do
  rows ← keyed (λ a b. same_bytes a.trip_id b.trip_id) t.trips r
  some (record t { trips = rows }, 1)
insert t (stop_time_row r) = do
  (rows, added) ← insert_stop_time t.stop_times r
  some (record t { stop_times = rows }, if added then 1 else 0)

-- TABLE_ROW_CAPS
abbrev pub table_row_cap : Kind → ℕ
table_row_cap agency = 100
table_row_cap calendar = 1000
table_row_cap calendar_dates = 10000
table_row_cap routes = 20000
table_row_cap stops = 100000
table_row_cap trips = 500000
table_row_cap stop_times = 10000000

abbrev is_blank : Text → Bool
is_blank s = length s == 0

-- `{field: value for field, value in zip(fields, values) if field}`
unfoldable pub zip_row : List Text → List Text → Row
zip_row [] vs = []
zip_row (f ∷ fs) [] = []
zip_row (f ∷ fs) (v ∷ vs) = let rest = zip_row fs vs in if is_blank f then rest else (f, v) ∷ rest

unfoldable pub has_repeat : List Text → Bool
has_repeat [] = false
has_repeat (f ∷ fs) = any (same_bytes f) fs || has_repeat fs

abbrev pub init_of : List Text → List Text
init_of [] = []
init_of (f ∷ []) = []
init_of (f ∷ g ∷ fs) = f ∷ init_of (g ∷ fs)

-- The checks of the header, whose fields are stripped.
unfoldable pub valid_header : Kind → List Text → Bool
unfolding has_repeat
valid_header kind fields =
    let named = filter (λ f. not (is_blank f)) fields in
    all (λ c. any (same_bytes (codes c)) named) (required_columns kind)
    && not (has_repeat named)
    && all (λ f. not (is_blank f)) (init_of fields)

pub record Ingested : Type 0 where
  pub tables : Tables
  pub count : ℕ
  pub skipped : ℕ

-- A route row whose key is blank.
unfoldable pub lacks_id : Kind → Row → Option Bool
lacks_id routes row = do id ← text_field row (codes "route_id") false; some (is_blank id)
lacks_id agency row = some false
lacks_id calendar row = some false
lacks_id calendar_dates row = some false
lacks_id stops row = some false
lacks_id trips row = some false
lacks_id stop_times row = some false

unfoldable pub add_value : Ingested → Value → Option Ingested
unfolding insert
add_value g value = do
  (tables, added) ← insert g.tables value
  some (record { tables = tables; count = g.count + added; skipped = g.skipped + (1 - added) })

module _ (is_date : ℕ → Bool) (repair : Text → Text) where
  -- One row of values: kept, or skipped because its route has no id.
  unfoldable pub ingest_row : Kind → List Text → Ingested → List Text → Option Ingested
  unfolding zip_row lacks_id add_value
  ingest_row kind fields g vs = do
    require (length vs == length fields)
    let row = zip_row fields vs
    blank ← lacks_id kind row
    elim blank [
      | true ↦ some (record g { skipped = g.skipped + 1 })
      | false ↦ values is_date repair kind row >>= add_value g
    ]

  -- The loop over the rows with what is left of the budget; a row without values is passed over.
  unfoldable pub ingest_rows : Kind → List Text → ℕ → List (List Text) → Ingested → Option Ingested
  ingest_rows kind fields remaining [] g = some g
  ingest_rows kind fields remaining ([] ∷ rows) g = ingest_rows kind fields remaining rows g
  ingest_rows kind fields zero ((v ∷ vs) ∷ rows) g = none
  ingest_rows kind fields (suc remaining) ((v ∷ vs) ∷ rows) g =
      elim (ingest_row kind fields g (v ∷ vs)) [
        | none ↦ none
        | some g' ↦ ingest_rows kind fields remaining rows g'
      ]

  -- `_ingest`; a table without rows is an error.
  unfoldable pub ingest : Kind → List Text → List (List Text) → ℕ → Tables → Option Ingested
  ingest kind header rows remaining tables =
      let fields = map strip header in
      if valid_header kind fields
      then (do
        g ←
            ingest_rows kind fields (min remaining (table_row_cap kind)) rows
              (record { tables = tables; count = 0; skipped = 0 })
        require (ltb 0 g.count)
        some g)
      else none
