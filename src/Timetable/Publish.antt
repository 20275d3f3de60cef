-- ===== src/Timetable/Publish.antt =====
-- app/storage/gtfs_schedule.py: a staged timetable replaces the published one in a transaction, whose
-- statements are steps that may fail. A process that is killed is a step that fails, since SQLite
-- then rolls back; attaching the staged file and the journal mode are left out.
pub mod Readers
use istanbulmcp.Prelude.{
  ℕ, zero, suc, ◌+◌, String, Bool, true, false, not, ◌&&◌, Option, none, some, List, [], ◌∷◌, ◌++◌,
  any, filter, map, str_eq, if◌then◌else◌,
}
use istanbulmcp.Prelude.Bytes.{same_bytes}
use istanbulmcp.Timetable.{Text, Stop, StopTime, Tables}

-- The published tables, the columns that the table of stops has, and the row of the meta table.
pub record Database : Type 0 where
  pub stop_columns : List String
  pub tables : Tables
  pub meta : Option (Text × Text)

abbrev pub Step : Type 0
Step = Database → Database

abbrev pub added_columns : List String
added_columns = "stop_code" ∷ "stop_desc" ∷ "location_type" ∷ []

-- `ALTER TABLE ... ADD COLUMN`, for the columns that are not there.
unfoldable pub add_columns : List String → List String → List Step
add_columns existing [] = []
add_columns existing (c ∷ cs) =
    let rest = add_columns existing cs in
    if any (str_eq c) existing
    then rest
    else (λ db. record db { stop_columns = db.stop_columns ++ c ∷ [] }) ∷ rest

-- STOP_COLUMNS and STOP_TIME_COLUMNS leave out what staging keeps for its checks alone.
abbrev pub published_stop : Stop → Stop
published_stop p = record p { source_location_type = none }

abbrev pub published_stop_time : StopTime → StopTime
published_stop_time s = record s { arrival_seconds = none }

-- The tables that readers see after a publication.
abbrev pub published : Tables → Tables
published t = record t {
  stops = map published_stop t.stops;
  stop_times = map published_stop_time t.stop_times;
}

abbrev set_tables : (Tables → Tables) → Step
set_tables f db = record db { tables = f db.tables }

-- DELETE and INSERT ... SELECT, table by table.
unfoldable pub table_steps : Tables → List Step
table_steps staged =
    set_tables (λ t. record t { calendar = [] })
    ∷ set_tables (λ t. record t { calendar = t.calendar ++ staged.calendar })
    ∷ set_tables (λ t. record t { calendar_dates = [] })
    ∷ set_tables (λ t. record t { calendar_dates = t.calendar_dates ++ staged.calendar_dates })
    ∷ set_tables (λ t. record t { routes = [] })
    ∷ set_tables (λ t. record t { routes = t.routes ++ staged.routes })
    ∷ set_tables (λ t. record t { stops = [] })
    ∷ set_tables (λ t. record t { stops = t.stops ++ map published_stop staged.stops })
    ∷ set_tables (λ t. record t { trips = [] })
    ∷ set_tables (λ t. record t { trips = t.trips ++ staged.trips })
    ∷ set_tables (λ t. record t { stop_times = [] })
    ∷ set_tables
        (λ t. record t { stop_times = t.stop_times ++ map published_stop_time staged.stop_times })
    ∷ []

unfoldable pub meta_steps : Text → Text → List Step
meta_steps snapshot_id profile =
    (λ db. record db { meta = none })
    ∷ (λ db. record db { meta = some (snapshot_id, profile) })
    ∷ []

-- The statements from the n-th on; `raises` tells which of them fail.
unfoldable pub run_steps : (ℕ → Bool) → ℕ → List Step → Database → Option Database
run_steps raises n [] db = if raises n then none else some db
run_steps raises n (step ∷ steps) db =
    let rest = run_steps raises (n + 1) steps (step db) in if raises n then none else rest

-- `publish_schedule`: the database, and whether the exception is raised again. The last of the
-- numbered statements is the commit.
unfoldable pub publish_schedule : (ℕ → Bool) → Tables → Text → Text → Database → Database × Bool
unfolding table_steps meta_steps run_steps
publish_schedule raises staged snapshot_id profile db =
    elim (run_steps raises 0
      (add_columns db.stop_columns added_columns
        ++ (table_steps staged ++ meta_steps snapshot_id profile))
      db) [ none ↦ (db, true) | some db' ↦ (db', false) ]

-- `require_snapshot` raises no ValueError.
unfoldable pub require_snapshot : Database → Text → Text → Bool
require_snapshot db snapshot_id profile = elim db.meta [
  | none ↦ false
  | some (id, p) ↦ same_bytes id snapshot_id && same_bytes p profile
]
