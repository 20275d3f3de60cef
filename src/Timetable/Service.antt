-- ===== src/Timetable/Service.antt =====
-- app/services/gtfs_schedule.py: the warm-up, the checks of a request, and next_departures around
-- the query. What the source cache answered is an argument; the texts of the replies, their
-- sources and the budget of one second of a query are left out.
pub mod Exact
use istanbulmcp.Prelude.{
  ℕ, zero, suc, ◌+◌, ◌-◌, String, Bool, true, false, not, ◌&&◌, ◌||◌, Option, none, some, List, [],
  ◌∷◌, ◌++◌, ltb, leb, ◌==◌, length, take, if◌then◌else◌,
}
use istanbulmcp.Prelude.Int.{ℤ, pos, negsuc, pos_part}
use istanbulmcp.Prelude.Bytes.{codes}
use istanbulmcp.Validation.{
  InputValidationError, Validated, raises, accepts, ◌>>=◌, ◌>>◌, require, invalid, Float,
  validate_lat_lon, validate_radius, resolve_limit, validate_text, validate_line_code,
}
use istanbulmcp.Timetable.{Text, Stop}
use istanbulmcp.Timetable.Departures.{
  Place, by_id, Departure, Answer, unknown_stop, no_validity, outside_calendar, found, query,
}
use istanbulmcp.Timetable.Publish.{Database, require_snapshot}
use istanbulmcp.Timetable.Search.{Ratios, StopSearchResult, search_stops}

pub record Warmup : Type 0 where
  pub active : Bool
  pub done : Bool
  pub error : Option String

unfoldable pub reset_warmup_state : Warmup
reset_warmup_state = record { active = false; done = false; error = none }

-- Whether the caller is the one to run it.
unfoldable pub begin_warmup : Warmup → Warmup × Bool
begin_warmup w = if w.active || w.done then (w, false) else (record w { active = true }, true)

-- The end of `run_warmup`, whose load raised the named exception or none.
unfoldable pub end_warmup : Option String → Warmup → Warmup
end_warmup raised w = record {
  active = false;
  done = true;
  error = elim raised [ none ↦ w.error | some name ↦ some name ];
}

pub record Request : Type 0 where
  pub stop_id : Option Text
  pub lat : Option Float
  pub lon : Option Float
  pub line : Option Text
  pub at : Option Text
  pub radius_m : ℤ
  pub limit : Option ℤ
  pub stop_query : Option Text

-- What a valid request asks for.
pub data Target : Type 0 where
  names : Text → Target
  one_stop : Text → Target
  near : Float → Float → ℤ → Target

pub record Checked : Type 0 where
  pub target : Target
  pub line : Option Text
  pub when : ℕ
  pub limit : ℕ

-- What `datetime.fromisoformat` reads: the year, whether there is an offset, and the time in Istanbul.
pub record Instant : Type 0 where
  pub year : ℕ
  pub has_offset : Bool
  pub istanbul : ℕ

-- `text.replace("Z", "+00:00")`
abbrev replace_z : Text → Text
replace_z [] = []
replace_z (c ∷ s) = if c == b'Z' then codes "+00:00" ++ replace_z s else c ∷ replace_z s

pub record Settings : Type 0 where
  pub default_limit : ℤ
  pub max_limit : ℤ
  pub max_radius_m : ℤ
  pub is_enabled : Bool

abbrev is_given {ℓ} : {A : Type ℓ} → Option A → Bool
is_given none = false
is_given (some a) = true

-- What the service takes from libraries: the normal form of names, `str.upper`, the clock, the
-- parser of instants, and the box and the distances around a point.
pub record Tools : Type 0 where
  pub normal : Text → Text
  pub upper : Text → Text
  pub now : ℕ
  pub from_iso : Text → Option Instant
  pub around_point : Float → Float → ℤ → Place
  pub ratios : Ratios
  pub date_of : ℕ → ℕ
  pub ordinal : ℕ → ℕ

-- What became of `_snapshot`: the snapshot's id and the latest departure of its metadata, or an
-- exception, which may be a timeout.
pub data Cached : Type 0 where
  raised : Bool → Cached
  snapshot : Text → Option ℕ → Cached

pub data Reply : Type 0 where
  invalid_request : InputValidationError → Reply
  disabled warming_up outside : Reply
  unavailable : Bool → Reply
  candidates : StopSearchResult → Reply
  departures : List Departure → Bool → Reply

module _ (tools : Tools) (settings : Settings) where
  unfoldable pub validate_stop_query : Text → Validated Text
  validate_stop_query value = do
    text ← validate_text value "stop_query" 200 2
    require (leb 2 (length (tools.normal text))) (invalid "stop_query" none none)
    accepts text

  -- `_query_time`, which raises one error for every cause.
  unfoldable pub query_time : Option Text → Validated ℕ
  query_time none = accepts tools.now
  query_time (some at) = elim (validate_text at "at" 64 1) [
    | raises error ↦ raises (invalid "at" none none)
    | accepts text ↦ elim (tools.from_iso (replace_z text)) [
      | none ↦ raises (invalid "at" none none)
      | some t ↦
          if t.has_offset && leb 2000 t.year && leb t.year 2100
          then accepts t.istanbul
          else raises (invalid "at" none none)
    ]
  ]

  -- The branches on `searching`, `stop_id` and the coordinates.
  unfoldable pub target_of : Request → Validated Target
  unfolding validate_stop_query
  target_of r = elim r.stop_query [
    | some value ↦ do
      text ← validate_stop_query value
      require
          (not (
            is_given r.stop_id
            || is_given r.lat
            || is_given r.lon
            || is_given r.line
            || is_given r.at
            || not (pos_part r.radius_m == 500)))
          (invalid "stop_query" none none)
      accepts (names text)
    | none ↦ elim r.stop_id [
      | some id ↦ do
        text ← validate_text id "stop_id" 500 1
        require (not (is_given r.lat || is_given r.lon)) (invalid "stop_id" none none)
        accepts (one_stop text)
      | none ↦ elim r.lat [
        | none ↦ raises (invalid "stop_id" none none)
        | some lat ↦ elim r.lon [
          | none ↦ raises (invalid "stop_id" none none)
          | some lon ↦ do checked ← validate_lat_lon lat lon; accepts (near lat lon r.radius_m)
        ]
      ]
    ]
  ]

  unfoldable pub line_of : Option Text → Validated (Option Text)
  line_of none = accepts none
  line_of (some line) = do code ← validate_line_code tools.upper line 20; accepts (some code)

  -- The first block of `next_departures`.
  unfoldable pub check_request : Request → Validated Checked
  unfolding target_of line_of query_time
  check_request r = do
    limit ← resolve_limit r.limit settings.default_limit settings.max_limit
    radius ← validate_radius r.radius_m settings.max_radius_m
    target ← target_of r
    line ← line_of r.line
    when ← if is_given r.stop_query then accepts 0 else query_time r.at
    accepts (record { target = target; line = line; when = when; limit = pos_part limit })

  abbrev pub place_of : Target → Place
  place_of (names text) = by_id text
  place_of (one_stop id) = by_id id
  place_of (near lat lon radius) = tools.around_point lat lon radius

  -- `_snapshot_query` of departures, with what next_departures makes of the answer.
  unfoldable pub departures_reply : Database → Checked → Option ℕ → Reply
  departures_reply db c max_seconds =
      elim (query tools.date_of tools.ordinal db.tables (place_of c.target) c.line c.when
        (c.limit + 1) max_seconds) [
          | unknown_stop ↦ invalid_request (invalid "stop_id" none none)
          | no_validity ↦ unavailable false
          | outside_calendar ↦ outside
          | found rows ↦ departures (take c.limit rows) (ltb c.limit (length rows))
        ]

  unfoldable pub snapshot_reply : Database → Text → Checked → Text → Option ℕ → Reply
  unfolding departures_reply
  snapshot_reply db profile c id max_seconds =
      if require_snapshot db id profile
      then elim c.target [
        | names text ↦
            candidates (search_stops tools.normal tools.ratios text c.limit db.tables.stops)
        | one_stop stop_id ↦ departures_reply db c max_seconds
        | near lat lon radius ↦ departures_reply db c max_seconds
      ]
      else unavailable false

  -- `next_departures`.
  unfoldable pub next_departures : Warmup → Cached → Database → Text → Request → Reply
  unfolding check_request snapshot_reply
  next_departures w cached db profile r = elim (check_request r) [
    | raises error ↦ invalid_request error
    | accepts c ↦
        if not settings.is_enabled then disabled else if w.active then warming_up else elim cached [
          | raised is_timeout ↦ unavailable is_timeout
          | snapshot id max_seconds ↦ snapshot_reply db profile c id max_seconds
        ]
  ]
