-- ===== src/Tests/Service.antt =====
-- A request for the departures at one stop.
use istanbulmcp.Prelude.{◌≡◌, refl, true, false, none, some, [], ltb, length, take, arith}
use istanbulmcp.Prelude.Int.{pos}
use istanbulmcp.Prelude.Bytes.{codes, same_bytes, strip, is_space}
use istanbulmcp.Validation.{resolve_limit, validate_radius, validate_text}
use istanbulmcp.Timetable.Relations.{calendar_start, calendar_end, join}
use istanbulmcp.Prelude.Sort.{sort}
use istanbulmcp.Timetable.Departures.{
  final_le, query, select_stops, limited_rows, day_rows, collect, active_services,
}
use istanbulmcp.Timetable.Publish.{Database, require_snapshot}
use istanbulmcp.Timetable.Service.{
  Tools, Settings, reset_warmup_state, snapshot, Request, Checked, one_stop, check_request,
  next_departures,
}
use istanbulmcp.Timetable.Service.Exact.{departures_exact, due}
use istanbulmcp.Tests.Timetable.{tables, shown, same, self, noon, place, ratios, in_day}

abbrev tools : Tools
tools = record {
  normal = same;
  upper = same;
  now = noon;
  from_iso = λ s. none;
  around_point = λ lat lon radius. place;
  ratios = ratios;
  date_of = self;
  ordinal = self;
}

abbrev settings : Settings
settings = record {
  default_limit = pos 1;
  max_limit = pos 10;
  max_radius_m = pos 5000;
  is_enabled = true;
}

abbrev request : Request
request = record {
  stop_id = some (codes "S");
  lat = none;
  lon = none;
  line = none;
  at = none;
  radius_m = pos 500;
  limit = none;
  stop_query = none;
}

abbrev checked : Checked
checked = record { target = one_stop (codes "S"); line = none; when = noon; limit = 1 }

abbrev db : Database
db = record { stop_columns = []; tables = tables; meta = some (codes "N", codes "P") }

departures_exact_example :
    (shown ≡ take 1 (sort final_le (due tools settings db checked 20)))
    × (false ≡ ltb 1 (length (due tools settings db checked 20)))
unfolding check_request next_departures resolve_limit validate_radius validate_text strip is_space
    reset_warmup_state require_snapshot same_bytes query select_stops calendar_start calendar_end
    sort limited_rows day_rows collect join active_services
departures_exact_example =
    departures_exact tools settings reset_warmup_state (snapshot (codes "N") (some 3600)) db
      (codes "P") request checked shown false 20 refl in_day (omega arith) (omega arith) refl
