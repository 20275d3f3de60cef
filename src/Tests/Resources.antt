-- ===== src/Tests/Resources.antt =====
-- A package with the six tables that are needed, under paths instead of addresses.
use istanbulmcp.Prelude.{refl, String, false, Option, none, some, List, [], ◌∷◌, ◌++◌}
use istanbulmcp.Prelude.Bytes.{codes, same_bytes}
use istanbulmcp.Timetable.{Text}
use istanbulmcp.Timetable.Rows.{
  Kind, agency, calendar, calendar_dates, routes, stops, trips, stop_times,
}
use istanbulmcp.Timetable.Resources.{
  Url, Listed, Item, resource, malformed, select_resources, is_canonical,
}
use istanbulmcp.Timetable.Resources.Chosen.{Covers, select_resources-Covers}

abbrev split : Text → Option Url
split path = some (record {
  scheme = codes "https";
  hostname = codes "data.ibb.gov.tr";
  port = none;
  has_user = false;
  has_query = false;
  has_fragment = false;
  path = path;
})

abbrev same : Text → Text
same s = s

abbrev file : String → Listed
file name = record {
  url = codes "/dataset/d/resource/r/download/" ++ codes name;
  id = codes "r";
  name = codes name;
}

abbrev package_items : List Item
package_items =
    malformed
    ∷ resource (file "agency.csv")
    ∷ resource (file "calendar.csv")
    ∷ resource (file "routes.csv")
    ∷ resource (file "stops.txt")
    ∷ resource (file "trips.csv")
    ∷ resource (file "stop_times.zip")
    ∷ []

abbrev chosen : List (Kind × Listed)
chosen =
    (agency, file "agency.csv")
    ∷ (calendar, file "calendar.csv")
    ∷ (routes, file "routes.csv")
    ∷ (stops, file "stops.txt")
    ∷ (trips, file "trips.csv")
    ∷ (stop_times, file "stop_times.zip")
    ∷ []

select_resources-Covers_example :
    Covers split same package_items
      (agency ∷ calendar ∷ routes ∷ stops ∷ trips ∷ stop_times ∷ calendar_dates ∷ [])
      chosen
unfolding select_resources same_bytes is_canonical
select_resources-Covers_example = select_resources-Covers split same package_items chosen refl
