-- ===== src/Timetable/Resources.antt =====
-- app/connectors/gtfs_schedule.py: schedule_url and select_resources, which choose the files of a
-- package. `urlsplit` and `str.casefold` are arguments; a resource that is no object is told apart.
pub mod Chosen
use istanbulmcp.Prelude.{
  ℕ, zero, suc, ◌+◌, ◌≡◌, refl, ap, ◌∙◌, ◌⊎◌, Bool, true, false, not, ◌&&◌, ◌||◌, Option, none,
  some, List, [], ◌∷◌, ◌++◌, leb, ◌==◌, all, any, filter, length, if◌then◌else◌, String, arith, All,
  Bool-cases, Option-cases, inl, inr,
}
use istanbulmcp.Prelude.Bytes.{codes, same_bytes}
use istanbulmcp.Timetable.{Text}
use istanbulmcp.Timetable.Rows.{
  Kind, agency, calendar, calendar_dates, routes, stops, trips, stop_times,
}

-- What urlsplit finds; the port is none where it is not given, and `has_user` tells of a user or a
-- password.
pub record Url : Type 0 where
  pub scheme : Text
  pub hostname : Text
  pub port : Option ℕ
  pub has_user : Bool
  pub has_query : Bool
  pub has_fragment : Bool
  pub path : Text

pub record Listed : Type 0 where
  pub url : Text
  pub id : Text
  pub name : Text

pub data Item : Type 0 where
  resource : Listed → Item
  malformed : Item

abbrev pub split_at : ℕ → Text → List Text
split_at d [] = [] ∷ []
split_at d (c ∷ s) =
    let rest = split_at d s in
    if c == d then [] ∷ rest else elim rest [ [] ↦ (c ∷ []) ∷ [] | w ∷ ws ↦ (c ∷ w) ∷ ws ]

abbrev first_part : Text → Text
first_part s = elim (split_at b'.' s) [ [] ↦ [] | w ∷ ws ↦ w ]

abbrev last_part : List Text → Text
last_part [] = []
last_part (w ∷ []) = w
last_part (w ∷ v ∷ ws) = last_part (v ∷ ws)

abbrev name_of : Kind → String
name_of agency = "agency"
name_of calendar = "calendar"
name_of calendar_dates = "calendar_dates"
name_of routes = "routes"
name_of stops = "stops"
name_of trips = "trips"
name_of stop_times = "stop_times"

-- The file names of a table.
abbrev pub file_names : Kind → List Text
file_names stop_times = codes "stop_times.zip" ∷ []
file_names kind =
    (codes (name_of kind) ++ codes ".csv") ∷ (codes (name_of kind) ++ codes ".txt") ∷ []

abbrev pub is_one_of : Text → List Text → Bool
is_one_of s names = any (same_bytes s) names

abbrev is_id_char : ℕ → Bool
is_id_char c =
    (leb b'0' c && leb c b'9')
    || (leb b'A' c && leb c b'Z')
    || (leb b'a' c && leb c b'z')
    || c == b'-'

abbrev pub is_id : Text → Bool
is_id s = not (length s == 0) && all is_id_char s

-- The regular expression of a download path, and the id that it captures.
unfoldable pub fits_path : Kind → Text → List Text → Bool
fits_path kind id (e ∷ d ∷ folder ∷ r ∷ captured ∷ l ∷ file ∷ []) =
    length e == 0
    && same_bytes d (codes "dataset")
    && is_id folder
    && same_bytes r (codes "resource")
    && is_id captured
    && same_bytes captured id
    && same_bytes l (codes "download")
    && is_one_of file (file_names kind)
fits_path kind id parts = false

abbrev pub is_standard_port : Option ℕ → Bool
is_standard_port none = true
is_standard_port (some n) = n == 443

module _ (urlsplit : Text → Option Url) (casefold : Text → Text) where
  -- `schedule_url` raises no error.
  unfoldable pub is_canonical : Kind → Listed → Bool
  unfolding fits_path
  is_canonical kind r = elim (urlsplit r.url) [
    | none ↦ false
    | some u ↦
        same_bytes u.scheme (codes "https")
        && same_bytes u.hostname (codes "data.ibb.gov.tr")
        && is_standard_port u.port
        && not u.has_user
        && not u.has_query
        && not u.has_fragment
        && fits_path kind r.id (split_at b'/' u.path)
  ]

  abbrev is_candidate : Kind → Listed → Bool
  is_candidate kind r = elim (urlsplit r.url) [
    | none ↦ false
    | some u ↦ is_one_of (last_part (split_at b'/' u.path)) (file_names kind)
  ]

  unfoldable pub candidates : Kind → List Item → List Listed
  candidates kind [] = []
  candidates kind (malformed ∷ items) = candidates kind items
  candidates kind (resource r ∷ items) =
      let rest = candidates kind items in if is_candidate kind r then r ∷ rest else rest

  abbrev pub is_advertised : Item → Bool
  is_advertised malformed = false
  is_advertised (resource r) = same_bytes (first_part (casefold r.name)) (codes "calendar_dates")

  abbrev pub is_optional : Kind → Bool
  is_optional calendar_dates = true
  is_optional kind = false

  -- One turn of the loop over the kinds: none where it raises, no resource where the kind is left
  -- out.
  unfoldable pub select_kind : List Item → Kind → Option (Option Listed)
  unfolding candidates
  select_kind items kind = elim (candidates kind items) [
    | [] ↦ if is_optional kind && not (any is_advertised items) then some none else none
    | r ∷ rs ↦ if length rs == 0 && is_canonical kind r then some (some r) else none
  ]

  unfoldable pub select_kinds : List Item → List Kind → Option (List (Kind × Listed))
  unfolding select_kind
  select_kinds items [] = some []
  select_kinds items (kind ∷ kinds) =
      let rest = select_kinds items kinds in
      elim (select_kind items kind) [
        | none ↦ none
        | some none ↦ rest
        | some (some r) ↦ elim rest [ none ↦ none | some rs ↦ some ((kind, r) ∷ rs) ]
      ]

  -- `split("?", 1)[0]` and the test of its end.
  abbrev ends_in_frequencies : Text → Bool
  ends_in_frequencies url = elim (split_at b'?' url) [
    | [] ↦ false
    | before ∷ rest ↦ elim (split_at b'/' before) [
      | [] ↦ false
      | w ∷ [] ↦ false
      | w ∷ v ∷ ws ↦
          is_one_of (last_part (v ∷ ws)) (codes "frequencies.txt" ∷ codes "frequencies.csv" ∷ [])
    ]
  ]

  abbrev is_frequencies : Item → Bool
  is_frequencies malformed = false
  is_frequencies (resource r) =
      same_bytes (first_part (casefold r.name)) (codes "frequencies")
      || ends_in_frequencies (casefold r.url)

  unfoldable pub select_resources : List Item → Option (List (Kind × Listed))
  unfolding select_kinds
  select_resources items =
      elim (select_kinds items
        (agency ∷ calendar ∷ routes ∷ stops ∷ trips ∷ stop_times ∷ calendar_dates ∷ [])) [
          | none ↦ none
          | some selected ↦ if any is_frequencies items then none else some selected
        ]
