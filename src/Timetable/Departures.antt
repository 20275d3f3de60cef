-- ===== src/Timetable/Departures.antt =====
-- app/services/gtfs_schedule.py, GtfsScheduleService._query: the scheduled departures of the next
-- day. An instant is microseconds of Istanbul wall time since day 0, as differences of datetimes
-- with one zone are; a day is its ordinal. The calendar of datetime (`date_of` the eight digits of a
-- day, `ordinal` its inverse) and the trigonometry of the distances are arguments.
pub mod Days
pub mod Complete
use istanbulmcp.Prelude.{
  ℕ, zero, suc, ◌+◌, ◌-◌, ◌*◌, ◌/◌, ◌%◌, Bool, true, false, not, ◌&&◌, ◌||◌, Option, none, some,
  List, [], ◌∷◌, ◌++◌, ltb, leb, ◌==◌, any, filter, find?, length, map, max, take, if◌then◌else◌,
}
use istanbulmcp.Prelude.Bytes.{same_bytes}
use istanbulmcp.Prelude.Sort.{sort, lex}
use istanbulmcp.Timetable.{Text, Calendar, CalendarDate, Stop, StopTime, Tables}
use istanbulmcp.Timetable.Relations.{Joined, join, calendar_start, calendar_end}

abbrev pub second_micros : ℕ
second_micros = 1000000

abbrev pub day_micros : ℕ
day_micros = 86400 * second_micros

-- Which stops a request names: one by its id, or those of a box within a radius.
pub data Place : Type 0 where
  by_id : Text → Place
  around : (Stop → Bool) → (Stop → ℕ) → (Stop → ℕ) → ℕ → Place

-- A stop with `distance_m`, which is rounded to tenths.
pub record Selected : Type 0 where
  pub stop : Stop
  pub distance : Option ℕ

abbrev distance_key : Selected → List (List ℕ)
distance_key p = (elim p.distance [ none ↦ [] | some n ↦ n ∷ [] ]) ∷ p.stop.stop_id ∷ []

-- `heapq.nsmallest(5, nearby_stops(), key=...)`
unfoldable pub nearest : (Stop → Bool) → (Stop → ℕ) → (Stop → ℕ) → ℕ → List Stop → List Selected
nearest in_box distance rounded radius stops = take 5 (
    sort (λ a b. lex (lex leb) (distance_key a) (distance_key b))
      (map (λ p. record { stop = p; distance = some (rounded p) })
        (filter (λ p. in_box p && leb (distance p) radius) stops)))

unfoldable pub select_stops : Place → List Stop → List Selected
unfolding nearest
select_stops (by_id id) stops =
    map (λ p. record { stop = p; distance = none }) (filter (λ p. same_bytes p.stop_id id) stops)
select_stops (around in_box distance rounded radius) stops =
    nearest in_box distance rounded radius stops

-- `date.weekday()`, Monday being 0
abbrev pub weekday : ℕ → ℕ
weekday day = (day + 6) % 7

abbrev pub nth_flag : ℕ → List Bool → Bool
nth_flag n [] = false
nth_flag n (b ∷ bs) = elim n [ zero ↦ b | suc k ↦ nth_flag k bs ]

abbrev pub contains : Text → List Text → Bool
contains s ts = any (same_bytes s) ts

-- The exceptions of a day, in turn: 1 adds a service and 2 removes it.
unfoldable pub apply_exceptions : ℕ → List CalendarDate → List Text → List Text
apply_exceptions date [] active = active
apply_exceptions date (e ∷ es) active = apply_exceptions date es (
    if e.date == date
    then (if e.exception_type == 1
        then e.service_id ∷ active
        else filter (λ s. not (same_bytes s e.service_id)) active)
    else active)

abbrev pub runs_on : ℕ → ℕ → Calendar → Bool
runs_on day date c =
    leb c.start_date date && leb date c.end_date && nth_flag (weekday day) c.weekdays

-- The services of a day.
unfoldable pub active_services : Tables → ℕ → ℕ → List Text
unfolding apply_exceptions
active_services t day date =
    apply_exceptions date t.calendar_dates
      (map (λ c. c.service_id) (filter (runs_on day date) t.calendar))

pub record Departure : Type 0 where
  pub stop : Selected
  pub joined : Joined
  pub service_day : ℕ
  pub seconds : ℕ

-- `midnight + timedelta(seconds=seconds)`
abbrev pub scheduled : Departure → ℕ
scheduled d = d.service_day * 86400 + d.seconds

-- A number in a tuple that is compared is a text of one.
abbrev pub sql_key : Departure → List (List ℕ)
sql_key d =
    (d.seconds ∷ [])
    ∷ d.joined.stop_time.stop_id
    ∷ d.joined.stop_time.trip_id
    ∷ (d.joined.stop_time.stop_sequence ∷ [])
    ∷ []

abbrev pub final_key : Departure → List (List ℕ)
final_key d = (scheduled d ∷ []) ∷ d.joined.stop_time.stop_id ∷ d.joined.stop_time.trip_id ∷ []

-- `ORDER BY s.departure_seconds, s.stop_id, s.trip_id, s.stop_sequence`
unfoldable pub sql_le : Departure → Departure → Bool
sql_le a b = lex (lex leb) (sql_key a) (sql_key b)

-- `data.sort(key=...)`
unfoldable pub final_le : Departure → Departure → Bool
final_le a b = lex (lex leb) (final_key a) (final_key b)

-- SQLite's UPPER, which touches ASCII letters alone.
abbrev pub upper : Text → Text
upper = map (λ c. if leb b'a' c && leb c b'z' then c - 32 else c)

abbrev pub line_fits : Option Text → Joined → Bool
line_fits none j = true
line_fits (some line) j = same_bytes (upper j.route.line) line

-- `lower <= departure_seconds < upper`, both sides moved to the time of the departure.
abbrev pub in_window : ℕ → ℕ → ℕ → Bool
in_window when day seconds =
    leb when (day * day_micros + seconds * second_micros)
    && ltb (day * day_micros + seconds * second_micros) (when + day_micros)

-- The row that a stop time gives on a service day, if it does.
unfoldable pub departure_of :
    Tables → List Selected → List Text → Option Text → ℕ → ℕ → StopTime → Option Departure
departure_of t stops active line when day s =
    elim (find? (λ p. same_bytes p.stop.stop_id s.stop_id) stops) [
      | none ↦ none
      | some p ↦ elim (join t s) [
        | none ↦ none
        | some j ↦ elim s.departure_seconds [
          | none ↦ none
          | some n ↦
              if contains j.trip.service_id active
                && in_window when day n
                && not (s.pickup_type == 1)
                && line_fits line j
              then some (record { stop = p; joined = j; service_day = day; seconds = n })
              else none
        ]
      ]
    ]

-- The rows that are there, in order.
unfoldable pub collect : (StopTime → Option Departure) → List StopTime → List Departure
collect f [] = []
collect f (s ∷ ss) = let rest = collect f ss in elim (f s) [ none ↦ rest | some d ↦ d ∷ rest ]

-- Two days back, since a service day runs for three, and tomorrow.
abbrev pub searched_days : ℕ → List ℕ
searched_days when =
    let today = when / day_micros in (today - 2) ∷ (today - 1) ∷ today ∷ (today + 1) ∷ []

pub data Answer : Type 0 where
  unknown_stop no_validity outside_calendar : Answer
  found : List Departure → Answer

-- `first <= when < last + max(86400, max_seconds + 1)`
abbrev pub is_valid : (ℕ → ℕ) → ℕ → ℕ → ℕ → ℕ → Bool
is_valid ordinal first last max_seconds when =
    leb (ordinal first * day_micros) when
    && ltb when (ordinal last * day_micros + max 86400 (max_seconds + 1) * second_micros)

abbrev names_unknown : Place → List Selected → Bool
names_unknown (by_id id) stops = length stops == 0
names_unknown (around in_box distance rounded radius) stops = false

module _ (date_of : ℕ → ℕ) where
  -- The whole answer of the query of one service day, sorted.
  unfoldable pub day_rows : Tables → List Selected → Option Text → ℕ → ℕ → List Departure
  unfolding departure_of
  day_rows t stops line when day =
      let active = active_services t day (date_of day) in
      sort sql_le (collect (departure_of t stops active line when day) t.stop_times)

  -- The rows of some service days, with the LIMIT of each query.
  unfoldable pub limited_rows :
      Tables → List Selected → Option Text → ℕ → ℕ → List ℕ → List Departure
  limited_rows t stops line when limit [] = []
  limited_rows t stops line when limit (day ∷ days) =
      take limit (day_rows t stops line when day) ++ limited_rows t stops line when limit days

  -- `_query`; `max_seconds` is the latest departure that the snapshot's metadata tells.
  unfoldable pub query : (ℕ → ℕ) → Tables → Place → Option Text → ℕ → ℕ → Option ℕ → Answer
  query ordinal t place line when limit max_seconds =
      let stops = select_stops place t.stops in
      if names_unknown place stops then unknown_stop else elim (calendar_start t) [
        | none ↦ no_validity
        | some first ↦ elim (calendar_end t) [
          | none ↦ no_validity
          | some last ↦ elim max_seconds [
            | none ↦ no_validity
            | some m ↦
                if is_valid ordinal first last m when
                then found (
                    take limit
                      (sort final_le (limited_rows t stops line when limit (searched_days when))))
                else outside_calendar
          ]
        ]
      ]
