-- ===== src/Timetable/Departures/Days.antt =====
-- The rows of one service day: what they are, and on which days there are any.
use istanbulmcp.Prelude.{
  ℕ, ◌+◌, ◌*◌, ◌/◌, ◌≤◌, ◌<◌, ◌≡◌, refl, Bool, true, false, not, ◌&&◌, Option, none, some, List, [],
  ◌∷◌, leb, ◌==◌, find?, if◌then◌else◌, arith, All, All-map, ◌⊎◌, Option-cases, inl, inr,
}
use istanbulmcp.Prelude.Bytes.{same_bytes}
use istanbulmcp.Prelude.Sort.{
  sort, lex, IsOrder, IsSorted, sort-IsSorted, lex-IsOrder, leb-IsOrder, All-sort,
}
use istanbulmcp.Timetable.{Text, Tables, StopTime}
use istanbulmcp.Timetable.Fields.{max_departure_seconds}
use istanbulmcp.Timetable.Relations.{Joined, join}
use istanbulmcp.Timetable.Departures.{
  Selected, Departure, departure_of, collect, day_rows, active_services, sql_le, final_le, sql_key,
  final_key, scheduled, in_window, contains, line_fits, day_micros, second_micros,
}

keys-IsOrder : IsOrder (lex (lex leb))
keys-IsOrder = lex-IsOrder (lex leb) (lex-IsOrder leb leb-IsOrder)

-- Rows compare by their keys as the keys do.
pub sql_le-IsOrder : IsOrder sql_le
unfolding sql_le
sql_le-IsOrder = record {
  total = λ a b. keys-IsOrder.total (sql_key a) (sql_key b);
  trans = λ a b c. keys-IsOrder.trans (sql_key a) (sql_key b) (sql_key c);
}

pub final_le-IsOrder : IsOrder final_le
unfolding final_le
final_le-IsOrder = record {
  total = λ a b. keys-IsOrder.total (final_key a) (final_key b);
  trans = λ a b c. keys-IsOrder.trans (final_key a) (final_key b) (final_key c);
}

-- On one day the order of the query is finer than that of the reply.
pub sql_le-final_le :
    (a b : Departure) → a.service_day ≡ b.service_day → sql_le a b ≡ true → final_le a b ≡ true
unfolding sql_le final_le lex
sql_le-final_le a b e h = ground (arith, e)

IsSorted-final :
    (day : ℕ) (ds : List Departure)
    → All (λ d. d.service_day ≡ day) ds
    → IsSorted sql_le ds
    → IsSorted final_le ds
IsSorted-final day [] a s = tt
IsSorted-final day (d ∷ ds) a s = (tail ds a.1 s.0, IsSorted-final day ds a.1 s.1)
  where
    tail :
        (es : List Departure)
        → All (λ e. e.service_day ≡ day) es
        → All (λ e. sql_le d e ≡ true) es
        → All (λ e. final_le d e ≡ true) es
    tail [] b t = tt
    tail (e ∷ es) b t = (sql_le-final_le d e (ground (arith, a, b)) t.0, tail es b.1 t.1)

collect-All {κ} :
    (P : Departure → Type κ) (f : StopTime → Option Departure) (ss : List StopTime)
    → ((s : StopTime) (d : Departure) → f s ≡ some d → P d)
    → All P (collect f ss)
unfolding collect
collect-All P f [] h = tt
collect-All P f (s ∷ ss) h = elim (Option-cases (f s)) [
  | inl e ↦ rw (e, collect) (collect-All P f ss h)
  | inr (d, e) ↦ rw (e, collect) (h s d e, collect-All P f ss h)
]

collect-none :
    (f : StopTime → Option Departure) (ss : List StopTime)
    → All (λ s. f s ≡ none) ss
    → collect f ss ≡ []
unfolding collect
collect-none f [] h = refl
collect-none f (s ∷ ss) h = rw (h.0, collect) (collect-none f ss h.1)

-- A departure that the reply may show: it is a stop time of the tables at one of the stops, on a
-- service that runs that day, within the next 24 hours, with boarding, and of the line asked for.
pub record IsDue (t : Tables) (stops : List Selected) (active : List Text) (line : Option Text)
    (when day : ℕ) (d : Departure) : Type 0 where
  pub of_day : d.service_day ≡ day
  pub at_stop :
      find? (λ p. same_bytes p.stop.stop_id d.joined.stop_time.stop_id) stops ≡ some d.stop
  pub timed : d.joined.stop_time.departure_seconds ≡ some d.seconds
  pub runs : contains d.joined.trip.service_id active ≡ true
  pub not_past : when ≤ scheduled d * second_micros
  pub not_later : scheduled d * second_micros < when + day_micros
  pub boards : (d.joined.stop_time.pickup_type == 1) ≡ false
  pub on_line : line_fits line d.joined ≡ true

join-stop_time : (t : Tables) (s : StopTime) (j : Joined) → join t s ≡ some j → j.stop_time ≡ s
unfolding join
join-stop_time t s j h = elim (Option-cases (find? (λ r. same_bytes r.trip_id s.trip_id) t.trips)) [
  | inl e ↦ absurd (ground arith)
  | inr (trip, e) ↦
      elim (Option-cases (find? (λ r. same_bytes r.route_id trip.route_id) t.routes)) [
        | inl f ↦ absurd (ground arith)
        | inr (route, f) ↦ ground arith
      ]
]

if_some {ℓ} :
    {A : Type ℓ} (b : Bool) (x y : A) → (if b then some x else none) ≡ some y → (b ≡ true) × (x ≡ y)
if_some true x y h = (refl, cc)
if_some false x y h = absurd (cc)

departure_of-IsDue :
    (t : Tables) (stops : List Selected) (active : List Text) (line : Option Text) (when day : ℕ)
    (s : StopTime) (d : Departure)
    → departure_of t stops active line when day s ≡ some d
    → IsDue t stops active line when day d × (d.joined.stop_time ≡ s)
unfolding departure_of
departure_of-IsDue t stops active line when day s d h =
    go (find? (λ p. same_bytes p.stop.stop_id s.stop_id) stops) refl (join t s) refl
      s.departure_seconds refl
  where
    go :
        (p : Option Selected)
        → find? (λ p. same_bytes p.stop.stop_id s.stop_id) stops ≡ p
        → (j : Option Joined) → join t s ≡ j
        → (n : Option ℕ) → s.departure_seconds ≡ n
        → IsDue t stops active line when day d × (d.joined.stop_time ≡ s)
    go none e j f n g = absurd (ground arith)
    go (some p) e none f n g = absurd (ground arith)
    go (some p) e (some j) f none g = absurd (ground arith)
    go (some p) e (some j) f (some n) g =
        let same = join-stop_time t s j f in
        let (test, shown) =
          if_some
            (contains j.trip.service_id active
              && in_window when day n
              && not (s.pickup_type == 1)
              && line_fits line j)
            (record { stop = p; joined = j; service_day = day; seconds = n }) d
            (rw (e, f, g, departure_of) at h) in
        rw (← shown) (
          (record {
            of_day = refl;
            at_stop = rw same e;
            timed = rw same g;
            runs = ground (arith, test);
            not_past = ground (arith, test);
            not_later = ground (arith, test);
            boards = rw same (ground (arith, test));
            on_line = ground (arith, test);
          }),
          same,
        )

-- The stop times lie in their service day, as parse_schedule_time has it.
abbrev pub IsWithinDay : StopTime → Type 0
IsWithinDay s = (n : ℕ) → s.departure_seconds ≡ some n → n ≤ max_departure_seconds

module _ (date_of : ℕ → ℕ) (t : Tables) (stops : List Selected) (line : Option Text)
    (when : ℕ) where
  abbrev active : ℕ → List Text
  active day = active_services t day (date_of day)

  pub day_rows-IsDue :
      (day : ℕ)
      → All (IsDue t stops (active day) line when day) (day_rows date_of t stops line when day)
  unfolding day_rows
  day_rows-IsDue day =
      All-sort sql_le (IsDue t stops (active day) line when day)
        (collect (departure_of t stops (active day) line when day) t.stop_times)
        (collect-All (IsDue t stops (active day) line when day)
          (departure_of t stops (active day) line when day) t.stop_times
          (λ s d h. (departure_of-IsDue t stops (active day) line when day s d h).0))

  -- The rows of a day are sorted for the reply, too.
  pub day_rows-IsSorted : (day : ℕ) → IsSorted final_le (day_rows date_of t stops line when day)
  unfolding day_rows
  day_rows-IsSorted day =
      IsSorted-final day (day_rows date_of t stops line when day)
        (All-map (day_rows date_of t stops line when day) (λ d k. k.of_day) (day_rows-IsDue day))
        (sort-IsSorted sql_le sql_le-IsOrder _)

  module _ (within : All IsWithinDay t.stop_times) where
    departure_of-none :
        (day : ℕ) (s : StopTime)
        → IsWithinDay s
        → (day + 2 < when / day_micros) ⊎ (when / day_micros + 1 < day)
        → departure_of t stops (active day) line when day s ≡ none
    departure_of-none day s w far = go (departure_of t stops (active day) line when day s) refl
      where
        go :
            (o : Option Departure)
            → departure_of t stops (active day) line when day s ≡ o
            → departure_of t stops (active day) line when day s ≡ none
        go none e = e
        go (some d) e =
            let (due, row) = departure_of-IsDue t stops (active day) line when day s d e in
            let early = w d.seconds (rw row at due.timed) in absurd (ground (arith, due, early))

    -- No other day than those that the query searches has a row.
    pub day_rows_none :
        (day : ℕ)
        → (day + 2 < when / day_micros) ⊎ (when / day_micros + 1 < day)
        → day_rows date_of t stops line when day ≡ []
    unfolding day_rows sort
    day_rows_none day far = rw (
        collect-none (departure_of t stops (active day) line when day) t.stop_times
          (All-map t.stop_times (λ s w. departure_of-none day s w far) within))
