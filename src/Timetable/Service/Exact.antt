-- ===== src/Timetable/Service/Exact.antt =====
-- What a reply of departures shows, for the whole of next_departures.
use istanbulmcp.Prelude.{
  ℕ, zero, suc, ◌+◌, ◌/◌, ◌≤◌, ◌≡◌, refl, ap, ◌∙◌, Bool, Option, List, [], ◌∷◌, ltb, length, take,
  min, arith, All, length-take,
}
use istanbulmcp.Prelude.Sort.{sort, length-sort}
use istanbulmcp.Validation.{accepts}
use istanbulmcp.Timetable.{Text}
use istanbulmcp.Timetable.Departures.{
  Departure, Answer, found, unknown_stop, no_validity, outside_calendar, query, select_stops,
  final_le, day_micros,
}
use istanbulmcp.Timetable.Departures.Days.{IsWithinDay}
use istanbulmcp.Timetable.Departures.Complete.{all_rows, days_from, query_complete}
use istanbulmcp.Timetable.Publish.{Database}
use istanbulmcp.Timetable.Service.{
  Tools, Settings, Warmup, Cached, snapshot, raised, Request, Checked, departures, place_of,
  check_request, departures_reply, snapshot_reply, next_departures,
}

take-take_more {ℓ} : {A : Type ℓ} (n : ℕ) (xs : List A) → take n (take (suc n) xs) ≡ take n xs
take-take_more zero xs = refl
take-take_more (suc n) [] = refl
take-take_more (suc n) (x ∷ xs) = ap (λ l. x ∷ l) (take-take_more n xs)

module _ (tools : Tools) (settings : Settings) where
  abbrev pub due : Database → Checked → ℕ → List Departure
  due db c horizon =
      all_rows tools.date_of db.tables
        (select_stops (place_of tools settings c.target) db.tables.stops) c.line c.when
        (days_from 0 horizon)

  shown :
      (db : Database) (c : Checked) (max_seconds : Option ℕ) (rows : List Departure)
      (truncated : Bool)
      → departures_reply tools settings db c max_seconds ≡ departures rows truncated
      → (rs : List Departure) × (query tools.date_of tools.ordinal db.tables
            (place_of tools settings c.target)
            c.line
            c.when
            (c.limit + 1)
            max_seconds
          ≡ found rs)
        × (rows ≡ take c.limit rs)
        × (truncated ≡ ltb c.limit (length rs))
  unfolding departures_reply
  shown db c max_seconds rows truncated h = go _ refl
    where
      go :
          (a : Answer)
          → query tools.date_of tools.ordinal db.tables
              (place_of tools settings c.target)
              c.line
              c.when
              (c.limit + 1)
              max_seconds
            ≡ a
          → (rs : List Departure) × (query tools.date_of tools.ordinal db.tables
                (place_of tools settings c.target)
                c.line
                c.when
                (c.limit + 1)
                max_seconds
              ≡ found rs)
            × (rows ≡ take c.limit rs)
            × (truncated ≡ ltb c.limit (length rs))
      go (found rs) e = let k = rw (e, departures_reply) at h in (rs, e, cc, cc)
      go unknown_stop e = let k = rw (e, departures_reply) at h in absurd (cc)
      go no_validity e = let k = rw (e, departures_reply) at h in absurd (cc)
      go outside_calendar e = let k = rw (e, departures_reply) at h in absurd (cc)

  replied :
      (w : Warmup) (cached : Cached) (db : Database) (profile : Text) (r : Request) (c : Checked)
      (rows : List Departure) (truncated : Bool)
      → check_request tools settings r ≡ accepts c
      → next_departures tools settings w cached db profile r ≡ departures rows truncated
      → (max_seconds : Option ℕ) × (departures_reply tools settings db c max_seconds
          ≡ departures rows truncated)
  unfolding next_departures snapshot_reply
  replied w (raised late) db profile r c rows truncated e h = absurd (ground (arith, e))
  replied w (snapshot id m) db profile r c rows truncated e h = (m, ground (arith, e))

  -- A reply of departures shows the first of all that are due, in order of time, stop and trip, and
  -- is marked truncated exactly if more are due than it may show.
  pub departures_exact :
      (w : Warmup) (cached : Cached) (db : Database) (profile : Text) (r : Request) (c : Checked)
      (rows : List Departure) (truncated : Bool) (horizon : ℕ)
      → check_request tools settings r ≡ accepts c
      → All IsWithinDay db.tables.stop_times
      → 2 ≤ c.when / day_micros
      → c.when / day_micros + 2 ≤ horizon
      → next_departures tools settings w cached db profile r ≡ departures rows truncated
      → (rows ≡ take c.limit (sort final_le (due db c horizon)))
        × (truncated ≡ ltb c.limit (length (due db c horizon)))
  departures_exact w cached db profile r c rows truncated horizon checked within low high h =
      let (max_seconds, reply) = replied w cached db profile r c rows truncated checked h in
      let (rs, answer, front, more) = shown db c max_seconds rows truncated reply in
      let place = place_of tools settings c.target in
      let all_due = due db c horizon in
      let whole =
        query_complete tools.date_of db.tables (select_stops place db.tables.stops) c.line c.when
          within tools.ordinal place (c.limit + 1) max_seconds rs horizon refl low high answer in
      let next : c.limit + 1 ≡ suc c.limit = omega arith in
      let size : length rs ≡ min (c.limit + 1) (length all_due) =
        ap length whole
        ∙ length-take (c.limit + 1) (sort final_le all_due)
        ∙ ap (min (c.limit + 1)) (length-sort final_le all_due) in
      (
        front
            ∙ ap (take c.limit) (whole ∙ ap (λ n. take n (sort final_le all_due)) next)
            ∙ take-take_more c.limit (sort final_le all_due),
        more ∙ ground (arith, size),
      )
