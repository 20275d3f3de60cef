-- ===== src/Timetable/Departures/Complete.antt =====
-- The query against all departures that are due, over all service days.
use istanbulmcp.Prelude.{
  zero, suc, ◌-◌, ℕ, ◌+◌, ◌/◌, ◌≤◌, ◌<◌, ◌≡◌, refl, sym, ap, ◌∙◌, Option, List, [], ◌∷◌, ◌++◌, take,
  length, length-take-le, arith, All, All-map, All-take, All-append, ◌⊎◌, inl, inr,
}
use mathlib.Core.List.{append_assoc, append-nil}
use istanbulmcp.Prelude.Sort.{
  sort, merge, sort-append, sort-IsSorted, sort_of_IsSorted, take-merge, take-IsSorted, take-take,
  All-sort, IsSorted,
}
use istanbulmcp.Timetable.{Text, Tables}
use istanbulmcp.Timetable.Departures.{
  Selected, Departure, Place, found, query, day_rows, limited_rows, searched_days, select_stops,
  final_le, active_services, day_micros,
}
use istanbulmcp.Timetable.Departures.Days.{
  final_le-IsOrder, day_rows-IsSorted, day_rows_none, IsWithinDay, IsDue, day_rows-IsDue,
}

found_rows :
    (date_of ordinal : ℕ → ℕ) (t : Tables) (place : Place) (line : Option Text) (when limit : ℕ)
    (max_seconds : Option ℕ) (rs : List Departure)
    → query date_of ordinal t place line when limit max_seconds ≡ found rs
    → rs
      ≡ take limit (
          sort final_le (
            limited_rows date_of t
              (select_stops place t.stops)
              line
              when
              limit
              (searched_days when)))
unfolding query
found_rows date_of ordinal t place line when limit max_seconds rs h = ground arith

-- `count` days from a first one on.
abbrev pub days_from : ℕ → ℕ → List ℕ
days_from day zero = []
days_from day (suc count) = day ∷ days_from (day + 1) count

days_from-append : (day m n : ℕ) → days_from day (m + n) ≡ days_from day m ++ days_from (day + m) n
days_from-append day zero n =
    let p : day ≡ day + 0 = omega arith in
    let q : 0 + n ≡ n = omega arith in λ i. days_from (p i) (q i)
days_from-append day (suc m) n =
    let p : suc m + n ≡ suc (m + n) = omega arith in
    let q : day + 1 + m ≡ day + suc m = omega arith in
    ap (days_from day) p
    ∙ ap (λ l. day ∷ l) (days_from-append (day + 1) m n)
    ∙ (λ i. day ∷ (days_from (day + 1) m ++ days_from (q i) n))

days_from-All : (day count : ℕ) → All (λ d. (day ≤ d) × (d < day + count)) (days_from day count)
days_from-All day zero = tt
days_from-All day (suc count) = (
  (omega arith, omega arith),
  All-map (days_from (day + 1) count) (λ d b. (omega (arith, b.0), omega (arith, b.1)))
      (days_from-All (day + 1) count),
)

days_split :
    (today more horizon : ℕ)
    → 2 ≤ today
    → horizon ≡ today + 2 + more
    → days_from 0 horizon
      ≡ days_from 0 (today - 2)
        ++ (((today - 2) ∷ (today - 1) ∷ today ∷ (today + 1) ∷ []) ++ days_from (today + 2) more)
days_split today more horizon low e =
    let start = today - 2 in
    let e0 : 0 + start ≡ today - 2 = omega arith in
    let e1 : 0 + start + 1 ≡ today - 1 = omega (arith, low) in
    let e2 : 0 + start + 1 + 1 ≡ today = omega (arith, low) in
    let e3 : 0 + start + 1 + 1 + 1 ≡ today + 1 = omega (arith, low) in
    let e4 : 0 + start + 1 + 1 + 1 + 1 ≡ today + 2 = omega (arith, low) in
    let count : horizon ≡ start + suc (suc (suc (suc more))) = omega (arith, low, e) in
    ap (days_from 0) count
    ∙ days_from-append 0 start (suc (suc (suc (suc more))))
    ∙ (λ i. days_from 0 start ++ (e0 i ∷ e1 i ∷ e2 i ∷ e3 i ∷ days_from (e4 i) more))

module _ (date_of : ℕ → ℕ) (t : Tables) (stops : List Selected) (line : Option Text)
    (when : ℕ) where
  abbrev rows : ℕ → List Departure
  rows = day_rows date_of t stops line when

  -- The rows of some service days, with no limit.
  unfoldable pub all_rows : List ℕ → List Departure
  all_rows [] = []
  all_rows (day ∷ days) = rows day ++ all_rows days

  -- To limit each day first changes nothing at the front.
  limits_agree :
      (limit : ℕ) (days : List ℕ)
      → take limit (sort final_le (limited_rows date_of t stops line when limit days))
        ≡ take limit (sort final_le (all_rows days))
  unfolding all_rows limited_rows
  limits_agree limit [] = refl
  limits_agree limit (day ∷ days) =
      let sorted = day_rows-IsSorted date_of t stops line when day in
      let front =
        sort_of_IsSorted final_le (take limit (rows day))
          (take-IsSorted final_le limit (rows day) sorted) in
      let whole = sort_of_IsSorted final_le (rows day) sorted in
      ap (take limit) (
        sort-append final_le final_le-IsOrder (take limit (rows day))
          (limited_rows date_of t stops line when limit days))
      ∙ ap
          (λ l.
            take limit (
              merge final_le l (sort final_le (limited_rows date_of t stops line when limit days))))
          front
      ∙ take-merge final_le limit (take limit (rows day))
          (sort final_le (limited_rows date_of t stops line when limit days))
      ∙ (λ i.
          take limit
            (merge final_le (take-take final_le limit (rows day) i) (limits_agree limit days i)))
      ∙ sym (take-merge final_le limit (rows day) (sort final_le (all_rows days)))
      ∙ ap (λ l. take limit (merge final_le l (sort final_le (all_rows days)))) (sym whole)
      ∙ ap (take limit) (sym (sort-append final_le final_le-IsOrder (rows day) (all_rows days)))

  all_rows-append : (xs ys : List ℕ) → all_rows (xs ++ ys) ≡ all_rows xs ++ all_rows ys
  unfolding all_rows
  all_rows-append [] ys = refl
  all_rows-append (x ∷ xs) ys =
      ap (◌++◌ (rows x)) (all_rows-append xs ys)
      ∙ sym (append_assoc (rows x) (all_rows xs) (all_rows ys))

  abbrev pub IsShown : Departure → Type 0
  IsShown d =
      IsDue t stops (active_services t d.service_day (date_of d.service_day)) line when
        d.service_day d

  limited_rows-IsShown :
      (limit : ℕ) (days : List ℕ) → All IsShown (limited_rows date_of t stops line when limit days)
  unfolding limited_rows
  limited_rows-IsShown limit [] = tt
  limited_rows-IsShown limit (day ∷ days) =
      All-append IsShown (take limit (rows day)) (limited_rows date_of t stops line when limit days)
        (All-take IsShown limit (rows day) (
          All-map (rows day) (λ d k. rw (sym k.of_day) at k)
            (day_rows-IsDue date_of t stops line when day)))
        (limited_rows-IsShown limit days)

  -- Every departure of a reply is due, they are in order of time, stop and trip, and no more than
  -- the limit.
  pub query_sound :
      (ordinal : ℕ → ℕ) (place : Place) (limit : ℕ) (max_seconds : Option ℕ) (rs : List Departure)
      → stops ≡ select_stops place t.stops
      → query date_of ordinal t place line when limit max_seconds ≡ found rs
      → All IsShown rs × IsSorted final_le rs × (length rs ≤ limit)
  query_sound ordinal place limit max_seconds rs same h =
      let all_found = limited_rows date_of t stops line when limit (searched_days when) in
      let answer =
        found_rows date_of ordinal t place line when limit max_seconds rs h
        ∙ ap
            (λ l.
              take limit
                (sort final_le (limited_rows date_of t l line when limit (searched_days when))))
            (sym same) in
      rw answer (
        All-take IsShown limit (sort final_le all_found)
            (All-sort final_le IsShown all_found (limited_rows-IsShown limit (searched_days when))),
        take-IsSorted final_le limit (sort final_le all_found)
            (sort-IsSorted final_le final_le-IsOrder all_found),
        length-take-le limit (sort final_le all_found),
      )

  module _ (within : All IsWithinDay t.stop_times) where
    far_days :
        (days : List ℕ)
        → All (λ day. (day + 2 < when / day_micros) ⊎ (when / day_micros + 1 < day)) days
        → all_rows days ≡ []
    unfolding all_rows
    far_days [] a = refl
    far_days (day ∷ days) a =
        rw (day_rows_none date_of t stops line when within day a.0) (far_days days a.1)

    window_complete :
        (ordinal : ℕ → ℕ) (place : Place) (limit : ℕ) (max_seconds : Option ℕ) (rs : List Departure)
        (before after : List ℕ)
        → stops ≡ select_stops place t.stops
        → All (λ day. day + 2 < when / day_micros) before
        → All (λ day. when / day_micros + 1 < day) after
        → query date_of ordinal t place line when limit max_seconds ≡ found rs
        → rs ≡ take limit (sort final_le (all_rows (before ++ (searched_days when ++ after))))
    window_complete ordinal place limit max_seconds rs before after same early next h =
        let none_before = far_days before (All-map before (λ day p. inl p) early) in
        let none_after = far_days after (All-map after (λ day p. inr p) next) in
        let answer =
          found_rows date_of ordinal t place line when limit max_seconds rs h
          ∙ ap
              (λ l.
                take limit
                  (sort final_le (limited_rows date_of t l line when limit (searched_days when))))
              (sym same)
          ∙ limits_agree limit (searched_days when) in
        answer ∙ ap (λ l. take limit (sort final_le l)) (sym (middle none_before none_after))
      where
        middle :
            all_rows before ≡ []
            → all_rows after ≡ []
            → all_rows (before ++ (searched_days when ++ after)) ≡ all_rows (searched_days when)
        middle p q =
            all_rows-append before (searched_days when ++ after)
            ∙ (λ i. p i ++ all_rows (searched_days when ++ after))
            ∙ all_rows-append (searched_days when) after
            ∙ (λ i. all_rows (searched_days when) ++ q i)
            ∙ append-nil (all_rows (searched_days when))

    -- What the query answers is the front of all departures that are due, sorted by time, stop and
    -- trip, over all service days below a horizon that lies behind tomorrow: neither the limit of
    -- each day's query nor the choice of four service days loses any.
    pub query_complete :
        (ordinal : ℕ → ℕ) (place : Place) (limit : ℕ) (max_seconds : Option ℕ) (rs : List Departure)
        (horizon : ℕ)
        → stops ≡ select_stops place t.stops
        → 2 ≤ when / day_micros
        → when / day_micros + 2 ≤ horizon
        → query date_of ordinal t place line when limit max_seconds ≡ found rs
        → rs ≡ take limit (sort final_le (all_rows (days_from 0 horizon)))
    query_complete ordinal place limit max_seconds rs horizon same low high h =
        let today = when / day_micros in
        let more = horizon - (today + 2) in
        window_complete ordinal place limit max_seconds rs (days_from 0 (today - 2))
          (days_from (today + 2) more) same
          (All-map (days_from 0 (today - 2)) (λ d b. omega (arith, b.1, low))
            (days_from-All 0 (today - 2)))
          (All-map (days_from (today + 2) more) (λ d b. omega (arith, b.0))
            (days_from-All (today + 2) more))
          h
        ∙ ap (λ days. take limit (sort final_le (all_rows days)))
            (sym (days_split today more horizon low (omega (arith, high))))
