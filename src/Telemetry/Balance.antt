-- ===== src/Telemetry/Balance.antt =====
-- app/core/tool_telemetry.py: the counters while calls of many tools overlap.
use istanbulmcp.Prelude.{
  ℕ, zero, suc, ◌+◌, ◌-◌, ◌*◌, ◌≤◌, String, false, ◌≡◌, refl, Option, none, some, List, [], ◌∷◌,
  arith, if◌then◌else◌, str_eq, eq_iff, eq_refl, Option-cases, Bool-cases, sym, ◌⊎◌, inl, inr,
}
use istanbulmcp.Prelude.Dict
use istanbulmcp.Prelude.Dict.{Dict}
use istanbulmcp.Telemetry.{
  CallObservation, Ending, track, observe_ending, new_observation, Outcomes, Row, start, finish,
  finished, started, label_of, count_outcome, count_error, init, new_row, unknown, success,
  domain_error, tool_error, exception, cancelled, Outcome, slow_threshold,
}

-- The rows, and the labels of the calls that have started and not finished.
pub record System : Type 0 where
  pub rows : Dict Row
  pub unfinished : List String

pub data Event : Type 0 where
  begins : String → Event
  -- the n-th of the open calls finishes
  ends : ℕ → CallObservation → ℕ → Event

abbrev pub pick : ℕ → List String → Option (String × List String)
pick n [] = none
pick zero (s ∷ ss) = some (s, ss)
pick (suc n) (s ∷ ss) = elim (pick n ss) [ none ↦ none | some (t, rest) ↦ some (t, s ∷ rest) ]

unfoldable pub step : System → Event → System
step sys (begins name) =
    let (rows, label) = start name sys.rows in
    record { rows = rows; unfinished = label ∷ sys.unfinished }
step sys (ends n obs duration) = elim (pick n sys.unfinished) [
  | none ↦ sys
  | some (label, rest) ↦ record { rows = finish label obs duration sys.rows; unfinished = rest }
]

unfoldable pub run : System → List Event → System
run sys [] = sys
run sys (e ∷ es) = run (step sys e) es

abbrev pub total : Outcomes → ℕ
total o = o.successes + o.domain_errors + o.tool_errors + o.exceptions + o.cancellations

abbrev pub count : String → List String → ℕ
count label [] = 0
count label (l ∷ ls) = let rest = count label ls in if str_eq l label then suc rest else rest

-- One row's counters agree with each other and with the calls that are open.
pub record IsBalanced (in_flight : ℕ) (row : Row) : Type 0 where
  pub counts_open : row.in_flight ≡ in_flight
  pub calls_add_up : row.calls ≡ row.in_flight + total row.outcomes
  pub slow_within : row.slow_calls ≤ total row.outcomes
  pub max_within : row.duration_max ≤ row.duration_total
  pub slow_took_time : row.slow_calls * slow_threshold ≤ row.duration_total
  pub stale_within : row.stale_responses ≤ total row.outcomes
  pub partial_within : row.partial_responses ≤ total row.outcomes
  pub errors_within :
      (code : String) (n : ℕ) → Dict.get code row.errors ≡ some n → n ≤ total row.outcomes

pub record IsConsistent (sys : System) : Type 0 where
  pub balanced :
      (label : String) (row : Row)
      → Dict.get label sys.rows ≡ some row
      → IsBalanced (count label sys.unfinished) row
  pub tracked : (label : String) → Dict.get label sys.rows ≡ none → count label sys.unfinished ≡ 0
  pub has_unknown : (row : Row) × (Dict.get unknown sys.rows ≡ some row)

started-IsBalanced : (n : ℕ) (row : Row) → IsBalanced n row → IsBalanced (suc n) (started row)
started-IsBalanced n row b = record {
  counts_open = ground arith;
  calls_add_up = ground arith;
  slow_within = b.slow_within;
  max_within = b.max_within;
  slow_took_time = b.slow_took_time;
  stale_within = b.stale_within;
  partial_within = b.partial_within;
  errors_within = b.errors_within;
}

-- Counting one more call adds one to the count of its code at most.
count_error-within :
    (given : Option String) (errors : Dict ℕ) (most : ℕ)
    → ((code : String) (n : ℕ) → Dict.get code errors ≡ some n → n ≤ most)
    → (code : String) (n : ℕ) → Dict.get code (count_error given errors) ≡ some n
    → n ≤ suc most
unfolding count_error
count_error-within none errors most h code n e = omega (arith, h code n e)
count_error-within (some c) errors most h code n e = elim (Bool-cases (str_eq c "")) [
  | inl blank ↦ omega (arith, h code n (rw (blank, count_error) at e))
  | inr named ↦ elim (Option-cases (Dict.get c errors)) [
    | inl new ↦ put 1 (omega arith) (rw (named, new, count_error) at e)
    | inr (k, old) ↦ put (k + 1) (omega (arith, h c k old)) (rw (named, old, count_error) at e)
  ]
]
  where
    put : (k : ℕ) → k ≤ suc most → Dict.get code (Dict.put c k errors) ≡ some n → n ≤ suc most
    put k small q = elim (Bool-cases (str_eq c code)) [
      | inl same ↦ ground (arith, Dict.get-put c code k errors, same, q, small)
      | inr other ↦
          let p : Dict.get code errors ≡ some n =
            ground (arith, Dict.get-put c code k errors, other, q) in
          omega (arith, h code n p)
    ]

new_row-IsBalanced : IsBalanced 0 new_row
unfolding Dict.get
new_row-IsBalanced = record {
  counts_open = refl;
  calls_add_up = refl;
  slow_within = omega arith;
  max_within = omega arith;
  slow_took_time = omega arith;
  stale_within = omega arith;
  partial_within = omega arith;
  errors_within = λ code n e. absurd (ground (arith, e));
}

total-count_outcome : (t : Outcome) (o : Outcomes) → total (count_outcome t o) ≡ suc (total o)
total-count_outcome success o = omega arith
total-count_outcome domain_error o = omega arith
total-count_outcome tool_error o = omega arith
total-count_outcome exception o = omega arith
total-count_outcome cancelled o = omega arith

finished-IsBalanced :
    (n : ℕ) (obs : CallObservation) (duration : ℕ) (row : Row)
    → IsBalanced (suc n) row
    → IsBalanced n (finished obs duration row)
unfolding finished
finished-IsBalanced n obs duration row b =
    let t = total-count_outcome obs.outcome row.outcomes in
    record {
      counts_open = ground (arith, b);
      calls_add_up = ground (arith, b, t);
      slow_within = ground (arith, b, t);
      max_within = ground (arith, b);
      slow_took_time = ground (arith, b);
      stale_within = ground (arith, b, t);
      partial_within = ground (arith, b, t);
      errors_within = λ code k e. omega (
        arith,
        t,
        count_error-within obs.error_code row.errors (total row.outcomes) b.errors_within code k e,
      );
    }

init-Values : (names : List String) → Dict.Values (IsBalanced 0) (init names)
unfolding init
init-Values [] = (new_row-IsBalanced, tt)
init-Values (name ∷ names) =
    Dict.Values-put (IsBalanced 0) name new_row (init names) new_row-IsBalanced (init-Values names)

init-unknown : (names : List String) → (row : Row) × (Dict.get unknown (init names) ≡ some row)
unfolding init Dict.get
init-unknown [] = (new_row, refl)
init-unknown (name ∷ names) =
    let (row, e) = init-unknown names in
    elim (Option-cases (Dict.get unknown (Dict.put name new_row (init names)))) [
      | inl q ↦ absurd (ground (arith, Dict.get-put name unknown new_row (init names)))
      | inr (r, q) ↦ (r, q)
    ]

init-IsConsistent :
    (names : List String) → IsConsistent (record { rows = init names; unfinished = [] })
init-IsConsistent names = record {
  balanced =
      λ label row e. Dict.Values-get (IsBalanced 0) label row (init names) (init-Values names) e;
  tracked = λ label e. refl;
  has_unknown = init-unknown names;
}

put_cases :
    (sys : System) (label l : String) (new row : Row)
    → Dict.get l (Dict.put label new sys.rows) ≡ some row
    → ((label ≡ l) × (new ≡ row)) ⊎ ((str_eq label l ≡ false) × (Dict.get l sys.rows ≡ some row))
put_cases sys label l new row q = ground (arith, Dict.get-put label l new sys.rows, eq_iff label l)

-- A put of a row at a label that has one.
put-IsConsistent :
    (sys : System) (label : String) (old new : Row) (labels : List String)
    → IsConsistent sys
    → Dict.get label sys.rows ≡ some old
    → IsBalanced (count label labels) new
    → ((l : String) → str_eq label l ≡ false → count l labels ≡ count l sys.unfinished)
    → IsConsistent (record { rows = Dict.put label new sys.rows; unfinished = labels })
put-IsConsistent sys label old new labels c e b same = record {
  balanced = λ l row q. elim (put_cases sys label l new row q) [
    | inl (p, r) ↦ rw (p, r) at b
    | inr (p, r) ↦ rw (sym (same l p)) at (c.balanced l row r)
  ];
  tracked =
      λ l q. ground (arith, Dict.get-put label l new sys.rows, eq_iff label l, same l, c.tracked l);
  has_unknown = elim (Bool-cases (str_eq label unknown)) [
    | inl p ↦ (new, ground (arith, Dict.get-put label unknown new sys.rows))
    | inr p ↦
        (c.has_unknown.0, ground (arith, Dict.get-put label unknown new sys.rows, c.has_unknown.1))
  ];
}

label_of_hit :
    (name : String) (sys : System)
    → IsConsistent sys
    → (row : Row) × (Dict.get (label_of name sys.rows) sys.rows ≡ some row)
unfolding label_of
label_of_hit name sys c = elim (Option-cases (Dict.get name sys.rows)) [
  | inl e ↦ rw (e, label_of) c.has_unknown
  | inr (r, e) ↦ (r, rw (e, label_of) e)
]

count-pick :
    (n : ℕ) (ls : List String) (t : String) (rest : List String) (l : String)
    → pick n ls ≡ some (t, rest)
    → count l ls ≡ count l (t ∷ rest)
count-pick n [] t rest l h = cc
count-pick zero (s ∷ ss) t rest l h = cc
count-pick (suc n) (s ∷ ss) t rest l h = elim (Option-cases (pick n ss)) [
  | inl e ↦ absurd (ground arith)
  | inr (a, e) ↦ ground (arith, count-pick n ss a.0 a.1 l)
]

finish-IsConsistent :
    (sys : System) (n : ℕ) (obs : CallObservation) (duration : ℕ) (label : String)
    (rest : List String)
    → IsConsistent sys
    → pick n sys.unfinished ≡ some (label, rest)
    → IsConsistent (record { rows = finish label obs duration sys.rows; unfinished = rest })
unfolding finish
finish-IsConsistent sys n obs duration label rest c e =
    elim (Option-cases (Dict.get label sys.rows)) [
      | inl q ↦ absurd (
          ground (
            arith,
            c.tracked label q,
            count-pick n sys.unfinished label rest label e,
            eq_refl label,
          ))
      | inr (row, q) ↦
          let old = c.balanced label row q in
          let counts = count-pick n sys.unfinished label rest in
          rw (q, finish)
            (put-IsConsistent sys label row (finished obs duration row) rest c q
              (finished-IsBalanced (count label rest) obs duration row
                (rw (eq_refl label) at (rw (counts label e) at old)))
              (λ l p. ground (arith, counts l e)))
    ]

start-IsConsistent :
    (sys : System) (name : String) → IsConsistent sys → IsConsistent (step sys (begins name))
unfolding step start
start-IsConsistent sys name c =
    let label = label_of name sys.rows in
    let (row, q) = label_of_hit name sys c in
    rw (q, start)
      (put-IsConsistent sys label row (started row) (label ∷ sys.unfinished) c q
        (rw (eq_refl label)
          (started-IsBalanced (count label sys.unfinished) row (c.balanced label row q)))
        (λ l p. ground (arith, p)))

step-IsConsistent : (sys : System) (e : Event) → IsConsistent sys → IsConsistent (step sys e)
unfolding step
step-IsConsistent sys (begins name) c = start-IsConsistent sys name c
step-IsConsistent sys (ends n obs duration) c = elim (Option-cases (pick n sys.unfinished)) [
  | inl q ↦ rw (q, step) c
  | inr ((label, rest), q) ↦ rw (q, step) (finish-IsConsistent sys n obs duration label rest c q)
]

keep-IsConsistent : (es : List Event) (sys : System) → IsConsistent sys → IsConsistent (run sys es)
unfolding run
keep-IsConsistent [] sys c = c
keep-IsConsistent (e ∷ es) sys c = keep-IsConsistent es (step sys e) (step-IsConsistent sys e c)

-- However calls of known and unknown tools overlap, each row counts its open calls, its calls are
-- the open ones and one outcome for each finished one, its slow, stale and partial calls are among
-- the finished ones, no code of an error is counted more often than calls have finished, the slow
-- calls took at least a second each, and every open call has a row.
pub run-IsConsistent :
    (names : List String) (events : List Event)
    → IsConsistent (run (record { rows = init names; unfinished = [] }) events)
run-IsConsistent names events =
    keep-IsConsistent events (record { rows = init names; unfinished = [] })
      (init-IsConsistent names)

-- A tracked call, however it ends, leaves the counters consistent with the calls that were open
-- before it.
pub track-IsConsistent :
    (sys : System) (name : String) (body : CallObservation → CallObservation) (ending : Ending)
    (from until : ℕ)
    → IsConsistent sys
    → IsConsistent
        (record { rows = track name body ending from until sys.rows; unfinished = sys.unfinished })
unfolding track step
track-IsConsistent sys name body ending from until c =
    step-IsConsistent (step sys (begins name))
      (ends 0 (observe_ending (start name sys.rows).1 ending (body new_observation)) (until - from))
      (step-IsConsistent sys (begins name) c)
