-- ===== src/Telemetry.antt =====
-- app/core/tool_telemetry.py: the counters of each tool. Durations are nanoseconds. The lock of the
-- registry makes `start` and `finish` one step each; the log line and time stamps are not modelled.
pub mod Classify
pub mod Balance
use istanbulmcp.Prelude.{
  ℕ, zero, suc, ◌+◌, ◌-◌, ◌*◌, String, Bool, true, false, ◌&&◌, Option, none, some, List, [], ◌∷◌,
  leb, max, if◌then◌else◌, str_eq,
}
use istanbulmcp.Prelude.Dict
use istanbulmcp.Prelude.Dict.{Dict}

-- OUTCOMES
pub data Outcome : Type 0 where
  success domain_error tool_error exception cancelled : Outcome

-- CACHE_EVENTS
pub data CacheEvent : Type 0 where
  hit miss load wait stale error : CacheEvent

-- `dict.fromkeys(CACHE_EVENTS, 0)`
pub record CacheCounts : Type 0 where
  pub hits : ℕ
  pub misses : ℕ
  pub loads : ℕ
  pub waits : ℕ
  pub stales : ℕ
  pub cache_errors : ℕ

abbrev pub no_events : CacheCounts
no_events = record { hits = 0; misses = 0; loads = 0; waits = 0; stales = 0; cache_errors = 0 }

abbrev pub count_event : CacheEvent → CacheCounts → CacheCounts
count_event hit c = record c { hits = c.hits + 1 }
count_event miss c = record c { misses = c.misses + 1 }
count_event load c = record c { loads = c.loads + 1 }
count_event wait c = record c { waits = c.waits + 1 }
count_event stale c = record c { stales = c.stales + 1 }
count_event error c = record c { cache_errors = c.cache_errors + 1 }

-- `for event, count in cache.items(): row["cache"][event] += count`
abbrev pub add_counts : CacheCounts → CacheCounts → CacheCounts
add_counts a b = record {
  hits = a.hits + b.hits;
  misses = a.misses + b.misses;
  loads = a.loads + b.loads;
  waits = a.waits + b.waits;
  stales = a.stales + b.stales;
  cache_errors = a.cache_errors + b.cache_errors;
}

pub record CallObservation : Type 0 where
  pub cache : CacheCounts
  pub outcome : Outcome
  pub error_code : Option String
  pub returned : Option ℕ
  pub freshness : Option String
  pub partial : Bool
  pub active : Bool

abbrev pub new_observation : CallObservation
new_observation = record {
  cache = no_events;
  outcome = success;
  error_code = none;
  returned = none;
  freshness = none;
  partial = false;
  active = true;
}

unfoldable pub cache_event : CallObservation → CacheEvent → CallObservation
cache_event obs event =
    if obs.active then record obs { cache = count_event event obs.cache } else obs

unfoldable pub cache_snapshot : CallObservation → CallObservation × CacheCounts
cache_snapshot obs = (record obs { active = false }, obs.cache)

pub record Outcomes : Type 0 where
  pub successes : ℕ
  pub domain_errors : ℕ
  pub tool_errors : ℕ
  pub exceptions : ℕ
  pub cancellations : ℕ

-- `row["outcomes"][observation.outcome] += 1`
abbrev pub count_outcome : Outcome → Outcomes → Outcomes
count_outcome success o = record o { successes = o.successes + 1 }
count_outcome domain_error o = record o { domain_errors = o.domain_errors + 1 }
count_outcome tool_error o = record o { tool_errors = o.tool_errors + 1 }
count_outcome exception o = record o { exceptions = o.exceptions + 1 }
count_outcome cancelled o = record o { cancellations = o.cancellations + 1 }

pub record Row : Type 0 where
  pub calls : ℕ
  pub in_flight : ℕ
  pub slow_calls : ℕ
  pub duration_total : ℕ
  pub duration_max : ℕ
  pub outcomes : Outcomes
  pub errors : Dict ℕ
  pub cache : CacheCounts
  pub returned_total : ℕ
  pub stale_responses : ℕ
  pub partial_responses : ℕ

abbrev pub new_row : Row
new_row = record {
  calls = 0;
  in_flight = 0;
  slow_calls = 0;
  duration_total = 0;
  duration_max = 0;
  outcomes = record {
    successes = 0;
    domain_errors = 0;
    tool_errors = 0;
    exceptions = 0;
    cancellations = 0;
  };
  errors = [];
  cache = no_events;
  returned_total = 0;
  stale_responses = 0;
  partial_responses = 0;
}

abbrev pub unknown : String
unknown = "__unknown__"

-- The rows of the tools and of `__unknown__`; their order is not observed.
unfoldable pub init : List String → Dict Row
init [] = (unknown, new_row) ∷ []
init (name ∷ names) = Dict.put name new_row (init names)

abbrev pub started : Row → Row
started row = record row { calls = row.calls + 1; in_flight = row.in_flight + 1 }

unfoldable pub label_of : String → Dict Row → String
label_of name rows = elim (Dict.get name rows) [ none ↦ unknown | some row ↦ name ]

-- `_start`; a label without a row, which raises KeyError, changes nothing.
unfoldable pub start : String → Dict Row → Dict Row × String
start name rows =
    let label = label_of name rows in
    elim (Dict.get label rows) [
      | none ↦ (rows, label)
      | some row ↦ (Dict.put label (started row) rows, label)
    ]

-- `row["errors"].get(code, 0) + 1`, unless there is no code or it is empty
unfoldable pub count_error : Option String → Dict ℕ → Dict ℕ
count_error none errors = errors
count_error (some code) errors = if str_eq code "" then errors else elim (Dict.get code errors) [
  | none ↦ Dict.put code 1 errors
  | some n ↦ Dict.put code (n + 1) errors
]

abbrev pub slow_threshold : ℕ
slow_threshold = 1000000000

abbrev pub one_if : Bool → ℕ
one_if b = if b then 1 else 0

abbrev pub is_stale : CallObservation → Bool
is_stale obs = elim obs.freshness [ none ↦ false | some s ↦ str_eq s "stale" ]

unfoldable pub finished : CallObservation → ℕ → Row → Row
finished obs duration row = record {
  calls = row.calls;
  in_flight = row.in_flight - 1;
  slow_calls = row.slow_calls + one_if (leb slow_threshold duration);
  duration_total = row.duration_total + duration;
  duration_max = max row.duration_max duration;
  outcomes = count_outcome obs.outcome row.outcomes;
  errors = count_error obs.error_code row.errors;
  cache = add_counts row.cache (cache_snapshot obs).1;
  returned_total = row.returned_total + elim obs.returned [ none ↦ 0 | some n ↦ n ];
  stale_responses = row.stale_responses + one_if (is_stale obs);
  partial_responses = row.partial_responses + one_if obs.partial;
}

-- `_finish`
unfoldable pub finish : String → CallObservation → ℕ → Dict Row → Dict Row
finish label obs duration rows = elim (Dict.get label rows) [
  | none ↦ rows
  | some row ↦ Dict.put label (finished obs duration row) rows
]

-- How the body of `with track(...)` ends; `tool_failed` tells UnexpectedToolError and a cause that is
-- a ValidationError.
pub data Ending : Type 0 where
  completed : Ending
  was_cancelled : Ending
  tool_failed : Bool → Bool → Ending
  other_exception : Ending

unfoldable pub observe_ending : String → Ending → CallObservation → CallObservation
observe_ending label completed obs = obs
observe_ending label was_cancelled obs = record obs {
  outcome = cancelled;
  error_code = some "cancelled";
}
observe_ending label (tool_failed unexpected invalid) obs = record obs {
  outcome = if unexpected then exception else tool_error;
  error_code =
      if str_eq label unknown
      then some "unknown_tool"
      else if invalid
      then some "invalid_arguments"
      else some "tool_execution_error";
}
observe_ending label other_exception obs = record obs {
  outcome = exception;
  error_code = some "tool_execution_error";
}

-- `track`, from its start to its `finally`, for one call: the body turns a fresh observation into
-- what it ends with, and a clock that runs back gives no time at all.
unfoldable pub track :
    String → (CallObservation → CallObservation) → Ending → ℕ → ℕ → Dict Row → Dict Row
track name body ending from until rows =
    let (rows', label) = start name rows in
    finish label (observe_ending label ending (body new_observation)) (until - from) rows'
