-- ===== src/Tests/Telemetry.antt =====
-- The counters of the tools at a concrete history.
use istanbulmcp.Prelude.{ℕ, String, Option, none, List, [], ◌∷◌, false}
use istanbulmcp.Telemetry.{new_observation, init, CallObservation}
use istanbulmcp.Telemetry.Balance.{System, Event, begins, ends, run, IsConsistent, run-IsConsistent}
use istanbulmcp.Telemetry.Classify.{
  Json, object, text, bool, Members, member, no_members, ToolResult,
}

abbrev names : List String
names = "search" ∷ "status" ∷ []

abbrev history : List Event
history =
    begins "search" ∷ begins "nobody" ∷ begins "search" ∷ ends 1 new_observation 2000000000 ∷ []

run-IsConsistent_example :
    IsConsistent (run (record { rows = init names; unfinished = [] }) history)
run-IsConsistent_example = run-IsConsistent names history

abbrev now : System
now = run (record { rows = init names; unfinished = [] }) history

abbrev body : CallObservation → CallObservation
body obs = obs

abbrev loads : List ℕ → Option Json
loads t = none

abbrev refusal : Members
refusal =
    member "ok" (bool false)
      (member "error" (object (member "code" (text "sql_busy") no_members)) no_members)

abbrev result : ToolResult
result = record { is_error = false; structured_content = object refusal; content = [] }
