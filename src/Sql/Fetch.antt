-- ===== src/Sql/Fetch.antt =====
-- app/storage/guarded_sql.py: the authorizer, the progress handler, the loop over the rows and
-- execute_snapshot_query around them. The table itself is created without an error.
pub mod Answers
use istanbulmcp.Prelude.{
  ℕ, zero, suc, ◌+◌, String, Bool, true, false, not, ◌&&◌, ◌||◌, Option, none, some, List, [], ◌∷◌,
  ◌++◌, ltb, leb, ◌==◌, all, any, length, map, str_eq, if◌then◌else◌,
}
use istanbulmcp.Validation.{raises, accepts}
use istanbulmcp.Snapshot.{Fields, has_repeat}
use istanbulmcp.Sql.{
  Text, Parser, Value, Numbers, is_allowed, validate_sql, affinity, cell, max_vm_steps,
  max_result_bytes,
}

-- What SQLite asks about while it compiles a statement.
pub data Action : Type 0 where
  select : Action
  read : String → String → Option String → Action
  function : String → Action
  other : Action

abbrev is_main : Option String → Bool
is_main none = false
is_main (some database) = str_eq database "main"

abbrev is_none : Option String → Bool
is_none none = true
is_none (some database) = false

unfoldable pub authorize : (String → String) → List String → Action → Bool
authorize lower columns select = true
authorize lower columns (read table column database) =
    str_eq table "records"
    && ((is_main database && any (str_eq column) columns)
        || ((is_main database || is_none database) && str_eq column ""))
authorize lower columns (function name) = is_allowed lower name
authorize lower columns other = false

-- What happens while a statement runs: a call of the progress handler at some time, a row, or an
-- error of SQLite.
pub data Event {ℓ} (R : Type ℓ) : Type ℓ where
  tick : ℕ → Event R
  row : R → Event R
  fails : Event R

-- What SQLite does with a statement: the actions it asks about, the names of its output and what
-- happens while it runs.
pub record Prepared {ℓ} (R : Type ℓ) : Type ℓ where
  pub actions : List Action
  pub names : List String
  pub events : List (Event R)

pub data Executed {ℓ} (R : Type ℓ) : Type ℓ where
  query_rejected snapshot_rejected : Executed R
  returned : List R → Bool → Executed R

-- `record.get(name)` for each column.
abbrev pub Record : Type 0
Record = String → Value

unfoldable pub stored_row : (String → String) → Numbers → Fields → Record → Option (List Value)
stored_row lower f [] r = some []
stored_row lower f ((name, kind) ∷ fields) r =
    let rest = stored_row lower f fields r in
    elim (cell f (affinity lower kind) (r name)) [
      | none ↦ none
      | some v ↦ elim rest [ none ↦ none | some vs ↦ some (v ∷ vs) ]
    ]

-- The rows that `executemany` inserts.
unfoldable pub stored_rows :
    (String → String) → Numbers → Fields → List Record → Option (List (List Value))
unfolding stored_row
stored_rows lower f fields [] = some []
stored_rows lower f fields (r ∷ rs) =
    let rest = stored_rows lower f fields rs in
    elim (stored_row lower f fields r) [
      | none ↦ none
      | some vs ↦ elim rest [ none ↦ none | some vss ↦ some (vs ∷ vss) ]
    ]

module _ {ℓ} {R : Type ℓ} (encoded : R → Option ℕ) (limit deadline : ℕ) where
  -- The loop over the rows, with the progress handler in between; `encoded` is the length of a row's
  -- JSON text, none where json.dumps raises.
  unfoldable pub fetch : ℕ → ℕ → List R → List (Event R) → Option (List R × Bool)
  fetch steps size rows [] = some (rows, false)
  fetch steps size rows (tick now ∷ events) =
      let rest = fetch (steps + 1000) size rows events in
      if ltb max_vm_steps (steps + 1000) || leb deadline now then none else rest
  fetch steps size rows (fails ∷ events) = none
  fetch steps size rows (row r ∷ events) =
      let rest : ℕ → Option (List R × Bool) = λ n. fetch steps (size + n) (rows ++ r ∷ []) events in
      if length rows == limit then some (rows, true) else elim (encoded r) [
        | none ↦ none
        | some n ↦ let more = rest n in if ltb max_result_bytes (size + n) then none else more
      ]

  -- `execute_snapshot_query`; `prepare` is SQLite on the table of the stored rows.
  unfoldable pub execute_snapshot_query :
      Parser
      → Numbers
      → Fields
      → List Record
      → Text
      → (List (List Value) → Text → Option (Prepared R))
      → Executed R
  unfolding fetch stored_rows
  execute_snapshot_query parser f fields records sql prepare = elim (validate_sql parser sql) [
    | raises error ↦ query_rejected
    | accepts statement ↦ elim (stored_rows parser.lower f fields records) [
      | none ↦ snapshot_rejected
      | some table ↦ elim (prepare table statement) [
        | none ↦ query_rejected
        | some p ↦
            if all (authorize parser.lower (map (λ c. c.0) fields)) p.actions
              && not (has_repeat (map parser.casefold p.names))
            then elim (fetch 0 0 [] p.events) [
              | none ↦ query_rejected
              | some (rows, truncated) ↦ returned rows truncated
            ]
            else query_rejected
      ]
    ]
  ]
