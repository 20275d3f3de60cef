-- ===== src/Tests/Sql.antt =====
-- A query over a table of one record, which yields two rows and may show one.
use istanbulmcp.Prelude.{
  ℕ, ◌≡◌, refl, String, true, false, Option, none, some, List, [], ◌∷◌, length, All,
}
use istanbulmcp.Prelude.Int.{pos}
use istanbulmcp.Prelude.Bytes.{codes, strip, is_space, same_bytes}
use istanbulmcp.Validation.{validate_text, validate_identifier, validate_limit}
use istanbulmcp.Snapshot.{Fields}
use istanbulmcp.Sql.{
  Text, Select, select, Parser, validate_sql, Value, integer, text, Numbers, cell, affinity,
}
use istanbulmcp.Sql.Cells.{FitsRow, stored_rows-Fits}
use istanbulmcp.Sql.Fetch.{
  Prepared, Event, tick, row, read, Record, stored_rows, fetch, execute_snapshot_query, authorize,
}
use istanbulmcp.Sql.Service.{Settings, captured, check_query, query}
use istanbulmcp.Sql.Service.Replies.{IsAnswered, query-IsAnswered}
use istanbulmcp.Sql.Fetch.Answers.{IsGuarded, execute_snapshot_query_sound}

abbrev same : String → String
same s = s

abbrev tree : Select
tree = record {
  tables = "records" ∷ [];
  is_qualified = false;
  selects = 1;
  has_compound = false;
  anonymous = [];
  printed = codes "SELECT _id FROM records";
}

abbrev parser : Parser
parser = record {
  parse = λ s. some (select tree ∷ []);
  is_word = λ c. false;
  lower = same;
  casefold = same;
}

-- Texts are not parsed as numbers here.
abbrev numbers : Numbers
numbers = record {
  int_of = λ s. none;
  float_of = λ s. none;
  float_of_int = λ n. none;
  encoded_length = λ s. some (length s);
}

abbrev fields : Fields
fields = ("_id", "int") ∷ []

abbrev records : List Record
records = (λ name. integer (pos 7)) ∷ []

abbrev table : List (List Value)
table = (integer (pos 7) ∷ []) ∷ []

abbrev prepared : Prepared ℕ
prepared = record {
  actions = istanbulmcp.Sql.Fetch.select ∷ read "records" "_id" (some "main") ∷ [];
  names = "_id" ∷ [];
  events = tick 3 ∷ row 1 ∷ row 2 ∷ [];
}

abbrev nine_bytes : ℕ → Option ℕ
nine_bytes r = some 9

stored_rows-Fits_example : All (FitsRow same numbers fields) table × (length table ≡ length records)
unfolding stored_rows cell affinity
stored_rows-Fits_example = stored_rows-Fits same numbers fields records table refl

execute_snapshot_query_sound_example :
    IsGuarded nine_bytes 1 9 parser numbers fields records
      (codes "select _id from records")
      (λ t s. some prepared)
      (1 ∷ [])
      true
unfolding execute_snapshot_query validate_sql validate_text strip is_space cell affinity authorize
execute_snapshot_query_sound_example =
    execute_snapshot_query_sound nine_bytes 1 9 parser numbers fields records
      (codes "select _id from records") (λ t s. some prepared) (1 ∷ []) true refl

abbrev settings : Settings
settings = record {
  allowed_resource_ids = codes "r-1" ∷ [];
  default_limit = pos 1;
  max_limit = pos 500;
}

query-IsAnswered_example :
    IsAnswered nine_bytes parser numbers settings false
      (captured fields records)
      9
      (λ t s. some prepared)
      (codes "r-1")
      (codes "select _id from records")
      none
      (1 ∷ [])
      true
      1
unfolding query check_query validate_identifier validate_limit execute_snapshot_query validate_sql
    validate_text strip is_space cell affinity authorize same_bytes
query-IsAnswered_example =
    query-IsAnswered nine_bytes parser numbers settings false (captured fields records) 9
      (λ t s. some prepared) (codes "r-1") (codes "select _id from records") none (1 ∷ []) true 1
      refl
