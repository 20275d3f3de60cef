-- ===== src/Tests/Snapshot.antt =====
-- A table of two rows that is captured in two pages.
use istanbulmcp.Prelude.{ℕ, ◌==◌, refl, String, [], ◌∷◌, some, false, if◌then◌else◌}
use istanbulmcp.Prelude.Int.{pos}
use istanbulmcp.Snapshot.{
  Fields, Row, row, Reply, answer, Settings, load_snapshot, describe, capture, turn, conclude,
  check_rows, next_rows, page, field, text, validate_fields, read_fields, read_field,
}
use istanbulmcp.Snapshot.Capture.{IsComplete, load_snapshot_sound}

abbrev columns : Fields
columns = ("_id", "int") ∷ []

abbrev same : String → String
same s = s

abbrev settings : Settings
settings = record { max_rows = 5; max_bytes = 100; page_size = 1 }

abbrev nth_row : ℕ → Row
nth_row n = row ("_id" ∷ []) (some (pos n))

abbrev upstream : ℕ → ℕ → ℕ → Reply
upstream n limit offset =
    answer
      (record {
        total = some (pos 2);
        estimated = false;
        fields = some (field (text "_id") (text "int") ∷ []);
        records = some (if limit == 0 then [] else nth_row offset ∷ []);
      })
      (some (pos 10))

load_snapshot_sound_example :
    IsComplete same settings upstream columns (nth_row 0 ∷ nth_row 1 ∷ []) 40
unfolding load_snapshot describe capture turn conclude check_rows next_rows page validate_fields
    read_fields read_field
load_snapshot_sound_example =
    load_snapshot_sound same settings upstream columns (nth_row 0 ∷ nth_row 1 ∷ []) 40 refl
