-- ===== src/Tests/Envelope.antt =====
-- Replies for a rate-limited source, a full page and an invalid limit.
use istanbulmcp.Prelude.{String, some, none, List, [], ◌∷◌}
use istanbulmcp.Prelude.Int.{ℤ, pos}
use istanbulmcp.Validation.{InputValidationError}
use istanbulmcp.Envelope.{DataRow, Pagination, seconds}

abbrev limited : List DataRow
limited =
    record {
      error_code = "source_rate_limited";
      field = none;
      retry_after_seconds = seconds (pos 1500);
    }
    ∷ []

abbrev page : Pagination
page = record { limit = 1; offset = 0; total_estimate = some 7 }

abbrev bad_limit : InputValidationError
bad_limit = record {
  field = "limit";
  code = "validation_error";
  allowed_min = some (pos 1);
  allowed_max = none;
}

abbrev show : String → ℤ → String
show name n = name

abbrev tagged : String → String
tagged name = name
