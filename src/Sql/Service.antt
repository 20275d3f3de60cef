-- ===== src/Sql/Service.antt =====
-- app/services/datastore_sql.py, DatastoreSqlService.query: one query over a captured table. What the
-- snapshot cache answers is an argument, as is whether the gate of queries is held; between that
-- test and taking the gate no other task runs. Sources and texts of replies are left out.
pub mod Replies
use istanbulmcp.Prelude.{
  ℕ, ◌≤◌, ◌≡◌, refl, sym, ap, ◌∙◌, String, Bool, true, false, not, Option, none, some, List, [],
  ◌∷◌, length, any, if◌then◌else◌, take, arith, length-take-le, Bool-cases, inl, inr, &&_true,
}
use istanbulmcp.Prelude.Int.{ℤ, pos, negsuc, pos_part, leb_ℤ}
use istanbulmcp.Prelude.Bytes.{same_bytes}
use istanbulmcp.Validation.{
  InputValidationError, Validated, raises, accepts, ◌>>=◌, ◌>>◌, require, invalid,
  validate_identifier, validate_limit,
}
use istanbulmcp.Snapshot.{Fields}
use istanbulmcp.Sql.{Text, Parser, Value, Numbers, validate_sql}
use istanbulmcp.Sql.Fetch.{
  Prepared, Executed, query_rejected, snapshot_rejected, returned, Record, execute_snapshot_query,
}

pub record Settings : Type 0 where
  pub allowed_resource_ids : List Text
  pub default_limit : ℤ
  pub max_limit : ℤ

-- What became of `get_with_status`: the columns and records of a complete capture, or an exception.
pub data Cached : Type 0 where
  captured : Fields → List Record → Cached
  rate_limited failed : Cached

pub data Reply {ℓ} (R : Type ℓ) : Type ℓ where
  invalid_request : InputValidationError → Reply R
  sql_busy source_rate_limited unavailable : Reply R
  succeeds : List R → Bool → ℕ → Reply R

-- A request that passed the first block.
pub record Checked : Type 0 where
  pub resource_id : Text
  pub statement : Text
  pub limit : ℤ

abbrev pub is_listed : Settings → Text → Bool
is_listed settings id = any (same_bytes id) settings.allowed_resource_ids

-- `min(self.settings.max_limit, 100)`
abbrev pub limit_cap : Settings → ℤ
limit_cap settings = if leb_ℤ settings.max_limit (pos 100) then settings.max_limit else pos 100

abbrev given_or : ℤ → Option ℤ → ℤ
given_or default none = default
given_or default (some limit) = limit

unfoldable pub check_query : Parser → Settings → Text → Text → Option ℤ → Validated Checked
check_query parser settings resource_id sql limit = do
  id ← validate_identifier resource_id "resource_id" 120
  require (is_listed settings id)
      (record (invalid "resource_id" none none) { code = "resource_not_allowlisted" })
  statement ← validate_sql parser sql
  safe_limit ← validate_limit (given_or settings.default_limit limit) (limit_cap settings)
  accepts (record { resource_id = id; statement = statement; limit = safe_limit })

module _ {ℓ} {R : Type ℓ} (encoded : R → Option ℕ) (parser : Parser) (numbers : Numbers)
    (settings : Settings) where
  unfoldable pub query :
      Bool
      → Cached
      → ℕ
      → (List (List Value) → Text → Option (Prepared R))
      → Text
      → Text
      → Option ℤ
      → Reply R
  unfolding check_query
  query locked cached deadline prepare resource_id sql limit =
      elim (check_query parser settings resource_id sql limit) [
        | raises error ↦ invalid_request error
        | accepts c ↦ if locked then sql_busy else elim cached [
          | rate_limited ↦ source_rate_limited
          | failed ↦ unavailable
          | captured fields records ↦
              elim (execute_snapshot_query encoded (pos_part c.limit) deadline parser numbers fields
                records c.statement prepare) [
                  | query_rejected ↦
                      invalid_request (record (invalid "sql" none none) { code = "sql_rejected" })
                  | snapshot_rejected ↦ unavailable
                  | returned rows truncated ↦ succeeds rows truncated (length records)
                ]
        ]
      ]
