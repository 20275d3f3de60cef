-- ===== src/Quota.antt =====
-- app/storage/quota.py: DailyQuota over its SQLite table. A time is the microseconds since the epoch
-- in UTC and a day is their quotient, which orders as the ISO texts of the table do. BEGIN IMMEDIATE
-- makes a call of `consume` one step.
pub mod Daily
use istanbulmcp.Prelude.{
  ℕ, zero, suc, ◌+◌, ◌-◌, ◌*◌, ◌/◌, ◌^◌, String, Bool, true, false, ◌&&◌, Option, none, some, List,
  [], ◌∷◌, ltb, leb, ◌==◌, str_eq, max, filter, if◌then◌else◌,
}
use istanbulmcp.Prelude.Int.{ℤ, pos_part, leb_ℤ, pos}

abbrev pub micros : ℕ
micros = 1000000

abbrev pub day_micros : ℕ
day_micros = 86400000000

-- A row of api_daily_usage.
pub record Usage : Type 0 where
  pub key_hash : String
  pub day : ℕ
  pub used : ℕ

pub record DailyQuota : Type 0 where
  pub limit : ℕ
  pub rows : List Usage

pub record QuotaResult : Type 0 where
  pub allowed : Bool
  pub remaining : ℕ
  pub reset_at : ℕ
  pub retry_after : ℕ

-- The constructor keeps the rows of an existing table; `none` is its ValueError.
unfoldable pub open_quota : ℤ → List Usage → Option DailyQuota
open_quota limit rows =
    if leb_ℤ limit (pos 0) then none else some (record { limit = pos_part limit; rows = rows })

abbrev pub is_row : String → ℕ → Usage → Bool
is_row key day r = str_eq r.key_hash key && r.day == day

-- `SELECT used`
unfoldable pub select : String → ℕ → List Usage → Option ℕ
select key day [] = none
select key day (r ∷ rs) = if is_row key day r then some r.used else select key day rs

-- `INSERT ... ON CONFLICT(key_hash, day) DO UPDATE`
unfoldable pub upsert : String → ℕ → ℕ → List Usage → List Usage
upsert key day used [] = record { key_hash = key; day = day; used = used } ∷ []
upsert key day used (r ∷ rs) =
    if is_row key day r then record r { used = used } ∷ rs else r ∷ upsert key day used rs

-- `DELETE FROM api_daily_usage WHERE day < ?`
unfoldable pub delete_before : ℕ → List Usage → List Usage
delete_before day = filter (λ r. leb day r.day)

abbrev pub or_zero : Option ℕ → ℕ
or_zero none = 0
or_zero (some n) = n

abbrev pub day_of : ℕ → ℕ
day_of now = now / day_micros

unfoldable pub consume : DailyQuota → String → ℕ → DailyQuota × QuotaResult
consume q key now =
    let day = day_of now in
    let reset = (day + 1) * day_micros in
    let rows = delete_before day q.rows in
    let used = or_zero (select key day rows) in
    let allowed = ltb used q.limit in
    let used' = if allowed then used + 1 else used in
    let rows' = if allowed then upsert key day used' rows else rows in
    (
      record q { rows = rows' },
      record {
        allowed = allowed;
        remaining = q.limit - used';
        reset_at = reset / micros;
        retry_after = max 1 ((reset - now + (micros - 1)) / micros);
      },
    )
