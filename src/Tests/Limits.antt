-- ===== src/Tests/Limits.antt =====
-- The token bucket of a source and the daily quota at concrete uses.
use istanbulmcp.Prelude.{ℕ, ◌+◌, ◌-◌, ◌*◌, ◌≤◌, min, String, ◌≡◌, ◌⊎◌, List, [], ◌∷◌, arith}
use istanbulmcp.Prelude.Int.{pos}
use istanbulmcp.Guard.Clients.{Wait, token, second}
use istanbulmcp.Bucket.{AsyncTokenBucket, attempt, acquire, granted, refused, sleeps}
use istanbulmcp.Bucket.Pace.{IsValid, Use, grants, grants-le, acquire_ends, IsSlept}
use istanbulmcp.Quota.{DailyQuota, select}
use istanbulmcp.Quota.Daily.{used, allowed_on, calls_on, allowed_on-eq}

-- One token, one more each second, and callers that wait ten seconds at most.
abbrev bucket : AsyncTokenBucket
bucket = record {
  capacity = token;
  refill_per_second = 1000000;
  max_wait_seconds = 10 * second;
  tokens = 0;
  updated_at = 0;
  blocked_until = second;
}

bucket-IsValid : IsValid bucket
bucket-IsValid = omega arith

abbrev uses : List Use
uses =
    Use.pass 1
    ∷ Use.pass (2 * second)
    ∷ Use.penalty (pos second) (2 * second)
    ∷ Use.pass (4 * second)
    ∷ []

grants-le_example : grants bucket uses * token ≤ 0 + (4 * second - 0) * 1000000
grants-le_example = grants-le uses bucket (4 * second) (omega arith)

told_first : (w : Wait) → (attempt bucket 0).1 ≡ sleeps w → IsSlept w 0 second
unfolding attempt
told_first w e = ground arith

told_second :
    (w : Wait) → (attempt (attempt bucket 0).0 second).1 ≡ sleeps w → IsSlept w second (2 * second)
unfolding attempt
told_second w e = absurd (cc)

acquire_ends_example :
    ((acquire bucket (0 ∷ second ∷ 2 * second ∷ [])).1 ≡ granted)
    ⊎ ((acquire bucket (0 ∷ second ∷ 2 * second ∷ [])).1 ≡ refused)
acquire_ends_example =
    acquire_ends bucket 0 second (2 * second) bucket-IsValid (omega arith) (omega arith) told_first
      told_second

abbrev quota : DailyQuota
quota = record { limit = 2; rows = record { key_hash = "k"; day = 0; used = 1 } ∷ [] }

abbrev requests : List (String × ℕ)
requests = ("k", 5) ∷ ("j", 6) ∷ ("k", 7) ∷ []

allowed_on-eq_example :
    allowed_on quota "k" 0 requests ≡ min (calls_on "k" 0 requests) (2 - used quota "k" 0)
unfolding select
allowed_on-eq_example = allowed_on-eq requests quota "k" 0 (omega arith) (omega arith)
