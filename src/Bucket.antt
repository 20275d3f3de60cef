-- ===== src/Bucket.antt =====
-- app/core/rate_limit.py: AsyncTokenBucket, which paces the calls of one upstream source. Units as
-- in Guard.Clients: nanoseconds, millionths of a token per second, 10 ^ 15 units to a token.
pub mod Pace
use istanbulmcp.Prelude.{
  ℕ, zero, suc, ◌+◌, ◌-◌, ◌*◌, ◌≤◌, Bool, true, false, Option, none, some, List, [], ◌∷◌, ltb, leb,
  max, min, if◌then◌else◌,
}
use istanbulmcp.Prelude.Int.{ℤ, pos_part, leb_ℤ, pos}
use istanbulmcp.Guard.Clients.{Wait, token}

pub record AsyncTokenBucket : Type 0 where
  pub capacity : ℕ
  pub refill_per_second : ℕ
  pub max_wait_seconds : ℕ
  pub tokens : ℕ
  pub updated_at : ℕ
  pub blocked_until : ℕ

-- `none` is the constructor's ValueError.
unfoldable pub init : ℤ → ℤ → ℕ → ℕ → Option AsyncTokenBucket
init capacity refill_per_second max_wait_seconds now =
    if leb_ℤ (pos 1) capacity
    then (if leb_ℤ refill_per_second (pos 0)
        then none
        else some (record {
          capacity = pos_part capacity * token;
          refill_per_second = pos_part refill_per_second;
          max_wait_seconds = max_wait_seconds;
          tokens = pos_part capacity * token;
          updated_at = now;
          blocked_until = 0;
        }))
    else none

abbrev pub refilled : AsyncTokenBucket → ℕ → ℕ
refilled b now = min b.capacity (b.tokens + (now - b.updated_at) * b.refill_per_second)

-- `_retry_after_locked`; a delay of zero is `none`.
unfoldable pub retry_after_locked : AsyncTokenBucket → ℕ → AsyncTokenBucket × Option Wait
retry_after_locked b now =
    let b' : AsyncTokenBucket = record b { tokens = refilled b now; updated_at = now } in
    if ltb now b.blocked_until
    then (b', some (record { deficit = b.blocked_until - now; rate = 1 }))
    else (if leb token b'.tokens
        then (b', none)
        else (b', some (record { deficit = token - b'.tokens; rate = b.refill_per_second })))

-- What one pass under the lock decides: a token is taken, or SourceRateLimitExceeded is raised, or
-- the caller sleeps and tries again.
pub data Attempt : Type 0 where
  taken : Attempt
  limit_exceeded : Wait → Attempt
  sleeps : Wait → Attempt

unfoldable pub attempt : AsyncTokenBucket → ℕ → AsyncTokenBucket × Attempt
unfolding retry_after_locked
attempt b now =
    let (b', retry_after) = retry_after_locked b now in
    elim retry_after [
      | none ↦ (record b' { tokens = b'.tokens - token }, taken)
      | some w ↦
          if ltb (b.max_wait_seconds * w.rate) w.deficit
          then (b', limit_exceeded w)
          else (b', sleeps w)
    ]

pub data Outcome : Type 0 where
  granted refused waiting : Outcome

-- `acquire` calls itself after each sleep: the list holds the time of each pass, and `waiting` says
-- that the caller still sleeps after the last of them.
unfoldable pub acquire : AsyncTokenBucket → List ℕ → AsyncTokenBucket × Outcome
acquire b [] = (b, waiting)
acquire b (now ∷ later) =
    let rest = acquire (attempt b now).0 later in
    elim (attempt b now).1 [
      | taken ↦ ((attempt b now).0, granted)
      | limit_exceeded w ↦ ((attempt b now).0, refused)
      | sleeps w ↦ rest
    ]

-- `max(0.0, retry_after_seconds)`; the argument is a signed number of nanoseconds.
unfoldable pub penalize : AsyncTokenBucket → ℤ → ℕ → AsyncTokenBucket
penalize b retry_after now = record b {
  blocked_until = max b.blocked_until (now + pos_part retry_after);
}
