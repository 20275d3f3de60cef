-- ===== src/Quota/Daily.antt =====
-- What DailyQuota grants to a key in a day.
use istanbulmcp.Prelude.{
  ℕ, ◌+◌, ◌-◌, ◌*◌, ◌≤◌, ◌<◌, min, String, ◌≡◌, refl, ◌&&◌, none, some, List, [], ◌∷◌, arith, ltb,
  leb, ◌==◌, str_eq, eq_iff, eq_refl, if◌then◌else◌,
}
use istanbulmcp.Quota.{
  Usage, DailyQuota, select, upsert, delete_before, or_zero, day_of, consume, micros,
}

select-upsert :
    (k j : String) (d e n : ℕ) (rs : List Usage)
    → select j e (upsert k d n rs) ≡ (if str_eq k j && d == e then some n else select j e rs)
unfolding select upsert
select-upsert k j d e n [] = ground arith
select-upsert k j d e n (r ∷ rs) =
    ground (arith, eq_iff k j, eq_iff r.key_hash k, eq_iff r.key_hash j, select-upsert k j d e n rs)

select-delete_before :
    (k : String) (d e : ℕ) (rs : List Usage)
    → select k e (delete_before d rs) ≡ (if leb d e then select k e rs else none)
unfolding select delete_before
select-delete_before k d e [] = ground arith
select-delete_before k d e (r ∷ rs) = ground (arith, select-delete_before k d e rs)

-- What a key has used of a day.
abbrev pub used : DailyQuota → String → ℕ → ℕ
used q key day = or_zero (select key day q.rows)

module _ (q : DailyQuota) (k : String) (now : ℕ) where
  -- A call is allowed exactly while the key has used less than the limit of the day.
  pub consume_allowed : (consume q k now).1.allowed ≡ ltb (used q k (day_of now)) q.limit
  unfolding consume
  consume_allowed = ground (arith, select-delete_before k (day_of now) (day_of now) q.rows)

  -- An allowed call uses one of its key's day, and no call changes what another key, or the same key
  -- on a later day, has used.
  pub used-consume :
      (j : String) (e : ℕ)
      → day_of now ≤ e
      → used (consume q k now).0 j e
        ≡ used q j e
          + (if str_eq k j && day_of now == e && (consume q k now).1.allowed then 1 else 0)
  unfolding consume
  used-consume j e h = ground (
    arith,
    select-delete_before k (day_of now) (day_of now) q.rows,
    select-delete_before j (day_of now) e q.rows,
    select-upsert k j (day_of now) e
        (or_zero (select k (day_of now) (delete_before (day_of now) q.rows)) + 1)
        (delete_before (day_of now) q.rows),
    eq_iff k j,
  )

  limit-consume : (consume q k now).0.limit ≡ q.limit
  unfolding consume
  limit-consume = refl

  consume_remaining :
      used q k (day_of now) ≤ q.limit
      → (consume q k now).1.remaining + used (consume q k now).0 k (day_of now) ≡ q.limit
  unfolding consume
  consume_remaining h = ground (
    arith,
    select-delete_before k (day_of now) (day_of now) q.rows,
    select-upsert k k (day_of now) (day_of now)
        (or_zero (select k (day_of now) (delete_before (day_of now) q.rows)) + 1)
        (delete_before (day_of now) q.rows),
    eq_refl k,
  )

  -- The counters that a client sees: what is left after the call, and a reset in the future, at
  -- most a day away, which the retry delay reaches.
  pub consume_headers :
      used q k (day_of now) ≤ q.limit
      → ((consume q k now).1.remaining + used (consume q k now).0 k (day_of now) ≡ q.limit)
        × (now < (consume q k now).1.reset_at * micros)
        × ((consume q k now).1.reset_at * micros ≤ now + (consume q k now).1.retry_after * micros)
        × ((consume q k now).1.retry_after ≤ 86400)
  consume_headers h = (
    consume_remaining h,
    unfold consume in omega arith,
    unfold consume in omega arith,
    unfold consume in omega arith,
  )

-- How many calls of a run the key is allowed on the day.
unfoldable pub allowed_on : DailyQuota → String → ℕ → List (String × ℕ) → ℕ
allowed_on q key day [] = 0
allowed_on q key day ((k, now) ∷ calls) =
    (if str_eq k key && day_of now == day && (consume q k now).1.allowed then 1 else 0)
    + allowed_on (consume q k now).0 key day calls

-- How many calls the key makes on the day.
abbrev pub calls_on : String → ℕ → List (String × ℕ) → ℕ
calls_on key day [] = 0
calls_on key day ((k, now) ∷ calls) =
    (if str_eq k key && day_of now == day then 1 else 0) + calls_on key day calls

abbrev pub NoLaterThan : ℕ → List (String × ℕ) → Type 0
NoLaterThan day [] = Unit
NoLaterThan day ((k, now) ∷ calls) = (day_of now ≤ day) × NoLaterThan day calls

-- Whatever the keys and times up to a day, that day's calls of a key are allowed one by one until
-- the limit is reached, and none after.
pub allowed_on-eq :
    (calls : List (String × ℕ)) (q : DailyQuota) (key : String) (day : ℕ)
    → NoLaterThan day calls
    → used q key day ≤ q.limit
    → allowed_on q key day calls ≡ min (calls_on key day calls) (q.limit - used q key day)
unfolding allowed_on
allowed_on-eq [] q key day h u = omega arith
allowed_on-eq ((k, now) ∷ calls) q key day h u = ground (
  arith,
  consume_allowed q k now,
  used-consume q k now key day h.0,
  limit-consume q k now,
  eq_iff k key,
  allowed_on-eq calls (consume q k now).0 key day h.1,
)
