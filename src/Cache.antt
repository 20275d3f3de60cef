-- ===== src/Cache.antt =====
-- app/core/source_cache.py: SourceTTLCache. Times and durations are natural numbers of one unit.
-- `await` divides `get_with_status` into the steps below; between two awaits nothing else runs.
-- A lock is the number of its `asyncio.Lock` object.
pub mod Evict
pub mod Serve
use istanbulmcp.Prelude.{
  ℕ, zero, suc, ◌+◌, ◌-◌, ◌≤◌, String, Bool, true, false, not, ◌&&◌, ◌||◌, Option, none, some, List,
  [], ◌∷◌, ◌++◌, ltb, leb, ◌==◌, if◌then◌else◌, length, max, min, filter, map,
}
use istanbulmcp.Prelude.Int.{ℤ, pos_part}
use istanbulmcp.Prelude.Dict
use istanbulmcp.Prelude.Dict.{Dict}

pub record CacheEntry (V M : Type 0) : Type 0 where
  pub value : V
  pub refreshed_at_monotonic : ℕ
  pub expires_at_monotonic : ℕ
  pub refreshed_at_iso : String
  pub metadata : Option M
  pub max_age_at_monotonic : Option ℕ

pub record CachedSourceData (V M E : Type 0) : Type 0 where
  pub value : V
  pub refreshed_at_iso : String
  pub is_fresh : Bool
  pub is_stale : Bool
  pub error : Option E
  pub metadata : Option M

-- What a loader returns; a bare value has neither metadata nor an age.
pub record SourceLoadResult (V M : Type 0) : Type 0 where
  pub value : V
  pub metadata : Option M
  pub max_cache_age_seconds : Option ℤ

pub record SourceTtlCache (V M : Type 0) : Type 0 where
  pub entries : Dict (CacheEntry V M)
  pub locks : Dict ℕ
  pub created : ℕ

-- What is told to the observer of a tool call.
pub data CacheEvent : Type 0 where
  hit miss load wait stale error : CacheEvent

abbrev pub or_one : ℕ → ℕ
or_one n = max 1 n

-- `min(deadline, max_age_at)`, if there is such a limit.
abbrev pub capped : Option ℕ → ℕ → ℕ
capped none deadline = deadline
capped (some at) deadline = min deadline at

module _ {V M : Type 0} where
  unfoldable pub new_cache : SourceTtlCache V M
  new_cache = record { entries = []; locks = []; created = 0 }

  -- `now < entry.expires_at_monotonic`
  abbrev pub is_live : ℕ → CacheEntry V M → Bool
  is_live now e = ltb now e.expires_at_monotonic

  -- `entry is not None and now < entry.expires_at_monotonic`
  unfoldable pub live_entry : SourceTtlCache V M → String → ℕ → Option (CacheEntry V M)
  live_entry c key now = elim (Dict.get key c.entries) [
    | none ↦ none
    | some e ↦ if is_live now e then some e else none
  ]

  -- `self._locks.setdefault(key, asyncio.Lock())`
  unfoldable pub lock_of : SourceTtlCache V M → String → SourceTtlCache V M × ℕ
  lock_of c key = elim (Dict.get key c.locks) [
    | some l ↦ (c, l)
    | none ↦
        (record c { locks = Dict.put key c.created c.locks; created = c.created + 1 }, c.created)
  ]

  -- The order of the eviction's `min`: first to expire, then first refreshed.
  unfoldable pub evicts_first : CacheEntry V M → CacheEntry V M → Bool
  evicts_first a b =
      ltb a.expires_at_monotonic b.expires_at_monotonic
      || (a.expires_at_monotonic == b.expires_at_monotonic
          && ltb a.refreshed_at_monotonic b.refreshed_at_monotonic)

  unfoldable pub oldest_from : String → CacheEntry V M → Dict (CacheEntry V M) → String
  oldest_from k e [] = k
  oldest_from k e ((j, f) ∷ d) =
      let older = evicts_first f e in
      oldest_from (if older then j else k) (if older then f else e) d

  unfoldable pub pop_key : String → SourceTtlCache V M → SourceTtlCache V M
  pop_key key c = record c { entries = Dict.pop key c.entries; locks = Dict.pop key c.locks }

  unfoldable pub pop_keys : List String → SourceTtlCache V M → SourceTtlCache V M
  pop_keys [] c = c
  pop_keys (k ∷ ks) c = pop_keys ks (pop_key k c)

  unfoldable pub oldest : Dict (CacheEntry V M) → Option String
  oldest [] = none
  oldest ((k, e) ∷ d) = some (oldest_from k e d)

  -- The body of the `while`: `min` is never called on an empty dict.
  unfoldable pub pop_oldest : SourceTtlCache V M → SourceTtlCache V M
  unfolding oldest pop_key
  pop_oldest c = elim (oldest c.entries) [ none ↦ c | some k ↦ pop_key k c ]

  -- `while len(self._entries) >= max_entries`, with the number of entries for fuel.
  unfoldable pub shrink : ℕ → ℕ → SourceTtlCache V M → SourceTtlCache V M
  shrink zero max_entries c = c
  shrink (suc fuel) max_entries c =
      let rest = shrink fuel max_entries (pop_oldest c) in
      if leb max_entries (length c.entries) then rest else c

  unfoldable pub expired_keys : ℕ → Dict (CacheEntry V M) → List String
  expired_keys now d = map (λ e. e.0) (filter (λ e. leb e.1.expires_at_monotonic now) d)

  unfoldable pub evict_before_insert : ℕ → ℕ → SourceTtlCache V M → SourceTtlCache V M
  evict_before_insert max_entries now c =
      let kept = pop_keys (expired_keys now c.entries) c in
      shrink (length kept.entries) (or_one max_entries) kept

  unfoldable pub clear : SourceTtlCache V M → SourceTtlCache V M
  clear c = record c { entries = []; locks = [] }

  -- The entry that a load at `now` makes.
  unfoldable pub new_entry : ℕ → ℕ → String → SourceLoadResult V M → CacheEntry V M
  new_entry now ttl_seconds iso r =
      let max_age_at : Option ℕ = elim r.max_cache_age_seconds [
        | none ↦ none
        | some age ↦ some (now + pos_part age)
      ] in
      record {
        value = r.value;
        refreshed_at_monotonic = now;
        expires_at_monotonic = capped max_age_at (now + ttl_seconds);
        refreshed_at_iso = iso;
        metadata = r.metadata;
        max_age_at_monotonic = max_age_at;
      }

  -- `expires_at + stale_if_error_seconds`, and no later than the entry's own limit.
  unfoldable pub stale_deadline : ℕ → CacheEntry V M → ℕ
  stale_deadline stale_if_error_seconds e =
      capped e.max_age_at_monotonic (e.expires_at_monotonic + stale_if_error_seconds)

abbrev pub served : {V M E : Type 0} → Bool → Option E → CacheEntry V M → CachedSourceData V M E
served fresh exc e = record {
  value = e.value;
  refreshed_at_iso = e.refreshed_at_iso;
  is_fresh = fresh;
  is_stale = not fresh;
  error = exc;
  metadata = e.metadata;
}

-- How a call ends: with data, or with the loader's exception.
pub data Outcome (V M E : Type 0) : Type 0 where
  returned : CachedSourceData V M E → Outcome V M E
  raised : E → Outcome V M E

-- What `await loader()` comes to; a load that returns is dated by the wall clock.
pub data Load (V M E : Type 0) : Type 0 where
  loaded : SourceLoadResult V M → String → Load V M E
  failed : E → Load V M E

-- A call's first step: data, or a lock to wait for.
pub data Begun (V M E : Type 0) : Type 0 where
  done : CachedSourceData V M E → Begun V M E
  waits : ℕ → Begun V M E
