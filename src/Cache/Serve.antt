-- ===== src/Cache/Serve.antt =====
-- app/core/source_cache.py: get_with_status, get and peek_with_status.
pub mod Laws
use istanbulmcp.Prelude.{
  ℕ, zero, suc, ◌+◌, ◌-◌, ◌≤◌, ◌<◌, String, Bool, true, false, not, ◌&&◌, ◌||◌, Option, none, some,
  List, [], ◌∷◌, ◌++◌, ltb, leb, ◌==◌, if◌then◌else◌, length,
}
use istanbulmcp.Prelude.Dict
use istanbulmcp.Prelude.Dict.{Dict}
use istanbulmcp.Cache.{
  CacheEntry, CachedSourceData, SourceLoadResult, SourceTtlCache, CacheEvent, hit, miss, load, wait,
  stale, error, Outcome, returned, raised, Load, loaded, failed, Begun, done, waits, served,
  live_entry, lock_of, evict_before_insert, new_entry, stale_deadline, is_live,
}

module _ {V M E : Type 0} where
  -- Up to the wait for the lock; `locked` tells which locks are held.
  unfoldable pub begin :
      (ℕ → Bool)
      → SourceTtlCache V M
      → String
      → ℕ
      → SourceTtlCache V M × (List CacheEvent × Begun V M E)
  begin locked c key now = elim (live_entry c key now) [
    | some e ↦ (c, (hit ∷ [], done (served true none e)))
    | none ↦
        let (c', lock) = lock_of c key in
        (c', (if locked lock then miss ∷ wait ∷ [] else miss ∷ [], waits lock))
  ]

  -- Behind the load: make room, and store the new entry. `now` is when the lock was taken.
  unfoldable pub store :
      SourceTtlCache V M
      → String
      → ℕ
      → ℕ
      → ℕ
      → SourceLoadResult V M
      → String
      → SourceTtlCache V M × CachedSourceData V M E
  store c key now ttl_seconds max_entries r iso =
      let c' = evict_before_insert max_entries now c in
      let e = new_entry now ttl_seconds iso r in
      (record c' { entries = Dict.put key e c'.entries }, served true none e)

  -- `except Exception`: the last entry while it may still be served, else the exception.
  unfoldable pub on_error :
      SourceTtlCache V M
      → String
      → ℕ
      → ℕ
      → E
      → SourceTtlCache V M × (List CacheEvent × Outcome V M E)
  on_error c key now stale_if_error_seconds exc = elim (Dict.get key c.entries) [
    | none ↦ (record c { locks = Dict.pop key c.locks }, (error ∷ [], raised exc))
    | some e ↦
        if ltb 0 stale_if_error_seconds && leb now (stale_deadline stale_if_error_seconds e)
        then (c, (error ∷ stale ∷ [], returned (served false (some exc) e)))
        else (c, (error ∷ [], raised exc))
  ]

  -- The body of `async with lock`, and the handler: `now` is read with the lock taken, `later`
  -- after a load that failed.
  unfoldable pub locked_part :
      SourceTtlCache V M
      → String
      → ℕ
      → ℕ
      → ℕ
      → ℕ
      → ℕ
      → Load V M E
      → SourceTtlCache V M × (List CacheEvent × Outcome V M E)
  locked_part c key ttl_seconds max_entries stale_if_error_seconds now later outcome =
      elim (live_entry c key now) [
        | some e ↦ (c, (hit ∷ [], returned (served true none e)))
        | none ↦ elim outcome [
          | loaded r iso ↦
              let (c', data') = store c key now ttl_seconds max_entries r iso in
              (c', (load ∷ [], returned data'))
          | failed exc ↦
              let (c', (events, result)) = on_error c key later stale_if_error_seconds exc in
              (c', (load ∷ events, result))
        ]
      ]

  -- A call that no other call overlaps.
  unfoldable pub get_with_status :
      SourceTtlCache V M
      → String
      → ℕ
      → ℕ
      → ℕ
      → ℕ
      → ℕ
      → ℕ
      → Load V M E
      → SourceTtlCache V M × (List CacheEvent × Outcome V M E)
  get_with_status c key ttl_seconds max_entries stale_if_error_seconds start now later outcome =
      let (c', (events, begun)) = begin (λ l. false) c key start in
      elim begun [
        | done data' ↦ (c', (events, returned data'))
        | waits lock ↦
            let (c'', (more, result)) =
              locked_part c' key ttl_seconds max_entries stale_if_error_seconds now later outcome in
            (c'', (events ++ more, result))
      ]

  -- `get` returns the value alone, and allows no stale data.
  unfoldable pub get :
      SourceTtlCache V M
      → String
      → ℕ
      → ℕ
      → ℕ
      → ℕ
      → ℕ
      → Load V M E
      → SourceTtlCache V M × Outcome V M E
  get c key ttl_seconds max_entries start now later outcome =
      let (c', (events, result)) =
        get_with_status c key ttl_seconds max_entries 0 start now later outcome in
      (c', result)

  -- An entry may be inspected strictly before its deadline.
  unfoldable pub peek_with_status :
      SourceTtlCache V M → String → ℕ → ℕ → CacheEvent × Option (CachedSourceData V M E)
  unfolding stale_deadline
  peek_with_status c key stale_if_error_seconds now = elim (Dict.get key c.entries) [
    | none ↦ (miss, none)
    | some e ↦
        if leb (stale_deadline stale_if_error_seconds e) now
        then (miss, none)
        else (if is_live now e then hit else stale, some (served (is_live now e) none e))
  ]
