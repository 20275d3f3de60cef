-- ===== src/Cache/Serve/Laws.antt =====
-- What SourceTTLCache returns, and what it keeps.
use istanbulmcp.Prelude.{
  ℕ, ◌+◌, ◌≤◌, ◌<◌, String, Bool, ◌≡◌, ◌↔◌, refl, true, false, none, some, arith, ltb, ◌⊎◌, inl,
  inr, Bool-cases, Option-cases, length, eq_refl, ltb→lt, [], ◌∷◌, ◌∙◌,
}
use istanbulmcp.Prelude.Int.{ℤ, pos_part}
use istanbulmcp.Prelude.Dict
use istanbulmcp.Cache.{
  CacheEntry, CachedSourceData, SourceLoadResult, SourceTtlCache, Outcome, returned, raised, Load,
  loaded, failed, done, waits, served, hit, live_entry, lock_of, new_entry, stale_deadline, or_one,
  evict_before_insert,
}
use istanbulmcp.Cache.Evict.{length-evict-lt}
use istanbulmcp.Cache.Serve.{begin, store, on_error, locked_part, get_with_status, peek_with_status}

module _ {V M : Type 0} where
  -- What `live_entry` finds.
  live_entry-cases :
      (c : SourceTtlCache V M) (key : String) (t : ℕ)
      → ((live_entry c key t ≡ none)
          × ((e : CacheEntry V M) → Dict.get key c.entries ≡ some e → e.expires_at_monotonic ≤ t))
        ⊎ ((e : CacheEntry V M) × (live_entry c key t ≡ some e)
            × (Dict.get key c.entries ≡ some e)
            × (t < e.expires_at_monotonic))
  unfolding live_entry
  live_entry-cases c key t = elim (Option-cases (Dict.get key c.entries)) [
    | inl n ↦ inl (ground arith, λ e h. cc)
    | inr (e, g) ↦ elim (Bool-cases (ltb t e.expires_at_monotonic)) [
      | inl y ↦ inr (e, ground arith, g, ltb→lt _ _ y)
      | inr z ↦ inl (ground arith, λ e' h. ground arith)
    ]
  ]

  entries-lock_of : (c : SourceTtlCache V M) (key : String) → (lock_of c key).0.entries ≡ c.entries
  unfolding lock_of
  entries-lock_of c key = ground arith

  length-store :
      (E : Type 0) (c : SourceTtlCache V M) (key : String) (now ttl n : ℕ)
      (r : SourceLoadResult V M) (iso : String)
      → length (store {E = E} c key now ttl n r iso).0.entries ≤ or_one n
  unfolding store
  length-store E c key now ttl n r iso =
      let c' = evict_before_insert n now c in
      omega (
        arith,
        Dict.length-put-le key (new_entry now ttl iso r) c'.entries,
        length-evict-lt n now c,
      )

module _ {V M E : Type 0} where
  -- Where returned data may come from: a live entry, the load, or an entry within its deadline.
  pub data Origin (c : SourceTtlCache V M) (key : String) (start now later ttl stale_for : ℕ)
      (outcome : Load V M E) (d : CachedSourceData V M E) : Type 0 where
    live :
        (e : CacheEntry V M) (t : ℕ)
        → Dict.get key c.entries ≡ some e
        → (t ≡ start) ⊎ (t ≡ now)
        → t < e.expires_at_monotonic
        → d ≡ served true none e
        → Origin c key start now later ttl stale_for outcome d
    fresh :
        (r : SourceLoadResult V M) (iso : String)
        → outcome ≡ loaded r iso
        → d ≡ served true none (new_entry now ttl iso r)
        → Origin c key start now later ttl stale_for outcome d
    old :
        (e : CacheEntry V M) (exc : E)
        → Dict.get key c.entries ≡ some e
        → outcome ≡ failed exc
        → e.expires_at_monotonic ≤ now
        → 0 < stale_for
        → later ≤ stale_deadline stale_for e
        → d ≡ served false (some exc) e
        → Origin c key start now later ttl stale_for outcome d

  module _ (c : SourceTtlCache V M) (key : String) (ttl max_entries stale_for start now later : ℕ)
      (outcome : Load V M E) where
    abbrev pub result : Outcome V M E
    result = (get_with_status c key ttl max_entries stale_for start now later outcome).1.1

    abbrev pub after : SourceTtlCache V M
    after = (get_with_status c key ttl max_entries stale_for start now later outcome).0

    -- The call, by what it finds at the start and under the lock.
    call_hit :
        (e : CacheEntry V M)
        → live_entry c key start ≡ some e
        → (after ≡ c) × (result ≡ returned (served true none e))
    unfolding get_with_status begin
    call_hit e h = (ground arith, ground arith)

    call_miss :
        live_entry c key start ≡ none
        → (after
            ≡ (locked_part (lock_of c key).0 key ttl max_entries stale_for now later outcome).0)
          × (result
              ≡ (locked_part (lock_of c key).0 key ttl max_entries stale_for now later outcome).1.1)
    unfolding get_with_status begin
    call_miss h = (ground arith, ground arith)

  entries-on_error :
      (c : SourceTtlCache V M) (key : String) (t s : ℕ) (exc : E)
      → (on_error c key t s exc).0.entries ≡ c.entries
  unfolding on_error
  entries-on_error c key t s exc = ground arith

  length-locked_part :
      (c : SourceTtlCache V M) (key : String) (ttl n s now later : ℕ) (outcome : Load V M E)
      → length c.entries ≤ or_one n
      → length (locked_part c key ttl n s now later outcome).0.entries ≤ or_one n
  unfolding locked_part
  length-locked_part c key ttl n s now later (loaded r iso) h = elim (live_entry-cases c key now) [
    | inl (e, _) ↦ rw (e, locked_part) (length-store E c key now ttl n r iso)
    | inr (e, q, _, _) ↦ rw (q, locked_part) h
  ]
  length-locked_part c key ttl n s now later (failed exc) h = elim (live_entry-cases c key now) [
    | inl (e, _) ↦ rw (e, locked_part) (rw (entries-on_error c key later s exc) h)
    | inr (e, q, _, _) ↦ rw (q, locked_part) h
  ]

  -- A call never lets the cache outgrow its limit.
  pub length-get_with_status :
      (c : SourceTtlCache V M) (key : String) (ttl max_entries stale_for start now later : ℕ)
      (outcome : Load V M E)
      → length c.entries ≤ or_one max_entries
      → length (after c key ttl max_entries stale_for start now later outcome).entries
        ≤ or_one max_entries
  length-get_with_status c key ttl n s start now later o h = elim (live_entry-cases c key start) [
    | inl (e, _) ↦ rw ((call_miss c key ttl n s start now later o e).0) (
        length-locked_part (lock_of c key).0 key ttl n s now later o (rw (entries-lock_of c key) h))
    | inr (e, q, _, _) ↦ rw ((call_hit c key ttl n s start now later o e q).0) h
  ]

  on_error-returned :
      (c : SourceTtlCache V M) (key : String) (t s : ℕ) (exc : E) (d : CachedSourceData V M E)
      → (on_error c key t s exc).1.1 ≡ returned d
      → (e : CacheEntry V M) × (Dict.get key c.entries ≡ some e)
        × (0 < s)
        × (t ≤ stale_deadline s e)
        × (d ≡ served false (some exc) e)
  unfolding on_error
  on_error-returned c key t s exc d h = elim (Option-cases (Dict.get key c.entries)) [
    | inl e ↦ absurd (ground arith)
    | inr (e, g) ↦ (e, g, ground arith, ground arith, ground arith)
  ]

  module _ (c c' : SourceTtlCache V M) (same : c'.entries ≡ c.entries) (key : String)
      (ttl n s start now later : ℕ) (d : CachedSourceData V M E) where
    -- The part under the lock may find locks that the call added, and the entries as they were.
    locked_part-Origin :
        (outcome : Load V M E)
        → (locked_part c' key ttl n s now later outcome).1.1 ≡ returned d
        → Origin c key start now later ttl s outcome d
    unfolding locked_part store
    locked_part-Origin (loaded r iso) h = elim (live_entry-cases c' key now) [
      | inl (q, _) ↦ fresh r iso refl (ground arith)
      | inr (e, q, g, l) ↦ live e now (rw (← same) g) (inr refl) l (ground arith)
    ]
    locked_part-Origin (failed exc) h = elim (live_entry-cases c' key now) [
      | inl (q, late) ↦
          let (e, g, pos, ok, eq) = on_error-returned c' key later s exc d (ground arith) in
          old e exc (rw (← same) g) refl (late e g) pos ok eq
      | inr (e, q, g, l) ↦ live e now (rw (← same) g) (inr refl) l (ground arith)
    ]

  -- Returned data is a live entry, what the loader returned now, or, after the loader failed, an
  -- expired entry within its deadline, marked stale and with the loader's exception.
  pub get_with_status-Origin :
      (c : SourceTtlCache V M) (key : String) (ttl max_entries stale_for start now later : ℕ)
      (outcome : Load V M E) (d : CachedSourceData V M E)
      → result c key ttl max_entries stale_for start now later outcome ≡ returned d
      → Origin c key start now later ttl stale_for outcome d
  get_with_status-Origin c key ttl n s start now later o d h = elim (live_entry-cases c key start) [
    | inl (q, _) ↦
        locked_part-Origin c (lock_of c key).0 (entries-lock_of c key) key ttl n s start now later d
          o (rw ((call_miss c key ttl n s start now later o q).1) at h)
    | inr (e, q, g, l) ↦
        live e start g (inl refl) l (cc ((call_hit c key ttl n s start now later o e q).1, h))
  ]

  -- A load that fails leaves every entry as it was, whether the call raises or serves stale data.
  pub failed-entries :
      (c : SourceTtlCache V M) (key : String) (ttl max_entries stale_for start now later : ℕ)
      (exc : E)
      → (after c key ttl max_entries stale_for start now later (failed exc)).entries ≡ c.entries
  unfolding locked_part
  failed-entries c key ttl n s start now later exc = elim (live_entry-cases c key start) [
    | inl (q, _) ↦
        rw ((call_miss c key ttl n s start now later (failed exc) q).0)
          (under (lock_of c key).0 ∙ entries-lock_of c key)
    | inr (e, q, _, _) ↦ rw ((call_hit c key ttl n s start now later (failed exc) e q).0)
  ]
    where
      under :
          (c' : SourceTtlCache V M)
          → (locked_part c' key ttl n s now later (failed exc)).0.entries ≡ c'.entries
      under c' = elim (live_entry-cases c' key now) [
        | inl (q, _) ↦ ground (arith, entries-on_error c' key later s exc)
        | inr (e, q, _, _) ↦ ground arith
      ]

  -- A stored entry is found again, with no load, at every time before its time to live and its
  -- own age limit pass.
  pub begin-store :
      (locked : ℕ → Bool) (c : SourceTtlCache V M) (key : String) (now ttl max_entries t : ℕ)
      (r : SourceLoadResult V M) (iso : String)
      → t < (new_entry now ttl iso r).expires_at_monotonic
      → begin {E = E} locked (store {E = E} c key now ttl max_entries r iso).0 key t ≡ (
        (store {E = E} c key now ttl max_entries r iso).0,
        (hit ∷ [], done (served true none (new_entry now ttl iso r))),
      )
  unfolding begin store live_entry
  begin-store locked c key now ttl n t r iso h = ground (
    arith,
    Dict.get-put key key (new_entry now ttl iso r) (evict_before_insert n now c).entries,
    eq_refl key,
  )

  -- No path serves an entry after the age limit that its loader gave: the first look waits for the
  -- lock; the second look, under it, goes on to the load and gives what that loads or the exception
  -- that it raises; the handler of a failed load raises; and an inspection shows nothing.
  pub age_limit_final :
      (locked : ℕ → Bool) (c : SourceTtlCache V M) (key : String) (now ttl t later s n ttl' : ℕ)
      (age : ℤ) (exc : E) (r r' : SourceLoadResult V M) (iso iso' : String)
      → t ≤ later
      → Dict.get key c.entries ≡ some (new_entry now ttl iso r)
      → r.max_cache_age_seconds ≡ some age
      → now + pos_part age < t
      → ((begin {E = E} locked c key t).1.1 ≡ waits (lock_of c key).1)
        × ((on_error c key t s exc).1.1 ≡ raised exc)
        × ((peek_with_status {E = E} c key s t).1 ≡ none)
        × ((locked_part c key ttl' n s t later (failed exc)).1.1 ≡ raised exc)
        × ((locked_part c key ttl' n s t later (loaded r' iso')).1.1
            ≡ returned (store {E = E} c key t ttl' n r' iso').1)
  unfolding begin on_error live_entry new_entry stale_deadline peek_with_status locked_part
  age_limit_final locked c key now ttl t later s n ttl' age exc r r' iso iso' order g a h =
      (ground arith, ground arith, ground arith, ground arith, ground arith)

  -- An inspection shows an entry strictly before its stale deadline, and the handler of a failed
  -- load serves it up to and at that deadline.
  pub deadlines :
      (c : SourceTtlCache V M) (key : String) (t s : ℕ) (exc : E) (e : CacheEntry V M)
      → Dict.get key c.entries ≡ some e
      → 0 < s
      → (((peek_with_status {E = E} c key s t).1
            ≡ some (served (ltb t e.expires_at_monotonic) none e))
          ↔ (t < stale_deadline s e))
        × (((on_error c key t s exc).1.1 ≡ returned (served false (some exc) e))
            ↔ (t ≤ stale_deadline s e))
  unfolding on_error peek_with_status
  deadlines c key t s exc e g p = ((ground arith, ground arith), (ground arith, ground arith))
