-- ===== src/Tests/Cache.antt =====
-- The source cache at concrete entries and times.
use istanbulmcp.Prelude.{ℕ, String, ◌≡◌, refl, false, none, some, [], ◌∷◌, arith}
use istanbulmcp.Prelude.Int.{pos}
use istanbulmcp.Prelude.Dict
use istanbulmcp.Cache.{
  loaded, returned, CacheEntry, SourceLoadResult, SourceTtlCache, failed, raised, waits, served,
  new_entry, lock_of, stale_deadline, live_entry,
}
use istanbulmcp.Cache.Serve.{store, begin, on_error, locked_part, get_with_status, peek_with_status}
use istanbulmcp.Cache.Serve.Laws.{Origin, get_with_status-Origin, age_limit_final}

abbrev timeout : String
timeout = "timeout"

-- Good for five units, and for ten at most.
abbrev fetched : SourceLoadResult ℕ String
fetched = record { value = 42; metadata = none; max_cache_age_seconds = some (pos 10) }

abbrev entry : CacheEntry ℕ String
entry = new_entry 100 5 "12:00" fetched

abbrev cache : SourceTtlCache ℕ String
cache = record { entries = ("ckan.a", entry) ∷ []; locks = ("ckan.a", 0) ∷ []; created = 1 }

-- The loader fails at 107, after the entry has expired at 105.
get_with_status-Origin_example :
    Origin cache "ckan.a" 106 106 107 5 60 (failed timeout) (served false (some timeout) entry)
unfolding get_with_status begin locked_part live_entry on_error lock_of stale_deadline new_entry
    Dict.get
get_with_status-Origin_example =
    get_with_status-Origin cache "ckan.a" 5 8 60 106 106 107 (failed timeout)
      (served false (some timeout) entry) refl

age_limit_final_example :
    ((begin {E = String} (λ l. false) cache "ckan.a" 111).1.1 ≡ waits (lock_of cache "ckan.a").1)
    × ((on_error cache "ckan.a" 111 60 timeout).1.1 ≡ raised timeout)
    × ((peek_with_status {E = String} cache "ckan.a" 60 111).1 ≡ none)
    × ((locked_part cache "ckan.a" 5 9 60 111 112 (failed timeout)).1.1 ≡ raised timeout)
    × ((locked_part cache "ckan.a" 5 9 60 111 112 (loaded fetched "12:01")).1.1
        ≡ returned (store {E = String} cache "ckan.a" 111 5 9 fetched "12:01").1)
unfolding Dict.get
age_limit_final_example =
    age_limit_final (λ l. false) cache "ckan.a" 100 5 111 112 60 9 5 (pos 10) timeout fetched
      fetched "12:00" "12:01" (omega arith) refl refl (omega arith)
