-- ===== src/Cache/Evict.antt =====
-- What `_evict_before_insert` of SourceTTLCache drops and keeps.
use istanbulmcp.Prelude.{
  ℕ, zero, suc, ◌≤◌, ◌<◌, String, ◌≡◌, ◌≢◌, refl, ◌∙◌, false, none, some, List, [], ◌∷◌, arith,
  length, eq_iff, str_eq, any, ◌⊎◌, inl, inr, Bool-cases, Option-cases,
}
use istanbulmcp.Prelude.Dict
use istanbulmcp.Prelude.Dict.{Dict, Values}
use istanbulmcp.Cache.{
  CacheEntry, SourceTtlCache, evicts_first, oldest_from, oldest, pop_key, pop_oldest, pop_keys,
  shrink, expired_keys, evict_before_insert, or_one,
}

module _ {V M : Type 0} where
  get-cons_some :
      (x j : String) (e : CacheEntry V M) (d : Dict (CacheEntry V M))
      → (x ≡ j) ⊎ (Dict.get x d ≢ none)
      → Dict.get x ((j, e) ∷ d) ≢ none
  unfolding Dict.get
  get-cons_some x j e d (inl p) = ground (arith, eq_iff j x)
  get-cons_some x j e d (inr h) = ground (arith, eq_iff j x)

  oldest_from-key :
      (k : String) (e : CacheEntry V M) (d : Dict (CacheEntry V M))
      → (oldest_from k e d ≡ k) ⊎ (Dict.get (oldest_from k e d) d ≢ none)
  unfolding oldest_from
  oldest_from-key k e [] = inl refl
  oldest_from-key k e ((j, f) ∷ d) = elim (Bool-cases (evicts_first f e)) [
    | inl b ↦ rw b (inr (get-cons_some (oldest_from j f d) j f d (oldest_from-key j f d)))
    | inr b ↦ rw b (elim (oldest_from-key k e d) [
      | inl q ↦ inl q
      | inr h ↦ inr (get-cons_some (oldest_from k e d) j f d (inr h))
    ])
  ]

  length-pop_some :
      (k : String) (d : Dict (CacheEntry V M))
      → Dict.get k d ≢ none
      → length (Dict.pop k d) < length d
  length-pop_some k d h = elim (Option-cases (Dict.get k d)) [
    | inl e ↦ absurd (h e)
    | inr (b, e) ↦ Dict.length-pop_hit k b d e
  ]

  length-pop_oldest :
      (k : String) (e : CacheEntry V M) (d : Dict (CacheEntry V M))
      → length (Dict.pop (oldest_from k e d) ((k, e) ∷ d)) < length ((k, e) ∷ d)
  length-pop_oldest k e d =
      length-pop_some (oldest_from k e d) ((k, e) ∷ d)
        (get-cons_some (oldest_from k e d) k e d (oldest_from-key k e d))

  pop_oldest-entries :
      (d : Dict (CacheEntry V M)) (ls : Dict ℕ) (n : ℕ)
      → 0 < length d
      → length (pop_oldest (record { entries = d; locks = ls; created = n })).entries < length d
  unfolding pop_oldest
  pop_oldest-entries [] ls n h = absurd (omega arith)
  pop_oldest-entries ((k, e) ∷ d) ls n h = length-pop_oldest k e d

  -- The loop ends by its test, and leaves room for one more entry.
  length-shrink-lt :
      (fuel n : ℕ) (c : SourceTtlCache V M)
      → length c.entries ≤ fuel
      → 0 < n
      → length (shrink fuel n c).entries < n
  unfolding shrink
  length-shrink-lt zero n c h p = omega arith
  length-shrink-lt (suc fuel) n c h p = ground (
    arith,
    pop_oldest-entries c.entries c.locks c.created,
    length-shrink-lt fuel n (pop_oldest c),
  )

  pub length-evict-lt :
      (max_entries now : ℕ) (c : SourceTtlCache V M)
      → length (evict_before_insert max_entries now c).entries < or_one max_entries
  unfolding evict_before_insert
  length-evict-lt max_entries now c =
      let kept = pop_keys (expired_keys now c.entries) c in
      length-shrink-lt (length kept.entries) (or_one max_entries) kept (omega arith) (omega arith)

  get-pop_key :
      (k j : String) (e : CacheEntry V M) (c : SourceTtlCache V M)
      → Dict.get j (pop_key k c).entries ≡ some e
      → Dict.get j c.entries ≡ some e
  unfolding pop_key
  get-pop_key k j e c h = ground (arith, Dict.get-pop k j c.entries)

  get-pop_keys :
      (ks : List String) (j : String) (e : CacheEntry V M) (c : SourceTtlCache V M)
      → Dict.get j (pop_keys ks c).entries ≡ some e
      → Dict.get j c.entries ≡ some e
  unfolding pop_keys
  get-pop_keys [] j e c h = h
  get-pop_keys (k ∷ ks) j e c h = get-pop_key k j e c (get-pop_keys ks j e (pop_key k c) h)

  get-pop_oldest :
      (j : String) (e : CacheEntry V M) (c : SourceTtlCache V M)
      → Dict.get j (pop_oldest c).entries ≡ some e
      → Dict.get j c.entries ≡ some e
  unfolding pop_oldest
  get-pop_oldest j e c h = elim (Option-cases (oldest c.entries)) [
    | inl q ↦ rw (q, pop_oldest) at h
    | inr (k, q) ↦ get-pop_key k j e c (rw (q, pop_oldest) at h)
  ]

  get-shrink :
      (fuel n : ℕ) (j : String) (e : CacheEntry V M) (c : SourceTtlCache V M)
      → Dict.get j (shrink fuel n c).entries ≡ some e
      → Dict.get j c.entries ≡ some e
  unfolding shrink
  get-shrink zero n j e c h = h
  get-shrink (suc fuel) n j e c h =
      ground (arith, get-shrink fuel n j e (pop_oldest c), get-pop_oldest j e c)

  -- What an eviction leaves was there before, unchanged.
  pub get-evict :
      (max_entries now : ℕ) (j : String) (e : CacheEntry V M) (c : SourceTtlCache V M)
      → Dict.get j (evict_before_insert max_entries now c).entries ≡ some e
      → Dict.get j c.entries ≡ some e
  unfolding evict_before_insert
  get-evict max_entries now j e c h =
      let kept = pop_keys (expired_keys now c.entries) c in
      get-pop_keys (expired_keys now c.entries) j e c
        (get-shrink (length kept.entries) (or_one max_entries) j e kept h)

  -- Popping keys that name only expired entries keeps the live ones.
  pop_keys-keep :
      (ks : List String) (j : String) (c : SourceTtlCache V M)
      → any (λ k. str_eq k j) ks ≡ false
      → Dict.get j (pop_keys ks c).entries ≡ Dict.get j c.entries
  unfolding pop_keys pop_key
  pop_keys-keep [] j c h = refl
  pop_keys-keep (k ∷ ks) j c h =
      ground (arith, pop_keys-keep ks j (pop_key k c), Dict.get-pop k j c.entries)

  shrink_enough : (fuel n : ℕ) (c : SourceTtlCache V M) → length c.entries < n → shrink fuel n c ≡ c
  unfolding shrink
  shrink_enough zero n c h = refl
  shrink_enough (suc fuel) n c h = ground arith

  -- In a dict a live key is not among the expired ones.
  expired_keys-get-none :
      (now : ℕ) (j : String) (d : Dict (CacheEntry V M))
      → Dict.get j d ≡ none
      → any (λ k. str_eq k j) (expired_keys now d) ≡ false
  unfolding expired_keys Dict.get
  expired_keys-get-none now j [] h = refl
  expired_keys-get-none now j ((k, e) ∷ d) h = ground (arith, expired_keys-get-none now j d)

  expired_keys-live :
      (now : ℕ) (j : String) (e : CacheEntry V M) (d : Dict (CacheEntry V M))
      → Dict.IsDistinct d
      → Dict.get j d ≡ some e
      → now < e.expires_at_monotonic
      → any (λ k. str_eq k j) (expired_keys now d) ≡ false
  unfolding expired_keys Dict.get
  expired_keys-live now j e [] u h l = refl
  expired_keys-live now j e ((k, f) ∷ d) u h l = elim (Bool-cases (str_eq k j)) [
    | inl q ↦
        let p : k ≡ j = (eq_iff k j).0 q in
        ground (arith, expired_keys-get-none now j d (rw p at (u.0)))
    | inr q ↦ ground (arith, expired_keys-live now j e d u.1)
  ]

  -- An eviction keeps each live entry, unless the entries that are not expired fill the cache.
  pub get-evict_live :
      (max_entries now : ℕ) (j : String) (e : CacheEntry V M) (c : SourceTtlCache V M)
      → Dict.IsDistinct c.entries
      → Dict.get j c.entries ≡ some e
      → now < e.expires_at_monotonic
      → length (pop_keys (expired_keys now c.entries) c).entries < or_one max_entries
      → Dict.get j (evict_before_insert max_entries now c).entries ≡ some e
  unfolding evict_before_insert
  get-evict_live max_entries now j e c u h l room =
      let kept = pop_keys (expired_keys now c.entries) c in
      rw (shrink_enough (length kept.entries) (or_one max_entries) kept room) (
        pop_keys-keep (expired_keys now c.entries) j c (expired_keys-live now j e c.entries u h l)
        ∙ h)
