-- ===== src/Guard/Clients/Rate.antt =====
-- What `acquire` of ClientRateLimiter grants over time.
use native.Mathlib.Nat.{zero-add}
use istanbulmcp.Prelude.{
  ℕ, ◌+◌, ◌-◌, ◌*◌, ◌≤◌, ◌<◌, String, ◌≡◌, ◌≢◌, ◌↔◌, refl, ap, ◌∙◌, true, false, ◌&&◌, none, some,
  List, [], ◌∷◌, arith, leb, inl, inr, Option-cases, Bool-cases, if◌then◌else◌, str_eq, eq_iff,
  eq_refl,
}
use istanbulmcp.Prelude.Dict
use istanbulmcp.Prelude.Dict.{Dict}
use istanbulmcp.Guard.Clients.{
  ClientBucket, ClientRateLimiter, token, full, refilled, acquire, find_bucket, is_stale, prune,
}
use istanbulmcp.Guard.Clients.Prune.{get-prune}
use istanbulmcp.Guard.Clients.Room.{spent, acquire-clients}

sub-add-sub-mul : (u t e r : ℕ) → u ≤ t → t ≤ e → (t - u) * r + (e - t) * r ≡ (e - u) * r
sub-add-sub-mul u t e r h k =
    let p : t - u + (e - t) ≡ e - u = omega arith in omega (arith, ap (λ (x : ℕ). x * r) p)

module _ (l : ClientRateLimiter) (c : String) (b : ClientBucket) where
  module _ (tracked : Dict.get c l.clients ≡ some b) (now : ℕ) where
    find_bucket_hit : find_bucket l c now ≡ (b, l.clients)
    unfolding find_bucket
    find_bucket_hit = rw (tracked, find_bucket)

    pub get-acquire : Dict.get c (acquire l c now).0.clients ≡ some (spent l b now)
    get-acquire = rw (acquire-clients l c now) (rw find_bucket_hit (simp (Dict.get-put, eq_refl)))

    -- A tracked client is admitted exactly when its refilled bucket holds a token.
    pub acquire_verdict : (acquire l c now).1.0 ≡ leb token (refilled l b now)
    unfolding acquire
    acquire_verdict = rw (find_bucket_hit, acquire) (ground arith)

  get-acquire-find_bucket :
      (k : String) (now : ℕ)
      → str_eq k c ≡ false
      → Dict.get c (acquire l k now).0.clients ≡ Dict.get c (find_bucket l k now).1
  get-acquire-find_bucket k now ne = rw (acquire-clients l k now) (simp (Dict.get-put, ne))

  get-find_bucket_ne :
      (k : String) (now : ℕ)
      → str_eq k c ≡ false
      → Dict.get c l.clients ≡ some b
      → Dict.get c (find_bucket l k now).1 ≢ none
      → Dict.get c (find_bucket l k now).1 ≡ some b
  unfolding find_bucket
  get-find_bucket_ne k now ne tracked kept = elim (Option-cases (Dict.get k l.clients)) [
    | inl e ↦ elim (Option-cases (Dict.get c (prune l now))) [
      | inl gone ↦ absurd (kept (rw (e, find_bucket) (simp (Dict.get-put, ne, gone))))
      | inr (b', left) ↦
          rw (e, find_bucket)
            (simp (Dict.get-put, ne) (cc (left, tracked, get-prune l now c b' left)))
    ]
    | inr (a, e) ↦ rw (e, find_bucket) tracked
  ]

  -- Another client's call drops this one's bucket or leaves it as it is.
  pub get-acquire_ne :
      (k : String) (now : ℕ)
      → str_eq k c ≡ false
      → Dict.get c l.clients ≡ some b
      → Dict.get c (acquire l k now).0.clients ≢ none
      → Dict.get c (acquire l k now).0.clients ≡ some b
  get-acquire_ne k now ne tracked kept =
      let q = get-acquire-find_bucket k now ne in
      q ∙ get-find_bucket_ne k now ne tracked (rw q at kept)

abbrev pub Monotone : ℕ → List (String × ℕ) → ℕ → Type 0
Monotone start [] last = start ≤ last
Monotone start ((k, now) ∷ es) last = (start ≤ now) × Monotone now es last

-- The client is tracked after each of the calls.
abbrev pub IsKept : String → ClientRateLimiter → List (String × ℕ) → Type 0
IsKept c l [] = Unit
IsKept c l ((k, now) ∷ es) =
    (Dict.get c (acquire l k now).0.clients ≢ none) × IsKept c (acquire l k now).0 es

-- How many of a run's calls admit the client.
unfoldable pub admitted : String → ClientRateLimiter → List (String × ℕ) → ℕ
admitted c l [] = 0
admitted c l ((k, now) ∷ es) =
    let r = acquire l k now in (if str_eq k c && r.1.0 then 1 else 0) + admitted c r.0 es

Monotone-weaken :
    (u now last : ℕ) (es : List (String × ℕ)) → u ≤ now → Monotone now es last → Monotone u es last
Monotone-weaken u now last [] h m = omega arith
Monotone-weaken u now last ((k, t) ∷ es) h m = (omega arith, m.1)

Monotone-le : (u last : ℕ) (es : List (String × ℕ)) → Monotone u es last → u ≤ last
Monotone-le u last [] m = m
Monotone-le u last ((k, t) ∷ es) m = omega (arith, Monotone-le t last es m.1)

-- What one admission costs, against what the bucket gained.
spend_step :
    (l : ClientRateLimiter) (b : ClientBucket) (now last n : ℕ)
    → b.updated_at ≤ now
    → now ≤ last
    → n * token ≤ (spent l b now).tokens + (last - now) * l.refill_per_second
    → ((if leb token (refilled l b now) then 1 else 0) + n) * token
      ≤ b.tokens + (last - b.updated_at) * l.refill_per_second
unfolding refilled
spend_step l b now last n h k ih =
    ground (arith, sub-add-sub-mul b.updated_at now last l.refill_per_second)

same_settings :
    (l : ClientRateLimiter) (k : String) (now : ℕ)
    → (acquire l k now).0.refill_per_second ≡ l.refill_per_second
same_settings l k now = rw (acquire-clients l k now)

-- However calls of all clients interleave, those that admit one tracked client are bounded by its
-- tokens and what its bucket refills until the last call.
pub admitted-le :
    (es : List (String × ℕ)) (l : ClientRateLimiter) (c : String) (b : ClientBucket) (last : ℕ)
    → Dict.get c l.clients ≡ some b
    → Monotone b.updated_at es last
    → IsKept c l es
    → admitted c l es * token ≤ b.tokens + (last - b.updated_at) * l.refill_per_second
unfolding admitted
admitted-le [] l c b last tracked mono kept = omega arith
admitted-le ((k, now) ∷ es) l c b last tracked mono kept = elim (Bool-cases (str_eq k c)) [
  | inl e ↦
      let p : k ≡ c = (eq_iff k c).0 e in
      let own = (acquire l c now).0 in
      let ih =
        admitted-le es own c (spent l b now) last (get-acquire l c b tracked now) mono.1
          (rw p at (kept.1)) in
      rw p (
        rw (eq_refl c, acquire_verdict l c b tracked now)
          (spend_step l b now last (admitted c own es) mono.0 (Monotone-le now last es mono.1)
            (rw (same_settings l c now) at ih)))
  | inr e ↦
      let l' = (acquire l k now).0 in
      let ih =
        admitted-le es l' c b last (get-acquire_ne l c b k now e tracked kept.0)
          (Monotone-weaken b.updated_at now last es mono.0 mono.1) kept.1 in
      let s = same_settings l k now in rw e (simp zero-add (rw s at ih))
]

refilled-acquire :
    (l : ClientRateLimiter) (k : String) (now : ℕ) (b : ClientBucket) (t : ℕ)
    → refilled (acquire l k now).0 b t ≡ refilled l b t
unfolding refilled
refilled-acquire l k now b t = rw (acquire-clients l k now)

module _ (l : ClientRateLimiter) (c : String) (b : ClientBucket)
    (tracked : Dict.get c l.clients ≡ some b) (now : ℕ) where
  acquire_wait :
      (acquire l c now).1.0 ≡ false
      → (acquire l c now).1.1
        ≡ record { deficit = token - refilled l b now; rate = l.refill_per_second }
  unfolding acquire
  acquire_wait = rw (find_bucket_hit l c b tracked now, acquire) (ground arith)

  wait_enough :
      (later : ℕ)
      → 0 < l.capacity
      → now ≤ later
      → leb token (refilled l b now) ≡ false
      → (leb token (refilled l (spent l b now) later) ≡ true)
        ↔ (token - refilled l b now ≤ (later - now) * l.refill_per_second)
  unfolding refilled
  wait_enough later cap h refused = ground arith

-- The limiter after a run of calls.
unfoldable pub after : ClientRateLimiter → List (String × ℕ) → ClientRateLimiter
after l [] = l
after l ((k, now) ∷ es) = after (acquire l k now).0 es

-- No call of the run is the client's.
abbrev pub IsOthers : String → List (String × ℕ) → Type 0
IsOthers c [] = Unit
IsOthers c ((k, now) ∷ es) = (str_eq k c ≡ false) × IsOthers c es

refilled-after :
    (es : List (String × ℕ)) (l : ClientRateLimiter) (b : ClientBucket) (t : ℕ)
    → refilled (after l es) b t ≡ refilled l b t
unfolding after
refilled-after [] l b t = refl
refilled-after ((k, now) ∷ es) l b t =
    refilled-after es (acquire l k now).0 b t ∙ refilled-acquire l k now b t

get-after :
    (es : List (String × ℕ)) (l : ClientRateLimiter) (c : String) (b : ClientBucket)
    → Dict.get c l.clients ≡ some b
    → IsOthers c es
    → IsKept c l es
    → Dict.get c (after l es).clients ≡ some b
unfolding after
get-after [] l c b tracked others kept = tracked
get-after ((k, now) ∷ es) l c b tracked others kept =
    get-after es (acquire l k now).0 c b (get-acquire_ne l c b k now others.0 tracked kept.0)
      others.1 kept.1

-- A refused client that calls again, after any calls of other clients that leave it tracked, is
-- admitted exactly if the returned delay has passed by then.
pub retry_exact :
    (l : ClientRateLimiter) (c : String) (b : ClientBucket) (now later : ℕ) (es : List (String × ℕ))
    → Dict.get c l.clients ≡ some b
    → 0 < l.capacity
    → now ≤ later
    → (acquire l c now).1.0 ≡ false
    → IsOthers c es
    → IsKept c (acquire l c now).0 es
    → (let w = (acquire l c now).1.1 in
        ((acquire (after (acquire l c now).0 es) c later).1.0 ≡ true)
        ↔ (w.deficit ≤ (later - now) * w.rate))
retry_exact l c b now later es tracked cap h refused others kept =
    let first = acquire_verdict l c b tracked now in
    let l' = (acquire l c now).0 in
    let still = get-after es l' c (spent l b now) (get-acquire l c b tracked now) others kept in
    let again =
      acquire_verdict (after l' es) c (spent l b now) still later
      ∙ ap (leb token) (
          refilled-after es l' (spent l b now) later
          ∙ refilled-acquire l c now (spent l b now) later) in
    rw (again, acquire_wait l c b tracked now refused)
      (wait_enough l c b tracked now later cap h (rw first at refused))

-- A client that pruning calls stale has a full bucket again: to forget it changes nothing.
pub stale-refilled :
    (l : ClientRateLimiter) (now : ℕ) (b : ClientBucket)
    → b.updated_at ≡ b.last_seen_at
    → is_stale l now b ≡ true
    → refilled l b now ≡ full l
unfolding refilled is_stale
stale-refilled l now b dated stale =
    ground (arith, sub-add-sub-mul 0 b.last_seen_at now l.refill_per_second)
