-- ===== src/Guard/Clients/Room.antt =====
-- The bounds that `acquire` of ClientRateLimiter keeps.
use istanbulmcp.Prelude.{
  ℕ, zero, suc, ◌-◌, ◌≤◌, ◌<◌, String, ◌≡◌, refl, some, [], ◌∷◌, arith, ltb, leb, length, inl, inr,
  Option-cases, Bool-cases, if◌then◌else◌, eq_refl, List,
}
use istanbulmcp.Prelude.Dict
use istanbulmcp.Prelude.Dict.{Dict, Values}
use istanbulmcp.Guard.Clients.{
  ClientBucket, ClientRateLimiter, init, pop_all, oldest_from, pop_oldest, shrink, prune, token,
  full, refilled, acquire, find_bucket, stale_clients,
}
use istanbulmcp.Guard.Clients.Prune.{length-prune-lt}

-- A bucket never holds more than the capacity, and is dated by the last call of its client.
pub record IsFair (limit : ℕ) (b : ClientBucket) : Type 0 where
  pub filled : b.tokens ≤ limit
  pub dated : b.updated_at ≡ b.last_seen_at

pub record IsValid (l : ClientRateLimiter) : Type 0 where
  pub positive : 0 < l.max_clients
  pub can_hold : 0 < l.capacity
  pub refills : 0 < l.refill_per_second
  pub tracked : length l.clients ≤ l.max_clients
  pub buckets : Values (IsFair (full l)) l.clients

pub init-IsValid : (c r m : ℕ) → IsValid (init c r m)
unfolding init
init-IsValid c r m = record {
  positive = omega arith;
  can_hold = omega arith;
  refills = omega arith;
  tracked = omega arith;
  buckets = tt;
}

module _ (P : ClientBucket → Type 0) where
  Values-pop_all : (ks : List String) (d : Dict ClientBucket) → Values P d → Values P (pop_all ks d)
  unfolding pop_all
  Values-pop_all [] d h = h
  Values-pop_all (k ∷ ks) d h = Values-pop_all ks (Dict.pop k d) (Dict.Values-pop P k d h)

  Values-shrink : (fuel n : ℕ) (d : Dict ClientBucket) → Values P d → Values P (shrink fuel n d)
  unfolding shrink pop_oldest
  Values-shrink zero n d h = h
  Values-shrink (suc fuel) n [] h = elim (Bool-cases (leb n 0)) [
    | inl e ↦ rw e (Values-shrink fuel n [] h)
    | inr e ↦ rw e h
  ]
  Values-shrink (suc fuel) n ((k, a) ∷ d) h = elim (Bool-cases (leb n (suc (length d)))) [
    | inl e ↦ rw e (
        Values-shrink fuel n (Dict.pop (oldest_from k a d) ((k, a) ∷ d))
          (Dict.Values-pop P (oldest_from k a d) ((k, a) ∷ d) h))
    | inr e ↦ rw e h
  ]

  pub Values-prune : (l : ClientRateLimiter) (now : ℕ) → Values P l.clients → Values P (prune l now)
  unfolding prune
  Values-prune l now h = elim (Bool-cases (ltb (length l.clients) l.max_clients)) [
    | inl e ↦ rw e h
    | inr e ↦
        let left = pop_all (stale_clients l now) l.clients in
        rw e (
          Values-shrink (length left) l.max_clients left
            (Values-pop_all (stale_clients l now) l.clients h))
  ]

-- The bucket that `acquire` works on is fair, and is held by a dict that is small enough.
record IsFound (l : ClientRateLimiter) (c : String) (found : ClientBucket × Dict ClientBucket)
    : Type 0 where
  fair : IsFair (full l) found.0
  others : Values (IsFair (full l)) found.1
  room : length found.1 ≤ l.max_clients
  held : Dict.get c found.1 ≡ some found.0

find_bucket-IsFound :
    (l : ClientRateLimiter) (c : String) (now : ℕ) → IsValid l → IsFound l c (find_bucket l c now)
unfolding find_bucket
find_bucket-IsFound l c now v = elim (Option-cases (Dict.get c l.clients)) [
  | inl e ↦
      let b : ClientBucket = record { tokens = full l; updated_at = now; last_seen_at = now } in
      let d = prune l now in
      rw (e, find_bucket)
        (record {
          fair = record { filled = omega arith; dated = refl };
          others =
              Dict.Values-put (IsFair (full l)) c b d
                (record { filled = omega arith; dated = refl })
                (Values-prune (IsFair (full l)) l now v.buckets);
          room = omega (arith, Dict.length-put-le c b d, length-prune-lt l now v.positive);
          held = simp (Dict.get-put, eq_refl);
        })
  | inr (b, e) ↦
      rw (e, find_bucket)
        (record {
          fair = Dict.Values-get (IsFair (full l)) c b l.clients v.buckets e;
          others = v.buckets;
          room = v.tracked;
          held = e;
        })
]

abbrev pub spent : ClientRateLimiter → ClientBucket → ℕ → ClientBucket
spent l b now =
    let tokens = refilled l b now in
    record {
      tokens = if leb token tokens then tokens - token else tokens;
      updated_at = now;
      last_seen_at = now;
    }

spent-IsFair :
    (l : ClientRateLimiter) (b : ClientBucket) (now : ℕ) → IsFair (full l) (spent l b now)
unfolding refilled
spent-IsFair l b now = record { filled = ground arith; dated = refl }

-- Whatever the call, `acquire` returns the limiter with the client's bucket written back.
pub acquire-clients :
    (l : ClientRateLimiter) (c : String) (now : ℕ)
    → (acquire l c now).0 ≡ record l {
      clients = Dict.put c (spent l (find_bucket l c now).0 now) (find_bucket l c now).1;
    }
unfolding acquire
acquire-clients l c now = ground arith

-- Every call keeps the bounds: no bucket above the capacity, no more clients than `max_clients`.
pub acquire-IsValid :
    (l : ClientRateLimiter) (c : String) (now : ℕ) → IsValid l → IsValid (acquire l c now).0
acquire-IsValid l c now v =
    let f = find_bucket-IsFound l c now v in
    let b = (find_bucket l c now).0 in
    let d = (find_bucket l c now).1 in
    rw (acquire-clients l c now) (record {
      positive = v.positive;
      can_hold = v.can_hold;
      refills = v.refills;
      tracked = omega (arith, Dict.length-put_hit c (spent l b now) b d f.held, f.room);
      buckets =
          Dict.Values-put (IsFair (full l)) c (spent l b now) d (spent-IsFair l b now) f.others;
    })
