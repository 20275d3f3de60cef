-- ===== src/Guard/Clients/Prune.antt =====
-- What `_prune_locked` of ClientRateLimiter drops and keeps.
use istanbulmcp.Prelude.{
  ℕ, zero, suc, ◌≤◌, ◌<◌, String, ◌≡◌, refl, ◌≢◌, none, some, List, [], ◌∷◌, arith, ltb, leb,
  length, eq_iff, inl, inr, Bool-cases, Option-cases, ltb→lt, ◌⊎◌,
}
use istanbulmcp.Prelude.Dict
use istanbulmcp.Prelude.Dict.{Dict}
use istanbulmcp.Guard.Clients.{
  ClientBucket, ClientRateLimiter, stale_clients, pop_all, oldest_from, pop_oldest, shrink, prune,
}

-- One more entry in front hides no key.
get-cons_some :
    (x j : String) (c : ClientBucket) (d : Dict ClientBucket)
    → (x ≡ j) ⊎ (Dict.get x d ≢ none)
    → Dict.get x ((j, c) ∷ d) ≢ none
unfolding Dict.get
get-cons_some x j c d (inl e) = ground (arith, eq_iff j x)
get-cons_some x j c d (inr h) = ground (arith, eq_iff j x)

-- The victim is the first key or one of the rest.
oldest_from-key :
    (k : String) (b : ClientBucket) (d : Dict ClientBucket)
    → (oldest_from k b d ≡ k) ⊎ (Dict.get (oldest_from k b d) d ≢ none)
unfolding oldest_from
oldest_from-key k b [] = inl refl
oldest_from-key k b ((j, c) ∷ d) = elim (Bool-cases (ltb c.last_seen_at b.last_seen_at)) [
  | inl e ↦ rw e (inr (get-cons_some (oldest_from j c d) j c d (oldest_from-key j c d)))
  | inr e ↦ rw e (elim (oldest_from-key k b d) [
    | inl q ↦ inl q
    | inr h ↦ inr (get-cons_some (oldest_from k b d) j c d (inr h))
  ])
]

length-pop_key :
    (k : String) (d : Dict ClientBucket) → Dict.get k d ≢ none → length (Dict.pop k d) < length d
length-pop_key k d h = elim (Option-cases (Dict.get k d)) [
  | inl e ↦ absurd (h e)
  | inr (b, e) ↦ Dict.length-pop_hit k b d e
]

-- Each round of the loop drops a client.
pub length-pop_oldest :
    (k : String) (b : ClientBucket) (d : Dict ClientBucket)
    → length (pop_oldest ((k, b) ∷ d)) < length ((k, b) ∷ d)
unfolding pop_oldest
length-pop_oldest k b d =
    length-pop_key (oldest_from k b d) ((k, b) ∷ d)
      (get-cons_some (oldest_from k b d) k b d (oldest_from-key k b d))

-- The loop ends by its test: the fuel is enough, and there is room for one more client.
pub length-shrink-lt :
    (fuel n : ℕ) (d : Dict ClientBucket) → length d ≤ fuel → 0 < n → length (shrink fuel n d) < n
unfolding shrink pop_oldest
length-shrink-lt zero n [] h p = p
length-shrink-lt zero n (e ∷ d) h p = absurd (omega arith)
length-shrink-lt (suc fuel) n [] h p = ground arith
length-shrink-lt (suc fuel) n ((k, b) ∷ d) h p = elim (Bool-cases (leb n (suc (length d)))) [
  | inl e ↦
      rw e (
        length-shrink-lt fuel n (pop_oldest ((k, b) ∷ d)) (omega (arith, length-pop_oldest k b d))
          p)
  | inr e ↦ rw e (ground arith)
]

-- Popping a list of keys keeps or drops each entry and changes none.
get-pop_all :
    (ks : List String) (d : Dict ClientBucket) (c : String) (b : ClientBucket)
    → Dict.get c (pop_all ks d) ≡ some b
    → Dict.get c d ≡ some b
unfolding pop_all
get-pop_all [] d c b h = h
get-pop_all (k ∷ ks) d c b h = ground (arith, get-pop_all ks (Dict.pop k d) c b, Dict.get-pop k c d)

get-shrink :
    (fuel n : ℕ) (d : Dict ClientBucket) (c : String) (b : ClientBucket)
    → Dict.get c (shrink fuel n d) ≡ some b
    → Dict.get c d ≡ some b
unfolding shrink pop_oldest
get-shrink zero n d c b h = h
get-shrink (suc fuel) n [] c b h = ground (arith, get-shrink fuel n [] c b)
get-shrink (suc fuel) n ((k, a) ∷ d) c b h = ground (
  arith,
  get-shrink fuel n (Dict.pop (oldest_from k a d) ((k, a) ∷ d)) c b,
  Dict.get-pop (oldest_from k a d) c ((k, a) ∷ d),
)

-- What is left after a prune was there before, unchanged.
pub get-prune :
    (l : ClientRateLimiter) (now : ℕ) (c : String) (b : ClientBucket)
    → Dict.get c (prune l now) ≡ some b
    → Dict.get c l.clients ≡ some b
unfolding prune
get-prune l now c b h = elim (Bool-cases (ltb (length l.clients) l.max_clients)) [
  | inl e ↦ rw e at h
  | inr e ↦
      let left = pop_all (stale_clients l now) l.clients in
      get-pop_all (stale_clients l now) l.clients c b
        (get-shrink (length left) l.max_clients left c b (rw e at h))
]

-- After a prune there is room for one more client.
pub length-prune-lt :
    (l : ClientRateLimiter) (now : ℕ) → 0 < l.max_clients → length (prune l now) < l.max_clients
unfolding prune
length-prune-lt l now p = elim (Bool-cases (ltb (length l.clients) l.max_clients)) [
  | inl e ↦ rw e (ltb→lt _ _ e)
  | inr e ↦
      let left = pop_all (stale_clients l now) l.clients in
      rw e (length-shrink-lt (length left) l.max_clients left (omega arith) p)
]
