-- ===== src/Bucket/Pace.antt =====
-- What AsyncTokenBucket grants over time, and that its callers do not wait for ever.
use istanbulmcp.Prelude.{
  ℕ, ◌+◌, ◌-◌, ◌*◌, ◌≤◌, ◌<◌, ◌≡◌, ◌⊎◌, inl, inr, refl, ap, List, [], ◌∷◌, arith,
}
use istanbulmcp.Prelude.Int.{ℤ, pos_part}
use istanbulmcp.Guard.Clients.{Wait, token}
use istanbulmcp.Bucket.{
  AsyncTokenBucket, Attempt, taken, limit_exceeded, sleeps, attempt, acquire, granted, refused,
  penalize,
}

pub record IsValid (b : AsyncTokenBucket) : Type 0 where
  pub holds : token ≤ b.capacity
  pub filled : b.tokens ≤ b.capacity
  pub refills : 0 < b.refill_per_second

-- The uses of one bucket, in the order in which they take its lock.
pub data Use : Type 0 where
  pass : ℕ → Use
  penalty : ℤ → ℕ → Use

abbrev pub apply : AsyncTokenBucket → Use → AsyncTokenBucket
apply b (pass now) = (attempt b now).0
apply b (penalty d now) = penalize b d now

abbrev pub takes : AsyncTokenBucket → Use → ℕ
takes b (pass now) = elim (attempt b now).1 [ taken ↦ 1 | limit_exceeded w ↦ 0 | sleeps w ↦ 0 ]
takes b (penalty d now) = 0

unfoldable pub grants : AsyncTokenBucket → List Use → ℕ
grants b [] = 0
grants b (u ∷ us) = takes b u + grants (apply b u) us

abbrev pub time : Use → ℕ
time (pass now) = now
time (penalty d now) = now

abbrev pub Monotone : ℕ → List Use → ℕ → Type 0
Monotone start [] last = start ≤ last
Monotone start (u ∷ us) last = (start ≤ time u) × Monotone (time u) us last

pub apply-IsValid : (b : AsyncTokenBucket) (u : Use) → IsValid b → IsValid (apply b u)
unfolding attempt penalize
apply-IsValid b (pass now) v = ground arith
apply-IsValid b (penalty d now) v = ground arith

sub-add-sub-mul : (u t e r : ℕ) → u ≤ t → t ≤ e → (t - u) * r + (e - t) * r ≡ (e - u) * r
sub-add-sub-mul u t e r h k =
    let p : t - u + (e - t) ≡ e - u = omega arith in omega (arith, ap (λ (x : ℕ). x * r) p)

Monotone-le : (u last : ℕ) (us : List Use) → Monotone u us last → u ≤ last
Monotone-le u last [] m = m
Monotone-le u last (x ∷ us) m = omega (arith, Monotone-le (time x) last us m.1)

Monotone-weaken : (u t last : ℕ) (us : List Use) → u ≤ t → Monotone t us last → Monotone u us last
Monotone-weaken u t last [] h m = omega arith
Monotone-weaken u t last (x ∷ us) h m = (omega arith, m.1)

pass_step :
    (b : AsyncTokenBucket) (now last n : ℕ)
    → b.updated_at ≤ now
    → now ≤ last
    → n * token
      ≤ (attempt b now).0.tokens
        + (last - (attempt b now).0.updated_at) * (attempt b now).0.refill_per_second
    → (takes b (pass now) + n) * token ≤ b.tokens + (last - b.updated_at) * b.refill_per_second
unfolding attempt
pass_step b now last n h k ih =
    ground (arith, sub-add-sub-mul b.updated_at now last b.refill_per_second)

updated-attempt : (b : AsyncTokenBucket) (now : ℕ) → (attempt b now).0.updated_at ≡ now
unfolding attempt
updated-attempt b now = ground arith

-- In any order of passes and penalties, by however many callers, the granted tokens are bounded by
-- those at hand and those refilled until the last use.
pub grants-le :
    (us : List Use) (b : AsyncTokenBucket) (last : ℕ)
    → Monotone b.updated_at us last
    → grants b us * token ≤ b.tokens + (last - b.updated_at) * b.refill_per_second
unfolding grants penalize
grants-le [] b last m = omega arith
grants-le (pass now ∷ us) b last m =
    pass_step b now last (grants (attempt b now).0 us) m.0 (Monotone-le now last us m.1)
      (grants-le us (attempt b now).0 last (rw (updated-attempt b now) m.1))
grants-le (penalty d now ∷ us) b last m =
    omega (
      arith,
      grants-le us (penalize b d now) last (Monotone-weaken b.updated_at now last us m.0 m.1),
    )

-- After a penalty nobody gets a token until it is over.
pub penalty_blocks :
    (b : AsyncTokenBucket) (d : ℤ) (at now : ℕ)
    → now < at + pos_part d
    → (attempt (penalize b d at) now).1 ≡ taken
    → ⊥
unfolding attempt penalize
penalty_blocks b d at now h e = ground arith

abbrev pub IsSlept : Wait → ℕ → ℕ → Type 0
IsSlept w now later = w.deficit ≤ (later - now) * w.rate

unblocked_after :
    (b : AsyncTokenBucket) (t t' : ℕ) (w : Wait)
    → t ≤ t'
    → (attempt b t).1 ≡ sleeps w
    → IsSlept w t t'
    → (attempt b t).0.blocked_until ≤ t'
unfolding attempt
unblocked_after b t t' w h e s = ground arith

refilled_after :
    (b : AsyncTokenBucket) (t t' : ℕ) (w : Wait)
    → IsValid b
    → t ≤ t'
    → b.blocked_until ≤ t
    → (attempt b t).1 ≡ sleeps w
    → IsSlept w t t'
    → (attempt (attempt b t).0 t').1 ≡ taken
unfolding attempt
refilled_after b t t' w v h u e s = ground arith

-- A caller alone at the bucket that sleeps as long as it is told gets its token, or is refused, by
-- its third pass: one sleep for a penalty, one for the refill.
pub acquire_ends :
    (b : AsyncTokenBucket) (t1 t2 t3 : ℕ)
    → IsValid b
    → t1 ≤ t2
    → t2 ≤ t3
    → ((w : Wait) → (attempt b t1).1 ≡ sleeps w → IsSlept w t1 t2)
    → ((w : Wait) → (attempt (attempt b t1).0 t2).1 ≡ sleeps w → IsSlept w t2 t3)
    → ((acquire b (t1 ∷ t2 ∷ t3 ∷ [])).1 ≡ granted) ⊎ ((acquire b (t1 ∷ t2 ∷ t3 ∷ [])).1 ≡ refused)
unfolding acquire
acquire_ends b t1 t2 t3 v h k s1 s2 = first (attempt b t1).1 refl
  where
    second :
        (w : Wait)
        → (attempt b t1).1 ≡ sleeps w
        → (a : Attempt) → (attempt (attempt b t1).0 t2).1 ≡ a
        → ((acquire b (t1 ∷ t2 ∷ t3 ∷ [])).1 ≡ granted)
          ⊎ ((acquire b (t1 ∷ t2 ∷ t3 ∷ [])).1 ≡ refused)
    second w e taken e' = inl (ground arith)
    second w e (limit_exceeded w') e' = inr (ground arith)
    second w e (sleeps w') e' =
        let free = unblocked_after b t1 t2 w h e (s1 w e) in
        let got =
          refilled_after (attempt b t1).0 t2 t3 w' (apply-IsValid b (pass t1) v) k free e'
            (s2 w' e') in
        inl (ground arith)

    first :
        (a : Attempt)
        → (attempt b t1).1 ≡ a
        → ((acquire b (t1 ∷ t2 ∷ t3 ∷ [])).1 ≡ granted)
          ⊎ ((acquire b (t1 ∷ t2 ∷ t3 ∷ [])).1 ≡ refused)
    first taken e = inl (ground arith)
    first (limit_exceeded w) e = inr (ground arith)
    first (sleeps w) e = second w e (attempt (attempt b t1).0 t2).1 refl
