-- ===== src/Timetable/Relations/Order.antt =====
-- What the checks of the staged tables establish.
use istanbulmcp.Prelude.{
  all-All, ℕ, ◌≤◌, ◌≡◌, refl, Bool, true, false, not, Option, none, some, List, [], ◌∷◌, ltb, any,
  filter, find?, map, arith, Bool-cases, inl, inr, All, All-map, &&_true,
}
use istanbulmcp.Prelude.Bytes.{same_bytes}
use istanbulmcp.Timetable.{Tables, StopTime, Stop}
use istanbulmcp.Timetable.Relations.{
  coalesce, max_known, earlier, previous_time, runs_backwards, has_trip_and_stop, has_route, Joined,
  join, validate_relations,
}

any_found {ℓ} :
    {A : Type ℓ} (p : A → Bool) (xs : List A)
    → any p xs ≡ true
    → (x : A) × ((find? p xs ≡ some x) × (p x ≡ true))
any_found p [] h = absurd (cc)
any_found p (x ∷ xs) h = elim (Bool-cases (p x)) [
  | inl e ↦ (x, (rw e refl, e))
  | inr e ↦ let (y, q) = any_found p xs (ground (arith, h, e)) in (y, (rw e q.0, q.1))
]

All-found {ℓ κ} :
    {A : Type ℓ} (P : A → Type κ) (p : A → Bool) (xs : List A) (x : A)
    → All P xs
    → find? p xs ≡ some x
    → P x
All-found P p [] x a h = absurd (cc)
All-found {A} P p (y ∷ ys) x a h = elim (Bool-cases (p y)) [
  | inl e ↦ let q : y ≡ x = some-eq (rw e at h) in rw q at a.0
  | inr e ↦ All-found P p ys x a.1 (rw e at h)
]
  where
    some-eq : {a b : A} → some a ≡ some b → a ≡ b
    some-eq q = cc

-- A time that is known lies no later than `t`.
abbrev pub Below : Option ℕ → ℕ → Type 0
Below none t = Unit
Below (some m) t = m ≤ t

max_known-Below :
    (xs : List (Option ℕ)) (t : ℕ)
    → (elim (max_known xs) [ none ↦ false | some m ↦ ltb t m ]) ≡ false
    → All (λ x. Below x t) xs
unfolding max_known
max_known-Below [] t h = tt
max_known-Below (none ∷ xs) t h = (tt, max_known-Below xs t h)
max_known-Below (some k ∷ xs) t h = go (max_known xs) refl (max_known-Below xs t)
  where
    go :
        (o : Option ℕ)
        → max_known xs ≡ o
        → ((elim (max_known xs) [ none ↦ false | some m ↦ ltb t m ]) ≡ false
            → All (λ x. Below x t) xs)
        → All (λ x. Below x t) (some k ∷ xs)
    go none e ih = (ground (arith, e), ih (rw e refl))
    go (some m) e ih = (ground (arith, e), ih (ground (arith, e)))

filter-All {ℓ} :
    {A : Type ℓ} (q : A → Bool) (f : A → Option ℕ) (t : ℕ) (xs : List A)
    → All (λ x. Below x t) (map f (filter q xs))
    → All (λ x. q x ≡ true → Below (f x) t) xs
filter-All q f t [] h = tt
filter-All q f t (x ∷ xs) h = elim (Bool-cases (q x)) [
  | inl e ↦ let k = rw e at h in ((λ _. k.0), filter-All q f t xs k.1)
  | inr e ↦ let k = rw e at h in ((λ z. absurd (cc)), filter-All q f t xs k)
]

-- A known time of `s` is no earlier than the known time of any row before it on its trip.
abbrev pub Follows : List StopTime → StopTime → Type 0
Follows ss s =
    (t : ℕ)
    → coalesce s.arrival_seconds s.departure_seconds ≡ some t
    → All (λ p. earlier s p ≡ true → Below (coalesce p.departure_seconds p.arrival_seconds) t) ss

runs_backwards-Follows :
    (ss : List StopTime) (s : StopTime) → runs_backwards ss s ≡ false → Follows ss s
unfolding runs_backwards previous_time
runs_backwards-Follows ss s h t e =
    filter-All (earlier s) (λ p. coalesce p.departure_seconds p.arrival_seconds) t ss
      (max_known-Below _ t (rw (e, runs_backwards) at h))

pub record IsComplete (t : Tables) : Type 0 where
  pub joined : All (λ s. (j : Joined) × ((join t s ≡ some j) × (j.stop_time ≡ s))) t.stop_times
  pub stopped :
      All
        (λ s. (p : Stop) × (find? (λ r. same_bytes r.stop_id s.stop_id) t.stops ≡ some p))
        t.stop_times
  pub ordered : All (Follows t.stop_times) t.stop_times

join_total :
    (t : Tables) (s : StopTime)
    → All (λ r. has_route t r ≡ true) t.trips
    → has_trip_and_stop t s ≡ true
    → (j : Joined) × ((join t s ≡ some j) × (j.stop_time ≡ s))
unfolding join
join_total t s routes h =
    let both = &&_true _ _ h in
    let (trip, found) = any_found (λ r. same_bytes r.trip_id s.trip_id) t.trips both.0 in
    let known = All-found (λ r. has_route t r ≡ true) _ t.trips trip routes found.0 in
    let (route, found') = any_found (λ r. same_bytes r.route_id trip.route_id) t.routes known in
    (
      record { stop_time = s; trip = trip; route = route },
      (rw (found.0, join) (rw found'.0 refl), refl),
    )

-- In tables that pass the checks every stop time has its trip, its route and its stop, so that the
-- joins of a query lose none, and the known times of a trip never fall along its sequence.
pub validate_relations-IsComplete : (t : Tables) → validate_relations t ≡ true → IsComplete t
unfolding validate_relations
validate_relations-IsComplete t h =
    let routes = all-All (has_route t) t.trips (ground (arith, h)) in
    let refs = all-All (has_trip_and_stop t) t.stop_times (ground (arith, h)) in
    let forwards =
      all-All (λ s. not (runs_backwards t.stop_times s)) t.stop_times (ground (arith, h)) in
    record {
      joined = All-map t.stop_times (λ s. join_total t s routes) refs;
      stopped =
          All-map t.stop_times
            (λ s k. let (p, q) = any_found _ t.stops (&&_true _ _ k).1 in (p, q.0)) refs;
      ordered =
          All-map t.stop_times (λ s k. runs_backwards-Follows t.stop_times s (ground (arith, k)))
            forwards;
    }
