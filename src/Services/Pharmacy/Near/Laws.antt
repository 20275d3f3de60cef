-- ===== src/Services/Pharmacy/Near/Laws.antt =====
-- app/services/pharmacy.py: what `nearby` and `by_district` answer.
use istanbulmcp.Prelude.{
  true, false, ◌≡◌, ◌⊎◌, refl, Option, inl, inr, none, some, List, All, collect, arith,
}
use istanbulmcp.Prelude.Int.{ℤ, pos, ◌≤ℤ◌, pos_part}
use istanbulmcp.Cache.{CachedSourceData, Outcome, returned}
use istanbulmcp.Validation.{Float, number, le_float, between, accepts}
use istanbulmcp.Services.{
  Python, whole, haversine_m, Given, missing, mistyped, value, SourceError, Reply,
}
use istanbulmcp.Services.Page.{IsPage}
use istanbulmcp.Services.Pharmacy.{Pharmacy, Totals}
use istanbulmcp.Services.Pharmacy.Near.{
  Limits, min_ℤ, Nearby, Warning, near, le_nearby, check_limit, check_radius, roster_freshness,
}

-- What the arguments ask for.
pub record IsAsked (limits : Limits) (lat lon : Option Float) (radius_m limit : Given ℤ)
    (centre : Float × Float) (radius most : ℤ) : Type 0 where
  pub centre_lat : lat ≡ some centre.0
  pub centre_lon : lon ≡ some centre.1
  pub radius_given : (radius_m ≡ value radius) ⊎ ((radius_m ≡ missing) × (radius ≡ pos 1000))
  pub limit_given :
      (limit ≡ value most) ⊎ ((limit ≡ missing) × (most ≡ min_ℤ limits.default_limit (pos 100)))

radius_given :
    (limits : Limits) (radius_m : Given ℤ) (r : ℤ)
    → check_radius limits radius_m ≡ accepts r
    → (radius_m ≡ value r) ⊎ ((radius_m ≡ missing) × (r ≡ pos 1000))
unfolding check_radius
radius_given limits missing r h = inr (refl, ground arith)
radius_given limits mistyped r h = absurd (ground arith)
radius_given limits (value n) r h = inl (ground arith)

limit_given :
    (limits : Limits) (limit : Given ℤ) (n : ℤ)
    → check_limit limits limit ≡ accepts n
    → (limit ≡ value n) ⊎ ((limit ≡ missing) × (n ≡ min_ℤ limits.default_limit (pos 100)))
unfolding check_limit
limit_given limits missing n h = inr (refl, ground arith)
limit_given limits mistyped n h = absurd (ground arith)
limit_given limits (value k) n h = inl (ground arith)

module _ (py : Python) where
  -- A row that lies within the radius, with its distance.
  pub record IsNear (centre : Float × Float) (radius : ℤ) (n : Nearby) : Type 0 where
    pub lat : Float
    pub lon : Float
    pub distance : ℤ
    pub has_lat : n.row.lat ≡ some lat
    pub has_lon : n.row.lon ≡ some lon
    pub measured : haversine_m py centre.0 centre.1 lat lon ≡ number distance
    pub in_radius : le_float (number distance) (whole (pos_part radius)) ≡ true
    pub rounded : n.distance_m ≡ py.round 1 distance

  -- A pharmacy that is not located, or at no distance or at one beyond the radius.
  pub data IsFar (centre : Float × Float) (radius : ℤ) (p : Pharmacy) : Type 0 where
    no_lat : p.lat ≡ none → IsFar centre radius p
    no_lon : p.lon ≡ none → IsFar centre radius p
    beyond :
        (lat lon : Float)
        → p.lat ≡ some lat
        → p.lon ≡ some lon
        → le_float (haversine_m py centre.0 centre.1 lat lon) (whole (pos_part radius)) ≡ false
        → IsFar centre radius p

  module _ (limits : Limits) (lat lon : Option Float) (radius_m limit : Given ℤ)
      (roster : Outcome (List Pharmacy) Totals SourceError) where
    pub record IsNearby (r : Reply Nearby Warning) : Type 0 where
      pub centre : Float × Float
      pub radius : ℤ
      pub most : ℤ
      pub cached : CachedSourceData (List Pharmacy) Totals SourceError
      pub source : roster ≡ returned cached
      pub asked : IsAsked limits lat lon radius_m limit centre radius most
      pub on_globe : (between 90 centre.0 ≡ true) × (between 180 centre.1 ≡ true)
      pub radius_bound : (pos 1 ≤ℤ radius) × (radius ≤ℤ pos 5000)
      pub limit_bound : (pos 1 ≤ℤ most) × (most ≤ℤ pos 100)
      pub page : IsPage (le_nearby py) most (collect (near py centre radius) cached.value) r
      pub all_near : All (IsNear centre radius) (collect (near py centre radius) cached.value)
      pub every :
          All
            (λ p. IsFar centre radius p ⊎ ((n : Nearby) × (near py centre radius p ≡ some n)))
            cached.value
      pub status : r.freshness ≡ roster_freshness cached
