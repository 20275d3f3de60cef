-- ===== src/Services/Water/Service/Laws.antt =====
-- app/services/iski.py: what the tools on water faults answer, and how fresh they call it.
use mathlib.Core.Path.{subst}
use mathlib.Core.Option.{some-injective}
use istanbulmcp.Prelude.{
  String, true, false, ◌≡◌, ◌⊎◌, ap, ◌∙◌, refl, All, collect-All, Option, none, some, List, [], ◌∷◌,
  collect, arith, Option-cases, inl, inr,
}
use istanbulmcp.Prelude.Int.{ℤ, pos, ◌≤ℤ◌, pos_part, leb_ℤ}
use istanbulmcp.Prelude.Rows.{le_by, le_texts, le_by-IsOrder, le_texts-IsOrder, leb_ℤ-IsOrder}
use istanbulmcp.Prelude.Sort.{IsOrder}
use istanbulmcp.Cache.{CachedSourceData, Outcome, returned}
use istanbulmcp.Validation.{
  Float, nan, number, le_float, between, accepts, validate_lat_lon, validate_radius, resolve_limit,
}
use istanbulmcp.Validation.Laws.{resolve_limit_sound}
use istanbulmcp.Services.{Text, Value, Python, whole, haversine_m, SourceError, Reply, answered}
use istanbulmcp.Services.Page.{IsPage, page-IsPage, ask-answered, accepts-bind}
use istanbulmcp.Services.Water.{Marks}
use istanbulmcp.Services.Water.Service.{
  Warning, FaultRow, fault_rows, NearRow, near_row, nearby_arguments, nearby_faults, start_key,
  chosen_rows, faults_reply,
}

module _ (py : Python) where
  order : IsOrder (le_by le_texts start_key)
  order = le_by-IsOrder le_texts start_key le_texts-IsOrder

  -- A reply shows the first of the chosen faults, in the order of their starts and numbers, as many
  -- as the limit allows, and tells how many there are.
  pub faults_reply_sound :
      (unnamed : Option Text) (limit : ℤ) (district : Option Text)
      (cached : CachedSourceData Value Marks SourceError) (of_client : Option String)
      (r : Reply FaultRow Warning)
      → faults_reply py unnamed limit district cached of_client ≡ some r
      → (rows : List FaultRow) × (chosen_rows py unnamed district (fault_rows py cached.value)
          ≡ some rows)
        × IsPage (le_by le_texts start_key) limit rows r
  unfolding faults_reply
  faults_reply_sound unnamed limit district cached of_client r h =
      elim (Option-cases (chosen_rows py unnamed district (fault_rows py cached.value))) [
        | inl e ↦ absurd (ground (arith, rw (faults_reply, e) at h))
        | inr (rows, e) ↦
            let k = rw (faults_reply, e) at h in
            (
              rows,
              e,
              subst (λ x. IsPage (le_by le_texts start_key) limit rows x) (some-injective _ _ k)
                  (page-IsPage (le_by le_texts start_key) order limit rows _ _),
            )
      ]

  -- A fault that lies within the radius, with its distance.
  pub record IsNear (centre : Float × Float) (radius : ℤ) (n : NearRow) : Type 0 where
    pub at_lat : Float
    pub at_lon : Float
    pub distance : ℤ
    pub placed : n.row.center ≡ some (at_lat, at_lon)
    pub measured : haversine_m py centre.0 centre.1 at_lat at_lon ≡ number distance
    pub in_radius : le_float (number distance) (whole (pos_part radius)) ≡ true
    pub rounded : n.distance_m ≡ py.round 1 distance

  near_row-IsNear :
      (centre : Float × Float) (radius : ℤ) (f : FaultRow) (n : NearRow)
      → near_row py centre radius f ≡ some n
      → (n.row ≡ f) × IsNear centre radius n
  unfolding near_row
  near_row-IsNear (x, y) radius f n h = elim (Option-cases f.center) [
    | inl e ↦ absurd (ground arith)
    | inr ((a, b), e) ↦ of_distance a b e (haversine_m py x y a b) refl
  ]
    where
      of_distance :
          (a b : Float)
          → f.center ≡ some (a, b)
          → (d : Float) → haversine_m py x y a b ≡ d
          → (n.row ≡ f) × IsNear (x, y) radius n
      of_distance a b e nan m = absurd (ground arith)
      of_distance a b e (number d) m =
          let k = rw (near_row, e, m) at h in
          let same : n.row ≡ f = ground arith in
          (
            same,
            record {
              at_lat = a;
              at_lon = b;
              distance = d;
              placed = ap (λ (r : FaultRow). r.center) same ∙ e;
              measured = m;
              in_radius = ground arith;
              rounded = ground arith;
            },
          )

  -- A fault that has no place, or is at no distance or at one beyond the radius.
  pub data IsFar (centre : Float × Float) (radius : ℤ) (f : FaultRow) : Type 0 where
    unplaced : f.center ≡ none → IsFar centre radius f
    beyond :
        (at_lat at_lon : Float)
        → f.center ≡ some (at_lat, at_lon)
        → le_float (haversine_m py centre.0 centre.1 at_lat at_lon) (whole (pos_part radius))
          ≡ false
        → IsFar centre radius f

  near_row-IsFar :
      (centre : Float × Float) (radius : ℤ) (f : FaultRow)
      → near_row py centre radius f ≡ none
      → IsFar centre radius f
  unfolding near_row
  near_row-IsFar (x, y) radius f h = elim (Option-cases f.center) [
    | inl e ↦ unplaced e
    | inr ((a, b), e) ↦ of_distance a b e (haversine_m py x y a b) refl
  ]
    where
      of_distance :
          (a b : Float)
          → f.center ≡ some (a, b)
          → (d : Float) → haversine_m py x y a b ≡ d
          → IsFar (x, y) radius f
      of_distance a b e nan m = beyond a b e (rw m refl)
      of_distance a b e (number d) m =
          let k = rw (near_row, e, m) at h in beyond a b e (rw m (ground arith))

  each_row :
      (centre : Float × Float) (radius : ℤ) (fs : List FaultRow)
      → All
          (λ f.
            IsFar centre radius f
            ⊎ ((n : NearRow) × (near_row py centre radius f ≡ some n)
                × (n.row ≡ f)
                × IsNear centre radius n))
          fs
  each_row centre radius [] = tt
  each_row centre radius (f ∷ fs) = elim (Option-cases (near_row py centre radius f)) [
    | inl e ↦ (inl (near_row-IsFar centre radius f e), each_row centre radius fs)
    | inr (n, e) ↦
        (let (same, near) = near_row-IsNear centre radius f n e in
          (inr (n, e, same, near), each_row centre radius fs))
  ]

  -- The arguments are what was asked for.
  pub record IsAsked (default_limit max_limit max_radius_m : ℤ) (centre : Float × Float)
      (radius_m : ℤ) (limit : Option ℤ) (c : Float × Float) (radius n : ℤ) : Type 0 where
    pub same_centre : c ≡ centre
    pub on_globe : (between 90 centre.0 ≡ true) × (between 180 centre.1 ≡ true)
    pub same_radius : radius ≡ radius_m
    pub radius_bound : (pos 1 ≤ℤ radius) × (radius ≤ℤ max_radius_m)
    pub limit_bound : (pos 1 ≤ℤ n) × (n ≤ℤ max_limit)
    pub limit_given : (limit ≡ some n) ⊎ ((limit ≡ none) × (n ≡ default_limit))

  nearby_arguments-IsAsked :
      (default_limit max_limit max_radius_m : ℤ) (centre : Float × Float) (radius_m : ℤ)
      (limit : Option ℤ) (c : Float × Float) (radius n : ℤ)
      → nearby_arguments default_limit max_limit max_radius_m centre radius_m limit
        ≡ accepts (c, (radius, n))
      → IsAsked default_limit max_limit max_radius_m centre radius_m limit c radius n
  unfolding nearby_arguments validate_lat_lon validate_radius
  nearby_arguments-IsAsked default_limit max_limit max_radius_m (lat, lon) radius_m limit c radius n
        h =
      let (a, v, h1) = accepts-bind (validate_lat_lon lat lon) _ _ h in
      let (b, v', h2) = accepts-bind (validate_radius radius_m max_radius_m) _ _ h1 in
      let (k, v'', h3) = accepts-bind (resolve_limit limit default_limit max_limit) _ _ h2 in
      let same_c : a ≡ c = cc in
      let same_radius : b ≡ radius = cc in
      let same_limit : k ≡ n = cc in
      let (low, high, given) =
        resolve_limit_sound limit default_limit max_limit n (rw same_limit at v'') in
      let r : validate_radius radius_m max_radius_m ≡ accepts radius = rw same_radius at v' in
      let p : validate_lat_lon lat lon ≡ accepts c = rw same_c at v in
      record {
        same_centre = ground (arith, p);
        on_globe = (ground (arith, p), ground (arith, p));
        same_radius = ground (arith, r);
        radius_bound = (ground (arith, r), ground (arith, r));
        limit_bound = (low, high);
        limit_given = given;
      }

  -- Each found row is a fault within the radius, and each fault that is not beyond it is found.
  pub record AreNear (centre : Float × Float) (radius : ℤ) (faults : List FaultRow)
      (found : List NearRow) : Type 0 where
    pub all_near : All (IsNear centre radius) found
    pub collected : found ≡ collect (near_row py centre radius) faults
    pub every :
        All
          (λ f.
            IsFar centre radius f
            ⊎ ((n : NearRow) × (near_row py centre radius f ≡ some n)
                × (n.row ≡ f)
                × IsNear centre radius n))
          faults

  -- An answer about faults nearby is about the centre and the radius that were given, within their
  -- bounds, and shows the closest of the faults whose place lies within that radius, nearest first
  -- and as many as the given limit, or the default one, allows; it tells how many there are, and
  -- leaves out only faults without a place or beyond the radius.
  pub nearby_faults_sound :
      (default_limit max_limit max_radius_m : ℤ) (centre : Float × Float) (radius_m : ℤ)
      (limit : Option ℤ) (source : Outcome Value Marks SourceError) (of_client : Option String)
      (r : Reply NearRow Warning)
      → nearby_faults py default_limit max_limit max_radius_m centre radius_m limit source of_client
        ≡ answered r
      → (c : Float × Float) × (radius : ℤ) × (n : ℤ) × (cached : CachedSourceData Value Marks
          SourceError)
        × (nearby_arguments default_limit max_limit max_radius_m centre radius_m limit
            ≡ accepts (c, (radius, n)))
        × (source ≡ returned cached)
        × IsAsked default_limit max_limit max_radius_m centre radius_m limit c radius n
        × AreNear c radius
            (fault_rows py cached.value)
            (collect (near_row py c radius) (fault_rows py cached.value))
        × IsPage
            (le_by leb_ℤ (λ x. x.distance_m))
            n
            (collect (near_row py c radius) (fault_rows py cached.value))
            r
  unfolding nearby_faults
  nearby_faults_sound default_limit max_limit max_radius_m centre radius_m limit source of_client r
        h =
      let (q, cached, m, o, e) =
        ask-answered (nearby_arguments default_limit max_limit max_radius_m centre radius_m limit)
          source _ r h in
      let found = collect (near_row py q.0 q.1.0) (fault_rows py cached.value) in
      (
        q.0,
        q.1.0,
        q.1.1,
        cached,
        m,
        o,
        nearby_arguments-IsAsked default_limit max_limit max_radius_m centre radius_m limit q.0
            q.1.0 q.1.1 m,
        record {
          all_near =
              collect-All _ (near_row py q.0 q.1.0) (fault_rows py cached.value)
                (λ f n e. (near_row-IsNear q.0 q.1.0 f n e).1);
          collected = refl;
          every = each_row q.0 q.1.0 (fault_rows py cached.value);
        },
        subst (λ x. IsPage (le_by leb_ℤ (λ y. y.distance_m)) q.1.1 found x) e
            (page-IsPage (le_by leb_ℤ (λ x. x.distance_m))
              (le_by-IsOrder leb_ℤ (λ x. x.distance_m) leb_ℤ-IsOrder) q.1.1 found _ _),
      )
