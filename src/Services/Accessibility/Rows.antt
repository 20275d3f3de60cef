-- ===== src/Services/Accessibility/Rows.antt =====
-- app/services/metro_accessibility.py, _accepted_fault_rows: what is kept of a fault page.
use istanbulmcp.Prelude.{
  ◌+◌, ◌≡◌, ◌⊎◌, sym, refl, true, false, All, All-map, Bool-cases, List, [], ◌∷◌, collect, length,
  Option-cases, inl, inr, arith,
}
use istanbulmcp.Prelude.Rows.{
  unique, IsUnique, unique-IsUnique, length-unique-le, unique-All, unique-seen, is_seen, same_key,
  same_key_iff,
}
use istanbulmcp.Services.{Python}
use istanbulmcp.Services.Accessibility.{
  Fault, fault_identity, normalize_fault, skipped_rows, accepted_fault_rows,
}

-- Two rows that name the same fault.
pub record IsSameFault (f g : Fault) : Type 0 where
  pub source_fault_id : f.source_fault_id ≡ g.source_fault_id
  pub source_line_id : f.source_line_id ≡ g.source_line_id
  pub source_station_id : f.source_station_id ≡ g.source_station_id
  pub source_equipment_code : f.source_equipment_code ≡ g.source_equipment_code
  pub line_code : f.line_code ≡ g.line_code
  pub station_name : f.station_name ≡ g.station_name
  pub equipment_type : f.equipment_type ≡ g.equipment_type
  pub location_description : f.location_description ≡ g.location_description
  pub reason : f.reason ≡ g.reason
  pub expected_return : f.expected_return ≡ g.expected_return
  pub status : f.status ≡ g.status

-- Some of the rows names the same fault.
abbrev pub Repeats : Fault → List Fault → Type 0
Repeats f [] = ⊥
Repeats f (g ∷ gs) = IsSameFault g f ⊎ Repeats f gs

-- No two of the rows do.
abbrev pub AreDistinct : List Fault → Type 0
AreDistinct [] = Unit
AreDistinct (f ∷ fs) = (¬ Repeats f fs) × AreDistinct fs

same_of_key :
    (f g : Fault) → same_key (fault_identity f) (fault_identity g) ≡ true → IsSameFault f g
same_of_key f g h =
    let e = (same_key_iff (fault_identity f) (fault_identity g)).0 h in
    record {
      source_fault_id = cc;
      source_line_id = cc;
      source_station_id = cc;
      source_equipment_code = cc;
      line_code = cc;
      station_name = cc;
      equipment_type = cc;
      location_description = cc;
      reason = cc;
      expected_return = cc;
      status = cc;
    }

key_of_same :
    (f g : Fault) → IsSameFault f g → same_key (fault_identity f) (fault_identity g) ≡ true
key_of_same f g s = (same_key_iff (fault_identity f) (fault_identity g)).1 (λ i.
    s.source_fault_id i
    ∷ s.source_line_id i
    ∷ s.source_station_id i
    ∷ s.source_equipment_code i
    ∷ s.line_code i
    ∷ s.station_name i
    ∷ s.equipment_type i
    ∷ s.location_description i
    ∷ s.reason i
    ∷ s.expected_return i
    ∷ s.status i
    ∷ [])

seen-Repeats : (f : Fault) (fs : List Fault) → is_seen fault_identity f fs ≡ true → Repeats f fs
seen-Repeats f [] h = absurd (ground (arith, h))
seen-Repeats f (g ∷ gs) h = elim (Bool-cases (same_key (fault_identity g) (fault_identity f))) [
  | inl e ↦ inl (same_of_key g f e)
  | inr e ↦ inr (seen-Repeats f gs (rw e at h))
]

itself : (f : Fault) → IsSameFault f f
itself f = record {
  source_fault_id = refl;
  source_line_id = refl;
  source_station_id = refl;
  source_equipment_code = refl;
  line_code = refl;
  station_name = refl;
  equipment_type = refl;
  location_description = refl;
  reason = refl;
  expected_return = refl;
  status = refl;
}

each-Repeats : (fs : List Fault) → All (λ f. Repeats f fs) fs
each-Repeats [] = tt
each-Repeats (f ∷ fs) = (inl (itself f), All-map fs (λ g r. inr r) (each-Repeats fs))

unlike :
    (f : Fault) (fs : List Fault)
    → All (λ g. same_key (fault_identity f) (fault_identity g) ≡ false) fs
    → ¬ Repeats f fs
unlike f [] a r = r
unlike f (g ∷ gs) a (inl same) = absurd (ground (arith, a.0, key_of_same f g (flipped g f same)))
  where
    flipped : (g f : Fault) → IsSameFault g f → IsSameFault f g
    flipped g f s = record {
      source_fault_id = sym s.source_fault_id;
      source_line_id = sym s.source_line_id;
      source_station_id = sym s.source_station_id;
      source_equipment_code = sym s.source_equipment_code;
      line_code = sym s.line_code;
      station_name = sym s.station_name;
      equipment_type = sym s.equipment_type;
      location_description = sym s.location_description;
      reason = sym s.reason;
      expected_return = sym s.expected_return;
      status = sym s.status;
    }
unlike f (g ∷ gs) a (inr r) = unlike f gs a.1 r

unique-AreDistinct : (fs : List Fault) → IsUnique fault_identity fs → AreDistinct fs
unique-AreDistinct [] u = tt
unique-AreDistinct (f ∷ fs) u = (unlike f fs u.0, unique-AreDistinct fs u.1)

module _ (py : Python) where
  skipped_rest :
      (raw : List Fault)
      → skipped_rows py raw + length (collect (normalize_fault py) raw) ≡ length raw
  unfolding skipped_rows
  skipped_rest [] = omega arith
  skipped_rest (f ∷ fs) =
      let rest = skipped_rest fs in
      elim (Option-cases (normalize_fault py f)) [
        | inl e ↦ rw (skipped_rows, e) (omega (arith, rest))
        | inr (g, e) ↦ rw (skipped_rows, e) (omega (arith, rest))
      ]

  -- Every row of a fault page is kept, skipped or repeated: the three numbers add up, each row that
  -- is not skipped names the same fault as one that is kept, each that is kept one that was not
  -- skipped, and no two rows that are kept name the same fault.
  pub accepted_fault_rows_accounts :
      (raw : List Fault)
      → ((accepted_fault_rows py raw).skipped
            + (accepted_fault_rows py raw).duplicate_total
            + length (accepted_fault_rows py raw).rows
          ≡ length raw)
        × All (λ f. Repeats f (accepted_fault_rows py raw).rows) (collect (normalize_fault py) raw)
        × All (λ f. Repeats f (collect (normalize_fault py) raw)) (accepted_fault_rows py raw).rows
        × AreDistinct (accepted_fault_rows py raw).rows
  unfolding accepted_fault_rows
  accepted_fault_rows_accounts raw =
      let kept = collect (normalize_fault py) raw in
      (
        omega (arith, skipped_rest raw, length-unique-le fault_identity kept),
        All-map kept (λ f. seen-Repeats f (unique fault_identity kept))
            (unique-seen fault_identity kept),
        unique-All fault_identity _ kept (each-Repeats kept),
        unique-AreDistinct _ (unique-IsUnique fault_identity kept),
      )
