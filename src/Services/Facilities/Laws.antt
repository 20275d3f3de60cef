-- ===== src/Services/Facilities/Laws.antt =====
-- app/services/social_facilities.py, _load_snapshot: its totals.
use istanbulmcp.Prelude.{
  ℕ, ◌+◌, ◌≤◌, true, ◌≡◌, refl, Option, none, some, List, [], ◌∷◌, length, length-append,
  Bool-cases, inl, inr, arith,
}
use istanbulmcp.Services.{Text, Value, Python}
use istanbulmcp.Services.Facilities.{
  Urls, FacilityRow, Normalized, valid, is_invalid, out_of_scope, normalize_row, is_conflict, Tally,
  add_row, count_row, count_rows, Payload, Totals, start, totals, load_snapshot,
}

-- What one row, or several, add to the counts.
record IsCounted (n : ℕ) (t t' : Tally) : Type 0 where
  rows :
      length t'.accepted + t'.invalid_total + t'.duplicate_total
      ≡ length t.accepted + t.invalid_total + t.duplicate_total + n
  scope : t'.out_of_scope_total + t.invalid_total ≤ t.out_of_scope_total + t'.invalid_total
  conflicts :
      t'.identity_conflict_total + length t.accepted
      ≤ t.identity_conflict_total + length t'.accepted

module _ (py : Python) (urls : Urls) where
  add_row-IsCounted :
      (t : Tally) (identity : Text) (row : FacilityRow) (o : Option FacilityRow)
      → IsCounted 1 t (add_row py urls t identity row o)
  unfolding add_row
  add_row-IsCounted t identity row none = record {
    rows = omega (arith, length-append t.accepted (row ∷ []));
    scope = omega arith;
    conflicts = omega (arith, length-append t.accepted (row ∷ []));
  }
  add_row-IsCounted t identity row (some previous) =
      let longer = length-append t.accepted (record row { identity_conflict = true } ∷ []) in
      elim (Bool-cases (is_conflict py previous row)) [
        | inl e ↦ rw e (record {
          rows = omega (arith, longer);
          scope = omega arith;
          conflicts = omega (arith, longer);
        })
        | inr e ↦ rw e (record { rows = omega arith; scope = omega arith; conflicts = omega arith })
      ]

  count_row-IsCounted : (t : Tally) (n : Normalized) → IsCounted 1 t (count_row py urls t n)
  unfolding count_row
  count_row-IsCounted t is_invalid = record {
    rows = omega arith;
    scope = omega arith;
    conflicts = omega arith;
  }
  count_row-IsCounted t out_of_scope = record {
    rows = omega arith;
    scope = omega arith;
    conflicts = omega arith;
  }
  count_row-IsCounted t (valid row) = add_row-IsCounted t _ row _

  count_rows-IsCounted :
      (t : Tally) (raws : List Value) → IsCounted (length raws) t (count_rows py urls t raws)
  unfolding count_rows
  count_rows-IsCounted t [] = record {
    rows = omega arith;
    scope = omega arith;
    conflicts = omega arith;
  }
  count_rows-IsCounted t (raw ∷ raws) =
      let one = count_row-IsCounted t (normalize_row py raw) in
      let rest = count_rows-IsCounted (count_row py urls t (normalize_row py raw)) raws in
      record {
        rows = omega (arith, one.rows, rest.rows);
        scope = omega (arith, one.scope, rest.scope);
        conflicts = omega (arith, one.conflicts, rest.conflicts);
      }

  pub record IsAccounted (payload : Payload) (rows : List FacilityRow) (t : Totals) : Type 0 where
    pub accepted : t.accepted_total ≡ length rows
    pub sum : t.accepted_total + t.skipped_total + t.duplicate_total ≡ t.reported_total
    pub each :
        t.accepted_total + t.invalid_total + t.duplicate_total
        ≡ length payload.rows + payload.duplicate_total
    pub out_of_scope : t.out_of_scope_total ≤ t.invalid_total
    pub conflicts : t.identity_conflict_total ≤ t.accepted_total

  -- The totals of a snapshot add up: rows that are accepted, skipped or repeated make those reported;
  -- each row of the payload is accepted, invalid or repeated; rows out of scope are among the invalid
  -- ones, and those that conflict among the accepted ones.
  pub load_snapshot_accounts :
      (payload : Payload)
      → IsAccounted payload (load_snapshot py urls payload).0 (load_snapshot py urls payload).1
  unfolding load_snapshot totals
  load_snapshot_accounts payload =
      let i = count_rows-IsCounted (start payload.duplicate_total) payload.rows in
      record {
        accepted = refl;
        sum = ground arith;
        each = omega (arith, i.rows);
        out_of_scope = omega (arith, i.scope);
        conflicts = omega (arith, i.conflicts);
      }
