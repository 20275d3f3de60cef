-- ===== src/Services/Pharmacy/Roster.antt =====
-- app/services/pharmacy.py, _load_roster: what the loop keeps and what it counts.
use istanbulmcp.Prelude.{
  ℕ, ◌+◌, ◌<◌, true, false, ◌≡◌, refl, sym, ap, ◌∙◌, Option, none, some, List, [], ◌∷◌, ◌++◌, map,
  any, length, filter, ltb, ◌==◌, ◌&&◌, collect, Bool-cases, Option-cases, inl, inr, arith,
}
use mathlib.Core.List.{map-append, append_assoc, append-nil}
use istanbulmcp.Prelude.Int.{ℤ}
use istanbulmcp.Prelude.Bytes.{same_bytes}
use istanbulmcp.Prelude.Rows.{
  Part, same_key, is_seen, unique, unique_from, IsUnique, unique-IsUnique,
}
use istanbulmcp.Cache.{SourceLoadResult}
use istanbulmcp.Services.{Value, Python}
use istanbulmcp.Services.Pharmacy.{
  Pharmacy, is_located, normalize_row, Tally, no_rows, count_row, Totals, totals, count_rows,
  load_roster,
}

abbrev pub identity : Pharmacy → List Part
identity p = some p.source_id ∷ []

abbrev pub located : List Pharmacy → ℕ
located rows = length (filter is_located rows)

-- The set of seen numbers is that of the accepted rows.
seen-accepted :
    (p : Pharmacy) (rows : List Pharmacy)
    → any (λ id. same_bytes id p.source_id) (map (λ q. q.source_id) rows) ≡ is_seen identity p rows
unfolding same_key
seen-accepted p [] = refl
seen-accepted p (q ∷ rows) = ground (arith, seen-accepted p rows)

-- What holds of the loop's variables before and after each row, `later` still to come.
record IsTally (py : Python) (raws : List Value) (t : Tally) (t' : Tally) : Type 0 where
  later : List Pharmacy
  chosen : later ≡ unique_from identity t.accepted (collect (normalize_row py) raws)
  kept : t'.accepted ≡ t.accepted ++ later
  invalid :
      t'.invalid_total + length (collect (normalize_row py) raws) ≡ t.invalid_total + length raws
  duplicates :
      t'.duplicate_total + length later
      ≡ t.duplicate_total + length (collect (normalize_row py) raws)
  skipped :
      t'.skipped_total + (t.invalid_total + t.duplicate_total)
      ≡ t.skipped_total + (t'.invalid_total + t'.duplicate_total)
  geo : t'.geo_eligible_total ≡ t.geo_eligible_total + located later

module _ (py : Python) (raw : Value) (raws : List Value) (t t' : Tally) where
  after_invalid :
      normalize_row py raw ≡ none
      → IsTally py raws (count_row t none) t'
      → IsTally py (raw ∷ raws) t t'
  unfolding count_row
  after_invalid e r = record {
    later = r.later;
    chosen = rw e r.chosen;
    kept = r.kept;
    invalid = rw e (omega (arith, r.invalid));
    duplicates = rw e r.duplicates;
    skipped = omega (arith, r.skipped);
    geo = r.geo;
  }

  after_duplicate :
      (p : Pharmacy)
      → normalize_row py raw ≡ some p
      → is_seen identity p t.accepted ≡ true
      → any (λ id. same_bytes id p.source_id) t.seen_ids ≡ true
      → IsTally py raws (count_row t (some p)) t'
      → IsTally py (raw ∷ raws) t t'
  unfolding count_row unique_from
  after_duplicate p e seen known = rw known λ r. record {
    later = r.later;
    chosen = rw (e, seen) r.chosen;
    kept = r.kept;
    invalid = rw e (omega (arith, r.invalid));
    duplicates = rw e (omega (arith, r.duplicates));
    skipped = omega (arith, r.skipped);
    geo = r.geo;
  }

  after_new :
      (p : Pharmacy)
      → normalize_row py raw ≡ some p
      → is_seen identity p t.accepted ≡ false
      → any (λ id. same_bytes id p.source_id) t.seen_ids ≡ false
      → IsTally py raws (count_row t (some p)) t'
      → IsTally py (raw ∷ raws) t t'
  unfolding count_row unique_from
  after_new p e seen known = rw known λ r. record {
    later = p ∷ r.later;
    chosen = rw (e, seen) (ap (λ l. p ∷ l) r.chosen);
    kept = r.kept ∙ append_assoc t.accepted (p ∷ []) r.later;
    invalid = rw e (omega (arith, r.invalid));
    duplicates = rw e (omega (arith, r.duplicates));
    skipped = omega (arith, r.skipped);
    geo = ground (arith, r.geo);
  }

count_row-Ids :
    (t : Tally) (o : Option Pharmacy)
    → t.seen_ids ≡ map (λ q. q.source_id) t.accepted
    → (count_row t o).seen_ids ≡ map (λ q. q.source_id) (count_row t o).accepted
unfolding count_row
count_row-Ids t none s = s
count_row-Ids t (some p) s =
    ground (arith, s, map-append (λ (q : Pharmacy). q.source_id) t.accepted (p ∷ []))

count_rows-IsTally :
    (py : Python) (raws : List Value) (t : Tally)
    → t.seen_ids ≡ map (λ q. q.source_id) t.accepted
    → IsTally py raws t (count_rows py t raws)
unfolding count_rows unique_from
count_rows-IsTally py [] t s = record {
  later = [];
  chosen = refl;
  kept = sym (append-nil t.accepted);
  invalid = refl;
  duplicates = refl;
  skipped = refl;
  geo = omega arith;
}
count_rows-IsTally py (raw ∷ raws) t s = elim (Option-cases (normalize_row py raw)) [
  | inl e ↦
      let next = count_rows-IsTally py raws (count_row t none) (count_row-Ids t none s) in
      after_invalid py raw raws t _ e (rw e next)
  | inr (p, e) ↦
      let next = count_rows-IsTally py raws (count_row t (some p)) (count_row-Ids t (some p) s) in
      let ids = ap (any (λ id. same_bytes id p.source_id)) s ∙ seen-accepted p t.accepted in
      elim (Bool-cases (is_seen identity p t.accepted)) [
        | inl seen ↦ after_duplicate py raw raws t _ p e seen (ids ∙ seen) (rw e next)
        | inr new ↦ after_new py raw raws t _ p e new (ids ∙ new) (rw e next)
      ]
]

no_row : (ps : List Pharmacy) → length (unique identity ps) ≡ 0 → ps ≡ []
unfolding unique unique_from
no_row [] h = refl
no_row (p ∷ ps) h = absurd (omega (arith, h))

module _ (py : Python) (max_age : Option ℤ) (raws : List Value) where
  -- What the loader's result says of the raw rows.
  pub record IsRoster (r : SourceLoadResult (List Pharmacy) Totals) : Type 0 where
    pub counts : Totals
    pub metadata : r.metadata ≡ some counts
    pub kept : r.value ≡ unique identity (collect (normalize_row py) raws)
    pub distinct : IsUnique identity r.value
    pub reported : counts.reported_total ≡ length raws
    pub accepted : counts.accepted_total ≡ length r.value
    pub accounted : counts.accepted_total + counts.skipped_total ≡ counts.reported_total
    pub skipped : counts.skipped_total ≡ counts.invalid_total + counts.duplicate_total
    pub invalid : counts.invalid_total + length (collect (normalize_row py) raws) ≡ length raws
    pub geo_eligible : counts.geo_eligible_total ≡ located r.value

  roster :
      IsTally py raws no_rows (count_rows py no_rows raws)
      → IsRoster (record {
        value = (count_rows py no_rows raws).accepted;
        metadata = some (totals (length raws) (count_rows py no_rows raws));
        max_cache_age_seconds = max_age;
      })
  unfolding unique
  roster i =
      let same = i.kept ∙ i.chosen in
      record {
        counts = totals (length raws) (count_rows py no_rows raws);
        metadata = refl;
        kept = same;
        distinct = rw same (unique-IsUnique identity (collect (normalize_row py) raws));
        reported = refl;
        accepted = refl;
        accounted = rw i.kept (omega (arith, i.invalid, i.duplicates, i.skipped));
        skipped = omega (arith, i.skipped);
        invalid = omega (arith, i.invalid);
        geo_eligible = rw i.kept (omega (arith, i.geo));
      }

  -- How loading ends: with rows reported of which none is valid, or with the roster.
  abbrev pub IsLoad : Option (SourceLoadResult (List Pharmacy) Totals) → Type 0
  IsLoad none = (0 < length raws) × (collect (normalize_row py) raws ≡ [])
  IsLoad (some r) = IsRoster r

  -- A roster that is loaded keeps the first row of each number among the valid rows, and its totals
  -- account for every row that the source reported. Loading fails only if rows were reported and
  -- none of them is valid.
  pub load_roster_accounts : IsLoad (load_roster py max_age raws)
  unfolding load_roster unique
  load_roster_accounts =
      let i = count_rows-IsTally py raws no_rows refl in
      let same = i.kept ∙ i.chosen in
      elim (Bool-cases (ltb 0 (length raws) && length (count_rows py no_rows raws).accepted == 0)) [
        | inl e ↦ rw e ((ground (arith, e), no_row _ (ap length (sym same) ∙ ground (arith, e))))
        | inr e ↦ rw e (roster i)
      ]
