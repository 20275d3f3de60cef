-- ===== src/Services/Accessibility/Status/Laws.antt =====
-- app/services/metro_accessibility.py, status: what the answer says of its two sources.
use istanbulmcp.Prelude.{
  ℕ, ◌≡◌, ◌⊎◌, ◌↔◌, false, Option, none, some, List, [], length, take, filter, arith,
}
use istanbulmcp.Prelude.Int.{pos_part}
use istanbulmcp.Prelude.Sort.{length-sort}
use istanbulmcp.Prelude.Rows.{
  le_by, le_texts, le_by-IsOrder, le_texts-IsOrder, IsFront, sort-IsFront,
}
use istanbulmcp.Cache.{Outcome, returned, raised}
use istanbulmcp.Envelope.{fresh, unknown}
use istanbulmcp.Services.{Python, SourceError}
use istanbulmcp.Services.Accessibility.{
  Fault, is_wanted, fault_key, filter_faults, MetroAccessibilityQuery,
}
use istanbulmcp.Services.Accessibility.Status.{
  SummaryRow, DetailTotals, is_current, discrepancy, Frame, status,
}

-- The two totals differ exactly if there is a warning.
pub discrepancy_iff :
    (inactive accepted : ℕ) → (discrepancy inactive accepted ≡ []) ↔ (inactive ≡ accepted)
unfolding discrepancy
discrepancy_iff inactive accepted = ground arith

module _ (py : Python) (query : MetroAccessibilityQuery)
    (summary : Outcome (List SummaryRow) (Unit {0}) SourceError)
    (details : Outcome (List Fault) DetailTotals SourceError) where
  -- The source gave rows that are not old.
  abbrev pub IsCurrent : {V M : Type 0} → Outcome V M SourceError → Type 0
  IsCurrent (returned c) = c.is_stale ≡ false
  IsCurrent (raised e) = ⊥

  abbrev pub IsMissing : {V M : Type 0} → Outcome V M SourceError → Type 0
  IsMissing (returned c) = ⊥
  IsMissing (raised e) = Unit

  abbrev pub reported : List Fault
  reported = elim details [ returned c ↦ c.value | raised e ↦ [] ]

  abbrev pub wanted : List Fault
  wanted = filter (is_wanted py query.line query.station query.equipment_type) reported

  pub record IsFrame (f : Frame) : Type 0 where
    pub front : IsFront (le_by le_texts (fault_key py)) (pos_part query.limit) wanted f.faults
    pub matched : f.matched_total ≡ length wanted
    pub is_fresh : (f.freshness ≡ fresh) ↔ (IsCurrent summary × IsCurrent details)
    pub is_unknown : (f.freshness ≡ unknown) ↔ (IsMissing summary ⊎ IsMissing details)
    pub summary_current : (f.summary_source_status ≡ is_current) ↔ IsCurrent summary
    pub detail_current : (f.detail_source_status ≡ is_current) ↔ IsCurrent details

  abbrev pub IsStatus : Option Frame → Type 0
  IsStatus none = IsMissing summary × IsMissing details
  IsStatus (some f) = IsFrame f

module _ (py : Python) (query : MetroAccessibilityQuery) where
  ordered :
      (rows : List Fault)
      → IsFront
          (le_by le_texts (fault_key py))
          (pos_part query.limit)
          (filter (is_wanted py query.line query.station query.equipment_type) rows)
          (take
            (pos_part query.limit)
            (filter_faults py rows query.line query.station query.equipment_type))
  unfolding filter_faults
  ordered rows =
      sort-IsFront _ (le_by-IsOrder le_texts (fault_key py) le_texts-IsOrder) (pos_part query.limit)
        _

  counted :
      (rows : List Fault)
      → length (filter_faults py rows query.line query.station query.equipment_type)
        ≡ length (filter (is_wanted py query.line query.station query.equipment_type) rows)
  unfolding filter_faults
  counted rows = length-sort _ _

  -- The answer shows the first of the faults that the filters leave, in order; it is called fresh
  -- exactly if both sources gave data that is not stale, and unknown exactly if the request for one
  -- of them failed; it is an error only if both failed.
  pub status_sound :
      (summary : Outcome (List SummaryRow) (Unit {0}) SourceError)
      (details : Outcome (List Fault) DetailTotals SourceError)
      → IsStatus py query summary details (status py query summary details)
  unfolding status
  status_sound (raised e) (raised e') = (tt, tt)
  status_sound (raised e) (returned d) = record {
    front = ordered d.value;
    matched = counted d.value;
    is_fresh = ground arith;
    is_unknown = ground arith;
    summary_current = ground arith;
    detail_current = ground arith;
  }
  status_sound (returned c) (raised e) = record {
    front = ordered [];
    matched = counted [];
    is_fresh = ground arith;
    is_unknown = ground arith;
    summary_current = ground arith;
    detail_current = ground arith;
  }
  status_sound (returned c) (returned d) = record {
    front = ordered d.value;
    matched = counted d.value;
    is_fresh = ground arith;
    is_unknown = ground arith;
    summary_current = ground arith;
    detail_current = ground arith;
  }
