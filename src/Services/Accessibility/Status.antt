-- ===== src/Services/Accessibility/Status.antt =====
-- app/services/metro_accessibility.py, MetroAccessibilityService.status: the answer from the summary
-- of equipment and the details of faults. What the cache gives back for both is an argument.
pub mod Laws
use istanbulmcp.Prelude.{
  ℕ, zero, suc, ◌+◌, String, Bool, true, false, not, ◌&&◌, ◌||◌, ◌==◌, ltb, Option, none, some,
  List, [], ◌∷◌, ◌++◌, length, take, if◌then◌else◌,
}
use istanbulmcp.Prelude.Int.{pos_part}
use istanbulmcp.Cache.{CachedSourceData, Outcome, returned, raised}
use istanbulmcp.Envelope.{ResultInfo, FreshnessStatus, fresh, stale, unknown, result_info}
use istanbulmcp.Services.{Text, Python, SourceError}
use istanbulmcp.Services.Accessibility.{Fault, filter_faults, MetroAccessibilityQuery, is_blank}

-- A row of the summary; a count that is None is zero.
pub record SummaryRow : Type 0 where
  pub category_name : Option Text
  pub inactive_count : Option ℕ

-- `_accepted_summary_rows`
unfoldable pub accepted_summary_rows : List SummaryRow → List SummaryRow
accepted_summary_rows [] = []
accepted_summary_rows (r ∷ rs) =
    let rest = accepted_summary_rows rs in if is_blank r.category_name then rest else r ∷ rest

pub record DetailTotals : Type 0 where
  pub received_total : ℕ
  pub skipped_total : ℕ
  pub duplicate_total : ℕ
  pub malformed_detail_count : ℕ

-- The details' metadata; missing totals are None for the rows received, and zero otherwise.
pub record DetailCounts : Type 0 where
  pub received : Option ℕ
  pub skipped : ℕ
  pub duplicates : ℕ
  pub malformed : ℕ

abbrev pub detail_counts : Option DetailTotals → DetailCounts
detail_counts none = record { received = none; skipped = 0; duplicates = 0; malformed = 0 }
detail_counts (some t) = record {
  received = some t.received_total;
  skipped = t.skipped_total;
  duplicates = t.duplicate_total;
  malformed = t.malformed_detail_count;
}

-- A source's rows, if it is available, and whether they are old.
pub record SourceResult (R : Type 0) : Type 0 where
  pub rows : Option (List R)
  pub is_stale : Bool

unfoldable pub source_result : {R M : Type 0} → Outcome (List R) M SourceError → SourceResult R
source_result (returned c) = record { rows = some c.value; is_stale = c.is_stale }
source_result (raised e) = record { rows = none; is_stale = false }

abbrev pub counts_of : {R : Type 0} → Outcome (List R) DetailTotals SourceError → DetailCounts
counts_of (returned c) = detail_counts c.metadata
counts_of (raised e) = detail_counts none

pub data SourceStatus : Type 0 where
  is_current is_old unavailable : SourceStatus

-- `_source_status`
unfoldable pub source_status : {R : Type 0} → SourceResult R → SourceStatus
source_status r = elim r.rows [
  | none ↦ unavailable
  | some rows ↦ if r.is_stale then is_old else is_current
]

pub data Warning : Type 0 where
  schema_drift : ℕ → Warning
  empty_details inactive_exceeds_details inactive_under_details : Warning
  details_only summary_only stale_details stale_summary : Warning

abbrev pub inactive_total : List SummaryRow → ℕ
inactive_total [] = 0
inactive_total (r ∷ rs) = elim r.inactive_count [ none ↦ 0 | some n ↦ n ] + inactive_total rs

-- The comparison of the summary's total with the number of details, before the limit.
unfoldable pub discrepancy : ℕ → ℕ → List Warning
discrepancy inactive accepted =
    if ltb 0 inactive && accepted == 0
    then empty_details ∷ []
    else if inactive == accepted
    then []
    else if ltb accepted inactive
    then inactive_exceeds_details ∷ []
    else inactive_under_details ∷ []

abbrev pub available : {R : Type 0} → SourceResult R → Bool
available r = elim r.rows [ none ↦ false | some rows ↦ true ]

abbrev pub rows_of : {R : Type 0} → SourceResult R → List R
rows_of r = elim r.rows [ none ↦ [] | some rows ↦ rows ]

-- The frame of the answer, with its freshness and its warnings.
pub record Frame : Type 0 where
  pub equipment_summary : List SummaryRow
  pub faults : List Fault
  pub summary_source_status : SourceStatus
  pub detail_source_status : SourceStatus
  pub counts : DetailCounts
  pub accepted_total : ℕ
  pub matched_total : ℕ
  pub result : ResultInfo
  pub freshness : FreshnessStatus
  pub warnings : List Warning

abbrev pub when : Bool → Warning → List Warning
when test w = if test then w ∷ [] else []

-- None is the error for the case that neither source is available.
unfoldable pub status :
    Python
    → MetroAccessibilityQuery
    → Outcome (List SummaryRow) (Unit {0}) SourceError
    → Outcome (List Fault) DetailTotals SourceError
    → Option Frame
unfolding filter_faults source_result source_status discrepancy result_info
status py query summary details =
    let s = source_result summary in
    let d = source_result details in
    let has_summary = available s in
    let has_details = available d in
    let matching = filter_faults py (rows_of d) query.line query.station query.equipment_type in
    let faults = take (pos_part query.limit) matching in
    let partial = not has_summary || not has_details in
    let counts = counts_of details in
    if not has_summary && not has_details
    then none
    else some (record {
      equipment_summary = rows_of s;
      faults = faults;
      summary_source_status = source_status s;
      detail_source_status = source_status d;
      counts = counts;
      accepted_total = length (rows_of d);
      matched_total = length matching;
      result =
          result_info (length faults) (if has_details then some (length matching) else none) none
            "faults";
      freshness = if partial then unknown else if s.is_stale || d.is_stale then stale else fresh;
      warnings =
          (if counts.malformed == 0 then [] else schema_drift counts.malformed ∷ [])
          ++ (if has_details && has_summary
              then discrepancy (inactive_total (rows_of s)) (length (rows_of d))
              else [])
          ++ when (not has_summary && has_details) details_only
          ++ when (not has_details && has_summary) summary_only
          ++ when d.is_stale stale_details
          ++ when s.is_stale stale_summary;
    })
