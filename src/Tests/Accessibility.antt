-- ===== src/Tests/Accessibility.antt =====
-- Equipment faults of the metro: a page with a repeated row, and answers from one source and both.
use istanbulmcp.Prelude.{
  All, ◌+◌, ◌≡◌, refl, Option, none, some, List, [], ◌∷◌, true, false, length, collect,
}
use istanbulmcp.Prelude.Int.{pos}
use istanbulmcp.Prelude.Bytes.{codes, is_space, same_bytes}
use istanbulmcp.Prelude.Rows.{same_key}
use istanbulmcp.Prelude.Sort.{lex}
use istanbulmcp.Cache.{Outcome, returned, raised}
use istanbulmcp.Services.{SourceError, failure, Text}
use istanbulmcp.Services.Accessibility.{
  Fault, normalize_fault, accepted_fault_rows, filter_faults, MetroAccessibilityQuery,
}
use istanbulmcp.Services.Accessibility.Rows.{Repeats, AreDistinct, accepted_fault_rows_accounts}
use istanbulmcp.Services.Accessibility.Status.{DetailTotals, status}
use istanbulmcp.Services.Accessibility.Status.Laws.{IsStatus, status_sound}
use istanbulmcp.Tests.Pharmacy.{simple_python}

abbrev fault : Text → Option Text → Fault
fault line station = record {
  source_fault_id = none;
  source_line_id = none;
  source_station_id = none;
  source_equipment_code = none;
  line_code = some line;
  line_label = none;
  station_name = station;
  equipment_type = none;
  location_description = none;
  reason = none;
  expected_return = none;
  status = none;
}

abbrev page : List Fault
page =
    fault (codes "m2") (some (codes "taksim"))
    ∷ fault (codes "m2") (some (codes " taksim"))
    ∷ fault (codes "m4") none
    ∷ []

accepted_fault_rows_accounts_example :
    ((accepted_fault_rows simple_python page).skipped
        + (accepted_fault_rows simple_python page).duplicate_total
        + length (accepted_fault_rows simple_python page).rows
      ≡ 3)
    × All
        (λ f. Repeats f (accepted_fault_rows simple_python page).rows)
        (collect (normalize_fault simple_python) page)
    × All
        (λ f. Repeats f (collect (normalize_fault simple_python) page))
        (accepted_fault_rows simple_python page).rows
    × AreDistinct (accepted_fault_rows simple_python page).rows
accepted_fault_rows_accounts_example = accepted_fault_rows_accounts simple_python page

one_repeated : (accepted_fault_rows simple_python page).duplicate_total ≡ 1
unfolding accepted_fault_rows is_space same_key same_bytes
one_repeated = refl

-- A fault of the line M2 is found for the line M1, since both have one alias.
m1_finds_m2 :
    filter_faults simple_python page (some (codes "m1")) none none
    ≡ fault (codes "m2") (some (codes "taksim")) ∷ fault (codes "m2") (some (codes " taksim")) ∷ []
unfolding filter_faults is_space same_bytes lex
m1_finds_m2 = refl

abbrev query : MetroAccessibilityQuery
query = record {
  line = none;
  station = some (codes "taksim");
  equipment_type = none;
  limit = pos 1;
}

abbrev details : Outcome (List Fault) DetailTotals SourceError
details = returned (record {
  value = page;
  refreshed_at_iso = "2026-01-01T00:00:00+00:00";
  is_fresh = true;
  is_stale = false;
  error = none;
  metadata = none;
})

-- The summary is not available.
status_sound_example :
    IsStatus simple_python query
      (raised (failure []))
      details
      (status simple_python query (raised (failure [])) details)
status_sound_example = status_sound simple_python query (raised (failure [])) details
