-- ===== src/Tests/Disruptions.antt =====
-- Disruptions of two of the metro's sources, one of which gives old data.
use istanbulmcp.Prelude.{none, some, [], ◌∷◌, true, false}
use istanbulmcp.Prelude.Bytes.{codes}
use istanbulmcp.Cache.{returned}
use istanbulmcp.Envelope.{stale}
use istanbulmcp.Services.Disruptions.{Disruption, source_stale, Outcomes, Query, Response}

abbrev notice : Disruption
notice = record {
  operator = codes "metro_istanbul";
  mode = codes "metro";
  line_code = some (codes "M2");
  route_label = none;
  event_type = codes "announcement";
  message = codes "late";
  updated_at = none;
}

-- Old data of the live source, and the same row from the notices.
abbrev outcomes : Outcomes
outcomes s = returned (record {
  value = notice ∷ [];
  refreshed_at_iso = "2026-01-01T00:00:00+00:00";
  is_fresh = false;
  is_stale = s.is_live;
  error = none;
  metadata = none;
})

abbrev asked : Query
asked = record { mode = some (codes "metro"); operator = none; line = none; limit = none }

abbrev response : Response
response = record {
  is_ok = true;
  error = none;
  body = record {
    shown = notice ∷ [];
    result = record {
      returned = 1;
      matched = some 1;
      truncated = some false;
      scope = "available_source_records";
      next_step = none;
    };
    freshness = stale;
    warnings = source_stale (codes "metro_istanbul") ∷ [];
  };
}
