-- ===== src/Services/Disruptions.antt =====
-- app/services/disruptions.py: the disruptions that the sources of several operators report. What
-- the cache gives back for each source is an argument.
pub mod Choice
pub mod Laws
use istanbulmcp.Prelude.{
  ℕ, zero, suc, ◌+◌, ◌-◌, String, Bool, true, false, not, ◌&&◌, ◌||◌, ◌==◌, ltb, Option, none, some,
  List, [], ◌∷◌, ◌++◌, map, filter, any, find?, collect, length, if◌then◌else◌,
}
use istanbulmcp.Prelude.Int.{ℤ}
use istanbulmcp.Prelude.Bytes.{codes, same_bytes}
use istanbulmcp.Prelude.Sort.{sort}
use istanbulmcp.Prelude.Rows.{Part, le_by, le_texts, unique}
use istanbulmcp.Cache.{CachedSourceData, Outcome, returned, raised}
use istanbulmcp.Envelope.{ResultInfo, FreshnessStatus, fresh, stale, unknown, broken, result_info}
use istanbulmcp.Validation.{
  Validated, raises, accepts, invalid, require, ◌>>=◌, ◌>>◌, validate_text, resolve_limit,
}
use istanbulmcp.Services.{
  Text, Value, dict, array, elements, get, or_else, or_empty, Python, text_or_none, SourceError,
  Reply, page,
}

abbrev pub supported_modes : List Text
supported_modes =
    codes "bus"
    ∷ codes "metro"
    ∷ codes "tram"
    ∷ codes "funicular"
    ∷ codes "cable_car"
    ∷ codes "ferry"
    ∷ codes "suburban_rail"
    ∷ []

abbrev pub supported_operators : List Text
supported_operators =
    codes "iett" ∷ codes "metro_istanbul" ∷ codes "sehir_hatlari" ∷ codes "marmaray" ∷ []

pub record SourceSpec : Type 0 where
  pub key : String
  pub operator : Text
  pub modes : List Text
  pub is_live : Bool

abbrev rail_modes : List Text
rail_modes = codes "metro" ∷ codes "tram" ∷ codes "funicular" ∷ codes "cable_car" ∷ []

abbrev spec : String → Text → List Text → Bool → SourceSpec
spec key operator modes is_live = record {
  key = key;
  operator = operator;
  modes = modes;
  is_live = is_live;
}

-- `_source_specs`: the notices of the metro only if its client offers them.
unfoldable pub source_specs : Bool → List SourceSpec
source_specs has_announcements =
    let notices = spec "metro_official_notices" (codes "metro_istanbul") rail_modes false in
    spec "iett" (codes "iett") (codes "bus" ∷ []) true
      ∷ spec "metro_istanbul" (codes "metro_istanbul") rail_modes true
      ∷ (if has_announcements then notices ∷ [] else [])
    ++ spec "sehir_hatlari" (codes "sehir_hatlari") (codes "ferry" ∷ []) false
      ∷ spec "marmaray" (codes "marmaray") (codes "suburban_rail" ∷ []) false
      ∷ []

-- `wanted is None or value == wanted`
abbrev pub fits : Option Text → Text → Bool
fits none value = true
fits (some wanted) value = same_bytes wanted value

abbrev pub has_mode : Option Text → List Text → Bool
has_mode none modes = true
has_mode (some wanted) modes = any (same_bytes wanted) modes

abbrev pub is_selected : Option Text → Option Text → SourceSpec → Bool
is_selected mode operator s = fits operator s.operator && has_mode mode s.modes

unfoldable pub select_specs : Bool → Option Text → Option Text → Validated (List SourceSpec)
unfolding source_specs
select_specs has_announcements mode operator =
    let selected = filter (is_selected mode operator) (source_specs has_announcements) in
    if length selected == 0 then raises (invalid "operator" none none) else accepts selected

pub record Disruption : Type 0 where
  pub operator : Text
  pub mode : Text
  pub line_code : Option Text
  pub route_label : Option Text
  pub event_type : Text
  pub message : Text
  pub updated_at : Option Text

-- `t or other`
abbrev pub or_text : Option Text → Text → Text
or_text none other = other
or_text (some t) other = t

-- `spec.modes[0] if len(spec.modes) == 1 else "unknown"`
abbrev pub only_mode : List Text → Text
only_mode (m ∷ []) = m
only_mode modes = codes "unknown"

module _ (py : Python) where
  -- A row with a message; none is a row without, which is left out.
  unfoldable pub normalize_row : SourceSpec → (String → Value) → Option Disruption
  unfolding text_or_none
  normalize_row s field =
      let pick = λ (a b : String). text_or_none py (or_else (field a) (field b)) in
      let named = λ (a : String). text_or_none py (field a) in
      let is_iett = same_bytes s.operator (codes "iett") in
      elim (if is_iett then pick "MESAJ" "MESSAGE" else named "message") [
        | none ↦ none
        | some message ↦ some (
            if is_iett
            then record {
              operator = codes "iett";
              mode = codes "bus";
              line_code = pick "HATKODU" "HAT_KODU";
              route_label = pick "HAT" "HAT_ADI";
              event_type = or_text (pick "TIP" "TUR") (codes "announcement");
              message = message;
              updated_at = pick "GUNCELLEME_SAATI" "UPDATED_AT";
            }
            else record {
              operator = or_text (named "operator") s.operator;
              mode = or_text (named "mode") (only_mode s.modes);
              line_code = named "line_code";
              route_label = named "route_label";
              event_type = or_text (named "event_type") (codes "announcement");
              message = message;
              updated_at = named "updated_at";
            })
      ]

  -- None is the ValueError for a row that is no object.
  unfoldable pub normalize_list : SourceSpec → List Value → Option (List Disruption)
  unfolding get normalize_row
  normalize_list s [] = some []
  normalize_list s (dict ms ∷ vs) = elim (normalize_list s vs) [
    | none ↦ none
    | some rest ↦ some (elim (normalize_row s (λ k. get k ms)) [ none ↦ rest | some r ↦ r ∷ rest ])
  ]
  normalize_list s (v ∷ vs) = none

  unfoldable pub normalize_rows : SourceSpec → Value → Option (List Disruption)
  unfolding normalize_list elements
  normalize_rows s (array vs) = normalize_list s (elements vs)
  normalize_rows s v = none

  abbrev pub same_line : Text → Option Text → Bool
  same_line wanted none = false
  same_line wanted (some t) = same_bytes (py.casefold t) (py.casefold wanted)

  abbrev pub on_line : Option Text → Disruption → Bool
  on_line none row = true
  on_line (some line) row = same_line line row.line_code || same_line line row.route_label

  -- The rows that the filters leave.
  abbrev pub is_wanted : Option Text → Option Text → Option Text → Disruption → Bool
  is_wanted mode operator line row =
      not (same_bytes row.event_type (codes "operational"))
      && fits mode row.mode
      && fits operator row.operator
      && on_line line row

abbrev pub identity : Disruption → List Part
identity r =
    some r.operator
    ∷ some r.mode
    ∷ r.line_code
    ∷ r.route_label
    ∷ some r.event_type
    ∷ some r.message
    ∷ r.updated_at
    ∷ []

abbrev pub sort_key : Disruption → List Text
sort_key r =
    r.operator
    ∷ r.mode
    ∷ or_empty r.line_code
    ∷ or_empty r.route_label
    ∷ r.event_type
    ∷ r.message
    ∷ or_empty r.updated_at
    ∷ []

abbrev pub le_disruption : Disruption → Disruption → Bool
le_disruption = le_by le_texts sort_key

unfoldable pub filter_and_sort :
    Python → Option Text → Option Text → Option Text → List Disruption → List Disruption
unfolding unique sort
filter_and_sort py mode operator line rows =
    sort le_disruption (unique identity (filter (is_wanted py mode operator line) rows))

pub data Warning : Type 0 where
  source_stale : Text → Warning
  source_unavailable : Text → Warning

-- The four parts of `_read_source`'s answer; of the source itself, whether it was checked.
pub record SourceRead : Type 0 where
  pub is_checked : Bool
  pub warning : Option Warning
  pub rows : List Disruption
  pub is_stale : Bool

-- What the cache gives back for each source.
abbrev pub Outcomes : Type 0
Outcomes = SourceSpec → Outcome (List Disruption) (Unit {0}) SourceError

unfoldable pub read_source : Outcomes → SourceSpec → SourceRead
read_source outcomes s = elim (outcomes s) [
  | returned c ↦ record {
    is_checked = true;
    warning = if c.is_stale then some (source_stale s.operator) else none;
    rows = c.value;
    is_stale = c.is_stale;
  }
  | raised e ↦ record {
    is_checked = false;
    warning = some (source_unavailable s.operator);
    rows = [];
    is_stale = false;
  }
]

abbrev pub all_rows : List SourceRead → List Disruption
all_rows [] = []
all_rows (r ∷ rs) = r.rows ++ all_rows rs

-- The freshness, by how many sources are not available.
unfoldable pub status : ℕ → ℕ → Bool → FreshnessStatus
status unavailable sources served_stale =
    if unavailable == sources
    then broken
    else if not (unavailable == 0)
    then unknown
    else if served_stale
    then stale
    else fresh

-- The envelope; the error is its code.
pub record Response : Type 0 where
  pub is_ok : Bool
  pub error : Option String
  pub body : Reply Disruption Warning

unfoldable pub respond :
    Python → Option Text → Option Text → Option Text → ℤ → List SourceRead → Response
unfolding page filter_and_sort status result_info
respond py mode operator line limit reads =
    let checked = length (filter (λ (r : SourceRead). r.is_checked) reads) in
    let unavailable = length reads - checked in
    let reply =
      page limit (filter_and_sort py mode operator line (all_rows reads))
        (status unavailable (length reads) (any (λ (r : SourceRead). r.is_stale) reads))
        (collect (λ (r : SourceRead). r.warning) reads) in
    if unavailable == length reads
    then record {
      is_ok = false;
      error = some "source_unavailable";
      body = record reply { result = result_info 0 none none "unavailable_source_records" };
    }
    else record {
      is_ok = true;
      error = none;
      body = record reply { result = record (reply.result) { scope = "available_source_records" } };
    }

-- `_normalize_choice`: the option that a choice names, whatever its case.
unfoldable pub normalize_choice :
    Python → String → List Text → Option Text → Validated (Option Text)
unfolding validate_text
normalize_choice py field allowed none = accepts none
normalize_choice py field allowed (some v) = do
  safe ← validate_text v field 80 1
  elim (find? (λ option. same_bytes (py.casefold option) (py.casefold safe)) allowed) [
    | none ↦ raises (invalid field none none)
    | some option ↦ accepts (some option)
  ]

unfoldable pub optional_text : String → Option Text → Validated (Option Text)
unfolding validate_text
optional_text field none = accepts none
optional_text field (some v) = do safe ← validate_text v field 160 1; accepts (some safe)

-- The filters that are asked for.
pub record Query : Type 0 where
  pub mode : Option Text
  pub operator : Option Text
  pub line : Option Text
  pub limit : Option ℤ

unfoldable pub disruptions : Python → Bool → ℤ → ℤ → Query → Outcomes → Validated Response
unfolding normalize_choice optional_text resolve_limit select_specs read_source respond
disruptions py has_announcements default_limit max_limit q outcomes = do
  mode ← normalize_choice py "mode" supported_modes q.mode
  operator ← normalize_choice py "operator" supported_operators q.operator
  line ← optional_text "line" q.line
  limit ← resolve_limit q.limit default_limit max_limit
  specs ← select_specs has_announcements mode operator
  accepts (respond py mode operator line limit (map (read_source outcomes) specs))
