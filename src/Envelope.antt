-- ===== src/Envelope.antt =====
-- app/core/envelope.py and app/core/error_responses.py: the replies of the tools. A row of data is
-- what the code reads of it; delays are microseconds. Sources, time stamps, GeoJSON and next queries
-- pass through unread and are left out, as is pydantic's check of the types.
pub mod Laws
use istanbulmcp.Prelude.{
  ℕ, zero, suc, ◌+◌, ◌*◌, ◌/◌, String, Bool, true, false, not, ◌&&◌, ◌||◌, Option, none, some, List,
  [], ◌∷◌, ◌++◌, ltb, length, str_eq, any, if◌then◌else◌,
}
use istanbulmcp.Prelude.Int.{ℤ, pos, negsuc}
use istanbulmcp.Validation.{InputValidationError}

-- `retry_after_seconds` of a row: a finite number in microseconds, or anything else.
pub data RetryAfterSeconds : Type 0 where
  unusable : RetryAfterSeconds
  seconds : ℤ → RetryAfterSeconds

-- An "error_code" that is missing is the empty text.
pub record DataRow : Type 0 where
  pub error_code : String
  pub field : Option String
  pub retry_after_seconds : RetryAfterSeconds

pub data FreshnessStatus : Type 0 where
  fresh stale unknown broken : FreshnessStatus

pub data NextStep : Type 0 where
  review_inputs retry_after_delay retry_later : NextStep
  custom : String → NextStep

pub record ErrorInfo : Type 0 where
  pub code : String
  pub temporary : Bool
  pub retry_after_ms : Option ℕ
  pub field : Option String
  pub next_step : NextStep

pub data Note : Type 0 where
  not_complete unknown_completeness : Note

pub record ResultInfo : Type 0 where
  pub returned : ℕ
  pub matched : Option ℕ
  pub truncated : Option Bool
  pub scope : String
  pub next_step : Option Note

pub record Pagination : Type 0 where
  pub limit : ℕ
  pub offset : ℕ
  pub total_estimate : Option ℕ

pub record ResponseEnvelope : Type 0 where
  pub ok : Bool
  pub summary : String
  pub data_rows : List DataRow
  pub pagination : Option Pagination
  pub freshness : FreshnessStatus
  pub limits : List String
  pub warnings : List String
  pub error : Option ErrorInfo
  pub result_info : ResultInfo

abbrev pub note_of : Option Bool → Option Note
note_of (some true) = some not_complete
note_of (some false) = none
note_of none = some unknown_completeness

unfoldable pub result_info : ℕ → Option ℕ → Option Bool → String → ResultInfo
result_info returned matched truncated scope =
    let known : Option Bool = elim truncated [
      | some b ↦ some b
      | none ↦ elim matched [ none ↦ none | some m ↦ some (ltb returned m) ]
    ] in
    record {
      returned = returned;
      matched = matched;
      truncated = known;
      scope = scope;
      next_step = note_of known;
    }

-- Whether an estimate lies behind the rows of this page.
abbrev pub estimated_truncation : Option Pagination → ℕ → Option Bool
estimated_truncation none n = none
estimated_truncation (some p) n = elim p.total_estimate [
  | none ↦ none
  | some total ↦ some (ltb (p.offset + n) total)
]

unfoldable pub success_envelope :
    String
    → List DataRow
    → Option FreshnessStatus
    → List String
    → List String
    → Option Pagination
    → Option ResultInfo
    → ResponseEnvelope
unfolding result_info
success_envelope summary rows freshness limits warnings pagination result = record {
  ok = true;
  summary = summary;
  data_rows = rows;
  pagination = pagination;
  freshness = elim freshness [ none ↦ unknown | some f ↦ f ];
  limits = limits;
  warnings = warnings;
  error = none;
  result_info = elim result [
    | some r ↦ r
    | none ↦ result_info (length rows) none (estimated_truncation pagination (length rows)) "data"
  ];
}

-- `detail`, the first row with an error code, as its code and its field.
unfoldable pub first_detail : List DataRow → String × Option String
first_detail [] = ("", none)
first_detail (r ∷ rs) =
    let rest = first_detail rs in if str_eq r.error_code "" then rest else (r.error_code, r.field)

-- `retry_seconds`, the first usable delay that is not negative.
unfoldable pub first_delay : List DataRow → Option ℕ
first_delay [] = none
first_delay (r ∷ rs) =
    let rest = first_delay rs in
    elim r.retry_after_seconds [
      | unusable ↦ rest
      | seconds d ↦ elim d [ pos n ↦ some n | negsuc n ↦ rest ]
    ]

abbrev pub temporary_codes : List String
temporary_codes =
    "source_unavailable" ∷ "source_rate_limited" ∷ "warming_up" ∷ "source_timeout" ∷ []

-- `math.ceil(retry_seconds * 1000)`
abbrev pub ceil_ms : ℕ → ℕ
ceil_ms micros = (micros + 999) / 1000

-- `code or detail.get("error_code") or ...`, where no code is the empty text.
unfoldable pub choose_code : String → List DataRow → String
unfolding first_detail
choose_code code rows =
    if not (str_eq code "")
    then code
    else if not (str_eq (first_detail rows).0 "")
    then (first_detail rows).0
    else elim (first_delay rows) [ none ↦ "request_failed" | some n ↦ "source_rate_limited" ]

unfoldable pub choose_delay : Bool → Option ℕ → Option ℕ → Option ℕ
choose_delay temporary (some ms) delay = some ms
choose_delay temporary none none = none
choose_delay temporary none (some micros) = if temporary then some (ceil_ms micros) else none

abbrev pub default_step : Bool → Option ℕ → NextStep
default_step false ms = review_inputs
default_step true (some n) = retry_after_delay
default_step true none = retry_later

unfoldable pub error_info :
    List DataRow → String → Option Bool → Option ℕ → Option NextStep → ErrorInfo
error_info rows code temporary retry_after_ms repair =
    let chosen : String = choose_code code rows in
    let lasting : Bool = elim temporary [
      | some b ↦ b
      | none ↦ any (str_eq chosen) temporary_codes
    ] in
    let delay : Option ℕ = choose_delay lasting retry_after_ms (first_delay rows) in
    record {
      code = chosen;
      temporary = lasting;
      retry_after_ms = if lasting then delay else none;
      field = (first_detail rows).1;
      next_step = elim repair [ some step ↦ step | none ↦ default_step lasting delay ];
    }

unfoldable pub error_envelope :
    String → String → FreshnessStatus → List DataRow → List String → ErrorInfo → ResponseEnvelope
unfolding result_info
error_envelope summary warning freshness rows limits info = record {
  ok = false;
  summary = summary;
  data_rows = rows;
  pagination = none;
  freshness = freshness;
  limits = limits;
  warnings = warning ∷ [];
  error = some info;
  result_info = result_info (length rows) none none "error_details";
}

abbrev pub detail_row : String → Option String → DataRow
detail_row code field = record { error_code = code; field = field; retry_after_seconds = unusable }

-- `message` is `str(exc)`; the texts that are formatted around values are arguments.
unfoldable pub validation_error_envelope :
    (String → ℤ → String)
    → (String → String)
    → InputValidationError
    → String
    → String
    → Option NextStep
    → ResponseEnvelope
unfolding error_envelope error_info
validation_error_envelope show tagged exc summary message repair =
    let rows = detail_row exc.code (some exc.field) ∷ [] in
    let low : List String = elim exc.allowed_min [
      | none ↦ []
      | some n ↦ show "allowed_min" n ∷ []
    ] in
    let high : List String = elim exc.allowed_max [
      | none ↦ []
      | some n ↦ show "allowed_max" n ∷ []
    ] in
    error_envelope summary message unknown rows (tagged exc.field ∷ low ++ high)
      (error_info rows "" none none repair)

unfoldable pub not_found_envelope :
    (String → String) → String → String → String → List String → ResponseEnvelope
unfolding error_envelope error_info
not_found_envelope tagged summary warning field limits =
    let rows = detail_row "not_found" (some field) ∷ [] in
    error_envelope summary warning unknown rows
      (elim limits [ [] ↦ tagged field ∷ [] | l ∷ ls ↦ l ∷ ls ]) (error_info rows "" none none none)

-- `excepted` tells whether an exception is given.
unfoldable pub source_error_envelope : String → String → Bool → ResponseEnvelope
unfolding error_envelope error_info
source_error_envelope summary warning excepted =
    let rows : List DataRow = if excepted then detail_row "source_unavailable" none ∷ [] else [] in
    error_envelope summary warning broken rows []
      (error_info rows "source_unavailable" none none none)
