-- ===== src/Telemetry/Classify.antt =====
-- app/core/tool_telemetry.py, CallObservation._classify_result: what a tool's result says of its
-- call. A text is its code points where it is parsed; `json.loads` is an argument.
use istanbulmcp.Prelude.{
  ℕ, suc, ◌*◌, String, Bool, true, false, not, ◌&&◌, ◌||◌, ◌≡◌, inl, inr, refl, Option, none, some,
  List, [], ◌∷◌, leb, length, str_eq, any, if◌then◌else◌, arith, ◌==◌, Bool-cases,
}
use mathlib.Core.Logic.{◌↔◌}
use istanbulmcp.Telemetry.{
  CallObservation, Ending, completed, was_cancelled, tool_failed, other_exception, observe_ending,
  tool_error, domain_error, success, new_observation,
}

mutual
  pub data Json : Type 0 where
    object : Members → Json
    array : Elements → Json
    text : String → Json
    number : ℕ → Json
    bool : Bool → Json
    null : Json

  pub data Members : Type 0 where
    no_members : Members
    member : String → Json → Members → Members

  pub data Elements : Type 0 where
    no_elements : Elements
    element : Json → Elements → Elements

-- `payload.get(key)`
unfoldable pub get : String → Members → Json
get key no_members = null
get key (member k v ms) = if str_eq k key then v else get key ms

abbrev pub size : Elements → ℕ
size no_elements = 0
size (element x xs) = suc (size xs)

-- `bool(value)`
abbrev pub truthy : Json → Bool
truthy (object no_members) = false
truthy (object (member k v ms)) = true
truthy (array no_elements) = false
truthy (array (element x xs)) = true
truthy (text s) = not (str_eq s "")
truthy (number n) = not (n == 0)
truthy (bool b) = b
truthy null = false

-- `value in codes` for a value that need not be a text
abbrev pub text_in : List String → Json → Bool
text_in codes (text s) = any (str_eq s) codes
text_in codes v = false

abbrev pub statuses : List String
statuses = "fresh" ∷ "stale" ∷ "unknown" ∷ "broken" ∷ []

abbrev pub error_codes : List String
error_codes =
    "validation_error" ∷ "not_found" ∷ "source_unavailable" ∷ "source_timeout"
    ∷ "source_rate_limited" ∷ "source_invalid_response" ∷ "warming_up" ∷ "outside_calendar"
    ∷ "snapshot_unavailable" ∷ "feature_disabled" ∷ "request_failed" ∷ "ambiguous_place"
    ∷ "resource_not_allowlisted" ∷ "sql_rejected" ∷ "sql_busy" ∷ "unknown_tool"
    ∷ "invalid_arguments" ∷ []

-- `any(isinstance(source, dict) and source.get("coverage_status") == status for source in sources)`
unfoldable pub has_status : String → Elements → Bool
has_status status no_elements = false
has_status status (element (object ms) xs) =
    text_in (status ∷ []) (get "coverage_status" ms) || has_status status xs
has_status status (element x xs) = has_status status xs

-- `next((row.get("error_code") for row in data if ...), None)`
unfoldable pub row_code : Elements → Json
row_code no_elements = null
row_code (element (object ms) xs) =
    let code = get "error_code" ms in let rest = row_code xs in if truthy code then code else rest
row_code (element x xs) = row_code xs

-- What a tool's result holds of `is_error`, `structured_content` and the texts of its `content`.
pub record ToolResult : Type 0 where
  pub is_error : Bool
  pub structured_content : Json
  pub content : List (Option (List ℕ))

abbrev pub list_size : Json → Option ℕ
list_size (array xs) = some (size xs)
list_size v = none

abbrev pub status_of : Json → Option String
status_of (object ms) = elim (get "status" ms) [
  | text s ↦ if text_in statuses (text s) then some s else none
  | _ ↦ none
]
status_of v = none

abbrev pub is_partial : Json → Bool
is_partial (array xs) = has_status "checked" xs && has_status "unavailable" xs
is_partial v = false

abbrev pub is_false : Json → Bool
is_false (bool b) = not b
is_false v = false

-- The envelope's own code, else the first one of its rows.
unfoldable pub code_of : Json → Json → Json
code_of (object ms) data' = elim (get "code" ms) [
  | null ↦ elim data' [ array xs ↦ row_code xs | _ ↦ null ]
  | code ↦ code
]
code_of v data' = elim data' [ array xs ↦ row_code xs | _ ↦ null ]

abbrev pub allowed_code : Json → String
allowed_code (text s) = if text_in error_codes (text s) then s else "other_error"
allowed_code v = "other_error"

-- `_classify_result` of a payload that is a dict.
unfoldable pub classify_payload : Members → CallObservation → CallObservation
classify_payload ms obs =
    let noted : CallObservation = record obs {
      returned = list_size (get "data" ms);
      freshness = status_of (get "freshness" ms);
      partial = elim (get "sources" ms) [ array xs ↦ is_partial (array xs) | _ ↦ obs.partial ];
    } in
    if is_false (get "ok" ms)
    then record noted {
      outcome = domain_error;
      error_code = some (allowed_code (code_of (get "error" ms) (get "data" ms)));
    }
    else noted

module _ (loads : List ℕ → Option Json) where
  -- The payload: the structured content, or the JSON of a single text of a megabyte at most.
  unfoldable pub payload_of : ToolResult → Json
  payload_of result = elim result.structured_content [
    | object ms ↦ object ms
    | other ↦ elim result.content [
      | some t ∷ [] ↦
          if leb (length t) (1024 * 1024)
          then elim (loads t) [ none ↦ other | some v ↦ v ]
          else other
      | _ ↦ other
    ]
  ]

  unfoldable pub classify_result : ToolResult → CallObservation → CallObservation
  classify_result result obs = elim result.is_error [
    | true ↦ record obs { outcome = tool_error; error_code = some "tool_execution_error" }
    | false ↦ elim (payload_of result) [ object ms ↦ classify_payload ms obs | _ ↦ obs ]
  ]

-- The error codes that a row can count.
abbrev pub counted_codes : List String
counted_codes = "cancelled" ∷ "other_error" ∷ "tool_execution_error" ∷ "unknown_tool" ∷ error_codes

abbrev pub IsKnown : Option String → Type 0
IsKnown none = Unit
IsKnown (some code) = any (str_eq code) counted_codes ≡ true

-- A known code goes with every outcome but a success, and no code with that.
pub record IsClassified (obs : CallObservation) : Type 0 where
  pub known : IsKnown obs.error_code
  pub success_iff : (obs.outcome ≡ success) ↔ (obs.error_code ≡ none)

any-there {ℓ} :
    {A : Type ℓ} (p : A → Bool) (x : A) (xs : List A) → any p xs ≡ true → any p (x ∷ xs) ≡ true
any-there p x xs h = ground (arith, h)

allowed_code-IsKnown : (v : Json) → IsKnown (some (allowed_code v))
allowed_code-IsKnown (text s) = elim (Bool-cases (text_in error_codes (text s))) [
  | inl e ↦ rw e (
      any-there (str_eq s) "cancelled"
        ("other_error" ∷ "tool_execution_error" ∷ "unknown_tool" ∷ error_codes)
        (any-there (str_eq s) "other_error" ("tool_execution_error" ∷ "unknown_tool" ∷ error_codes)
          (any-there (str_eq s) "tool_execution_error" ("unknown_tool" ∷ error_codes)
            (any-there (str_eq s) "unknown_tool" error_codes e))))
  | inr e ↦ rw e refl
]
allowed_code-IsKnown (object ms) = refl
allowed_code-IsKnown (array xs) = refl
allowed_code-IsKnown (number n) = refl
allowed_code-IsKnown (bool b) = refl
allowed_code-IsKnown null = refl

classify_payload-IsClassified :
    (ms : Members) (obs : CallObservation)
    → IsClassified obs
    → IsClassified (classify_payload ms obs)
unfolding classify_payload
classify_payload-IsClassified ms obs c =
    let k = allowed_code-IsKnown (code_of (get "error" ms) (get "data" ms)) in
    elim (Bool-cases (is_false (get "ok" ms))) [
      | inl e ↦ rw (e, classify_payload) (record { known = k; success_iff = ground arith })
      | inr e ↦ rw (e, classify_payload) (record { known = c.known; success_iff = c.success_iff })
    ]

module _ (loads : List ℕ → Option Json) where
  classify_result-IsClassified :
      (result : ToolResult) → IsClassified (classify_result loads result new_observation)
  unfolding classify_result
  classify_result-IsClassified result = go result.is_error refl (payload_of loads result) refl
    where
      go :
          (b : Bool)
          → result.is_error ≡ b
          → (v : Json) → payload_of loads result ≡ v
          → IsClassified (classify_result loads result new_observation)
      go true e v f = rw (e, classify_result) (record { known = refl; success_iff = ground arith })
      go false e (object ms) f =
          rw (e, f, classify_result)
            (classify_payload-IsClassified ms new_observation
              (record { known = tt; success_iff = ground arith }))
      go false e v f =
          rw (e, f, classify_result) (record { known = tt; success_iff = ground arith })

  -- Whatever a tool returns and however its call ends, the call counts under one of a fixed set of
  -- error codes, or under none exactly if its outcome is a success.
  pub observed-IsClassified :
      (result : ToolResult) (label : String) (ending : Ending)
      → IsClassified (observe_ending label ending (classify_result loads result new_observation))
  unfolding observe_ending
  observed-IsClassified result label completed = classify_result-IsClassified result
  observed-IsClassified result label was_cancelled = record {
    known = refl;
    success_iff = ground arith;
  }
  observed-IsClassified result label (tool_failed unexpected invalid) = record {
    known = ground arith;
    success_iff = ground arith;
  }
  observed-IsClassified result label other_exception = record {
    known = refl;
    success_iff = ground arith;
  }
