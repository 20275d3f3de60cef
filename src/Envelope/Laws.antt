-- ===== src/Envelope/Laws.antt =====
-- What the replies promise about errors, delays and completeness.
use istanbulmcp.Prelude.{
  ℕ, ◌+◌, ◌*◌, ◌≤◌, ◌<◌, String, Bool, true, false, ◌≡◌, refl, Option, none, some, List, [], ◌∷◌,
  length, arith, str_eq, any, inl, inr, Option-cases, ◌↔◌,
}
use istanbulmcp.Envelope.{
  DataRow, ErrorInfo, Pagination, NextStep, FreshnessStatus, error_info, choose_code, choose_delay,
  first_delay, temporary_codes, success_envelope, result_info, validation_error_envelope,
  detail_row, first_detail,
}
use istanbulmcp.Prelude.Int.{ℤ}
use istanbulmcp.Validation.{InputValidationError}

-- A delay in an error's reply that its caller did not fix comes with a temporary error, and is the
-- first usable delay of the rows, rounded up to less than a millisecond more.
pub error_info_delay :
    (rows : List DataRow) (code : String) (temporary : Option Bool) (repair : Option NextStep)
    (ms : ℕ)
    → (error_info rows code temporary none repair).retry_after_ms ≡ some ms
    → ((error_info rows code temporary none repair).temporary ≡ true)
      × ((micros : ℕ) × ((first_delay rows ≡ some micros)
            × (micros ≤ ms * 1000)
            × (ms * 1000 < micros + 1000)))
unfolding error_info choose_delay
error_info_delay rows code temporary repair ms h = elim (Option-cases (first_delay rows)) [
  | inl e ↦ absurd (ground arith)
  | inr (n, e) ↦ (ground (arith, e), (n, (e, ground (arith, e), ground (arith, e))))
]

-- A reply without a result of its own calls its page truncated exactly if the estimated total
-- exceeds the rows up to its end, and adds no note exactly if it is known to be complete.
pub success_envelope_truncated :
    (summary : String) (rows : List DataRow) (freshness : Option FreshnessStatus)
    (limits warnings : List String) (p : Pagination) (total : ℕ)
    → p.total_estimate ≡ some total
    → (let info =
          (success_envelope summary rows freshness limits warnings (some p) none).result_info in
        ((info.truncated ≡ some true) ↔ (p.offset + length rows < total))
        × ((info.next_step ≡ none) ↔ (total ≤ p.offset + length rows)))
unfolding success_envelope result_info
success_envelope_truncated summary rows freshness limits warnings p total h =
    (ground arith, ground arith)

-- The reply to a validation error is not ok, repeats the error's code and field, and is temporary
-- only if that code is.
pub validation_error_reported :
    (show : String → ℤ → String) (tagged : String → String) (exc : InputValidationError)
    (summary message : String) (repair : Option NextStep)
    → str_eq exc.code "" ≡ false
    → (let reply = validation_error_envelope show tagged exc summary message repair in
        (reply.ok ≡ false)
        × ((info : ErrorInfo) × ((reply.error ≡ some info)
              × (info.code ≡ exc.code)
              × (info.field ≡ some exc.field)
              × (info.temporary ≡ any (str_eq exc.code) temporary_codes)
              × (info.retry_after_ms ≡ none))))
unfolding validation_error_envelope error_info first_detail choose_code choose_delay first_delay
validation_error_reported show tagged exc summary message repair h = (
  refl,
  (
    error_info (detail_row exc.code (some exc.field) ∷ []) "" none none repair,
    (refl, ground (arith, h), ground (arith, h), ground (arith, h), ground (arith, h)),
  ),
)
