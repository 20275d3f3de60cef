-- ===== src/Tests/Retry.antt =====
-- The retrying HTTP client at a host that cannot be reached.
use istanbulmcp.Prelude.{ℕ, ◌+◌, ◌-◌, ◌≤◌, ◌≡◌, ◌≢◌, true, Bool, arith, [], length}
use istanbulmcp.Retry.{
  connect_timeout, raised, exhausted, retryable_status_codes, Answer, response, absent,
}
use istanbulmcp.Retry.Laws.{request, request_bounds}

abbrev is_error : ℕ → Bool
is_error s = true

abbrev busy : ℕ → Answer
busy n = response 503 absent

abbrev dead : ℕ → Answer
dead n = connect_timeout

abbrev clock : ℕ → ℕ
clock n = n + 5

request_bounds_example :
    ((request retryable_status_codes is_error true "host" 3 busy clock [] 4).0.sent ≤ 3)
    × (length (request retryable_status_codes is_error true "host" 3 busy clock [] 4).0.sleeps
        ≡ (request retryable_status_codes is_error true "host" 3 busy clock [] 4).0.sent - 1)
    × (length (request retryable_status_codes is_error true "host" 3 busy clock [] 4).0.penalties
        ≤ 1)
    × ((request retryable_status_codes is_error true "host" 3 busy clock [] 4).1 ≢ raised exhausted)
request_bounds_example =
    request_bounds retryable_status_codes is_error true "host" 3 busy clock [] 4 (omega arith)
