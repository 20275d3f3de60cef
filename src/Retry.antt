-- ===== src/Retry.antt =====
-- app/connectors/http_retry.py. Times are nanoseconds. What the upstream answers to each attempt, the
-- clock and `raise_for_status` are arguments; a host is "" where the URL has none.
pub mod Laws
use istanbulmcp.Prelude.{
  ℕ, zero, suc, ◌+◌, ◌-◌, ◌*◌, String, Bool, true, false, ◌&&◌, ◌||◌, Option, none, some, List, [],
  ◌∷◌, ltb, leb, ◌==◌, str_eq, min, not, if◌then◌else◌,
}
use istanbulmcp.Prelude.Int.{ℤ, pos_part}
use istanbulmcp.Prelude.Dict
use istanbulmcp.Prelude.Dict.{Dict}

abbrev pub seconds : ℕ → ℕ
seconds n = n * 1000000000

abbrev pub cooldown : ℕ
cooldown = seconds 60

-- The Retry-After header, with what `float` makes of it.
pub data RetryAfter : Type 0 where
  absent : RetryAfter
  malformed : RetryAfter
  number : ℤ → RetryAfter

unfoldable pub retry_after_seconds : RetryAfter → ℕ
retry_after_seconds absent = seconds 1
retry_after_seconds malformed = seconds 1
retry_after_seconds (number d) = pos_part d

-- How `client.request` ends: a response, httpx.ConnectTimeout, another timeout or transport error, or
-- an exception that the loop does not catch.
pub data Answer : Type 0 where
  response : ℕ → RetryAfter → Answer
  connect_timeout : Answer
  transport_error : Answer
  other_error : Answer

pub data Error : Type 0 where
  bad_attempts recently_unreachable unreachable transport status_error exhausted uncaught : Error

pub data Result : Type 0 where
  returned : ℕ → Result
  raised : Error → Result

-- What the loop has done, its newest effect first.
pub record Effects : Type 0 where
  pub sent : ℕ
  pub sleeps : List ℕ
  pub penalties : List ℕ
  pub penalized : Bool
  pub unreachable_until : Dict ℕ

abbrev pub retryable_status_codes : ℕ → Bool
retryable_status_codes s = s == 429 || s == 500 || s == 502 || s == 503 || s == 504

unfoldable pub connect_capped : Option ℕ → ℕ
connect_capped none = seconds 5
connect_capped (some connect) = min connect (seconds 5)

-- `retry_delay`, and the one penalty that a call gives its rate limiter, if it has one.
unfoldable pub note_status : Bool → ℕ → RetryAfter → Effects → Effects × ℕ
note_status limited status header fx =
    if status == 429
    then (let delay = retry_after_seconds header in
        if limited && not fx.penalized
        then (record fx { penalties = delay ∷ fx.penalties; penalized = true }, delay)
        else (fx, delay))
    else (fx, 0)

unfoldable pub note_unreachable : String → ℕ → Effects → Effects
note_unreachable host now fx =
    if str_eq host ""
    then fx
    else record fx { unreachable_until = Dict.put host (now + cooldown) fx.unreachable_until }

abbrev pub sleep : ℕ → Effects → Effects
sleep delay fx = record fx { sleeps = delay ∷ fx.sleeps }

abbrev pub sends : Effects → Effects
sends fx = record fx { sent = fx.sent + 1 }

abbrev pub fresh : Dict ℕ → Effects
fresh hosts = record {
  sent = 0;
  sleeps = [];
  penalties = [];
  penalized = false;
  unreachable_until = hosts;
}

-- `remaining > 0`
unfoldable pub is_cooling : String → Dict ℕ → ℕ → Bool
is_cooling host hosts now = elim (Dict.get host hosts) [ none ↦ false | some t ↦ ltb now t ]

module _ (retry_statuses : ℕ → Bool) (raises_for_status : ℕ → Bool) (limited : Bool)
    (host : String) where
  -- The `for` loop with the attempts that are left; the answers and the clock are by attempt.
  unfoldable pub attempts_left : ℕ → (ℕ → Answer) → (ℕ → ℕ) → ℕ → Effects → Effects × Result
  attempts_left zero answer clock n fx = (fx, raised exhausted)
  attempts_left (suc left) answer clock n fx =
      let tried = sends fx in
      let again = λ (delay : ℕ) (noted : Effects).
        attempts_left left answer clock (n + 1) (sleep delay noted) in
      elim (answer n) [
        | connect_timeout ↦ (note_unreachable host (clock n) tried, raised unreachable)
        | other_error ↦ (tried, raised uncaught)
        | transport_error ↦ elim left [ zero ↦ (tried, raised transport) | suc k ↦ again 0 tried ]
        | response status header ↦ elim (retry_statuses status) [
          | false ↦ (tried, returned status)
          | true ↦
              let (noted, delay) = note_status limited status header tried in
              elim left [
                | zero ↦ (
                  noted,
                  if raises_for_status status then raised status_error else returned status,
                )
                | suc k ↦ again delay noted
              ]
        ]
      ]

  -- No attempts at all are the ValueError of `attempts < 1`.
  unfoldable pub request_with_retries : ℕ → (ℕ → Answer) → (ℕ → ℕ) → Dict ℕ → ℕ → Effects × Result
  unfolding is_cooling
  request_with_retries attempts answer clock hosts now =
      if attempts == 0
      then (fresh hosts, raised bad_attempts)
      else (if not (str_eq host "") && is_cooling host hosts now
          then (fresh hosts, raised recently_unreachable)
          else attempts_left attempts answer clock 0 (fresh hosts))
