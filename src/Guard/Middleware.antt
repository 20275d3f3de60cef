-- ===== src/Guard/Middleware.antt =====
-- app/core/abuse_guard.py: McpAbuseGuardMiddleware. `enter` is `__call__` up to the call of the
-- application, `leave` is its `finally`, and `call` is the whole of one request.
pub mod Body
pub mod Slots
use istanbulmcp.Prelude.{
  ℕ, zero, suc, ◌+◌, ◌-◌, ◌*◌, ◌/◌, ◌%◌, String, Bool, true, false, ◌&&◌, ◌||◌, Option, none, some,
  List, [], ◌∷◌, max, ltb, ◌==◌, str_eq, any, length, if◌then◌else◌,
}
use istanbulmcp.Prelude.Int.{ℤ, pos, ltb_ℤ}
use istanbulmcp.Prelude.Bytes.{codes, same_bytes, lower, parse_int}
use istanbulmcp.Guard.Clients
use istanbulmcp.Guard.Clients.{ClientRateLimiter, Wait, second}
use istanbulmcp.Guard.Concurrency
use istanbulmcp.Guard.Concurrency.{ConcurrencyLimiter}

-- The parts of an ASGI scope that the middlewares read. A missing text is "".
pub record Scope : Type 0 where
  pub kind : String
  pub method : String
  pub path : String
  pub headers : List (List ℕ × List ℕ)
  pub client : Option String
  pub key_id : Option String

pub record Response : Type 0 where
  pub status_code : ℕ
  pub summary : String
  pub retry_after : Option ℕ

-- `listen_limiter` is `none` where the constructor shares the other limiter.
pub record Guard : Type 0 where
  pub max_body_bytes : ℕ
  pub rate_limiter : ClientRateLimiter
  pub concurrency_limiter : ConcurrencyLimiter
  pub listen_limiter : Option ConcurrencyLimiter

unfoldable pub should_guard : Scope → Bool
should_guard s =
    str_eq s.kind "http"
    && (str_eq s.method "POST" || str_eq s.method "GET")
    && (str_eq s.path "/mcp" || str_eq s.path "/mcp/")

unfoldable pub is_notification_stream : Scope → Bool
unfolding same_bytes lower
is_notification_stream s =
    if str_eq s.method "GET"
    then true
    else any
        (λ h.
          same_bytes (lower h.0) (codes "mcp-method")
          && same_bytes h.1 (codes "subscriptions/listen"))
        s.headers

-- The first Content-Length header decides.
unfoldable pub content_length : List (List ℕ × List ℕ) → Option ℤ
unfolding same_bytes lower parse_int
content_length [] = none
content_length ((key, value) ∷ headers) =
    if same_bytes (lower key) (codes "content-length")
    then parse_int value
    else content_length headers

unfoldable pub client_id : Scope → String
client_id s =
    let by_address : String = elim s.client [ none ↦ "unknown" | some host ↦ host ] in
    elim s.key_id [ none ↦ by_address | some key ↦ if str_eq key "" then by_address else key ]

-- `round(numerator / denominator)`, ties to even.
unfoldable pub round_ratio : ℕ → ℕ → ℕ
round_ratio n d =
    let q = n / d in
    let r = n % d in if ltb (2 * r) d then q else if ltb d (2 * r) then q + 1 else q + q % 2

unfoldable pub reject : ℕ → String → Option Wait → Response
unfolding round_ratio
reject status summary wait = record {
  status_code = status;
  summary = summary;
  retry_after = elim wait [
    | none ↦ none
    | some w ↦ some (max 1 (round_ratio w.deficit (w.rate * second)))
  ];
}

-- Which limiter a request holds.
pub data Slot : Type 0 where
  request listen : Slot

pub data Entry : Type 0 where
  passed : Entry
  refused : Response → Entry
  admitted : Slot → Entry

unfoldable pub slot_of : Guard → Scope → Slot
slot_of g s = elim g.listen_limiter [
  | none ↦ request
  | some _ ↦ if is_notification_stream s then listen else request
]

unfoldable pub acquire_slot : Guard → Slot → Guard × Bool
unfolding Concurrency.acquire
acquire_slot g request =
    let (l, got) = Concurrency.acquire g.concurrency_limiter in
    (record g { concurrency_limiter = l }, got)
acquire_slot g listen = elim g.listen_limiter [
  | none ↦ (g, false)
  | some listen_limiter ↦
      let (l, got) = Concurrency.acquire listen_limiter in
      (record g { listen_limiter = some l }, got)
]

abbrev busy : Bool → String
busy listening =
    if listening
    then "Too many open MCP notification streams. Please retry shortly."
    else "MCP service is busy. Please retry shortly."

abbrev one_second : Wait
one_second = record { deficit = second; rate = 1 }

-- The last guard: a slot of the limiter that serves this kind of request.
unfoldable pub take_slot : Guard → Scope → Guard × Entry
unfolding slot_of acquire_slot reject
take_slot g s =
    let slot = slot_of g s in
    let (g', got) = acquire_slot g slot in
    if got
    then (g', admitted slot)
    else (g', refused (reject 429 (busy (is_notification_stream s)) (some one_second)))

unfoldable pub too_long : Guard → Scope → Bool
unfolding content_length
too_long g s = elim (content_length s.headers) [
  | none ↦ false
  | some n ↦ ltb_ℤ (pos g.max_body_bytes) n
]

unfoldable pub enter : Guard → Scope → ℕ → Guard × Entry
enter g s now =
    if should_guard s
    then (if too_long g s
        then (g, refused (reject 413 "Request body is too large." none))
        else (let (limiter, (allowed, retry_after)) =
              Clients.acquire g.rate_limiter (client_id s) now in
            let g' : Guard = record g { rate_limiter = limiter } in
            if allowed then take_slot g' s else (
              g',
              refused
                  (reject 429 "Too many MCP requests. Please retry shortly." (some retry_after)),
            )))
    else (g, passed)

-- `finally: await limiter.release()`
unfoldable pub leave : Guard → Slot → Guard
unfolding Concurrency.release
leave g request = record g { concurrency_limiter = Concurrency.release g.concurrency_limiter }
leave g listen = record g {
  listen_limiter = elim g.listen_limiter [ none ↦ none | some l ↦ some (Concurrency.release l) ];
}
