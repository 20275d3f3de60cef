-- ===== src/Tests/Guard.antt =====
-- The abuse guard at concrete clients, times and requests.
use mathlib.Core.Option.{some-ne-none}
use istanbulmcp.Prelude.{
  ℕ, ◌+◌, ◌*◌, ◌-◌, ◌≤◌, String, ◌≡◌, ◌↔◌, refl, true, none, some, List, [], ◌∷◌, arith,
}
use istanbulmcp.Prelude.Dict
use istanbulmcp.Guard.Clients.{
  find_bucket, refilled, is_stale, ClientBucket, ClientRateLimiter, acquire, prune, token, second,
}
use istanbulmcp.Guard.Clients.Room.{IsValid}
use istanbulmcp.Guard.Clients.Rate.{after, admitted, IsKept, admitted-le, retry_exact}
use istanbulmcp.Guard.Middleware.{Scope, Guard, should_guard}
use istanbulmcp.Guard.Middleware.Body.{Application, Message, call, call-total-le, total}
use istanbulmcp.Guard.Middleware.Slots.{Event, run, IsAccounted, run-IsAccounted}

-- Two tokens at most, half a token a second.
abbrev pub ann : ClientBucket
ann = record { tokens = 2 * token; updated_at = 0; last_seen_at = 0 }

abbrev pub limiter : ClientRateLimiter
limiter = record {
  capacity = 2;
  refill_per_second = 500000;
  max_clients = 2;
  clients = ("ann", ann) ∷ [];
}

abbrev calls : List (String × ℕ)
calls = ("ann", 0) ∷ ("bob", 5) ∷ ("ann", 10) ∷ ("ann", 20) ∷ []

admitted_two : admitted "ann" limiter calls ≡ 2
unfolding admitted acquire Dict.get Dict.put prune
admitted_two = refl

calls-IsKept : IsKept "ann" limiter calls
unfolding acquire Dict.get Dict.put prune
calls-IsKept = (λ e. cc, (λ e. cc, (λ e. cc, (λ e. cc, tt))))

admitted-le_example : admitted "ann" limiter calls * token ≤ 2 * token + (20 - 0) * 500000
unfolding Dict.get
admitted-le_example = admitted-le calls limiter "ann" ann 20 refl (omega arith) calls-IsKept

-- Empty at time 0: the third call of one moment is refused for two seconds.
abbrev drained : ClientRateLimiter
drained = (acquire (acquire limiter "ann" 0).0 "ann" 0).0

abbrev empty_bucket : ClientBucket
empty_bucket = record { tokens = 0; updated_at = 0; last_seen_at = 0 }

retry_exact_example :
    ((acquire (after (acquire drained "ann" 0).0 (("bob", second) ∷ [])) "ann" (2 * second)).1.0
      ≡ true)
    ↔ ((acquire drained "ann" 0).1.1.deficit
        ≤ (2 * second - 0) * (acquire drained "ann" 0).1.1.rate)
unfolding acquire Dict.get Dict.put find_bucket prune refilled is_stale
retry_exact_example =
    retry_exact drained "ann" empty_bucket 0 (2 * second) (("bob", second) ∷ []) refl (omega arith)
      (omega arith) refl (refl, tt) ((λ h. some-ne-none _ h), tt)

limiter-IsValid : IsValid limiter
limiter-IsValid = record {
  positive = omega arith;
  can_hold = omega arith;
  refills = omega arith;
  tracked = omega arith;
  buckets = (record { filled = omega arith; dated = refl }, tt);
}

-- Two clients fill the limiter.
abbrev crowded : ClientRateLimiter
crowded = record limiter { clients = ("ann", ann) ∷ ("bob", ann) ∷ [] }

abbrev post : Scope
post = record {
  kind = "http";
  method = "POST";
  path = "/mcp/";
  headers = [];
  client = some "ann";
  key_id = none;
}

abbrev pub guard : Guard
guard = record {
  max_body_bytes = 10;
  rate_limiter = limiter;
  concurrency_limiter = record { max_concurrent = 1; current = 0; rejected = 0 };
  listen_limiter = some (record { max_concurrent = 1; current = 0; rejected = 0 });
}

-- It reads two messages, and lets the exception of `receive` out.
abbrev reads_two : Application
reads_two =
    Application.receive
      (λ m. Application.receive (λ m'. Application.finish) Application.raise_too_large)
      Application.raise_too_large

call-total-le_example :
    total (call guard post 3 (Message.body 7 ∷ Message.body 7 ∷ []) reads_two).1.delivered ≤ 10
unfolding should_guard
call-total-le_example =
    call-total-le guard post 3 (Message.body 7 ∷ Message.body 7 ∷ []) reads_two refl

-- Two posts meet one slot, then the first ends.
abbrev events : List Event
events = Event.arrive post 1 ∷ Event.arrive post 2 ∷ Event.complete 0 ∷ []

run-IsAccounted_example : IsAccounted (run (record { guard = guard; running = [] }) events)
run-IsAccounted_example =
    run-IsAccounted (record { guard = guard; running = [] }) events (omega arith)
