-- ===== src/Guard/Middleware/Body.antt =====
-- app/core/abuse_guard.py: `limited_receive`, and one whole call of McpAbuseGuardMiddleware. The
-- wrapped application is any program that receives messages, sends responses, and ends or raises.
use istanbulmcp.Prelude.{
  ℕ, ◌+◌, ◌≤◌, ◌<◌, ◌≡◌, refl, Bool, true, false, Option, none, some, List, [], ◌∷◌, ◌++◌, arith,
  ltb,
}
use istanbulmcp.Guard.Middleware.{
  Scope, Response, Guard, passed, refused, admitted, enter, leave, reject, should_guard, take_slot,
}

-- An http.request message by the length of its body, or any other message.
pub data Message : Type 0 where
  body : ℕ → Message
  other : Message

pub data Application : Type 0 where
  -- what follows a message, and what follows where `receive` raises
  receive : (Message → Application) → Application → Application
  send : Response → Application → Application
  finish : Application
  raise_too_large : Application
  raise_other : Application

pub data Ending : Type 0 where
  finished too_large failed : Ending

pub record Trace : Type 0 where
  pub delivered : List Message
  pub sent : List Response
  pub ending : Ending

abbrev pub size : Message → ℕ
size (body n) = n
size other = 0

abbrev pub total : List Message → ℕ
total [] = 0
total (m ∷ ms) = size m + total ms

abbrev deliver : Message → Trace → Trace
deliver m t = record t { delivered = m ∷ t.delivered }

abbrev respond : Response → Trace → Trace
respond r t = record t { sent = r ∷ t.sent }

abbrev ended : Ending → Trace
ended e = record { delivered = []; sent = []; ending = e }

abbrev over : Option ℕ → ℕ → Bool
over none n = false
over (some limit) n = ltb limit n

-- `body_size` is kept between calls of `limited_receive`; after the last message the client is gone.
unfoldable pub serve : Option ℕ → ℕ → List Message → Application → Trace
serve limit body_size [] (receive next broken) =
    deliver other (serve limit body_size [] (next other))
serve limit body_size (other ∷ ms) (receive next broken) =
    deliver other (serve limit body_size ms (next other))
serve limit body_size (body n ∷ ms) (receive next broken) = elim (over limit (body_size + n)) [
  | true ↦ serve limit (body_size + n) ms broken
  | false ↦ deliver (body n) (serve limit (body_size + n) ms (next (body n)))
]
serve limit body_size ms (send r next) = respond r (serve limit body_size ms next)
serve limit body_size ms finish = ended finished
serve limit body_size ms raise_too_large = ended too_large
serve limit body_size ms raise_other = ended failed

-- `except RequestBodyTooLarge`
unfoldable pub on_too_large : Trace → Trace
unfolding reject
on_too_large t = elim t.ending [
  | too_large ↦ record t {
    sent = t.sent ++ reject 413 "Request body is too large." none ∷ [];
    ending = finished;
  }
  | finished ↦ t
  | failed ↦ t
]

unfoldable pub call : Guard → Scope → ℕ → List Message → Application → Guard × Trace
unfolding enter serve on_too_large leave
call g s now ms app =
    let (g', entry) = enter g s now in
    elim entry [
      | passed ↦ (g', serve none 0 ms app)
      | refused r ↦ (g', respond r (ended finished))
      | admitted slot ↦ (leave g' slot, on_too_large (serve (some g.max_body_bytes) 0 ms app))
    ]

-- Once the limit is passed no body reaches the application.
total-serve_over :
    (limit n : ℕ) (ms : List Message) (app : Application)
    → limit < n
    → total (serve (some limit) n ms app).delivered ≡ 0
unfolding serve
total-serve_over limit n [] (receive next broken) h =
    omega (arith, total-serve_over limit n [] (next other) h)
total-serve_over limit n (other ∷ ms) (receive next broken) h =
    omega (arith, total-serve_over limit n ms (next other) h)
total-serve_over limit n (body k ∷ ms) (receive next broken) h =
    ground (arith, total-serve_over limit (n + k) ms broken)
total-serve_over limit n ms (send r next) h = total-serve_over limit n ms next h
total-serve_over limit n ms finish h = refl
total-serve_over limit n ms raise_too_large h = refl
total-serve_over limit n ms raise_other h = refl

-- However the application behaves, the bodies that it receives fit the limit.
pub total-serve-le :
    (limit n : ℕ) (ms : List Message) (app : Application)
    → n ≤ limit
    → n + total (serve (some limit) n ms app).delivered ≤ limit
unfolding serve
total-serve-le limit n [] (receive next broken) h =
    omega (arith, total-serve-le limit n [] (next other) h)
total-serve-le limit n (other ∷ ms) (receive next broken) h =
    omega (arith, total-serve-le limit n ms (next other) h)
total-serve-le limit n (body k ∷ ms) (receive next broken) h = ground (
  arith,
  total-serve_over limit (n + k) ms broken,
  total-serve-le limit (n + k) ms (next (body k)),
)
total-serve-le limit n ms (send r next) h = total-serve-le limit n ms next h
total-serve-le limit n ms finish h = omega arith
total-serve-le limit n ms raise_too_large h = omega arith
total-serve-le limit n ms raise_other h = omega arith

-- The application of a guarded request receives no more bytes than the guard allows.
pub call-total-le :
    (g : Guard) (s : Scope) (now : ℕ) (ms : List Message) (app : Application)
    → should_guard s ≡ true
    → total (call g s now ms app).1.delivered ≤ g.max_body_bytes
unfolding call enter take_slot on_too_large
call-total-le g s now ms app h = ground (arith, total-serve-le g.max_body_bytes 0 ms app)
