-- ===== src/Guard/Middleware/Slots.antt =====
-- app/core/abuse_guard.py: the slots of McpAbuseGuardMiddleware while requests overlap. Each
-- request enters and leaves in one step, and what happens between is other requests' steps.
use istanbulmcp.Prelude.{
  ℕ, zero, suc, ◌≤◌, ◌≡◌, Option, none, some, List, [], ◌∷◌, arith, inl, inr, Option-cases,
}
use istanbulmcp.Guard.Clients
use istanbulmcp.Guard.Middleware.{
  Scope, Guard, Slot, request, listen, Entry, passed, refused, admitted, enter, leave, take_slot,
  client_id,
}

-- The guard, and the requests that the application is working on.
pub record System : Type 0 where
  pub guard : Guard
  pub running : List Slot

pub data Event : Type 0 where
  arrive : Scope → ℕ → Event
  -- the n-th of the running requests ends, or fails
  complete : ℕ → Event

-- The n-th element and the list without it.
abbrev pub pick : ℕ → List Slot → Option (Slot × List Slot)
pick n [] = none
pick zero (s ∷ ss) = some (s, ss)
pick (suc n) (s ∷ ss) = elim (pick n ss) [ none ↦ none | some (t, rest) ↦ some (t, s ∷ rest) ]

unfoldable pub step : System → Event → System
step sys (arrive s now) =
    let (g, entry) = enter sys.guard s now in
    elim entry [
      | passed ↦ sys
      | refused r ↦ record { guard = g; running = sys.running }
      | admitted slot ↦ record { guard = g; running = slot ∷ sys.running }
    ]
step sys (complete n) = elim (pick n sys.running) [
  | none ↦ sys
  | some (slot, rest) ↦ record { guard = leave sys.guard slot; running = rest }
]

unfoldable pub run : System → List Event → System
run sys [] = sys
run sys (e ∷ es) = run (step sys e) es

abbrev pub requests : List Slot → ℕ
requests [] = 0
requests (request ∷ ss) = suc (requests ss)
requests (listen ∷ ss) = requests ss

abbrev pub listeners : List Slot → ℕ
listeners [] = 0
listeners (request ∷ ss) = listeners ss
listeners (listen ∷ ss) = suc (listeners ss)

abbrev pub listening : Guard → ℕ
listening g = elim g.listen_limiter [ none ↦ 0 | some l ↦ l.current ]

abbrev pub listen_cap : Guard → ℕ
listen_cap g = elim g.listen_limiter [ none ↦ 0 | some l ↦ l.max_concurrent ]

-- Each limiter counts exactly the requests that hold it, and is within its cap.
pub record IsAccounted (sys : System) : Type 0 where
  pub counts_requests : sys.guard.concurrency_limiter.current ≡ requests sys.running
  pub counts_listeners : listening sys.guard ≡ listeners sys.running
  pub requests_fit :
      sys.guard.concurrency_limiter.current ≤ sys.guard.concurrency_limiter.max_concurrent
  pub listeners_fit : listening sys.guard ≤ listen_cap sys.guard

-- The running requests after an arrival.
abbrev after : Entry → List Slot → List Slot
after passed ss = ss
after (refused r) ss = ss
after (admitted t) ss = t ∷ ss

counts-pick :
    (n : ℕ) (ss : List Slot) (t : Slot) (rest : List Slot)
    → pick n ss ≡ some (t, rest)
    → (requests ss ≡ requests (t ∷ rest)) × (listeners ss ≡ listeners (t ∷ rest))
counts-pick n [] t rest h = cc
counts-pick zero (s ∷ ss) t rest h = (cc, cc)
counts-pick (suc n) (s ∷ ss) t rest h = elim (Option-cases (pick n ss)) [
  | inl e ↦ absurd (ground arith)
  | inr (a, e) ↦ ground (arith, counts-pick n ss a.0 a.1)
]

take_slot-IsAccounted :
    (g : Guard) (s : Scope) (ss : List Slot)
    → IsAccounted (record { guard = g; running = ss })
    → IsAccounted (record { guard = (take_slot g s).0; running = after (take_slot g s).1 ss })
unfolding take_slot
take_slot-IsAccounted g s ss h = ground arith

enter-IsAccounted :
    (g : Guard) (s : Scope) (now : ℕ) (ss : List Slot)
    → IsAccounted (record { guard = g; running = ss })
    → IsAccounted (record { guard = (enter g s now).0; running = after (enter g s now).1 ss })
unfolding enter
enter-IsAccounted g s now ss h =
    let g' : Guard = record g {
      rate_limiter = (Clients.acquire g.rate_limiter (client_id s) now).0;
    } in
    let h' : IsAccounted (record { guard = g'; running = ss }) = record {
      counts_requests = h.counts_requests;
      counts_listeners = h.counts_listeners;
      requests_fit = h.requests_fit;
      listeners_fit = h.listeners_fit;
    } in
    ground (arith, take_slot-IsAccounted g' s ss h')

arrive-eq :
    (sys : System) (s : Scope) (now : ℕ)
    → step sys (arrive s now) ≡ record {
      guard = (enter sys.guard s now).0;
      running = after (enter sys.guard s now).1 sys.running;
    }
unfolding step enter take_slot
arrive-eq sys s now = ground arith

leave-IsAccounted :
    (g : Guard) (t : Slot) (ss rest : List Slot)
    → (requests ss ≡ requests (t ∷ rest)) × (listeners ss ≡ listeners (t ∷ rest))
    → IsAccounted (record { guard = g; running = ss })
    → IsAccounted (record { guard = leave g t; running = rest })
unfolding leave
leave-IsAccounted g t ss rest p h = ground arith

step-IsAccounted : (sys : System) (e : Event) → IsAccounted sys → IsAccounted (step sys e)
unfolding step
step-IsAccounted sys (arrive s now) h =
    rw (arrive-eq sys s now) (enter-IsAccounted sys.guard s now sys.running h)
step-IsAccounted sys (complete n) h = elim (Option-cases (pick n sys.running)) [
  | inl e ↦ rw (e, step) h
  | inr (a, e) ↦
      rw (e, step)
        (leave-IsAccounted sys.guard a.0 sys.running a.1 (counts-pick n sys.running a.0 a.1 e) h)
]

-- However requests arrive, overlap and end, each limiter counts the requests that hold it, and no
-- more than its cap run at once.
pub run-IsAccounted : (sys : System) (es : List Event) → IsAccounted sys → IsAccounted (run sys es)
unfolding run
run-IsAccounted sys [] h = h
run-IsAccounted sys (e ∷ es) h = run-IsAccounted (step sys e) es (step-IsAccounted sys e h)
