-- ===== src/Transport.antt =====
-- app/core/mcp_transport.py, McpJsonRpcGuard, and the origin check of app/core/cors.py. A body is
-- code points; `json.loads` is an argument.
use istanbulmcp.Prelude.{
  ◌⊎◌, ℕ, zero, suc, ◌≤◌, String, Bool, true, false, not, ◌&&◌, ◌||◌, ◌≡◌, refl, Option, none, some,
  List, [], ◌∷◌, ◌++◌, map, filter, any, All, length, str_eq, if◌then◌else◌, arith,
}
use istanbulmcp.Telemetry.Classify.{
  Json, Members, Elements, object, array, null, no_members, member, no_elements, element,
}
use istanbulmcp.Prelude.Bytes.{lower, codes, same_bytes}

-- What `receive` returns: a part of the body and whether more follows, or another message.
pub data Message : Type 0 where
  request : List ℕ → Bool → Message
  disconnect : Message

-- `_read_body`: the body, the messages it came in, and those that are still to come.
pub record Read : Type 0 where
  pub body : List ℕ
  pub messages : List Message
  pub rest : List Message

abbrev pub before : List ℕ → Message → Read → Read
before chunk m r = record { body = chunk ++ r.body; messages = m ∷ r.messages; rest = r.rest }

-- None is a loop that still waits in `receive` when the messages at hand are used up.
unfoldable pub read_body : List Message → Option Read
read_body [] = none
read_body (disconnect ∷ ms) = some (record { body = []; messages = disconnect ∷ []; rest = ms })
read_body (request chunk more ∷ ms) =
    let later = read_body ms in
    if more
    then elim later [ none ↦ none | some r ↦ some (before chunk (request chunk more) r) ]
    else some (record { body = chunk ++ []; messages = request chunk more ∷ []; rest = ms })

-- `replay_receive`: the messages already read, then the real ones. It gives the message and what
-- is left of both, or none where the real `receive` waits.
unfoldable pub replay_receive :
    List Message → List Message → Option (Message × (List Message × List Message))
replay_receive (m ∷ ms) rest = some (m, (ms, rest))
replay_receive [] (m ∷ rest) = some (m, ([], rest))
replay_receive [] [] = none

-- What the application gets by calling `receive` n times.
unfoldable pub received : ℕ → List Message → List Message → List Message
received zero messages rest = []
received (suc n) messages rest = elim (replay_receive messages rest) [
  | none ↦ []
  | some (m, (ms, rs)) ↦ m ∷ received n ms rs
]

-- The first n messages of the connection itself.
unfoldable pub direct : ℕ → List Message → List Message
direct zero ms = []
direct (suc n) [] = []
direct (suc n) (m ∷ ms) = m ∷ direct n ms

-- The parts of the body in some messages.
abbrev pub body_of : List Message → List ℕ
body_of [] = []
body_of (disconnect ∷ ms) = body_of ms
body_of (request chunk more ∷ ms) = chunk ++ body_of ms

-- An HTTP or other scope, with its headers as the server gives them.
pub record Scope : Type 0 where
  pub kind : String
  pub method : String
  pub path : String
  pub headers : List (List ℕ × List ℕ)

-- The value of the last header of that name, as a dict of the headers keeps it.
unfoldable pub last_header : List ℕ → List (List ℕ × List ℕ) → List ℕ → List ℕ
last_header name [] value = value
last_header name ((k, v) ∷ hs) value =
    last_header name hs (if same_bytes (lower k) name then v else value)

-- `json_like` tells whether a text contains "application/json".
unfoldable pub should_inspect : (List ℕ → Bool) → Scope → Bool
unfolding last_header
should_inspect json_like s =
    str_eq s.kind "http"
    && str_eq s.method "POST"
    && (str_eq s.path "/mcp" || str_eq s.path "/mcp/")
    && json_like (last_header (codes "content-type") s.headers [])

-- What `json.loads` does: a value, JSONDecodeError, or an error that nothing here catches.
pub data Loaded : Type 0 where
  value : Json → Loaded
  decode_error other_error : Loaded

abbrev is_null : Json → Bool
is_null null = true
is_null v = false

unfoldable pub null_id : Members → Bool
null_id no_members = false
null_id (member k v ms) = (str_eq k "id" && is_null v) || null_id ms

unfoldable pub any_null_id : Elements → Bool
any_null_id no_elements = false
any_null_id (element (object ms) xs) = null_id ms || any_null_id xs
any_null_id (element v xs) = any_null_id xs

-- `_has_null_id`; none is an error that is raised.
unfoldable pub has_null_id : (List ℕ → Loaded) → List ℕ → Option Bool
has_null_id loads body = elim (loads body) [
  | decode_error ↦ some false
  | other_error ↦ none
  | value v ↦ elim v [
    | array xs ↦ some (any_null_id xs)
    | object ms ↦ some (null_id ms)
    | _ ↦ some false
  ]
]

-- How the guard treats a call: it waits for the rest of the body, or answers with 400, an error, or the application with these messages before the
-- real ones.
pub data Guarded : Type 0 where
  untouched waits bad_request raised : Guarded
  replayed : List Message → List Message → Guarded

unfoldable pub guard_call : (List ℕ → Bool) → (List ℕ → Loaded) → Scope → List Message → Guarded
guard_call json_like loads s ms =
    if should_inspect json_like s
    then elim (read_body ms) [
      | none ↦ waits
      | some r ↦ elim (has_null_id loads r.body) [
        | none ↦ raised
        | some true ↦ bad_request
        | some false ↦ replayed r.messages r.rest
      ]
    ]
    else untouched

-- A JSON object with an id of null, or an array with one in it.
abbrev pub HasNull : Members → Type 0
HasNull no_members = ⊥
HasNull (member k v ms) = ((k ≡ "id") × (v ≡ null)) ⊎ HasNull ms

abbrev pub AnyNull : Elements → Type 0
AnyNull no_elements = ⊥
AnyNull (element (object ms) xs) = HasNull ms ⊎ AnyNull xs
AnyNull (element v xs) = AnyNull xs

abbrev pub HasNullId : Json → Type 0
HasNullId (object ms) = HasNull ms
HasNullId (array xs) = AnyNull xs
HasNullId v = ⊥

-- The text is no JSON, or is without an id of null.
abbrev pub IsClean : Loaded → Type 0
IsClean decode_error = Unit
IsClean other_error = ⊥
IsClean (value v) = ¬ HasNullId v

-- McpCorsMiddleware: the application, a 403, or Starlette's CORS middleware.
pub data Routed : Type 0 where
  plain forbidden through_cors : Routed

abbrev pub origins : Scope → List (List ℕ)
origins s = map (λ h. h.1) (filter (λ h. same_bytes (lower h.0) (codes "origin")) s.headers)

unfoldable pub route : List (List ℕ) → Scope → Routed
route allowed_origins s =
    if not (str_eq s.kind "http") || not (str_eq s.path "/mcp" || str_eq s.path "/mcp/")
    then plain
    else elim (origins s) [
      | [] ↦ through_cors
      | o ∷ [] ↦ if any (same_bytes o) allowed_origins then through_cors else forbidden
      | o ∷ p ∷ more ↦ forbidden
    ]

-- A request that passes the origin check names one origin at most, and an allowed one.
pub route-origins :
    (allowed_origins : List (List ℕ)) (s : Scope)
    → route allowed_origins s ≡ through_cors
    → (length (origins s) ≤ 1) × All (λ o. any (same_bytes o) allowed_origins ≡ true) (origins s)
unfolding route
route-origins allowed_origins s h = go (origins s) refl
  where
    go :
        (os : List (List ℕ))
        → origins s ≡ os
        → (length (origins s) ≤ 1)
          × All (λ o. any (same_bytes o) allowed_origins ≡ true) (origins s)
    go [] e = rw e (omega arith, tt)
    go (o ∷ []) e = rw e (omega arith, (ground (arith, e), tt))
    go (o ∷ p ∷ more) e = absurd (ground (arith, e))
