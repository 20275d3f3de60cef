-- ===== src/Guard/Clients.antt =====
-- app/core/abuse_guard.py: ClientBucket and ClientRateLimiter.
-- Times are nanoseconds, rates are millionths of a token per second, and a token is 10 ^ 15 units,
-- so that `elapsed * refill` is exact. The lock makes a call of `acquire` one step.
pub mod Prune
pub mod Room
pub mod Rate
use istanbulmcp.Prelude.{
  ℕ, zero, suc, ◌+◌, ◌-◌, ◌*◌, ◌^◌, ◌≤◌, String, Bool, true, false, ◌&&◌, Option, none, some, List,
  [], ◌∷◌, ltb, leb, if◌then◌else◌, length, max, min, filter, map,
}
use istanbulmcp.Prelude.Dict
use istanbulmcp.Prelude.Dict.{Dict}

abbrev pub token : ℕ
token = 10 ^ 15

abbrev pub second : ℕ
second = 10 ^ 9

pub record ClientBucket : Type 0 where
  pub tokens : ℕ
  pub updated_at : ℕ
  pub last_seen_at : ℕ

pub record ClientRateLimiter : Type 0 where
  pub capacity : ℕ
  pub refill_per_second : ℕ
  pub max_clients : ℕ
  pub clients : Dict ClientBucket

-- `__init__`: 0.001 tokens per second are 1000 millionths.
unfoldable pub init : ℕ → ℕ → ℕ → ClientRateLimiter
init capacity refill max_clients = record {
  capacity = max 1 capacity;
  refill_per_second = max 1000 refill;
  max_clients = max 1 max_clients;
  clients = [];
}

-- The number of units in a full bucket, `float(self.capacity)`.
abbrev pub full : ClientRateLimiter → ℕ
full l = l.capacity * token

-- `last_seen_at < now - max(60.0, capacity / refill_per_second)`, with no division.
unfoldable pub is_stale : ClientRateLimiter → ℕ → ClientBucket → Bool
is_stale l now b =
    ltb (b.last_seen_at + 60 * second) now
    && ltb (b.last_seen_at * l.refill_per_second + full l) (now * l.refill_per_second)

unfoldable pub stale_clients : ClientRateLimiter → ℕ → List String
unfolding is_stale
stale_clients l now = map (λ e. e.0) (filter (λ e. is_stale l now e.1) l.clients)

-- `for client_id in stale: self._clients.pop(client_id, None)`
unfoldable pub pop_all : List String → Dict ClientBucket → Dict ClientBucket
pop_all [] d = d
pop_all (k ∷ ks) d = pop_all ks (Dict.pop k d)

-- `min(self._clients, key=last_seen_at)`: the first of the least.
unfoldable pub oldest_from : String → ClientBucket → Dict ClientBucket → String
oldest_from k b [] = k
oldest_from k b ((j, c) ∷ d) =
    let older = ltb c.last_seen_at b.last_seen_at in
    oldest_from (if older then j else k) (if older then c else b) d

-- The body of the `while`; `min` is never called on an empty dict, since `max_clients` is positive.
unfoldable pub pop_oldest : Dict ClientBucket → Dict ClientBucket
unfolding oldest_from
pop_oldest [] = []
pop_oldest ((k, b) ∷ d) = Dict.pop (oldest_from k b d) ((k, b) ∷ d)

-- `while len(self._clients) >= self.max_clients`, with the number of clients for fuel.
unfoldable pub shrink : ℕ → ℕ → Dict ClientBucket → Dict ClientBucket
shrink zero max_clients d = d
shrink (suc fuel) max_clients d =
    let rest = shrink fuel max_clients (pop_oldest d) in
    if leb max_clients (length d) then rest else d

unfoldable pub prune : ClientRateLimiter → ℕ → Dict ClientBucket
prune l now =
    if ltb (length l.clients) l.max_clients
    then l.clients
    else (let left = pop_all (stale_clients l now) l.clients in
        shrink (length left) l.max_clients left)

-- The bucket that `acquire` works on, and the clients that hold it.
unfoldable pub find_bucket : ClientRateLimiter → String → ℕ → ClientBucket × Dict ClientBucket
find_bucket l client_id now = elim (Dict.get client_id l.clients) [
  | some bucket ↦ (bucket, l.clients)
  | none ↦
      let bucket : ClientBucket = record {
        tokens = full l;
        updated_at = now;
        last_seen_at = now;
      } in
      (bucket, Dict.put client_id bucket (prune l now))
]

unfoldable pub refilled : ClientRateLimiter → ClientBucket → ℕ → ℕ
refilled l b now = min (full l) (b.tokens + (now - b.updated_at) * l.refill_per_second)

-- A delay of `deficit / rate` nanoseconds.
pub record Wait : Type 0 where
  pub deficit : ℕ
  pub rate : ℕ

unfoldable pub acquire : ClientRateLimiter → String → ℕ → ClientRateLimiter × (Bool × Wait)
unfolding find_bucket refilled
acquire l client_id now =
    let (bucket, clients) = find_bucket l client_id now in
    let tokens = refilled l bucket now in
    let left = if leb token tokens then tokens - token else tokens in
    let bucket' : ClientBucket = record { tokens = left; updated_at = now; last_seen_at = now } in
    let l' : ClientRateLimiter = record l { clients = Dict.put client_id bucket' clients } in
    if leb token tokens
    then (l', (true, record { deficit = 0; rate = 1 }))
    else (l', (false, record { deficit = token - tokens; rate = l.refill_per_second }))
