-- ===== src/Auth/Pipeline.antt =====
-- app/main.py: the order of the middlewares that `create_app` installs, ApiKeyAuthMiddleware outside
-- McpAbuseGuardMiddleware outside ApiKeyQuotaMiddleware, for one request up to the MCP application.
use istanbulmcp.Prelude.{
  ℕ, String, Bool, true, false, ◌≡◌, refl, Option, none, some, List, arith, ◌≢◌, eq_iff,
}
use istanbulmcp.Guard.Clients
use istanbulmcp.Guard.Middleware.{
  Scope, Response, Guard, Entry, passed, refused, admitted, enter, leave, take_slot, client_id,
}
use istanbulmcp.Quota.{DailyQuota, QuotaResult}
use istanbulmcp.Auth.{
  Identity, passes, unauthorized, identified, authenticate, unmetered, within, exhausted,
  store_failed, meter, is_metered,
}

pub record Server : Type 0 where
  pub guard : Guard
  pub quota : Option DailyQuota

pub data Reply : Type 0 where
  unauthorized_401 : Reply
  rejected : Response → Reply
  quota_503 : Reply
  quota_429 : QuotaResult → Reply
  -- the request reaches the JSON-RPC guard and the MCP application
  forwarded : Option QuotaResult → Reply

-- The quota check and what follows, with the slot that is given back when the inner call ends.
unfoldable pub metered : Server → Scope → ℕ → Bool → Server × Reply
metered v s now available =
    let (quota, m) = meter v.quota s now available in
    let v' : Server = record v { quota = quota } in
    elim m [
      | unmetered ↦ (v', forwarded none)
      | within r ↦ (v', forwarded (some r))
      | exhausted r ↦ (v', quota_429 r)
      | store_failed ↦ (v', quota_503)
    ]

-- `now` is the monotonic clock of the guard, `wall` the UTC time of the quota.
unfoldable pub guarded : Server → Scope → ℕ → ℕ → Bool → Server × Reply
guarded v s now wall available =
    let (g, entry) = enter v.guard s now in
    let v' : Server = record v { guard = g } in
    elim entry [
      | passed ↦ metered v' s wall available
      | refused r ↦ (v', rejected r)
      | admitted slot ↦
          let (v'', reply) = metered v' s wall available in
          (record v'' { guard = leave v''.guard slot }, reply)
    ]

module _ (sha256 : List ℕ → String) (hashes : List String) where
  -- `scope[KEY_ID] = matched`
  unfoldable pub handle : Server → Scope → ℕ → ℕ → Bool → Server × Reply
  handle v s now wall available = elim (authenticate sha256 hashes s) [
    | passes ↦ guarded v s now wall available
    | unauthorized ↦ (v, unauthorized_401)
    | identified k ↦ guarded v (record s { key_id = some k }) now wall available
  ]

-- The replies that a request gets before the quota table has answered.
abbrev pub is_unspent : Reply → Bool
is_unspent unauthorized_401 = true
is_unspent (rejected r) = true
is_unspent quota_503 = true
is_unspent (quota_429 r) = false
is_unspent (forwarded r) = false

metered_unspent :
    (v : Server) (s : Scope) (now : ℕ) (ok : Bool)
    → is_unspent (metered v s now ok).1 ≡ true
    → (metered v s now ok).0.quota ≡ v.quota
unfolding metered meter
metered_unspent v s now ok h = ground arith

guard-metered :
    (v : Server) (s : Scope) (now : ℕ) (ok : Bool) → (metered v s now ok).0.guard ≡ v.guard
unfolding metered meter
guard-metered v s now ok = ground arith

abbrev pub busy : Guard → ℕ × ℕ
busy g = (g.concurrency_limiter.current, elim g.listen_limiter [ none ↦ 0 | some l ↦ l.current ])

-- The slots after a request has entered, and left if it was admitted.
abbrev settled : Guard → Entry → Guard
settled g passed = g
settled g (refused r) = g
settled g (admitted t) = leave g t

take_slot-settled :
    (g : Guard) (s : Scope) → busy (settled (take_slot g s).0 (take_slot g s).1) ≡ busy g
unfolding take_slot leave
take_slot-settled g s = ground arith

enter-settled :
    (g : Guard) (s : Scope) (now : ℕ) → busy (settled (enter g s now).0 (enter g s now).1) ≡ busy g
unfolding enter
enter-settled g s now =
    let g' : Guard = record g {
      rate_limiter = (Clients.acquire g.rate_limiter (client_id s) now).0;
    } in
    ground (arith, take_slot-settled g' s)

module _ (v : Server) (s : Scope) (now wall : ℕ) (ok : Bool) where
  abbrev entered : Server
  entered = record v { guard = (enter v.guard s now).0 }

  guarded_unspent :
      is_unspent (guarded v s now wall ok).1 ≡ true → (guarded v s now wall ok).0.quota ≡ v.quota
  unfolding guarded
  guarded_unspent h = ground (arith, metered_unspent entered s wall ok)

  guarded_slots : busy (guarded v s now wall ok).0.guard ≡ busy v.guard
  unfolding guarded
  guarded_slots = go (enter v.guard s now).1 refl
    where
      go :
          (e : Entry)
          → (enter v.guard s now).1 ≡ e
          → busy (guarded v s now wall ok).0.guard ≡ busy v.guard
      go passed q = ground (arith, enter-settled v.guard s now, guard-metered entered s wall ok)
      go (refused r) q = ground (arith, enter-settled v.guard s now)
      go (admitted t) q =
          rw (q, guarded)
            (rw (guard-metered entered s wall ok) (rw q at (enter-settled v.guard s now)))

  metered_forwarded :
      (q : DailyQuota)
      → v.quota ≡ some q
      → is_metered (some q) s ≡ true
      → (metered v s wall ok).1 ≢ forwarded none
  unfolding metered meter
  metered_forwarded q qs m e = ground arith

module _ (v : Server) (s : Scope) (now wall : ℕ) (ok : Bool) where
  guarded_forwarded :
      (q : DailyQuota)
      → v.quota ≡ some q
      → is_metered (some q) s ≡ true
      → (guarded v s now wall ok).1 ≢ forwarded none
  unfolding guarded
  guarded_forwarded q qs m e =
      ground (
        arith,
        metered_forwarded (record v { guard = (enter v.guard s now).0 }) s now wall ok q qs m,
      )

module _ (sha256 : List ℕ → String) (hashes : List String) where
  -- A request that is not authenticated, that the guard turns away, or that meets a failing quota
  -- store uses none of any key's quota.
  pub handle_unspent :
      (v : Server) (s : Scope) (now wall : ℕ) (ok : Bool)
      → is_unspent (handle sha256 hashes v s now wall ok).1 ≡ true
      → (handle sha256 hashes v s now wall ok).0.quota ≡ v.quota
  unfolding handle
  handle_unspent v s now wall ok h = go (authenticate sha256 hashes s) refl
    where
      go :
          (i : Identity)
          → authenticate sha256 hashes s ≡ i
          → (handle sha256 hashes v s now wall ok).0.quota ≡ v.quota
      go passes e = ground (arith, guarded_unspent v s now wall ok)
      go unauthorized e = ground arith
      go (identified k) e =
          ground (arith, guarded_unspent v (record s { key_id = some k }) now wall ok)

  -- Whatever the reply, a request that has ended holds no slot.
  pub handle_slots :
      (v : Server) (s : Scope) (now wall : ℕ) (ok : Bool)
      → busy (handle sha256 hashes v s now wall ok).0.guard ≡ busy v.guard
  unfolding handle
  handle_slots v s now wall ok = go (authenticate sha256 hashes s) refl
    where
      go :
          (i : Identity)
          → authenticate sha256 hashes s ≡ i
          → busy (handle sha256 hashes v s now wall ok).0.guard ≡ busy v.guard
      go passes e = ground (arith, guarded_slots v s now wall ok)
      go unauthorized e = ground arith
      go (identified k) e =
          ground (arith, guarded_slots v (record s { key_id = some k }) now wall ok)

  -- No call of an identified client reaches the application around the quota.
  pub handle_metered :
      (v : Server) (q : DailyQuota) (k : String) (s : Scope) (now wall : ℕ) (ok : Bool)
      → v.quota ≡ some q
      → authenticate sha256 hashes s ≡ identified k
      → s.kind ≡ "http"
      → s.method ≡ "POST"
      → s.path ≡ "/mcp/"
      → (handle sha256 hashes v s now wall ok).1 ≢ forwarded none
  unfolding handle is_metered
  handle_metered v q k s now wall ok qs id http post path e =
      let s' : Scope = record s { key_id = some k } in
      ground (
        arith,
        guarded_forwarded v s' now wall ok q,
        eq_iff s.kind "http",
        eq_iff s.method "POST",
        eq_iff s.path "/mcp/",
      )
