-- ===== src/Tests/Auth.antt =====
-- The authentication middlewares at concrete requests.
use istanbulmcp.Prelude.{ℕ, String, ◌≡◌, refl, true, false, some, none, List, [], ◌∷◌, ◌++◌, map}
use istanbulmcp.Prelude.Bytes.{codes, same_bytes}
use istanbulmcp.Prelude.Dict
use istanbulmcp.Guard.Clients
use istanbulmcp.Guard.Clients.{prune}
use istanbulmcp.Guard.Middleware.{
  Scope, enter, take_slot, should_guard, too_long, content_length, client_id,
  is_notification_stream,
}
use istanbulmcp.Tests.Guard.{guard}
use istanbulmcp.Auth.{
  authenticate, key_hashes, identified, authorizations, presented_key, is_protected, matches_key,
  match_hash, meter,
}
use istanbulmcp.Auth.Bearer.{IsPresented, Member, authenticate_accepts, authenticate_sound}
use istanbulmcp.Auth.Pipeline.{Server, handle, is_unspent, guarded, metered}

-- A digest that tells one key from the others is enough here.
abbrev digest : List ℕ → String
digest key = "digest"

abbrev key : List ℕ
key = codes "0123456789abcdef0123456789abcdef"

abbrev request : Scope
request = record {
  kind = "http";
  method = "POST";
  path = "/mcp/";
  headers = (codes "Authorization", codes "Bearer " ++ key) ∷ [];
  client = none;
  key_id = none;
}

request_identified :
    authenticate digest (key_hashes digest (key ∷ [])) request ≡ identified "digest"
unfolding is_protected authorizations matches_key same_bytes
request_identified = authenticate_accepts digest (key ∷ []) request key refl refl refl refl refl

authenticate_accepts_example :
    authenticate digest (key_hashes digest (key ∷ [])) request ≡ identified "digest"
unfolding is_protected authorizations matches_key same_bytes
authenticate_accepts_example =
    authenticate_accepts digest (key ∷ []) request key refl refl refl refl refl

authenticate_sound_example :
    (k : List ℕ) × IsPresented (authorizations request.headers) k
    × (request.kind ≡ "http")
    × (is_protected request ≡ true)
    × ("digest" ≡ digest k)
    × Member "digest" (map digest (key ∷ []))
authenticate_sound_example =
    authenticate_sound digest (key ∷ []) request "digest" request_identified

abbrev server : Server
server = record { guard = guard; quota = some (record { limit = 5; rows = [] }) }

abbrev hashes : List String
hashes = "digest" ∷ []

-- The store fails after the guard has let the request in.
store_fails :
    is_unspent (handle digest (key_hashes digest (key ∷ [])) server request 3 4 false).1 ≡ true
unfolding handle authenticate is_notification_stream is_protected authorizations presented_key
    match_hash key_hashes same_bytes guarded metered meter enter take_slot should_guard too_long
    content_length client_id Clients.acquire Dict.get prune Dict.put
store_fails = refl
