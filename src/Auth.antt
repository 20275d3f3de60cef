-- ===== src/Auth.antt =====
-- app/core/api_auth.py: the check of the configured keys, ApiKeyAuthMiddleware and
-- ApiKeyQuotaMiddleware up to the call of the wrapped application. The digest of hashlib is a
-- parameter.
pub mod Bearer
pub mod Pipeline
use istanbulmcp.Prelude.{
  ℕ, zero, suc, ◌≤◌, String, Bool, true, false, not, ◌&&◌, ◌||◌, Option, none, some, List, [], ◌∷◌,
  map, filter, any, all, ltb, leb, ◌==◌, str_eq, length, if◌then◌else◌,
}
use istanbulmcp.Prelude.Int.{ℤ, leb_ℤ, pos}
use istanbulmcp.Prelude.Bytes.{codes, same_bytes, lower, starts_with}
use istanbulmcp.Guard.Middleware.{Scope, Response}
use istanbulmcp.Quota.{DailyQuota, QuotaResult, consume}

abbrev pub is_alnum : ℕ → Bool
is_alnum c = (leb b'a' c && leb c b'z') || (leb b'A' c && leb c b'Z') || (leb b'0' c && leb c b'9')

-- A character of KEY_PATTERN.
abbrev pub key_char : ℕ → Bool
key_char c = is_alnum c || c == b'.' || c == b'_' || c == b'~' || c == b'-'

-- `KEY_PATTERN.fullmatch(key)`
unfoldable pub matches_key : List ℕ → Bool
matches_key key = all key_char key && leb 32 (length key) && leb (length key) 256

unfoldable pub has_repeat : List (List ℕ) → Bool
unfolding same_bytes
has_repeat [] = false
has_repeat (k ∷ ks) = any (same_bytes k) ks || has_repeat ks

pub data SettingsError : Type 0 where
  keys_required bad_keys bad_quota : SettingsError

pub data Checked : Type 0 where
  valid : Bool → Checked
  invalid : SettingsError → Checked

-- `validate_auth_settings`: whether authentication is on, or the ValueError.
unfoldable pub validate_auth_settings : Bool → List (List ℕ) → ℤ → Checked
unfolding has_repeat matches_key
validate_auth_settings required keys quota =
    let given = ltb 0 (length keys) in
    if required && not given
    then invalid keys_required
    else (if ltb 100 (length keys) || has_repeat keys || any (λ k. not (matches_key k)) keys
        then invalid bad_keys
        else (if leb_ℤ quota (pos 0) && (given || required)
            then invalid bad_quota
            else valid given))

-- `text.split(" ")`
abbrev prepend : ℕ → List (List ℕ) → List (List ℕ)
prepend c [] = (c ∷ []) ∷ []
prepend c (w ∷ ws) = (c ∷ w) ∷ ws

unfoldable pub split_spaces : List ℕ → List (List ℕ)
split_spaces [] = [] ∷ []
split_spaces (c ∷ s) = let rest = split_spaces s in if c == b' ' then [] ∷ rest else prepend c rest

unfoldable pub authorizations : List (List ℕ × List ℕ) → List (List ℕ)
unfolding same_bytes lower
authorizations headers =
    map (λ h. h.1) (filter (λ h. same_bytes (lower h.0) (codes "authorization")) headers)

-- The key of a single well-formed `Bearer` header.
unfoldable pub bearer_parts : List (List ℕ) → Option (List ℕ)
unfolding same_bytes lower matches_key
bearer_parts (scheme ∷ key ∷ []) =
    if same_bytes (lower scheme) (codes "bearer") && matches_key key then some key else none
bearer_parts _ = none

unfoldable pub presented_key : List (List ℕ) → Option (List ℕ)
unfolding split_spaces bearer_parts
presented_key (header ∷ []) = bearer_parts (split_spaces header)
presented_key _ = none

-- The loop over the hashes, with no early exit.
unfoldable pub match_hash : String → List String → Option String → Option String
match_hash candidate [] matched = matched
match_hash candidate (h ∷ hs) matched =
    match_hash candidate hs (if str_eq candidate h then some h else matched)

unfoldable pub is_protected : Scope → Bool
unfolding starts_with
is_protected s =
    str_eq s.path "/status" || str_eq s.path "/mcp" || starts_with (codes "/mcp/") (codes s.path)

pub data Identity : Type 0 where
  passes : Identity
  unauthorized : Identity
  identified : String → Identity

module _ (sha256 : List ℕ → String) where
  -- `__init__`: only digests are kept.
  unfoldable pub key_hashes : List (List ℕ) → List String
  key_hashes = map sha256

  unfoldable pub authenticate : List String → Scope → Identity
  authenticate hashes s =
      if not (str_eq s.kind "http") || not (is_protected s) || length hashes == 0
      then passes
      else elim (presented_key (authorizations s.headers)) [
        | none ↦ unauthorized
        | some key ↦ elim (match_hash (sha256 key) hashes none) [
          | none ↦ unauthorized
          | some h ↦ identified h
        ]
      ]

-- What ApiKeyQuotaMiddleware does with a call.
pub data Metered : Type 0 where
  unmetered : Metered
  within : QuotaResult → Metered
  exhausted : QuotaResult → Metered
  store_failed : Metered

unfoldable pub is_metered : Option DailyQuota → Scope → Bool
is_metered quota s = elim quota [
  | none ↦ false
  | some q ↦
      str_eq s.kind "http"
      && str_eq s.method "POST"
      && str_eq s.path "/mcp/"
      && elim s.key_id [ none ↦ false | some k ↦ true ]
]

abbrev key_of : Scope → String
key_of s = elim s.key_id [ none ↦ "" | some k ↦ k ]

-- `available` tells whether SQLite raises no error; a failing transaction leaves the table alone.
unfoldable pub meter : Option DailyQuota → Scope → ℕ → Bool → Option DailyQuota × Metered
unfolding is_metered
meter none s now available = (none, unmetered)
meter (some q) s now available =
    if is_metered (some q) s
    then (if available
        then (let (q', r) = consume q (key_of s) now in
            (some q', if r.allowed then within r else exhausted r))
        else (some q, store_failed))
    else (some q, unmetered)
