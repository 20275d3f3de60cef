-- ===== src/Services/Water/Chain/Laws.antt =====
-- app/connectors/iski.py, active_faults and dams: which source is taken, and how old a snapshot is.
use mathlib.Core.Path.{subst}
use mathlib.Core.List.{append_assoc, append-nil}
use istanbulmcp.Prelude.{
  ℕ, ◌+◌, ◌-◌, ◌≤◌, String, Bool, true, false, not, ◌≡◌, refl, Option, none, some, List, [], ◌∷◌,
  ◌++◌, All, ◌⊎◌, inl, inr, collect, find?, if◌then◌else◌, arith, ap, ◌∙◌,
}
use istanbulmcp.Services.{Text, Value, dict, array, text, amount, flag, null, get, lookup}
use istanbulmcp.Services.Water.{
  ErrorKind, Result, ok, raises, ok-bind, in_utc, decoded, has_text, relay_cached_at,
  validate_fault_payload, DamReply, dam_rows, marked, Clock, Stamp, naive, aware, SnapshotSettings,
  DatedPayload, replace_z, unwrapped, snapshot_timestamp, snapshot_payload,
}
use istanbulmcp.Services.Water.Chain.{
  is_caught, try_json_source, Settings, Ending, fall_back, fault_mode, after_direct, from_relay,
  validated_faults, active_faults, DamSource, dam_mode, try_dams, dam_sources, dams,
}

-- A request whose exception, if any, is one that the chain catches.
abbrev pub IsCaught : {T : Type 0} → Result T → Type 0
IsCaught (ok v) = Unit
IsCaught (raises e) = is_caught e ≡ true

-- What a source offers: a body and the mode it stands for.
abbrev pub offer : String → Result DamReply → Option (String × DamReply)
offer mode (ok r) = some (dam_mode mode r, r)
offer mode (raises e) = none

abbrev pub offers : List DamSource → List (String × DamReply)
offers = collect (λ s. offer s.0 s.1)

abbrev pub stale_error : Result DamReply → List ErrorKind
stale_error (ok r) = []
stale_error (raises e) = e ∷ []

abbrev pub errors_of : List DamSource → List ErrorKind
errors_of [] = []
errors_of (s ∷ ss) = stale_error s.1 ++ errors_of ss

-- The first fresh offer, else the first, marked stale, else the snapshot.
abbrev pub chosen :
    Clock
    → SnapshotSettings
    → List ErrorKind
    → Option (String × DamReply)
    → Option (String × DamReply)
    → Ending (List Value)
chosen clock settings errors (some (mode, r)) first = (ok r.rows, marked mode r.cached_at false)
chosen clock settings errors none (some (mode, r)) = (ok r.rows, marked mode r.cached_at true)
chosen clock settings errors none none = fall_back clock settings dam_rows errors

abbrev pub is_fresh : String × DamReply → Bool
is_fresh r = not r.1.is_stale

abbrev pub first_of :
    Option (String × DamReply) → List (String × DamReply) → Option (String × DamReply)
first_of (some r) rs = some r
first_of none [] = none
first_of none (r ∷ rs) = some r

module _ (clock : Clock) (settings : SnapshotSettings) where
  -- The loop over the sources of dam levels takes the first fresh reply; without one the first stale
  -- reply, which it marks as stale; and without any the snapshot or the last error.
  pub try_dams-chosen :
      (held : Option (String × DamReply)) (errors : List ErrorKind) (sources : List DamSource)
      → All (λ s. IsCaught s.1) sources
      → try_dams clock settings held errors sources
        ≡ chosen clock settings
            (errors ++ errors_of sources)
            (find? is_fresh (offers sources))
            (first_of held (offers sources))
  unfolding try_dams try_json_source
  try_dams-chosen (some (mode, r)) errors [] a = refl
  try_dams-chosen none errors [] a = rw (append-nil errors) refl
  try_dams-chosen none errors ((mode, ok r) ∷ sources) a =
      let rest = try_dams-chosen (some (dam_mode mode r, r)) errors sources a.1 in
      ground (arith, rest)
  try_dams-chosen (some (m, s)) errors ((mode, ok r) ∷ sources) a =
      let rest = try_dams-chosen (some (m, s)) errors sources a.1 in ground (arith, rest)
  try_dams-chosen held errors ((mode, raises e) ∷ sources) a =
      let rest = try_dams-chosen held (errors ++ e ∷ []) sources a.1 in
      let longer = append_assoc errors (e ∷ []) (errors_of sources) in
      rw (try_dams, a.0)
        (rest
          ∙ ap
              (λ l.
                chosen clock settings l (find? is_fresh (offers sources))
                  (first_of held (offers sources)))
              longer)

-- What a source of faults offers, and the error that it leaves.
abbrev pub body_of : String → Result Value → List (Ending Value)
body_of mode (ok v) = (ok v, marked mode none false) ∷ []
body_of mode (raises e) = []

abbrev pub relay_body : Bool → Result Value → List (Ending Value)
relay_body stale (raises e) = []
relay_body stale (ok v) =
    let is_stale = has_text "relay_cache_status" "stale" v in
    let reply : Ending Value = (ok v, marked (fault_mode v) (relay_cached_at v) stale) in
    if stale then (if is_stale then reply ∷ [] else []) else (if is_stale then [] else reply ∷ [])

abbrev pub failed : Result Value → List ErrorKind
failed (ok v) = []
failed (raises e) = e ∷ []

abbrev pub first_or : Ending Value → List (Ending Value) → Ending Value
first_or d [] = d
first_or d (x ∷ xs) = x

abbrev pub if_set {ℓ} : {T : Type ℓ} → Bool → List T → List T
if_set test xs = if test then xs else []

module _ (clock : Clock) (settings : Settings) where
  module _ (relay official direct : Result Value) where
    -- The replies of the sources that are configured, best first: a stale one of the relay comes last.
    abbrev pub usable : List (Ending Value)
    usable =
        if_set settings.has_relay (relay_body false relay)
        ++ if_set settings.has_api_token (body_of "official_api" official)
        ++ body_of "live_geojson" direct
        ++ if_set settings.has_relay (relay_body true relay)

    abbrev pub failures : List ErrorKind
    failures =
        if_set settings.has_relay (failed relay)
        ++ if_set settings.has_api_token (failed official)
        ++ failed direct

  from_relay-first :
      (relay official direct : Result Value)
      → IsCaught relay
      → IsCaught official
      → IsCaught direct
      → from_relay clock settings official direct relay
        ≡ first_or
            (fall_back clock settings.snapshot validate_fault_payload
              (failures relay official direct))
            (usable relay official direct)
  unfolding from_relay after_direct
  from_relay-first (ok x) (ok y) (ok z) r o d = ground arith
  from_relay-first (ok x) (ok y) (raises g) r o d = ground arith
  from_relay-first (ok x) (raises f) (ok z) r o d = ground arith
  from_relay-first (ok x) (raises f) (raises g) r o d = ground arith
  from_relay-first (raises e) (ok y) (ok z) r o d = ground arith
  from_relay-first (raises e) (ok y) (raises g) r o d = ground arith
  from_relay-first (raises e) (raises f) (ok z) r o d = ground arith
  from_relay-first (raises e) (raises f) (raises g) r o d = ground arith

  -- Where no request raises an exception that the chain does not catch, the faults are those of the
  -- best source that answers: a fresh reply of the relay, the official API, the public map, a stale
  -- reply of the relay, marked as stale; and only without any of these the snapshot or the last error.
  pub active_faults-first :
      (relay official direct : Result Value)
      → IsCaught (validated_faults relay)
      → IsCaught (validated_faults official)
      → IsCaught (validated_faults direct)
      → active_faults clock settings relay official direct
        ≡ first_or
            (fall_back clock settings.snapshot validate_fault_payload (
              failures
                (validated_faults relay)
                (validated_faults official)
                (validated_faults direct)))
            (usable (validated_faults relay) (validated_faults official) (validated_faults direct))
  unfolding active_faults
  active_faults-first relay official direct r o d =
      from_relay-first (validated_faults relay) (validated_faults official)
        (validated_faults direct) r o d

  -- Where no request raises an exception that the chain does not catch, the dam levels are the first
  -- fresh reply; without one the first stale reply, marked as stale; and without any reply the
  -- snapshot or the last error.
  pub dams-chosen :
      (relay official direct : Result Value)
      → All (λ s. IsCaught s.1) (dam_sources settings relay official direct)
      → dams clock settings relay official direct
        ≡ chosen clock settings.snapshot
            (errors_of (dam_sources settings relay official direct))
            (find? is_fresh (offers (dam_sources settings relay official direct)))
            (first_of none (offers (dam_sources settings relay official direct)))
  unfolding dams
  dams-chosen relay official direct a =
      try_dams-chosen clock settings.snapshot none [] (dam_sources settings relay official direct) a

decoded-ok : (o : Option Value) (v : Value) → decoded o ≡ ok v → o ≡ some v
decoded-ok none v h = absurd (ground arith)
decoded-ok (some x) v h = ground (arith, h)

in_utc-ok : (t : Stamp) (n : ℕ) → in_utc (some t) ≡ ok n → t ≡ aware n
in_utc-ok naive n h = absurd (ground arith)
in_utc-ok (aware m) n h = ground (arith, h)

-- The payload and its time: those of a wrapper, or the whole with the configured time.
abbrev pub IsUnwrapped : Value → Value → Value → Value → Type 0
IsUnwrapped (dict ms) configured payload stamp =
    ((lookup "payload" ms ≡ some payload) × (stamp ≡ get "captured_at" ms))
    ⊎ ((lookup "payload" ms ≡ none) × (payload ≡ dict ms) × (stamp ≡ configured))
IsUnwrapped v configured payload stamp = (payload ≡ v) × (stamp ≡ configured)

unwrapped-IsUnwrapped :
    (v configured : Value)
    → IsUnwrapped v configured (unwrapped v configured).0 (unwrapped v configured).1
unfolding unwrapped
unwrapped-IsUnwrapped (dict ms) configured = go (lookup "payload" ms) refl
  where
    go :
        (o : Option Value)
        → lookup "payload" ms ≡ o
        → IsUnwrapped
            (dict ms)
            configured
            (unwrapped (dict ms) configured).0
            (unwrapped (dict ms) configured).1
    go none e = rw (unwrapped, e) (inr (refl, refl, refl))
    go (some p) e = rw (unwrapped, e) (inl (refl, refl))
unwrapped-IsUnwrapped (array vs) configured = (refl, refl)
unwrapped-IsUnwrapped (text t) configured = (refl, refl)
unwrapped-IsUnwrapped (amount x) configured = (refl, refl)
unwrapped-IsUnwrapped (flag b) configured = (refl, refl)
unwrapped-IsUnwrapped null configured = (refl, refl)

-- The time that a text stands for, with its time zone.
abbrev pub IsTime : Clock → Value → ℕ → Type 0
IsTime clock (text t) n = clock.fromisoformat (replace_z t) ≡ some (aware n)
IsTime clock v n = ⊥

in_utc-some : (o : Option Stamp) (n : ℕ) → in_utc o ≡ ok n → o ≡ some (aware n)
in_utc-some none n h = absurd (ground arith)
in_utc-some (some naive) n h = absurd (ground arith)
in_utc-some (some (aware m)) n h = ground (arith, h)

snapshot_timestamp-IsTime :
    (clock : Clock) (v : Value) (n : ℕ) → snapshot_timestamp clock v ≡ ok n → IsTime clock v n
unfolding snapshot_timestamp
snapshot_timestamp-IsTime clock (text t) n h =
    in_utc-some (clock.fromisoformat (replace_z t)) n (ground (arith, h))
snapshot_timestamp-IsTime clock (dict ms) n h = absurd (ground (arith, h))
snapshot_timestamp-IsTime clock (array vs) n h = absurd (ground (arith, h))
snapshot_timestamp-IsTime clock (amount x) n h = absurd (ground (arith, h))
snapshot_timestamp-IsTime clock (flag b) n h = absurd (ground (arith, h))
snapshot_timestamp-IsTime clock null n h = absurd (ground (arith, h))

-- A snapshot that is used has the payload and the time of its wrapper, or is the whole with the
-- configured time; it was captured before now and within its age window, and `remaining` is what is
-- left of the window.
pub snapshot_payload_sound :
    (clock : Clock) (settings : SnapshotSettings) (raw_json : Text) (s : DatedPayload)
    → snapshot_payload clock settings raw_json ≡ ok s
    → (now captured : ℕ) × (whole stamp : Value) × (clock.now ≡ aware now)
      × (clock.loads raw_json ≡ some whole)
      × IsUnwrapped whole settings.captured_at s.payload stamp
      × IsTime clock stamp captured
      × (captured ≤ now)
      × (s.captured_at ≡ clock.isoformat captured)
      × ((now - captured) + s.remaining ≡ settings.max_age)
unfolding snapshot_payload
snapshot_payload_sound clock settings raw_json s h =
    let (whole, w, h1) = ok-bind (decoded (clock.loads raw_json)) _ s h in
    let (captured, c, h2) =
      ok-bind (snapshot_timestamp clock (unwrapped whole settings.captured_at).1) _ s h1 in
    let (now, n, h3) = ok-bind (in_utc (some clock.now)) _ s h2 in
    let content : (unwrapped whole settings.captured_at).0 ≡ s.payload = ground (arith, h3) in
    let stamp = (unwrapped whole settings.captured_at).1 in
    (
      now,
      captured,
      whole,
      stamp,
      in_utc-ok clock.now now n,
      decoded-ok (clock.loads raw_json) whole w,
      subst (λ p. IsUnwrapped whole settings.captured_at p stamp) content
          (unwrapped-IsUnwrapped whole settings.captured_at),
      snapshot_timestamp-IsTime clock stamp captured c,
      ground (arith, h3),
      ground (arith, h3),
      ground (arith, h3),
    )
