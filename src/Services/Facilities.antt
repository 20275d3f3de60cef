-- ===== src/Services/Facilities.antt =====
-- app/services/social_facilities.py, _load_snapshot, with canonical_identity of
-- app/connectors/social_facilities.py. Counts are natural numbers; the addresses and dates that the
-- payload carries along are left out.
pub mod Laws
use istanbulmcp.Prelude.{
  ℕ, zero, suc, ◌+◌, ◌-◌, String, Bool, true, false, not, ◌&&◌, ◌||◌, ◌==◌, ltb, leb, max, Option,
  none, some, List, [], ◌∷◌, ◌++◌, map, any, length, if◌then◌else◌,
}
use istanbulmcp.Prelude.Int.{pos, pos_part, neg_part}
use istanbulmcp.Prelude.Bytes.{codes, same_bytes, strip, starts_with}
use istanbulmcp.Timetable.Search.{words, join_words}
use istanbulmcp.Validation.{Float, nan, number, le_float, between}
use istanbulmcp.Services.{
  Text, Value, dict, get, truthy, Python, str_of, non_empty, or_empty, normalize_place,
}

-- `urljoin`, `urlparse`, `_replace(scheme="https").geturl()` and `str.lower`.
pub record Urls : Type 0 where
  pub urljoin : Text → Text → Text
  pub scheme : Text → Text
  pub netloc : Text → Text
  pub hostname : Text → Option Text
  pub with_https : Text → Text
  pub lower : Text → Text

pub record FacilityRow : Type 0 where
  pub name : Text
  pub latitude : Float
  pub longitude : Float
  pub source_id : Option Text
  pub district : Option Text
  pub address : Option Text
  pub detail_url : Option Text
  pub reservation_url : Option Text
  pub identity_conflict : Bool

-- `_normalize_row`: a row, or the reason for leaving it out.
pub data Normalized : Type 0 where
  valid : FacilityRow → Normalized
  is_invalid : Normalized
  out_of_scope : Normalized

abbrev pub in_istanbul : Float → Float → Bool
in_istanbul lat lon =
    le_float (number (pos 40700000000)) lat
    && le_float lat (number (pos 41500000000))
    && le_float (number (pos 27800000000)) lon
    && le_float lon (number (pos 30200000000))

module _ (py : Python) where
  -- `str(value or "").strip() or None`
  unfoldable pub text_of : Value → Option Text
  unfolding truthy strip
  text_of v = if truthy v then non_empty (strip (str_of py v)) else none

  unfoldable pub url_of : Value → Option Text
  unfolding text_of starts_with
  url_of v = elim (text_of v) [
    | none ↦ none
    | some t ↦
        if starts_with (codes "http://") t || starts_with (codes "https://") t then some t else none
  ]

  unfoldable pub coordinate : ℕ → Value → Option Float
  coordinate bound v = elim (py.to_float v) [
    | none ↦ none
    | some x ↦ if between bound x then some x else none
  ]

  abbrev pub in_scope : FacilityRow → Normalized
  in_scope row = if in_istanbul row.latitude row.longitude then valid row else out_of_scope

  unfoldable pub normalize_row : Value → Normalized
  unfolding get text_of url_of coordinate
  normalize_row (dict raw) = elim (text_of (get "name" raw)) [
    | none ↦ is_invalid
    | some name ↦ elim (coordinate 90 (get "latitude" raw)) [
      | none ↦ is_invalid
      | some lat ↦ elim (coordinate 180 (get "longitude" raw)) [
        | none ↦ is_invalid
        | some lon ↦ in_scope (record {
          name = name;
          latitude = lat;
          longitude = lon;
          source_id = text_of (get "source_id" raw);
          district = text_of (get "district" raw);
          address = text_of (get "address" raw);
          detail_url = url_of (get "detail_url" raw);
          reservation_url = url_of (get "reservation_url" raw);
          identity_conflict = false;
        })
      ]
    ]
  ]
  normalize_row v = is_invalid

  abbrev pub letter_or_digit : ℕ → Bool
  letter_or_digit c = (leb b'a' c && leb c b'z') || (leb b'0' c && leb c b'9')

  unfoldable pub name_words : Text → List Text
  unfolding words normalize_place
  name_words t = words (map (λ c. if letter_or_digit c then c else b' ') (normalize_place py t))

  -- A whole word that is an abbreviation, written out.
  abbrev pub written_out : Text → Text
  written_out w =
      if same_bytes w (codes "cd") || same_bytes w (codes "cad")
      then codes "caddesi"
      else if same_bytes w (codes "sk") || same_bytes w (codes "sok")
      then codes "sokagi"
      else if same_bytes w (codes "mh") || same_bytes w (codes "mah")
      then codes "mahallesi"
      else w

  unfoldable pub normalize_name : Text → Text
  unfolding name_words join_words
  normalize_name t = join_words (name_words t)

  unfoldable pub normalize_address : Option Text → Text
  unfolding name_words join_words
  normalize_address t = join_words (map written_out (name_words (or_empty t)))

  module _ (urls : Urls) where
    abbrev pub is_own_host : Option Text → Bool
    is_own_host none = false
    is_own_host (some h) =
        same_bytes h (codes "tesislerimiz.ibb.istanbul")
        || same_bytes h (codes "www.tesislerimiz.ibb.istanbul")

    abbrev pub resolved_url : Text → Option Text
    resolved_url url =
        let is_web =
          same_bytes (urls.scheme url) (codes "http")
          || same_bytes (urls.scheme url) (codes "https") in
        if not is_web || length (urls.netloc url) == 0
        then none
        else some (if is_own_host (urls.hostname url) then urls.with_https url else url)

    unfoldable pub canonical_url : Option Text → Option Text
    unfolding strip
    canonical_url none = none
    canonical_url (some value) =
        if length (strip value) == 0
        then none
        else resolved_url
            (urls.urljoin (codes "https://tesislerimiz.ibb.istanbul/tesisler") (strip value))

    -- `url.rstrip("/")`
    unfoldable pub strip_slashes : Text → Text
    strip_slashes [] = []
    strip_slashes (c ∷ t) =
        let rest = strip_slashes t in if c == b'/' && length rest == 0 then [] else c ∷ rest

    -- Each way to name a facility has a prefix of its own; a row of the service has coordinates.
    unfoldable pub canonical_identity : FacilityRow → Text
    unfolding words join_words canonical_url strip_slashes normalize_name normalize_address
    canonical_identity row =
        let source_id = join_words (words (or_empty row.source_id)) in
        let name = normalize_name row.name in
        let address = normalize_address row.address in
        if not (length source_id == 0)
        then codes "id:" ++ source_id
        else elim (canonical_url row.detail_url) [
          | some url ↦ codes "url:" ++ urls.lower (strip_slashes url)
          | none ↦
              if not (length address == 0)
              then codes "name-address:" ++ name ++ (b'|' ∷ address)
              else codes "name-coord:"
                ++ name
                ++ (b'|' ∷ py.fixed 5 row.latitude)
                ++ (b'|' ∷ py.fixed 5 row.longitude)
        ]

  -- Whether two coordinates lie more than 0.00001 degrees apart.
  abbrev pub differs : Float → Float → Bool
  differs (number a) (number b) =
      let x = pos_part a + neg_part b in
      let y = pos_part b + neg_part a in ltb 10000 ((x - y) + (y - x))
  differs nan b = false
  differs (number a) nan = false

  abbrev pub other_address : Option Text → Option Text → Bool
  other_address (some a) (some b) = not (same_bytes (py.casefold a) (py.casefold b))
  other_address none b = false
  other_address (some a) none = false

  unfoldable pub is_conflict : FacilityRow → FacilityRow → Bool
  is_conflict left right =
      differs left.latitude right.latitude
      || differs left.longitude right.longitude
      || other_address left.address right.address

abbrev pub is_missing : Option Text → Bool
is_missing none = true
is_missing (some t) = false

abbrev pub lacks_optional : FacilityRow → Bool
lacks_optional r =
    is_missing r.district
    || is_missing r.address
    || is_missing r.detail_url
    || is_missing r.reservation_url

-- The variables of the loop; `identity_rows` maps an identity to its first row.
pub record Tally : Type 0 where
  pub accepted : List FacilityRow
  pub identity_rows : List (Text × FacilityRow)
  pub invalid_total : ℕ
  pub out_of_scope_total : ℕ
  pub duplicate_total : ℕ
  pub identity_conflict_total : ℕ
  pub missing_optional_total : ℕ

abbrev pub first_row : Text → List (Text × FacilityRow) → Option FacilityRow
first_row key [] = none
first_row key ((k, r) ∷ rest) = if same_bytes k key then some r else first_row key rest

module _ (py : Python) (urls : Urls) where
  -- The body of the loop, on a valid row and the earlier row of its identity.
  unfoldable pub add_row : Tally → Text → FacilityRow → Option FacilityRow → Tally
  unfolding is_conflict
  add_row t identity row (some previous) =
      if is_conflict py previous row
      then record t {
        identity_conflict_total = t.identity_conflict_total + 1;
        accepted = t.accepted ++ record row { identity_conflict = true } ∷ [];
      }
      else record t { duplicate_total = t.duplicate_total + 1 }
  add_row t identity row none = record t {
    identity_rows = t.identity_rows ++ (identity, row) ∷ [];
    missing_optional_total =
        if lacks_optional row then t.missing_optional_total + 1 else t.missing_optional_total;
    accepted = t.accepted ++ row ∷ [];
  }

  unfoldable pub count_row : Tally → Normalized → Tally
  unfolding add_row canonical_identity
  count_row t is_invalid = record t { invalid_total = t.invalid_total + 1 }
  count_row t out_of_scope = record t {
    invalid_total = t.invalid_total + 1;
    out_of_scope_total = t.out_of_scope_total + 1;
  }
  count_row t (valid row) =
      let identity = canonical_identity py urls row in
      add_row t identity row (first_row identity t.identity_rows)

  unfoldable pub count_rows : Tally → List Value → Tally
  unfolding count_row normalize_row
  count_rows t [] = t
  count_rows t (raw ∷ raws) = count_rows (count_row t (normalize_row py raw)) raws

pub record Payload : Type 0 where
  pub rows : List Value
  pub reported_total : Option ℕ
  pub received_total : ℕ
  pub skipped_total : ℕ
  pub duplicate_total : ℕ

pub record Totals : Type 0 where
  pub reported_total : ℕ
  pub received_total : ℕ
  pub accepted_total : ℕ
  pub skipped_total : ℕ
  pub duplicate_total : ℕ
  pub invalid_total : ℕ
  pub out_of_scope_total : ℕ
  pub identity_conflict_total : ℕ
  pub missing_optional_total : ℕ

abbrev pub start : ℕ → Tally
start duplicates = record {
  accepted = [];
  identity_rows = [];
  invalid_total = 0;
  out_of_scope_total = 0;
  duplicate_total = duplicates;
  identity_conflict_total = 0;
  missing_optional_total = 0;
}

-- `int(payload.reported_total) if payload.reported_total is not None else len(payload.rows)`
abbrev pub reported : Payload → ℕ
reported payload = elim payload.reported_total [ some n ↦ n | none ↦ length payload.rows ]

-- The totals behind the loop. A count that would be negative loses against the payload's.
unfoldable pub totals : Payload → Tally → Totals
totals payload t =
    let accepted = length t.accepted in
    let skipped = max payload.skipped_total ((reported payload - accepted) - t.duplicate_total) in
    let sum = accepted + skipped + t.duplicate_total in
    record {
      reported_total = if ltb (reported payload) sum then sum else reported payload;
      received_total =
          if payload.received_total == 0 then length payload.rows else payload.received_total;
      accepted_total = accepted;
      skipped_total = skipped;
      duplicate_total = t.duplicate_total;
      invalid_total = t.invalid_total;
      out_of_scope_total = t.out_of_scope_total;
      identity_conflict_total = t.identity_conflict_total;
      missing_optional_total = t.missing_optional_total;
    }

unfoldable pub load_snapshot : Python → Urls → Payload → List FacilityRow × Totals
unfolding count_rows totals
load_snapshot py urls payload =
    let t = count_rows py urls (start payload.duplicate_total) payload.rows in
    (t.accepted, totals payload t)
