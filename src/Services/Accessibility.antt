-- ===== src/Services/Accessibility.antt =====
-- app/services/metro_accessibility.py: the rows of equipment faults and their filters, and
-- _normalize_token of app/connectors/metro.py.
pub mod Status
pub mod Rows
use istanbulmcp.Prelude.{
  ℕ, zero, suc, ◌+◌, ◌-◌, String, Bool, true, false, not, ◌&&◌, ◌||◌, ◌==◌, Option, none, some,
  List, [], ◌∷◌, ◌++◌, map, filter, any, find?, collect, length, if◌then◌else◌,
}
use istanbulmcp.Prelude.Int.{ℤ, pos}
use istanbulmcp.Prelude.Bytes.{codes, same_bytes, strip}
use istanbulmcp.Prelude.Sort.{sort}
use istanbulmcp.Prelude.Rows.{Part, le_by, le_texts, unique}
use istanbulmcp.Timetable.Search.{words, join_words, occurs_in}
use istanbulmcp.Validation.{
  Validated, raises, accepts, invalid, require, ◌>>=◌, ◌>>◌, validate_text, validate_limit,
}
use istanbulmcp.Services.{Text, Python, non_empty, or_empty}

-- `.replace("i\u0307", "i")`
unfoldable pub without_dots : Text → Text
without_dots [] = []
without_dots (c ∷ []) = c ∷ []
without_dots (c ∷ d ∷ t) =
    let plain = c ∷ without_dots t in
    let rest = c ∷ without_dots (d ∷ t) in if c == b'i' && d == 775 then plain else rest

-- The other replacements: a letter with a mark becomes the letter.
abbrev pub plain_letter : ℕ → ℕ
plain_letter c =
    if c == 246
    then b'o'
    else if c == 252 || c == 251
    then b'u'
    else if c == 231
    then b'c'
    else if c == 351
    then b's'
    else if c == 287
    then b'g'
    else if c == 226
    then b'a'
    else if c == 238
    then b'i'
    else c

abbrev pub equipment_types : List Text
equipment_types =
    codes "line"
    ∷ codes "station"
    ∷ codes "entrance_exit"
    ∷ codes "escalator"
    ∷ codes "moving_walkway"
    ∷ codes "elevator"
    ∷ codes "restroom"
    ∷ codes "prayer_room"
    ∷ codes "baby_care_room"
    ∷ codes "accessible_platform"
    ∷ []

abbrev pub equipment_labels : List (Text × Text)
equipment_labels =
    (codes "asansor", codes "elevator")
    ∷ (codes "asansorler", codes "elevator")
    ∷ (codes "yuruyen merdiven", codes "escalator")
    ∷ (codes "yuruyen merdivenler", codes "escalator")
    ∷ (codes "merdiven", codes "escalator")
    ∷ (codes "yuruyen bant", codes "moving_walkway")
    ∷ (codes "yuruyen bantlar", codes "moving_walkway")
    ∷ (codes "giris cikis", codes "entrance_exit")
    ∷ (codes "giris cikislar", codes "entrance_exit")
    ∷ (codes "tuvalet", codes "restroom")
    ∷ (codes "tuvaletler", codes "restroom")
    ∷ (codes "mescit", codes "prayer_room")
    ∷ (codes "bebek bakim odasi", codes "baby_care_room")
    ∷ (codes "engelli platformu", codes "accessible_platform")
    ∷ (codes "engelli platformlar", codes "accessible_platform")
    ∷ (codes "platform", codes "accessible_platform")
    ∷ []

abbrev pub line_aliases : List (Text × List Text)
line_aliases =
    (
      codes "m1",
      codes "yenikapi-haciosman"
          ∷ codes "yenikapi-otogar"
          ∷ codes "yenikapi-otogar-ataturk havalimani"
          ∷ [],
    )
    ∷ (
      codes "m1a",
      codes "otogar-ataturk havalimani" ∷ codes "yenikapi-otogar-ataturk havalimani" ∷ [],
    )
    ∷ (codes "m2", codes "yenikapi-haciosman" ∷ [])
    ∷ (codes "m3", codes "kirazli-basaksehir" ∷ [])
    ∷ (codes "m4", codes "kadikoy-sabiha gokcen" ∷ codes "kadikoy-istanbul havalimani" ∷ [])
    ∷ (codes "m5", codes "uskudar-sancaktepe" ∷ codes "uskudar-samandira" ∷ [])
    ∷ (codes "m6", codes "levent-bogazici universitesi" ∷ [])
    ∷ (codes "m7", codes "yildiz-mahmutbey" ∷ [])
    ∷ (codes "m8", codes "bostanci-parsel mahallesi" ∷ [])
    ∷ (codes "m9", codes "atakoy-iktelli" ∷ [])
    ∷ []

-- `table.get(key)` of a dict of texts.
abbrev pub looked_up {ℓ} : {T : Type ℓ} → Text → List (Text × T) → Option T
looked_up key [] = none
looked_up key ((k, v) ∷ rest) = if same_bytes k key then some v else looked_up key rest

-- A row of the fault page. Members that no code reads are left out.
pub record Fault : Type 0 where
  pub source_fault_id : Option Text
  pub source_line_id : Option Text
  pub source_station_id : Option Text
  pub source_equipment_code : Option Text
  pub line_code : Option Text
  pub line_label : Option Text
  pub station_name : Option Text
  pub equipment_type : Option Text
  pub location_description : Option Text
  pub reason : Option Text
  pub expected_return : Option Text
  pub status : Option Text

abbrev pub fault_identity : Fault → List Part
fault_identity f =
    f.source_fault_id ∷ f.source_line_id ∷ f.source_station_id ∷ f.source_equipment_code
    ∷ f.line_code ∷ f.station_name ∷ f.equipment_type ∷ f.location_description ∷ f.reason
    ∷ f.expected_return ∷ f.status ∷ []

abbrev pub is_blank : Option Text → Bool
is_blank t = length (or_empty t) == 0

unfoldable pub token_or_none : Option Text → Option Text
unfolding strip
token_or_none none = none
token_or_none (some t) = non_empty (strip t)

module _ (py : Python) where
  unfoldable pub normalize_token : Text → Text
  unfolding words join_words without_dots strip
  normalize_token value =
      let lowered = map (λ c. if c == 305 then b'i' else c) (py.casefold (strip value)) in
      join_words (words (map plain_letter (without_dots lowered)))

  -- `_canonical_equipment`, and `_normalize_type_token` where the text itself is the last resort.
  unfoldable pub equipment_key : Text → Text → Text
  equipment_key norm otherwise =
      if any (same_bytes norm) equipment_types
      then norm
      else elim (looked_up norm equipment_labels) [ none ↦ otherwise | some key ↦ key ]

  abbrev pub canonical_equipment : Option Text → Option Text
  canonical_equipment none = none
  canonical_equipment (some t) = some (equipment_key (normalize_token t) t)

  abbrev pub normalize_type_token : Text → Text
  normalize_type_token t = equipment_key (normalize_token t) (normalize_token t)

  -- None is a row with neither a station nor a kind of equipment, tested raw and then stripped.
  unfoldable pub normalize_fault : Fault → Option Fault
  unfolding token_or_none equipment_key normalize_token
  normalize_fault f =
      let station = token_or_none f.station_name in
      let label = token_or_none f.equipment_type in
      if (is_blank f.station_name && is_blank f.equipment_type)
        || (is_blank station && is_blank label)
      then none
      else some (record f { station_name = station; equipment_type = canonical_equipment label })

  -- What `_accepted_fault_rows` returns: the rows, and how many were skipped and repeated.
  pub record Accepted : Type 0 where
    pub rows : List Fault
    pub skipped : ℕ
    pub duplicate_total : ℕ

  unfoldable pub skipped_rows : List Fault → ℕ
  unfolding normalize_fault
  skipped_rows [] = 0
  skipped_rows (f ∷ fs) =
      let rest = skipped_rows fs in elim (normalize_fault f) [ none ↦ rest + 1 | some g ↦ rest ]

  unfoldable pub accepted_fault_rows : List Fault → Accepted
  unfolding unique normalize_fault skipped_rows
  accepted_fault_rows raw =
      let accepted = collect normalize_fault raw in
      let deduped = unique fault_identity accepted in
      record {
        rows = deduped;
        skipped = skipped_rows raw;
        duplicate_total = length accepted - length deduped;
      }

  -- `_line_alias_key`: the set of names of a line.
  unfoldable pub line_alias_key : Text → List Text
  unfolding normalize_token
  line_alias_key value =
      let norm = normalize_token value in
      norm
      ∷ elim (looked_up norm line_aliases) [ none ↦ [] | some names ↦ map normalize_token names ]

  -- The names of the row's line, by its code and its label, where it has them.
  unfoldable pub row_keys : Fault → List Text
  unfolding line_alias_key
  row_keys f =
      let keys = λ (t : Text). if length t == 0 then [] else line_alias_key t in
      keys (normalize_token (or_empty f.line_code))
      ++ keys (normalize_token (or_empty f.line_label))

  -- `row_keys & line_keys`
  abbrev pub meet : List Text → List Text → Bool
  meet xs ys = any (λ x. any (same_bytes x) ys) xs

  abbrev pub on_line : Option Text → Fault → Bool
  on_line none f = true
  on_line (some line) f = meet (row_keys f) (line_alias_key line)

  abbrev pub at_station : Option Text → Fault → Bool
  at_station none f = true
  at_station (some station) f =
      same_bytes (normalize_token (or_empty f.station_name)) (normalize_token station)

  abbrev pub of_type : Option Text → Fault → Bool
  of_type none f = true
  of_type (some kind) f =
      same_bytes (normalize_type_token (or_empty f.equipment_type)) (normalize_type_token kind)

  abbrev pub is_wanted : Option Text → Option Text → Option Text → Fault → Bool
  is_wanted line station equipment_type f =
      on_line line f && at_station station f && of_type equipment_type f

  unfoldable pub fault_key : Fault → List Text
  unfolding normalize_token
  fault_key f =
      normalize_token (or_empty f.line_code)
      ∷ normalize_token (or_empty f.station_name)
      ∷ normalize_token (or_empty f.equipment_type)
      ∷ normalize_token (or_empty f.location_description)
      ∷ normalize_token (or_empty f.source_fault_id)
      ∷ []

  unfoldable pub filter_faults : List Fault → Option Text → Option Text → Option Text → List Fault
  unfolding sort fault_key row_keys line_alias_key equipment_key normalize_token
  filter_faults rows line station equipment_type =
      sort (le_by le_texts fault_key) (filter (is_wanted line station equipment_type) rows)

pub record MetroAccessibilityQuery : Type 0 where
  pub line : Option Text
  pub station : Option Text
  pub equipment_type : Option Text
  pub limit : ℤ

unfoldable pub query_text : String → Option Text → Validated (Option Text)
unfolding validate_text
query_text field none = accepts none
query_text field (some v) = do t ← validate_text v field 100 1; accepts (some t)

-- `"://" in value`
abbrev pub no_url : String → Option Text → Validated (Unit {0})
no_url field none = accepts tt
no_url field (some t) = require (not (occurs_in (codes "://") t)) (invalid field none none)

unfoldable pub validate_query :
    Option Text → Option Text → Option Text → Option ℤ → Validated MetroAccessibilityQuery
unfolding query_text validate_limit occurs_in
validate_query line station equipment_type limit = do
  safe_line ← query_text "line" line
  safe_station ← query_text "station" station
  safe_equipment ← query_text "equipment_type" equipment_type
  safe_limit ← validate_limit (elim limit [ none ↦ pos 50 | some n ↦ n ]) (pos 100)
  no_url "line" safe_line
  no_url "station" safe_station
  no_url "equipment_type" safe_equipment
  accepts (record {
    line = safe_line;
    station = safe_station;
    equipment_type = safe_equipment;
    limit = safe_limit;
  })
