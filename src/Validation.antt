-- ===== src/Validation.antt =====
-- app/core/validation.py. The messages of the errors are not modelled. A float is a whole number of
-- some small unit, of which `degree` make one, or not a number. Case mapping and the word characters
-- of `re.UNICODE` are arguments.
pub mod Laws
use istanbulmcp.Prelude.{
  ℕ, zero, suc, ◌*◌, ◌≤◌, String, Bool, true, false, not, ◌&&◌, ◌||◌, ◌≡◌, Option, none, some, List,
  [], ◌∷◌, ltb, leb, ◌==◌, all, length, if◌then◌else◌,
}
use istanbulmcp.Prelude.Int.{ℤ, pos, negsuc, neg, ltb_ℤ, leb_ℤ}
use istanbulmcp.Prelude.Bytes.{strip, same_bytes}
use istanbulmcp.Auth.{is_alnum}

pub record InputValidationError : Type 0 where
  pub field : String
  pub code : String
  pub allowed_min : Option ℤ
  pub allowed_max : Option ℤ

-- A validator raises its error, or returns the value that it accepts.
pub data Validated {ν} (T : Type ν) : Type ν where
  raises : InputValidationError → Validated T
  accepts : T → Validated T

abbrev pub ◌>>=◌ {ν μ} : {T : Type ν} {U : Type μ} → Validated T → (T → Validated U) → Validated U
m >>= next = elim m [ raises error ↦ raises error | accepts value ↦ next value ]

abbrev pub invalid : String → Option ℤ → Option ℤ → InputValidationError
invalid field lo hi = record {
  field = field;
  code = "validation_error";
  allowed_min = lo;
  allowed_max = hi;
}

-- `if not test: raise error`
abbrev pub require : Bool → InputValidationError → Validated (Unit {0})
require test error = if test then accepts tt else raises error

abbrev pub ◌>>◌ {μ} : {U : Type μ} → Validated (Unit {0}) → Validated U → Validated U
check >> rest = check >>= λ (done : Unit {0}). rest

infixl 5 ◌>>=◌ ◌>>◌
pub data Float : Type 0 where
  nan : Float
  number : ℤ → Float

abbrev pub degree : ℕ
degree = 1000000000

abbrev pub le_float : Float → Float → Bool
le_float (number a) (number b) = leb_ℤ a b
le_float nan b = false
le_float (number a) nan = false

-- `low <= value <= high`
abbrev pub between : ℕ → Float → Bool
between n value =
    le_float (number (neg (n * degree))) value && le_float value (number (pos (n * degree)))

unfoldable pub validate_lat_lon : Float → Float → Validated (Float × Float)
validate_lat_lon lat lon = do
  require (between 90 lat) (invalid "lat" (some (neg 90)) (some (pos 90)))
  require (between 180 lon) (invalid "lon" (some (neg 180)) (some (pos 180)))
  accepts (lat, lon)

unfoldable pub validate_radius : ℤ → ℤ → Validated ℤ
validate_radius radius_m max_radius_m = do
  require (ltb_ℤ (pos 0) radius_m) (invalid "radius_m" (some (pos 1)) none)
  require (leb_ℤ radius_m max_radius_m) (invalid "radius_m" none (some max_radius_m))
  accepts radius_m

unfoldable pub validate_limit : ℤ → ℤ → Validated ℤ
validate_limit limit max_limit = do
  require (ltb_ℤ (pos 0) limit) (invalid "limit" (some (pos 1)) none)
  require (leb_ℤ limit max_limit) (invalid "limit" none (some max_limit))
  accepts limit

unfoldable pub resolve_limit : Option ℤ → ℤ → ℤ → Validated ℤ
unfolding validate_limit
resolve_limit none default_limit max_limit = validate_limit default_limit max_limit
resolve_limit (some limit) default_limit max_limit = validate_limit limit max_limit

-- `str(value or "").strip()`, and its length.
unfoldable pub validate_text : List ℕ → String → ℕ → ℕ → Validated (List ℕ)
validate_text value field max_length min_length = do
  let text = strip value
  require (leb min_length (length text)) (invalid field (some (pos min_length)) none)
  require (leb (length text) max_length) (invalid field none (some (pos max_length)))
  accepts text

abbrev pub identifier_char : ℕ → Bool
identifier_char c = is_alnum c || c == b'.' || c == b'_' || c == b'-'

abbrev pub line_char : ℕ → Bool
line_char c =
    (leb b'0' c && leb c b'9') || (leb b'A' c && leb c b'Z') || c == b'.' || c == b'_' || c == b'-'

-- `re.fullmatch("[...]+", text)`
abbrev pub full_match : (ℕ → Bool) → List ℕ → Bool
full_match p text = ltb 0 (length text) && all p text

unfoldable pub validate_identifier : List ℕ → String → ℕ → Validated (List ℕ)
unfolding validate_text
validate_identifier value field max_length = do
  text ← validate_text value field max_length 1
  require (full_match identifier_char text) (invalid field none none)
  accepts text

unfoldable pub validate_line_code : (List ℕ → List ℕ) → List ℕ → ℕ → Validated (List ℕ)
unfolding validate_text
validate_line_code upper value max_length = do
  text ← validate_text value "line_code" max_length 1
  require (full_match line_char (upper text)) (invalid "line_code" none none)
  accepts (upper text)

-- A filter's value: a scalar, a list, or anything else; a list in a list counts as anything else.
pub data Item : Type 0 where
  text : List ℕ → Item
  plain : ℤ → Item
  null : Item
  unsupported : Item

pub data FilterValue : Type 0 where
  item : Item → FilterValue
  items : List Item → FilterValue

abbrev pub field_error : Option ℤ → InputValidationError
field_error hi = invalid "filters" none hi

-- `safe_filters[safe_key] = ...`: keys that differ by white space alone meet.
unfoldable pub set_filter :
    List ℕ → FilterValue → List (List ℕ × FilterValue) → List (List ℕ × FilterValue)
unfolding same_bytes
set_filter k v [] = (k, v) ∷ []
set_filter k v ((j, w) ∷ fs) = if same_bytes j k then (j, v) ∷ fs else (j, w) ∷ set_filter k v fs

module _ (max_value_length max_list_items : ℕ) where
  -- `_validate_filter_value` with lists not allowed.
  unfoldable pub validate_item : Item → Validated Item
  unfolding validate_text
  validate_item (text s) = do t ← validate_text s "filters" max_value_length 0; accepts (text t)
  validate_item (plain n) = accepts (plain n)
  validate_item null = accepts null
  validate_item unsupported = raises (field_error none)

  unfoldable pub validate_items : List Item → Validated (List Item)
  validate_items [] = accepts []
  validate_items (x ∷ xs) = do y ← validate_item x; ys ← validate_items xs; accepts (y ∷ ys)

  unfoldable pub validate_filter_value : FilterValue → Validated FilterValue
  validate_filter_value (item x) = do y ← validate_item x; accepts (item y)
  validate_filter_value (items xs) = do
    require (leb (length xs) max_list_items) (field_error (some (pos max_list_items)))
    ys ← validate_items xs
    accepts (items ys)

  unfoldable pub validate_entries :
      (ℕ → Bool)
      → ℕ
      → List (List ℕ × FilterValue)
      → List (List ℕ × FilterValue)
      → Validated (List (List ℕ × FilterValue))
  validate_entries is_word max_key_length [] safe = accepts safe
  validate_entries is_word max_key_length ((key, value) ∷ rest) safe = do
    safe_key ← validate_text key "filters" max_key_length 1
    require
        (full_match (λ c. is_word c || c == b' ' || c == b'.' || c == b':' || c == b'-') safe_key)
        (field_error none)
    v ← validate_filter_value value
    validate_entries is_word max_key_length rest (set_filter safe_key v safe)

  -- `none` is no filters at all.
  unfoldable pub validate_filters :
      (ℕ → Bool)
      → ℕ
      → ℕ
      → Option (List (List ℕ × FilterValue))
      → Validated (Option (List (List ℕ × FilterValue)))
  validate_filters is_word max_keys max_key_length none = accepts none
  validate_filters is_word max_keys max_key_length (some filters) = do
    require (leb (length filters) max_keys) (field_error (some (pos max_keys)))
    safe ← validate_entries is_word max_key_length filters []
    accepts (some safe)

-- `a < b` of two floats.
abbrev pub lt_float : Float → Float → Bool
lt_float (number a) (number b) = ltb_ℤ a b
lt_float nan b = false
lt_float (number a) nan = false

-- `a >= b`
abbrev pub ge_float : Float → Float → Bool
ge_float a b = le_float b a

pub record Box : Type 0 where
  pub min_lon : Float
  pub min_lat : Float
  pub max_lon : Float
  pub max_lat : Float

unfoldable pub validate_bbox : List Float → Validated Box
unfolding validate_lat_lon
validate_bbox (min_lon ∷ min_lat ∷ max_lon ∷ max_lat ∷ []) = do
  p ← validate_lat_lon min_lat min_lon
  q ← validate_lat_lon max_lat max_lon
  require (not (ge_float min_lon max_lon)) (invalid "bbox" none none)
  require (not (ge_float min_lat max_lat)) (invalid "bbox" none none)
  accepts (record { min_lon = min_lon; min_lat = min_lat; max_lon = max_lon; max_lat = max_lat })
validate_bbox _ = raises (invalid "bbox" none none)
