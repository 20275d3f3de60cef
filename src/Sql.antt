-- ===== src/Sql.antt =====
-- app/storage/guarded_sql.py: one SELECT over a table in memory. What sqlglot parses and what SQLite
-- does with a statement (the actions that it asks the authorizer about, its calls of the progress
-- handler, its rows and errors, in turn) are arguments, as are Python's codecs and number parsers.
-- The limits that are set on the connection are SQLite's and left out.
pub mod Cells
pub mod Fetch
pub mod Service
use istanbulmcp.Prelude.{
  ℕ, zero, suc, ◌+◌, ◌*◌, ◌^◌, String, Bool, true, false, not, ◌&&◌, ◌||◌, Option, none, some, List,
  [], ◌∷◌, ◌++◌, ltb, leb, ◌==◌, all, any, length, map, str_eq, if◌then◌else◌,
}
use istanbulmcp.Prelude.Int.{ℤ, pos, negsuc, neg, leb_ℤ, ltb_ℤ}
use istanbulmcp.Prelude.Bytes.{codes, strip}
use istanbulmcp.Validation.{
  InputValidationError, Validated, raises, accepts, ◌>>=◌, ◌>>◌, require, invalid, validate_text,
}
use istanbulmcp.Snapshot.{Fields, has_repeat}

abbrev pub Text : Type 0
Text = List ℕ

abbrev pub max_sql_chars : ℕ
max_sql_chars = 4096

abbrev pub max_result_bytes : ℕ
max_result_bytes = 256 * 1024

abbrev pub max_vm_steps : ℕ
max_vm_steps = 2000000

abbrev pub allowed_functions : List String
allowed_functions =
    "count" ∷ "sum" ∷ "avg" ∷ "min" ∷ "max" ∷ "total" ∷ "round" ∷ "abs" ∷ "coalesce" ∷ "ifnull"
    ∷ "nullif" ∷ "lower" ∷ "upper" ∷ "length" ∷ "substr" ∷ "substring" ∷ "trim" ∷ "ltrim" ∷ "rtrim"
    ∷ "like" ∷ "glob" ∷ "date" ∷ "datetime" ∷ "strftime" ∷ "julianday" ∷ []

abbrev pub is_allowed : (String → String) → String → Bool
is_allowed lower name = any (str_eq (lower name)) allowed_functions

-- A letter of a pattern under re.IGNORECASE, for which the long s, 383, is an s too.
abbrev fits_letter : ℕ → ℕ → Bool
fits_letter letter c = c == letter || c + 32 == letter || (letter == b's' && c == 383)

abbrev fits_word : Text → Text → Option Text
fits_word [] s = some s
fits_word (l ∷ ls) [] = none
fits_word (l ∷ ls) (c ∷ s) = if fits_letter l c then fits_word ls s else none

-- `(?is)^select\b`, where `is_word` are the characters of `\w`.
unfoldable pub starts_select : (ℕ → Bool) → Text → Bool
starts_select is_word sql = elim (fits_word (codes "select") sql) [
  | none ↦ false
  | some rest ↦ elim rest [ [] ↦ true | c ∷ s ↦ not (is_word c) ]
]

-- What validate_sql reads of a parsed SELECT.
pub record Select : Type 0 where
  pub tables : List String
  pub is_qualified : Bool
  pub selects : ℕ
  pub has_compound : Bool
  pub anonymous : List String
  pub printed : Text

-- The statements of a text, each a SELECT or another; none where sqlglot raises.
pub data Statement : Type 0 where
  select : Select → Statement
  other : Statement

pub record Parser : Type 0 where
  pub parse : Text → Option (List Statement)
  pub is_word : ℕ → Bool
  pub lower : String → String
  pub casefold : String → String

abbrev sql_rejected : InputValidationError
sql_rejected = record (invalid "sql" none none) { code = "sql_rejected" }

-- The tests on the tree.
unfoldable pub is_bounded : Parser → Select → Bool
is_bounded p s =
    (elim s.tables [ [] ↦ false | t ∷ ts ↦ length ts == 0 && str_eq (p.casefold t) "records" ])
    && not s.is_qualified
    && s.selects == 1
    && not s.has_compound
    && all (is_allowed p.lower) s.anonymous

unfoldable pub validate_sql : Parser → Text → Validated Text
unfolding starts_select is_bounded
validate_sql p value = do
  sql ← validate_text value "sql" max_sql_chars 1
  require (starts_select p.is_word sql && not (any (λ c. c == 0) sql)) (invalid "sql" none none)
  elim (p.parse sql) [
    | none ↦ raises sql_rejected
    | some statements ↦ elim statements [
      | [] ↦ raises sql_rejected
      | first ∷ more ↦ elim first [
        | other ↦ raises sql_rejected
        | select s ↦
            if length more == 0 && is_bounded p s then accepts s.printed else raises sql_rejected
      ]
    ]
  ]

pub data Affinity : Type 0 where
  integer_affinity real_affinity text_affinity : Affinity

abbrev integer_kinds : List String
integer_kinds =
    "int" ∷ "int2" ∷ "int4" ∷ "int8" ∷ "integer" ∷ "bigint" ∷ "smallint" ∷ "bool" ∷ "boolean" ∷ []

abbrev real_kinds : List String
real_kinds = "float" ∷ "float4" ∷ "float8" ∷ "real" ∷ "double" ∷ "numeric" ∷ "decimal" ∷ []

-- `_affinity`
unfoldable pub affinity : (String → String) → String → Affinity
affinity lower kind =
    if any (str_eq (lower kind)) integer_kinds
    then integer_affinity
    else if any (str_eq (lower kind)) real_kinds
    then real_affinity
    else text_affinity

-- A float: not finite, a whole number, or one with a fraction.
pub data Real : Type 0 where
  not_finite fractional : Real
  whole : ℤ → Real

-- A value of a record; `collection` is a dict or a list with its JSON text, if it has one.
pub data Value : Type 0 where
  null : Value
  boolean : Bool → Value
  integer : ℤ → Value
  real : Real → Value
  text : Text → Value
  collection : Option Text → Value

-- `int` and `float` of texts, `float` of whole numbers, and `len(value.encode("utf-8"))`; none where
-- they raise.
pub record Numbers : Type 0 where
  pub int_of : Text → Option ℤ
  pub float_of : Text → Option Real
  pub float_of_int : ℤ → Option Real
  pub encoded_length : Text → Option ℕ

abbrev as_integer : Option ℤ → Option Value
as_integer none = none
as_integer (some n) = some (integer n)

abbrev as_real : Option Real → Option Value
as_real none = none
as_real (some x) = some (real x)

abbrev number_of : Bool → ℤ
number_of true = pos 1
number_of false = pos 0

-- `int(value)`, with the test for a fraction before it.
unfoldable pub to_integer : Numbers → Value → Option Value
to_integer f null = some null
to_integer f (boolean b) = some (integer (number_of b))
to_integer f (integer n) = some (integer n)
to_integer f (real not_finite) = none
to_integer f (real fractional) = none
to_integer f (real (whole n)) = some (integer n)
to_integer f (text s) = as_integer (f.int_of s)
to_integer f (collection s) = none

-- `float(value)`
unfoldable pub to_real : Numbers → Value → Option Value
to_real f null = some null
to_real f (boolean b) = some (real (whole (number_of b)))
to_real f (integer n) = as_real (f.float_of_int n)
to_real f (real x) = some (real x)
to_real f (text s) = as_real (f.float_of s)
to_real f (collection s) = none

abbrev pub in_range : ℤ → Bool
in_range n = leb_ℤ (neg (2 ^ 63)) n && ltb_ℤ n (pos (2 ^ 63))

abbrev pub short_text : Numbers → Text → Bool
short_text f s = elim (f.encoded_length s) [ none ↦ false | some n ↦ leb n 65536 ]

-- The checks behind the conversion.
unfoldable pub checked_value : Numbers → Value → Option Value
checked_value f null = some null
checked_value f (boolean b) = some (boolean b)
checked_value f (integer n) = if in_range n then some (integer n) else none
checked_value f (real not_finite) = none
checked_value f (real fractional) = some (real fractional)
checked_value f (real (whole n)) = some (real (whole n))
checked_value f (text s) = if short_text f s then some (text s) else none
checked_value f (collection none) = none
checked_value f (collection (some s)) = if short_text f s then some (text s) else none

-- `_cell`
unfoldable pub cell : Numbers → Affinity → Value → Option Value
unfolding to_integer to_real checked_value
cell f integer_affinity value = elim (to_integer f value) [
  | none ↦ none
  | some v ↦ checked_value f v
]
cell f real_affinity value = elim (to_real f value) [ none ↦ none | some v ↦ checked_value f v ]
cell f text_affinity value = checked_value f value
