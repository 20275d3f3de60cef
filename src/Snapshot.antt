-- ===== src/Snapshot.antt =====
-- app/services/datastore_sql.py, DatastoreSqlService._load_snapshot: a table is captured page by
-- page. What the upstream answers to each request, and `str.casefold`, are arguments; a row that is
-- not an object or has no whole number under "_id" is told apart from the others. The columns are
-- checked by validate_fields of app/storage/guarded_sql.py.
pub mod Capture
use istanbulmcp.Prelude.{
  ℕ, zero, suc, ◌+◌, ◌-◌, ◌≤◌, String, Bool, true, false, not, ◌&&◌, ◌||◌, Option, none, some, List,
  [], ◌∷◌, ◌++◌, ltb, leb, ◌==◌, all, any, length, map, min, str_eq, if◌then◌else◌,
}
use istanbulmcp.Prelude.Bytes.{codes}
use istanbulmcp.Prelude.Int.{ℤ, pos, ltb_ℤ, leb_ℤ, pos_part}

pub data Row : Type 0 where
  malformed : Row
  row : List String → Option ℤ → Row

-- A column of the source: its "id" and its "type", each a text, missing or something else.
pub data Attribute : Type 0 where
  missing : Attribute
  text : String → Attribute
  other : Attribute

pub data RawField : Type 0 where
  malformed_field : RawField
  field : Attribute → Attribute → RawField

-- The answer to one request: `total` where it is a whole number, the fields and the records where
-- they are lists.
pub record Page : Type 0 where
  pub total : Option ℤ
  pub estimated : Bool
  pub fields : Option (List RawField)
  pub records : Option (List Row)

-- `received` is a whole number or something else.
pub data Reply : Type 0 where
  answer : Page → Option ℤ → Reply
  upstream_error : Reply

pub record Settings : Type 0 where
  pub max_rows : ℕ
  pub max_bytes : ℕ
  pub page_size : ℕ

pub data Failure : Type 0 where
  snapshot_rejected upstream_failed out_of_fuel : Failure

pub data Result {ℓ} (A : Type ℓ) : Type ℓ where
  failed : Failure → Result A
  gives : A → Result A

-- Names and types of columns.
abbrev pub Fields : Type 0
Fields = List (String × String)

abbrev pub same_fields : Fields → Fields → Bool
same_fields [] [] = true
same_fields ((a, x) ∷ fs) ((b, y) ∷ gs) = str_eq a b && str_eq x y && same_fields fs gs
same_fields [] (b ∷ gs) = false
same_fields (a ∷ fs) [] = false

unfoldable pub read_field : RawField → Option (String × String)
read_field malformed_field = none
read_field (field (text name) kind) =
    if str_eq name "" || ltb 100 (length (codes name)) || any (λ c. c == 0) (codes name)
    then none
    else elim kind [ missing ↦ some (name, "text") | text k ↦ some (name, k) | other ↦ none ]
read_field (field missing kind) = none
read_field (field other kind) = none

unfoldable pub read_fields : List RawField → Option Fields
read_fields [] = some []
read_fields (f ∷ fs) =
    let rest = read_fields fs in
    elim (read_field f) [
      | none ↦ none
      | some x ↦ elim rest [ none ↦ none | some xs ↦ some (x ∷ xs) ]
    ]

abbrev pub has_repeat : List String → Bool
has_repeat [] = false
has_repeat (k ∷ ks) = any (str_eq k) ks || has_repeat ks

abbrev pub has_total : ℕ → Page → Bool
has_total total p = elim p.total [
  | none ↦ false
  | some t ↦ leb_ℤ t (pos total) && leb_ℤ (pos total) t && not p.estimated
]

abbrev pub is_empty : Page → Bool
is_empty p = elim p.records [ none ↦ false | some rs ↦ length rs == 0 ]

-- `page`: the bytes received so far and the page, or none if the snapshot fails.
unfoldable pub page : Settings → Reply → ℕ → Result (ℕ × Page)
page s reply size =
    let remaining = s.max_bytes - size in
    if remaining == 0 then failed snapshot_rejected else elim reply [
      | upstream_error ↦ failed upstream_failed
      | answer p received ↦ elim received [
        | none ↦ failed snapshot_rejected
        | some r ↦
            if leb_ℤ r (pos 0) || ltb_ℤ (pos remaining) r
            then failed snapshot_rejected
            else gives (size + pos_part r, p)
      ]
    ]

abbrev pub above : Option ℤ → ℤ → Bool
above none k = true
above (some last_id) k = ltb_ℤ last_id k

-- `for row in rows`: the last id, or none for a row that is refused.
unfoldable pub check_rows : Fields → Option ℤ → List Row → Option (Option ℤ)
check_rows fields last_id [] = some last_id
check_rows fields last_id (malformed ∷ rows) = none
check_rows fields last_id (row columns none ∷ rows) = none
check_rows fields last_id (row columns (some k) ∷ rows) =
    let rest = check_rows fields (some k) rows in
    if all (λ c. any (λ f. str_eq c f.0) fields) columns && above last_id k then rest else none

module _ (casefold : String → String) where
  unfoldable pub validate_fields : Option (List RawField) → Option Fields
  unfolding read_field read_fields
  validate_fields none = none
  validate_fields (some raw) =
      if leb 1 (length raw) && leb (length raw) 80
      then elim (read_fields raw) [
        | none ↦ none
        | some fields ↦
            if has_repeat (map (λ f. casefold f.0) fields)
              || not (any (λ f. str_eq f.0 "_id") fields)
            then none
            else some fields
      ]
      else none

  abbrev pub has_fields : Fields → Page → Bool
  has_fields fields p = elim (validate_fields p.fields) [
    | none ↦ false
    | some fs ↦ same_fields fs fields
  ]

-- The rows of a page that continues the capture.
unfoldable pub next_rows : (String → String) → Fields → ℕ → ℕ → Page → Option (List Row)
next_rows casefold fields total requested p = elim p.records [
  | none ↦ none
  | some rows ↦
      if has_total total p
        && has_fields casefold fields p
        && ltb 0 (length rows)
        && leb (length rows) requested
      then some rows
      else none
]

pub record Progress : Type 0 where
  pub requests : ℕ
  pub size : ℕ
  pub records : List Row
  pub last_id : Option ℤ

module _ (casefold : String → String) (s : Settings) (upstream : ℕ → ℕ → ℕ → Reply) where
  -- One turn of the `while`: the n-th request asks for `requested` rows behind those at hand.
  unfoldable pub turn : Fields → ℕ → Progress → Result Progress
  unfolding page
  turn fields total g =
      let requested = min s.page_size (total - length g.records) in
      elim (page s (upstream g.requests requested (length g.records)) g.size) [
        | failed f ↦ failed f
        | gives (size, p) ↦ elim (next_rows casefold fields total requested p) [
          | none ↦ failed snapshot_rejected
          | some rows ↦ elim (check_rows fields g.last_id rows) [
            | none ↦ failed snapshot_rejected
            | some last_id ↦ gives (record {
              requests = g.requests + 1;
              size = size;
              records = g.records ++ rows;
              last_id = last_id;
            })
          ]
        ]
      ]

  -- `while len(records) < total`: each turn adds a row at least, so `total` turns are enough.
  unfoldable pub capture : ℕ → Fields → ℕ → Progress → Result Progress
  capture zero fields total g = if ltb (length g.records) total then failed out_of_fuel else gives g
  capture (suc fuel) fields total g =
      if ltb (length g.records) total
      then elim (turn fields total g) [
        | failed f ↦ failed f
        | gives g' ↦ capture fuel fields total g'
      ]
      else gives g

  -- The first page tells the columns and the total.
  unfoldable pub describe : Result (Fields × (ℕ × ℕ))
  describe = elim (page s (upstream 0 0 0) 0) [
    | failed f ↦ failed f
    | gives (size, metadata) ↦ elim (validate_fields casefold metadata.fields) [
      | none ↦ failed snapshot_rejected
      | some fields ↦ elim metadata.total [
        | none ↦ failed snapshot_rejected
        | some t ↦
            if ltb_ℤ t (pos 0)
              || ltb_ℤ (pos s.max_rows) t
              || metadata.estimated
              || not (is_empty metadata)
            then failed snapshot_rejected
            else gives (fields, (pos_part t, size))
      ]
    ]
  ]

  -- The last page tells that they have not changed.
  unfoldable pub conclude : Fields → ℕ → Progress → Result (Fields × (List Row × ℕ))
  conclude fields total g = elim (page s (upstream g.requests 0 0) g.size) [
    | failed f ↦ failed f
    | gives (size, final) ↦
        if has_total total final && is_empty final && has_fields casefold fields final
        then gives (fields, (g.records, size))
        else failed snapshot_rejected
  ]

  abbrev pub at_start : ℕ → Progress
  at_start size = record { requests = 1; size = size; records = []; last_id = none }

  unfoldable pub load_snapshot : Result (Fields × (List Row × ℕ))
  load_snapshot = elim describe [
    | failed f ↦ failed f
    | gives (fields, (total, size)) ↦ elim (capture total fields total (at_start size)) [
      | failed f ↦ failed f
      | gives g ↦ conclude fields total g
    ]
  ]
