-- ===== src/Sql/Cells.antt =====
-- The cells of the table in memory and the types of its columns.
use istanbulmcp.Prelude.{
  ◌≡◌, refl, ap, String, true, false, none, some, List, [], ◌∷◌, length, arith, All, Option-cases,
  inl, inr, suc,
}
use istanbulmcp.Snapshot.{Fields}
use istanbulmcp.Sql.{
  Affinity, integer_affinity, real_affinity, text_affinity, affinity, not_finite, fractional, whole,
  Value, null, boolean, integer, real, text, collection, Numbers, in_range, short_text, to_integer,
  to_real, checked_value, cell,
}
use istanbulmcp.Sql.Fetch.{Record, stored_row, stored_rows}

-- What a column of each type may hold: numbers in the range of 64 bits, finite floats, and texts of
-- 65536 bytes at most.
abbrev pub Fits : Numbers → Affinity → Value → Type 0
Fits f a null = Unit
Fits f text_affinity (boolean b) = Unit
Fits f integer_affinity (boolean b) = ⊥
Fits f real_affinity (boolean b) = ⊥
Fits f integer_affinity (integer n) = in_range n ≡ true
Fits f text_affinity (integer n) = in_range n ≡ true
Fits f real_affinity (integer n) = ⊥
Fits f a (real not_finite) = ⊥
Fits f real_affinity (real fractional) = Unit
Fits f real_affinity (real (whole n)) = Unit
Fits f text_affinity (real fractional) = Unit
Fits f text_affinity (real (whole n)) = Unit
Fits f integer_affinity (real fractional) = ⊥
Fits f integer_affinity (real (whole n)) = ⊥
Fits f text_affinity (text s) = short_text f s ≡ true
Fits f integer_affinity (text s) = ⊥
Fits f real_affinity (text s) = ⊥
Fits f a (collection s) = ⊥

checked_value-Fits :
    (f : Numbers) (v w : Value) → checked_value f v ≡ some w → Fits f text_affinity w
unfolding checked_value
checked_value-Fits f null w e = ground arith
checked_value-Fits f (boolean b) w e = ground arith
checked_value-Fits f (integer n) w e = ground arith
checked_value-Fits f (real not_finite) w e = ground arith
checked_value-Fits f (real fractional) w e = ground arith
checked_value-Fits f (real (whole n)) w e = ground arith
checked_value-Fits f (text s) w e = ground arith
checked_value-Fits f (collection none) w e = ground arith
checked_value-Fits f (collection (some s)) w e = ground arith

cell-Fits : (f : Numbers) (a : Affinity) (v w : Value) → cell f a v ≡ some w → Fits f a w
unfolding cell to_integer to_real checked_value
cell-Fits f text_affinity v w e = checked_value-Fits f v w e
cell-Fits f integer_affinity null w e = ground arith
cell-Fits f integer_affinity (boolean true) w e = ground arith
cell-Fits f integer_affinity (boolean false) w e = ground arith
cell-Fits f integer_affinity (integer n) w e = ground arith
cell-Fits f integer_affinity (real not_finite) w e = ground arith
cell-Fits f integer_affinity (real fractional) w e = ground arith
cell-Fits f integer_affinity (real (whole n)) w e = ground arith
cell-Fits f integer_affinity (text s) w e = elim (Option-cases (f.int_of s)) [
  | inl none1 ↦ ground (arith, none1)
  | inr (n, some1) ↦ ground (arith, some1)
]
cell-Fits f integer_affinity (collection s) w e = ground arith
cell-Fits f real_affinity null w e = ground arith
cell-Fits f real_affinity (boolean b) w e = ground arith
cell-Fits f real_affinity (integer n) w e = elim (Option-cases (f.float_of_int n)) [
  | inl none1 ↦ ground (arith, none1)
  | inr (not_finite, some1) ↦ ground (arith, some1)
  | inr (fractional, some1) ↦ ground (arith, some1)
  | inr (whole m, some1) ↦ ground (arith, some1)
]
cell-Fits f real_affinity (real not_finite) w e = ground arith
cell-Fits f real_affinity (real fractional) w e = ground arith
cell-Fits f real_affinity (real (whole n)) w e = ground arith
cell-Fits f real_affinity (text s) w e = elim (Option-cases (f.float_of s)) [
  | inl none1 ↦ ground (arith, none1)
  | inr (not_finite, some1) ↦ ground (arith, some1)
  | inr (fractional, some1) ↦ ground (arith, some1)
  | inr (whole m, some1) ↦ ground (arith, some1)
]
cell-Fits f real_affinity (collection s) w e = ground arith

module _ (lower : String → String) (f : Numbers) where
  -- A stored row has one cell for each column.
  abbrev pub FitsRow : Fields → List Value → Type 0
  FitsRow [] [] = Unit
  FitsRow ((name, kind) ∷ fields) (v ∷ vs) = Fits f (affinity lower kind) v × FitsRow fields vs
  FitsRow [] (v ∷ vs) = ⊥
  FitsRow (c ∷ fields) [] = ⊥

  stored_row-Fits :
      (fields : Fields) (r : Record) (vs : List Value)
      → stored_row lower f fields r ≡ some vs
      → FitsRow fields vs
  unfolding stored_row
  stored_row-Fits [] r [] e = tt
  stored_row-Fits [] r (v ∷ vs) e = absurd (cc)
  stored_row-Fits ((name, kind) ∷ fields) r vs e =
      elim (Option-cases (cell f (affinity lower kind) (r name))) [
        | inl none1 ↦ absurd (ground (arith, none1))
        | inr (w, some1) ↦ elim (Option-cases (stored_row lower f fields r)) [
          | inl none2 ↦ absurd (ground (arith, some1, none2))
          | inr (ws, some2) ↦
              let same : w ∷ ws ≡ vs = ground (arith, some1, some2) in
              rw (← same) (
                cell-Fits f (affinity lower kind) (r name) w some1,
                stored_row-Fits fields r ws some2,
              )
        ]
      ]

  -- The table that SQLite works on holds one row for each record, with cells of the types of its
  -- columns: whole numbers of 64 bits, finite floats, and texts of 65536 bytes at most.
  pub stored_rows-Fits :
      (fields : Fields) (rs : List Record) (table : List (List Value))
      → stored_rows lower f fields rs ≡ some table
      → All (FitsRow fields) table × (length table ≡ length rs)
  unfolding stored_rows
  stored_rows-Fits fields [] [] e = (tt, refl)
  stored_rows-Fits fields [] (v ∷ vs) e = absurd (cc)
  stored_rows-Fits fields (r ∷ rs) table e = elim (Option-cases (stored_row lower f fields r)) [
    | inl none1 ↦ absurd (ground (arith, none1))
    | inr (w, some1) ↦ elim (Option-cases (stored_rows lower f fields rs)) [
      | inl none2 ↦ absurd (ground (arith, some1, none2))
      | inr (ws, some2) ↦
          let same : w ∷ ws ≡ table = ground (arith, some1, some2) in
          let (fits, size) = stored_rows-Fits fields rs ws some2 in
          rw (← same) ((stored_row-Fits fields r w some1, fits), ap suc size)
    ]
  ]
