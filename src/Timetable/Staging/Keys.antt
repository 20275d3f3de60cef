-- ===== src/Timetable/Staging/Keys.antt =====
-- What an ingested table holds, and how its rows are counted.
use istanbulmcp.Prelude.{
  ℕ, zero, suc, ◌+◌, ◌≤◌, ◌<◌, ◌≡◌, refl, Bool, true, false, Option, none, some, List, [], ◌∷◌,
  ◌++◌, any, min, map, arith, All, All-append,
}
use istanbulmcp.Prelude.Bytes.{strip}
use istanbulmcp.Timetable.{Text, Tables, StopTime}
use istanbulmcp.Timetable.Rows.{Kind, Value, agency_row, stop_time_row, values}
use istanbulmcp.Timetable.Staging.{
  same_key, insert_stop_time, insert, Ingested, add_value, ingest_row, ingest_rows, ingest,
  lacks_id, zip_row, table_row_cap,
}

-- Each trip has one row for each place in its sequence.
abbrev pub IsKeyed : List StopTime → Type 0
IsKeyed [] = Unit
IsKeyed (s ∷ ss) = All (λ t. same_key s t ≡ false) ss × IsKeyed ss

IsKeyed-append :
    (ss : List StopTime) (new : StopTime)
    → IsKeyed ss
    → any (λ s. same_key s new) ss ≡ false
    → IsKeyed (ss ++ new ∷ [])
IsKeyed-append [] new k h = (tt, tt)
IsKeyed-append (s ∷ ss) new k h = (
  All-append (λ t. same_key s t ≡ false) ss (new ∷ []) k.0 (ground arith, tt),
  IsKeyed-append ss new k.1 (ground arith),
)

insert_stop_time-IsKeyed :
    (ss ss' : List StopTime) (new : StopTime) (added : Bool)
    → insert_stop_time ss new ≡ some (ss', added)
    → IsKeyed ss
    → IsKeyed ss'
unfolding insert_stop_time
insert_stop_time-IsKeyed ss ss' new added e k = ground (arith, IsKeyed-append ss new k)

insert-counts : (t t' : Tables) (v : Value) (n : ℕ) → insert t v ≡ some (t', n) → n ≤ 1
unfolding insert
insert-counts t t' agency_row n e = ground arith
insert-counts t t' (stop_time_row r) n e = ground arith
insert-counts t t' v n e = ground arith

insert-IsKeyed :
    (t t' : Tables) (v : Value) (n : ℕ)
    → insert t v ≡ some (t', n)
    → IsKeyed t.stop_times
    → IsKeyed t'.stop_times
unfolding insert
insert-IsKeyed t t' (stop_time_row r) n e k = go (insert_stop_time t.stop_times r) refl
  where
    go :
        (o : Option (List StopTime × Bool))
        → insert_stop_time t.stop_times r ≡ o
        → IsKeyed t'.stop_times
    go none q = absurd (ground arith)
    go (some (ss, added)) q = ground (arith, insert_stop_time-IsKeyed t.stop_times ss r added q k)
insert-IsKeyed t t' v n e k = ground (arith, k)

add_value-counts :
    (g g' : Ingested) (v : Value)
    → add_value g v ≡ some g'
    → IsKeyed g.tables.stop_times
    → (g'.count + g'.skipped ≡ suc (g.count + g.skipped)) × IsKeyed g'.tables.stop_times
unfolding add_value
add_value-counts g g' v e k = go (insert g.tables v) refl
  where
    go :
        (o : Option (Tables × ℕ))
        → insert g.tables v ≡ o
        → (g'.count + g'.skipped ≡ suc (g.count + g.skipped)) × IsKeyed g'.tables.stop_times
    go none q = absurd (ground arith)
    go (some (t, n)) q =
        ground (arith, insert-counts g.tables t v n q, insert-IsKeyed g.tables t v n q k)

module _ (is_date : ℕ → Bool) (repair : Text → Text) where
  ingest_row-counts :
      (kind : Kind) (fields vs : List Text) (g g' : Ingested)
      → ingest_row is_date repair kind fields g vs ≡ some g'
      → IsKeyed g.tables.stop_times
      → (g'.count + g'.skipped ≡ suc (g.count + g.skipped)) × IsKeyed g'.tables.stop_times
  unfolding ingest_row
  ingest_row-counts kind fields vs g g' e k =
      go (lacks_id kind (zip_row fields vs)) refl (values is_date repair kind (zip_row fields vs))
        refl
    where
      go :
          (b : Option Bool)
          → lacks_id kind (zip_row fields vs) ≡ b
          → (o : Option Value) → values is_date repair kind (zip_row fields vs) ≡ o
          → (g'.count + g'.skipped ≡ suc (g.count + g.skipped)) × IsKeyed g'.tables.stop_times
      go none p o q = absurd (ground arith)
      go (some true) p o q = ground (arith, k)
      go (some false) p none q = absurd (ground arith)
      go (some false) p (some v) q = ground (arith, add_value-counts g g' v)

  -- The rows that are not blank.
  abbrev pub used : List (List Text) → ℕ
  used [] = 0
  used ([] ∷ rows) = used rows
  used ((v ∷ vs) ∷ rows) = suc (used rows)

  ingest_rows-counts :
      (kind : Kind) (fields : List Text) (remaining : ℕ) (rows : List (List Text)) (g g' : Ingested)
      → ingest_rows is_date repair kind fields remaining rows g ≡ some g'
      → IsKeyed g.tables.stop_times
      → (g'.count + g'.skipped ≡ g.count + g.skipped + used rows)
        × (used rows ≤ remaining)
        × IsKeyed g'.tables.stop_times
  unfolding ingest_rows
  ingest_rows-counts kind fields remaining [] g g' e k = ground (arith, k)
  ingest_rows-counts kind fields remaining ([] ∷ rows) g g' e k =
      ingest_rows-counts kind fields remaining rows g g' e k
  ingest_rows-counts kind fields zero ((v ∷ vs) ∷ rows) g g' e k = absurd (cc)
  ingest_rows-counts kind fields (suc remaining) ((v ∷ vs) ∷ rows) g g' e k =
      go (ingest_row is_date repair kind fields g (v ∷ vs)) refl
        (λ m. ingest_rows-counts kind fields remaining rows m g')
    where
      go :
          (o : Option Ingested)
          → ingest_row is_date repair kind fields g (v ∷ vs) ≡ o
          → ((m : Ingested)
              → ingest_rows is_date repair kind fields remaining rows m ≡ some g'
              → IsKeyed m.tables.stop_times
              → (g'.count + g'.skipped ≡ m.count + m.skipped + used rows)
                × (used rows ≤ remaining)
                × IsKeyed g'.tables.stop_times)
          → (g'.count + g'.skipped ≡ g.count + g.skipped + suc (used rows))
            × (suc (used rows) ≤ suc remaining)
            × IsKeyed g'.tables.stop_times
      go none q ih = absurd (ground arith)
      go (some m) q ih = ground (arith, ingest_row-counts kind fields (v ∷ vs) g m q k, ih m)

  -- An ingested table accounts for every row of its source, as kept or skipped, within the budget and
  -- the cap of its kind, keeps one at least, and leaves each stop time the only one under its key.
  pub ingest_accounts :
      (kind : Kind) (header : List Text) (rows : List (List Text)) (remaining : ℕ) (tables : Tables)
      (g : Ingested)
      → IsKeyed tables.stop_times
      → ingest is_date repair kind header rows remaining tables ≡ some g
      → (g.count + g.skipped ≡ used rows)
        × (used rows ≤ remaining)
        × (used rows ≤ table_row_cap kind)
        × (0 < g.count)
        × IsKeyed g.tables.stop_times
  unfolding ingest
  ingest_accounts kind header rows remaining tables g k e =
      go
        (ingest_rows is_date repair kind (map strip header) (min remaining (table_row_cap kind))
          rows (record { tables = tables; count = 0; skipped = 0 }))
        refl
    where
      go :
          (o : Option Ingested)
          → ingest_rows is_date repair kind
              (map strip header)
              (min remaining (table_row_cap kind))
              rows
              (record { tables = tables; count = 0; skipped = 0 })
            ≡ o
          → (g.count + g.skipped ≡ used rows)
            × (used rows ≤ remaining)
            × (used rows ≤ table_row_cap kind)
            × (0 < g.count)
            × IsKeyed g.tables.stop_times
      go none q = absurd (ground arith)
      go (some g') q = ground (
        arith,
        ingest_rows-counts kind (map strip header) (min remaining (table_row_cap kind)) rows
            (record { tables = tables; count = 0; skipped = 0 }) g' q k,
      )
