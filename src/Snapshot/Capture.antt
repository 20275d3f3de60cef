-- ===== src/Snapshot/Capture.antt =====
-- What a captured snapshot holds.
use istanbulmcp.Prelude.{
  ℕ, zero, suc, ◌+◌, ◌-◌, ◌≤◌, ◌<◌, String, true, ◌≡◌, ◌≢◌, refl, Option, none, some, List, [], ◌∷◌,
  ◌++◌, all, any, length, length-append, min, str_eq, arith, inl, inr, Option-cases,
}
use istanbulmcp.Prelude.Int.{ℤ}
use istanbulmcp.Snapshot.{
  Row, malformed, row, Page, Reply, answer, upstream_error, Settings, out_of_fuel, Result, failed,
  gives, page, above, check_rows, next_rows, Progress, Fields, turn, capture, load_snapshot,
  describe, conclude, at_start,
}

-- Every row is an object over the columns, and the ids rise from the one before.
abbrev pub IsOrdered : Fields → Option ℤ → List Row → Type 0
IsOrdered fields last_id [] = Unit
IsOrdered fields last_id (malformed ∷ rows) = ⊥
IsOrdered fields last_id (row columns none ∷ rows) = ⊥
IsOrdered fields last_id (row columns (some k) ∷ rows) =
    (all (λ c. any (λ f. str_eq c f.0) fields) columns ≡ true)
    × (above last_id k ≡ true)
    × IsOrdered fields (some k) rows

check_rows-IsOrdered :
    (fields : Fields) (last_id : Option ℤ) (rows : List Row) (m : Option ℤ)
    → check_rows fields last_id rows ≡ some m
    → IsOrdered fields last_id rows
unfolding check_rows
check_rows-IsOrdered fields last_id [] m h = tt
check_rows-IsOrdered fields last_id (malformed ∷ rows) m h = absurd (cc)
check_rows-IsOrdered fields last_id (row columns none ∷ rows) m h = absurd (cc)
check_rows-IsOrdered fields last_id (row columns (some k) ∷ rows) m h =
    ground (arith, check_rows-IsOrdered fields (some k) rows m)

check_rows-append :
    (fields : Fields) (last_id : Option ℤ) (rows more : List Row) (m : Option ℤ)
    → check_rows fields last_id rows ≡ some m
    → check_rows fields last_id (rows ++ more) ≡ check_rows fields m more
unfolding check_rows
check_rows-append fields last_id [] more m h = ground arith
check_rows-append fields last_id (malformed ∷ rows) more m h = absurd (cc)
check_rows-append fields last_id (row columns none ∷ rows) more m h = absurd (cc)
check_rows-append fields last_id (row columns (some k) ∷ rows) more m h =
    ground (arith, check_rows-append fields (some k) rows more m)

page_size_le :
    (s : Settings) (reply : Reply) (size n : ℕ) (p : Page)
    → page s reply size ≡ gives (n, p)
    → n ≤ s.max_bytes
unfolding page
page_size_le s upstream_error size n p h = ground arith
page_size_le s (answer q none) size n p h = ground arith
page_size_le s (answer q (some r)) size n p h = ground arith

next_rows_bounds :
    (casefold : String → String) (fields : Fields) (total requested : ℕ) (p : Page)
    (rows : List Row)
    → next_rows casefold fields total requested p ≡ some rows
    → (0 < length rows) × (length rows ≤ requested)
unfolding next_rows
next_rows_bounds casefold fields total requested p rows h = elim (Option-cases p.records) [
  | inl e ↦ absurd (ground arith)
  | inr (rs, e) ↦ ground arith
]

-- The rows at hand are checked, no more than the total, and within the budget of bytes.
pub record IsGood (s : Settings) (fields : Fields) (total : ℕ) (g : Progress) : Type 0 where
  pub checked : check_rows fields none g.records ≡ some g.last_id
  pub rows_within : length g.records ≤ total
  pub bytes_within : g.size ≤ s.max_bytes

module _ (casefold : String → String) (s : Settings) (upstream : ℕ → ℕ → ℕ → Reply) where
  turn-IsGood :
      (fields : Fields) (total : ℕ) (g g' : Progress)
      → IsGood s fields total g
      → turn casefold s upstream fields total g ≡ gives g'
      → IsGood s fields total g' × (length g.records < length g'.records)
  unfolding turn
  turn-IsGood fields total g g' i h =
      split (page s (upstream g.requests requested (length g.records)) g.size) refl
    where
      requested : ℕ
      requested = min s.page_size (total - length g.records)

      split :
          (r : Result (ℕ × Page))
          → page s (upstream g.requests requested (length g.records)) g.size ≡ r
          → IsGood s fields total g' × (length g.records < length g'.records)
      split (failed f) e = absurd (ground arith)
      split (gives (n, p)) e = elim (Option-cases (next_rows casefold fields total requested p)) [
        | inl q ↦ absurd (ground arith)
        | inr (rows, q) ↦ elim (Option-cases (check_rows fields g.last_id rows)) [
          | inl c ↦ absurd (ground arith)
          | inr (m, c) ↦
              let more = next_rows_bounds casefold fields total requested p rows q in
              let size =
                page_size_le s (upstream g.requests requested (length g.records)) g.size n p e in
              let joined = check_rows-append fields none g.records rows g.last_id i.checked in
              let counted = length-append g.records rows in
              ground (arith, more, size, joined, counted, i, c)
        ]
      ]

  capture-IsGood :
      (fuel : ℕ) (fields : Fields) (total : ℕ) (g g' : Progress)
      → IsGood s fields total g
      → capture casefold s upstream fuel fields total g ≡ gives g'
      → IsGood s fields total g' × (length g'.records ≡ total)
  unfolding capture
  capture-IsGood zero fields total g g' i h = ground (arith, i)
  capture-IsGood (suc fuel) fields total g g' i h =
      go (turn casefold s upstream fields total g) refl
        (λ n j. capture-IsGood fuel fields total n g' j)
    where
      go :
          (r : Result Progress)
          → turn casefold s upstream fields total g ≡ r
          → ((n : Progress)
              → IsGood s fields total n
              → capture casefold s upstream fuel fields total n ≡ gives g'
              → IsGood s fields total g' × (length g'.records ≡ total))
          → IsGood s fields total g' × (length g'.records ≡ total)
      go (failed f) e ih = ground (arith, i)
      go (gives n) e ih = ground (arith, i, turn-IsGood fields total g n i e, ih n)

  page-fuel : (reply : Reply) (size : ℕ) → page s reply size ≢ failed out_of_fuel
  unfolding page
  page-fuel upstream_error size h = ground arith
  page-fuel (answer p none) size h = ground arith
  page-fuel (answer p (some r)) size h = ground arith

  turn-fuel :
      (fields : Fields) (total : ℕ) (g : Progress)
      → turn casefold s upstream fields total g ≢ failed out_of_fuel
  unfolding turn
  turn-fuel fields total g h = ground (
    arith,
    page-fuel (upstream g.requests (min s.page_size (total - length g.records)) (length g.records))
        g.size,
    h,
  )

  -- With as many turns as rows are missing the fuel lasts.
  capture-fuel :
      (fuel : ℕ) (fields : Fields) (total : ℕ) (g : Progress)
      → IsGood s fields total g
      → total ≤ fuel + length g.records
      → capture casefold s upstream fuel fields total g ≢ failed out_of_fuel
  unfolding capture
  capture-fuel zero fields total g i h e = ground arith
  capture-fuel (suc fuel) fields total g i h e =
      go (turn casefold s upstream fields total g) refl (λ n j. capture-fuel fuel fields total n j)
    where
      go :
          (r : Result Progress)
          → turn casefold s upstream fields total g ≡ r
          → ((n : Progress)
              → IsGood s fields total n
              → total ≤ fuel + length n.records
              → capture casefold s upstream fuel fields total n ≢ failed out_of_fuel)
          → ⊥
      go (failed f) q ih = ground (arith, turn-fuel fields total g)
      go (gives n) q ih = ground (arith, i, turn-IsGood fields total g n i q, ih n)

  describe_bounds :
      (fields : Fields) (total size : ℕ)
      → describe casefold s upstream ≡ gives (fields, (total, size))
      → (total ≤ s.max_rows) × (size ≤ s.max_bytes)
  unfolding describe
  describe_bounds fields total size h = go (page s (upstream 0 0 0) 0) refl
    where
      go :
          (r : Result (ℕ × Page))
          → page s (upstream 0 0 0) 0 ≡ r
          → (total ≤ s.max_rows) × (size ≤ s.max_bytes)
      go (failed f) e = ground arith
      go (gives (n, p)) e = ground (arith, page_size_le s (upstream 0 0 0) 0 n p e)

  describe-fuel : describe casefold s upstream ≢ failed out_of_fuel
  unfolding describe
  describe-fuel h = ground (arith, page-fuel (upstream 0 0 0) 0)

  conclude_keeps :
      (fields fields' : Fields) (total size : ℕ) (g : Progress) (records : List Row)
      → conclude casefold s upstream fields total g ≡ gives (fields', (records, size))
      → (fields' ≡ fields) × (records ≡ g.records) × (size ≤ s.max_bytes)
  unfolding conclude
  conclude_keeps fields fields' total size g records h =
      go (page s (upstream g.requests 0 0) g.size) refl
    where
      go :
          (r : Result (ℕ × Page))
          → page s (upstream g.requests 0 0) g.size ≡ r
          → (fields' ≡ fields) × (records ≡ g.records) × (size ≤ s.max_bytes)
      go (failed f) e = absurd (ground arith)
      go (gives (n, p)) e = ground (arith, page_size_le s (upstream g.requests 0 0) g.size n p e)

  conclude-fuel :
      (fields : Fields) (total : ℕ) (g : Progress)
      → conclude casefold s upstream fields total g ≢ failed out_of_fuel
  unfolding conclude
  conclude-fuel fields total g h = ground (arith, page-fuel (upstream g.requests 0 0) g.size)

  at_start-IsGood :
      (fields : Fields) (total size : ℕ)
      → size ≤ s.max_bytes
      → IsGood s fields total (at_start casefold s upstream size)
  unfolding check_rows
  at_start-IsGood fields total size h = record {
    checked = refl;
    rows_within = omega arith;
    bytes_within = h;
  }

  -- Rows as many as the source reported at first, within the budgets.
  pub record IsComplete (fields : Fields) (records : List Row) (size : ℕ) : Type 0 where
    pub ordered : IsOrdered fields none records
    pub rows_fit : length records ≤ s.max_rows
    pub bytes_fit : size ≤ s.max_bytes
    pub reported : (n : ℕ) × (describe casefold s upstream ≡ gives (fields, (length records, n)))

  -- A snapshot that comes out is complete and within its budgets: it has as many rows as the source
  -- reported at first, no more than max_rows, each over the columns and with ids that rise strictly,
  -- and all its pages were max_bytes at most.
  pub load_snapshot_sound :
      (fields : Fields) (records : List Row) (size : ℕ)
      → load_snapshot casefold s upstream ≡ gives (fields, (records, size))
      → IsComplete fields records size
  unfolding load_snapshot
  load_snapshot_sound fields records size h = go (describe casefold s upstream) refl
    where
      go :
          (r : Result (Fields × (ℕ × ℕ)))
          → describe casefold s upstream ≡ r
          → IsComplete fields records size
      go (failed f) e = absurd (ground arith)
      go (gives (fs, (total, n))) e =
          then_captured
            (capture casefold s upstream total fs total (at_start casefold s upstream n)) refl
        where
          then_captured :
              (r : Result Progress)
              → capture casefold s upstream total fs total (at_start casefold s upstream n) ≡ r
              → IsComplete fields records size
          then_captured (failed f) q = absurd (ground arith)
          then_captured (gives g) q =
              let bounds = describe_bounds fs total n e in
              let start = at_start-IsGood fs total n bounds.1 in
              let (good, full) =
                capture-IsGood total fs total (at_start casefold s upstream n) g start q in
              let kept =
                conclude_keeps fs fields total size g records (rw (e, q, load_snapshot) at h) in
              let ordered = check_rows-IsOrdered fs none g.records g.last_id good.checked in
              rw (kept.0, kept.1)
                (record {
                  ordered = ordered;
                  rows_fit = omega (arith, full, bounds);
                  bytes_fit = kept.2;
                  reported = (n, rw full e);
                })

  -- Whatever the upstream answers, the capture ends by its own tests within as many turns as the
  -- source reports rows.
  pub load_snapshot_ends : load_snapshot casefold s upstream ≢ failed out_of_fuel
  unfolding load_snapshot
  load_snapshot_ends h = go (describe casefold s upstream) refl
    where
      go : (r : Result (Fields × (ℕ × ℕ))) → describe casefold s upstream ≡ r → ⊥
      go (failed f) e = ground (arith, describe-fuel)
      go (gives (fs, (total, n))) e =
          let bounds = describe_bounds fs total n e in
          let lasts =
            capture-fuel total fs total (at_start casefold s upstream n)
              (at_start-IsGood fs total n bounds.1) (omega arith) in
          then_captured
            (capture casefold s upstream total fs total (at_start casefold s upstream n)) refl lasts
        where
          then_captured :
              (r : Result Progress)
              → capture casefold s upstream total fs total (at_start casefold s upstream n) ≡ r
              → r ≢ failed out_of_fuel
              → ⊥
          then_captured (failed f) q k = let z = rw (e, q, load_snapshot) at h in k (cc)
          then_captured (gives g) q k = conclude-fuel fs total g (rw (e, q, load_snapshot) at h)
