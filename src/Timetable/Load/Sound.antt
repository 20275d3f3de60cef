-- ===== src/Timetable/Load/Sound.antt =====
-- What a load leaves in the database.
use istanbulmcp.Prelude.{
  ℕ, ◌+◌, ◌-◌, ◌≤◌, ◌≡◌, ◌⊎◌, inl, inr, refl, sym, ◌∙◌, Bool, true, not, ◌||◌, ◌&&◌, Option, none,
  some, List, [], ◌∷◌, length, if◌then◌else◌, arith, Bool-cases, Option-cases, &&_true,
}
use istanbulmcp.Timetable.{Text}
use istanbulmcp.Timetable.Rows.{Kind, stop_times}
use istanbulmcp.Timetable.Staging.{Ingested, ingest}
use istanbulmcp.Timetable.Staging.Keys.{IsKeyed, ingest_accounts}
use istanbulmcp.Timetable.Relations.{validate_relations, finalize}
use istanbulmcp.Timetable.Relations.Order.{IsComplete, validate_relations-IsComplete}
use istanbulmcp.Timetable.Publish.{Database, published, publish_schedule}
use istanbulmcp.Timetable.Publish.Readers.{publish_atomic}
use istanbulmcp.Timetable.Load.{
  Resource, Settings, Codecs, Progress, Loaded, total, fresh, receive, download, read_table, expand,
  load_resource, load_resources, load,
}

receive-le :
    (remaining received : ℕ) (chunks : List (List ℕ)) (n : ℕ)
    → received ≤ remaining
    → receive remaining received chunks ≡ some n
    → n ≤ remaining
unfolding receive
receive-le remaining received [] n h e = ground (arith, e)
receive-le remaining received (chunk ∷ chunks) n h e =
    ground (arith, receive-le remaining (received + length chunk) chunks n)

module _ (codecs : Codecs) (settings : Settings) where
  download-le :
      (resource : Resource) (remaining n : ℕ) (content : List ℕ)
      → download codecs settings resource remaining ≡ some (n, content)
      → n ≤ remaining
  unfolding download
  download-le resource remaining n content e =
      ground (arith, receive-le remaining 0 resource.response.chunks n)

  expand-le :
      (kind : Kind) (expanded size n : ℕ) (content table : List ℕ)
      → expanded ≤ settings.max_uncompressed_bytes
      → expand codecs settings kind expanded size content ≡ some (n, table)
      → n ≤ settings.max_uncompressed_bytes
  unfolding expand
  expand-le stop_times expanded size n content table h e = ground arith
  expand-le kind expanded size n content table h e = ground arith

  -- What holds between two turns of the loop.
  pub record IsBounded (p : Progress) : Type 0 where
    pub keyed : IsKeyed p.tables.stop_times
    pub rows : total p.counts + total p.skipped ≤ settings.max_rows
    pub bytes : p.downloaded ≤ settings.max_bytes
    pub uncompressed : p.expanded ≤ settings.max_uncompressed_bytes

  after :
      (p : Progress) (kind : Kind) (size expanded : ℕ) (header : List Text)
      (rows : List (List Text)) (g : Ingested)
      → IsBounded p
      → size ≤ settings.max_bytes - p.downloaded
      → expanded ≤ settings.max_uncompressed_bytes
      → ingest codecs.is_date codecs.repair kind header rows
          (settings.max_rows - total p.counts - total p.skipped)
          p.tables
        ≡ some g
      → IsBounded (record {
        tables = g.tables;
        counts = (kind, g.count) ∷ p.counts;
        skipped = (kind, g.skipped) ∷ p.skipped;
        downloaded = p.downloaded + size;
        expanded = expanded;
      })
  after p kind size expanded header rows g b small fits e =
      let (all_used, in_budget, in_cap, some_kept, keyed) =
        ingest_accounts codecs.is_date codecs.repair kind header rows
          (settings.max_rows - total p.counts - total p.skipped) p.tables g b.keyed e in
      record {
        keyed = keyed;
        rows = omega (arith, all_used, in_budget, b.rows);
        bytes = omega (arith, small, b.bytes);
        uncompressed = fits;
      }

  moved :
      (p p' : Progress) → ◌≡◌ {A = Option Progress} (some p) (some p') → IsBounded p → IsBounded p'
  moved p p' e b = let same : p ≡ p' = cc in rw (← same) b

  load_resource-IsBounded :
      (p p' : Progress) (resource : Resource)
      → IsBounded p
      → load_resource codecs settings p resource ≡ some p'
      → IsBounded p'
  unfolding load_resource
  load_resource-IsBounded p p' resource b e =
      elim (Option-cases (download codecs settings resource (settings.max_bytes - p.downloaded))) [
        | inl none1 ↦ absurd (ground (arith, none1))
        | inr ((size, content), e1) ↦
            let k1 = rw (e1, load_resource) at e in
            elim (Option-cases (expand codecs settings resource.kind p.expanded size content)) [
              | inl none2 ↦ absurd (ground (arith, none2))
              | inr ((expanded, table), e2) ↦
                  let k2 = rw e2 at k1 in
                  elim (Option-cases (read_table codecs settings table)) [
                    | inl none3 ↦ absurd (ground (arith, none3))
                    | inr ((header, rows), e3) ↦
                        let k3 = rw e3 at k2 in
                        elim (Option-cases (
                          ingest codecs.is_date codecs.repair resource.kind header rows
                            (settings.max_rows - total p.counts - total p.skipped) p.tables)) [
                              | inl none4 ↦ absurd (ground (arith, none4))
                              | inr (g, e4) ↦ moved _ p' (rw e4 at k3) (
                                  after p resource.kind size expanded header rows g b
                                    (download-le resource (settings.max_bytes - p.downloaded) size
                                      content e1)
                                    (expand-le resource.kind p.expanded size expanded content table
                                      b.uncompressed e2)
                                    e4)
                            ]
                  ]
            ]
      ]

  load_resources-IsBounded :
      (p p' : Progress) (resources : List Resource)
      → IsBounded p
      → load_resources codecs settings p resources ≡ some p'
      → IsBounded p'
  unfolding load_resources
  load_resources-IsBounded p p' [] b e = moved p p' e b
  load_resources-IsBounded p p' (r ∷ rs) b e =
      elim (Option-cases (load_resource codecs settings p r)) [
        | inl failed ↦ absurd (ground (arith, failed))
        | inr (m, done) ↦
            load_resources-IsBounded m p' rs (load_resource-IsBounded p m r b done)
              (rw (done, load_resources) at e)
      ]

  fresh-IsBounded : IsBounded fresh
  fresh-IsBounded = record {
    keyed = tt;
    rows = omega arith;
    bytes = omega arith;
    uncompressed = omega arith;
  }

  -- What a load leaves behind.
  abbrev pub Ends : Bool → Text → Text → Database → Database → Option Loaded → Type 0
  Ends interrupted id profile db db' result =
      ((result ≡ none) × (db' ≡ db))
      ⊎ (p : Progress) × ((result ≡ some (record { progress = p; metadata = finalize p.tables }))
          ⊎ ((result ≡ none) × (interrupted ≡ true)))
        × IsBounded p
        × IsComplete p.tables
        × (db'.tables ≡ published p.tables)
        × (db'.meta ≡ some (id, profile))

  -- A load that returns has published tables that are complete, unique in their stop times and
  -- within the budgets of rows, of bytes and of expanded bytes. One that raises has left the database
  -- as it was, or, if it was interrupted while its thread published, has published such tables whole.
  pub load_sound :
      (late interrupted : Bool) (raises : ℕ → Bool) (id profile : Text) (resources : List Resource)
      (db db' : Database) (result : Option Loaded)
      → load codecs settings late interrupted raises id profile resources db ≡ (db', result)
      → Ends interrupted id profile db db' result
  unfolding load
  load_sound late interrupted raises id profile resources db db' result e =
      elim (Option-cases (load_resources codecs settings fresh resources)) [
        | inl failed ↦ let k = rw (failed, load) at e in inl (cc, cc)
        | inr (p, done) ↦
            let k = rw (done, load) at e in
            elim (Bool-cases (validate_relations p.tables && not late)) [
              | inl good ↦
                  published_end p done (&&_true (validate_relations p.tables) (not late) good).0
                    (rw good at k)
              | inr bad ↦ let m = rw bad at k in inl (cc, cc)
            ]
      ]
    where
      published_end :
          (p : Progress)
          → load_resources codecs settings fresh resources ≡ some p
          → validate_relations p.tables ≡ true
          → (let r = publish_schedule raises p.tables id profile db in
              ◌≡◌ {A = Database × Option Loaded}
                (
                  r.0,
                  if r.1 || interrupted
                      then none
                      else some (record { progress = p; metadata = finalize p.tables }),
                )
                (db', result))
          → Ends interrupted id profile db db' result
      published_end p done valid m =
          let r = publish_schedule raises p.tables id profile db in
          let same : r.0 ≡ db' = cc in
          let shown : (if r.1 || interrupted
                then none
                else some (record { progress = p; metadata = finalize p.tables }))
              ≡ result =
            cc in
          elim (publish_atomic raises p.tables id profile db r.0 r.1 refl) [
            | inl (f, kept) ↦ inl (sym shown ∙ rw f refl, cc)
            | inr (f, tables, meta) ↦ inr (
              p,
              elim (Bool-cases interrupted) [
                | inl e ↦ inr (sym shown ∙ rw (f, e) refl, e)
                | inr e ↦ inl (sym shown ∙ rw (f, e) refl)
              ],
              load_resources-IsBounded fresh p resources fresh-IsBounded done,
              validate_relations-IsComplete p.tables valid,
              rw (← same) tables,
              rw (← same) meta,
            )
          ]
