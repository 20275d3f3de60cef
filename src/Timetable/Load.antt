-- ===== src/Timetable/Load.antt =====
-- app/connectors/gtfs_schedule.py: GtfsScheduleClient.load, from the chosen resources to the
-- publication. The codecs, csv.reader and zipfile are arguments, as are what the catalog and the
-- server answer; the temporary files are the values that pass through them.
pub mod Sound
use istanbulmcp.Prelude.{
  ℕ, zero, suc, ◌+◌, ◌-◌, Bool, true, false, not, ◌&&◌, ◌||◌, Option, none, some, List, [], ◌∷◌,
  ◌++◌, ltb, leb, ◌==◌, all, any, length, min, if◌then◌else◌, String,
}
use istanbulmcp.Prelude.Bytes.{codes, same_bytes, strip}
use istanbulmcp.Timetable.{Text, Tables}
use istanbulmcp.Timetable.Fields.{◌>>=◌, ◌>>◌, require, is_digit, number_from}
use istanbulmcp.Timetable.Rows.{
  Kind, agency, calendar, calendar_dates, routes, stops, trips, stop_times,
}
use istanbulmcp.Timetable.Staging.{Ingested, ingest}
use istanbulmcp.Timetable.Relations.{validate_relations, Metadata, finalize}
use istanbulmcp.Timetable.Publish.{Database, publish_schedule}

-- A response: its status, its headers and the bodies of its chunks.
pub record Response : Type 0 where
  pub status_code : ℕ
  pub content_encoding : Option Text
  pub content_type : Option Text
  pub content_length : Option Text
  pub chunks : List (List ℕ)

-- `resource.get("size")`, none where it is no integer above zero, and the response to its URL.
pub record Resource : Type 0 where
  pub kind : Kind
  pub size : Option ℕ
  pub response : Response

-- A member of an archive.
pub record Member : Type 0 where
  pub filename : Text
  pub is_encrypted : Bool
  pub file_size : ℕ
  pub content : List ℕ

pub record Settings : Type 0 where
  pub max_bytes : ℕ
  pub max_uncompressed_bytes : ℕ
  pub max_rows : ℕ

abbrev exceeds : Option ℕ → ℕ → Bool
exceeds none n = false
exceeds (some m) n = ltb n m

abbrev differs : Option ℕ → ℕ → Bool
differs none n = false
differs (some m) n = not (n == m)

-- The loop over the chunks: the bytes received, within what remains.
unfoldable pub receive : ℕ → ℕ → List (List ℕ) → Option ℕ
receive remaining received [] = some received
receive remaining received (chunk ∷ chunks) =
    let rest = receive remaining (received + length chunk) chunks in
    if ltb remaining (received + length chunk) then none else rest

-- `length.isdecimal()` and `int(length)`
unfoldable pub decimal_length : Option Text → Option (Option ℕ)
unfolding number_from
decimal_length none = some none
decimal_length (some s) =
    if ltb 0 (length s) && all is_digit s then some (some (number_from 0 s)) else none

abbrev allowed_types : Kind → List String
allowed_types stop_times =
    "application/zip" ∷ "application/octet-stream" ∷ "application/x-zip-compressed" ∷ []
allowed_types kind = "text/csv" ∷ "text/plain" ∷ "application/csv" ∷ "application/octet-stream" ∷ []

-- `split(";", 1)[0]`
abbrev before_semicolon : Text → Text
before_semicolon [] = []
before_semicolon (c ∷ s) = if c == b';' then [] else c ∷ before_semicolon s

abbrev one_of : Text → List String → Bool
one_of s names = any (λ n. same_bytes (codes n) s) names

abbrev text_or : String → Option Text → Text
text_or other none = codes other
text_or other (some s) = s

-- The text before the first line break, with it, and the rest.
unfoldable pub read_line : Text → Text × Text
read_line [] = ([], [])
read_line (c ∷ s) =
    let (first, rest) = read_line s in
    if c == 10
    then (c ∷ [], s)
    else if c == 13
    then elim s [
      | [] ↦ (c ∷ [], [])
      | d ∷ more ↦ if d == 10 then (c ∷ d ∷ [], more) else (c ∷ [], d ∷ more)
    ]
    else (c ∷ first, rest)

-- What a load has staged and spent so far; `counts` and `skipped` are dicts by kind.
pub record Progress : Type 0 where
  pub tables : Tables
  pub counts : List (Kind × ℕ)
  pub skipped : List (Kind × ℕ)
  pub downloaded : ℕ
  pub expanded : ℕ

-- `sum(counts.values())`
abbrev pub total : List (Kind × ℕ) → ℕ
total [] = 0
total ((kind, n) ∷ rest) = n + total rest

abbrev empty_tables : Tables
empty_tables = record {
  calendar = [];
  calendar_dates = [];
  routes = [];
  stops = [];
  trips = [];
  stop_times = [];
}

abbrev pub fresh : Progress
fresh = record { tables = empty_tables; counts = []; skipped = []; downloaded = 0; expanded = 0 }

pub record Loaded : Type 0 where
  pub progress : Progress
  pub metadata : Metadata

-- The codecs of the standard library: `lower`, `is_date`, `repair` and `decode` (of utf-8-sig) on
-- texts, `csv` the rows that csv.reader yields with a delimiter, and `unzip` the archive's members.
pub record Codecs : Type 0 where
  pub lower : Text → Text
  pub is_date : ℕ → Bool
  pub repair : Text → Text
  pub decode : List ℕ → Option Text
  pub csv : ℕ → Text → Option (List (List Text))
  pub unzip : List ℕ → Option (List Member)

abbrev has_byte : ℕ → Text → Bool
has_byte b s = any (◌==◌ b) s

abbrev first_row : List (List Text) → List Text
first_row [] = []
first_row (r ∷ rs) = r

-- The chunks in one.
abbrev joined : List (List ℕ) → List ℕ
joined [] = []
joined (c ∷ cs) = c ++ joined cs

module _ (codecs : Codecs) (settings : Settings) where
  -- `_download`: the size, and the content that it leaves in the file.
  unfoldable pub download : Resource → ℕ → Option (ℕ × List ℕ)
  unfolding receive decimal_length
  download resource remaining = do
    let r = resource.response
    require (not (exceeds resource.size remaining))
    require (
        r.status_code == 200
        && one_of (codecs.lower (text_or "identity" r.content_encoding)) ("identity" ∷ []))
    let media = codecs.lower (strip (before_semicolon (text_or "" r.content_type)))
    require (length media == 0 || one_of media (allowed_types resource.kind))
    declared ← decimal_length r.content_length
    require (not (exceeds declared remaining))
    received ← receive remaining 0 r.chunks
    require (not (differs resource.size received) && not (differs declared received))
    some (received, joined r.chunks)

  -- The start of `_ingest`, which finds the delimiter in the header.
  unfoldable pub read_table : List ℕ → Option (List Text × List (List Text))
  unfolding read_line
  read_table content = do
    text ← codecs.decode content
    let (first, rest) = read_line text
    require (leb (length first) 8192)
    let delimiter = if has_byte b';' first then b';' else b','
    header ← codecs.csv delimiter first
    rows ← codecs.csv delimiter rest
    some (first_row header, rows)

  -- The bytes to read, with the expanded size: the one member of an archive, or the file itself.
  unfoldable pub expand : Kind → ℕ → ℕ → List ℕ → Option (ℕ × List ℕ)
  expand stop_times expanded size content = do
    members ← codecs.unzip content
    elim members [
      | [] ↦ none
      | m ∷ more ↦ do
        require (length more == 0 && one_of m.filename ("stop_times.csv" ∷ "stop_times.txt" ∷ []))
        require (not m.is_encrypted && leb m.file_size (settings.max_uncompressed_bytes - expanded))
        some (expanded + m.file_size, m.content)
    ]
  expand kind expanded size content = do
    require (leb (expanded + size) settings.max_uncompressed_bytes)
    some (expanded + size, content)

  -- One turn of the loop over the resources.
  unfoldable pub load_resource : Progress → Resource → Option Progress
  unfolding download expand read_table
  load_resource p resource = do
    (size, content) ← download resource (settings.max_bytes - p.downloaded)
    (expanded, table) ← expand resource.kind p.expanded size content
    (header, rows) ← read_table table
    g ←
        ingest codecs.is_date codecs.repair resource.kind header rows
          (settings.max_rows - total p.counts - total p.skipped) p.tables
    some (record {
      tables = g.tables;
      counts = (resource.kind, g.count) ∷ p.counts;
      skipped = (resource.kind, g.skipped) ∷ p.skipped;
      downloaded = p.downloaded + size;
      expanded = expanded;
    })

  unfoldable pub load_resources : Progress → List Resource → Option Progress
  load_resources p [] = some p
  load_resources p (r ∷ rs) = elim (load_resource p r) [
    | none ↦ none
    | some p' ↦ load_resources p' rs
  ]

  -- `load`: the database that it leaves, and what it returns unless it raises. `late` tells whether
  -- the deadline has passed, or the load is cancelled, before the publication. `interrupted` tells
  -- whether one of them happens while the thread publishes, or DETACH fails behind the commit: the
  -- load raises then, and the thread goes on to its end.
  unfoldable pub load :
      Bool → Bool → (ℕ → Bool) → Text → Text → List Resource → Database → Database × Option Loaded
  load late interrupted raises snapshot_id profile resources db =
      elim (load_resources fresh resources) [
        | none ↦ (db, none)
        | some p ↦
            if validate_relations p.tables && not late
            then (let (db', failed) = publish_schedule raises p.tables snapshot_id profile db in
                (
                  db',
                  if failed || interrupted
                      then none
                      else some (record { progress = p; metadata = finalize p.tables }),
                ))
            else (db, none)
      ]
