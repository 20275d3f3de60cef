-- ===== src/Timetable/Publish/Readers.antt =====
-- Publications that fail and succeed in turn, and what readers find after them.
use istanbulmcp.Prelude.{
  ℕ, ◌+◌, ◌≡◌, ◌⊎◌, inl, inr, refl, sym, ap, ◌∙◌, String, Bool, true, false, Option, none, some,
  List, [], ◌∷◌, ◌++◌, any, str_eq, arith, Bool-cases, Option-cases, &&_true,
}
use istanbulmcp.Prelude.Bytes.{same_bytes, same_bytes_iff}
use istanbulmcp.Timetable.{Text, Tables}
use istanbulmcp.Timetable.Publish.{
  Database, Step, published, add_columns, added_columns, table_steps, meta_steps, run_steps,
  publish_schedule, require_snapshot,
}

-- The effect of steps none of which fails.
abbrev all_steps : List Step → Database → Database
all_steps [] db = db
all_steps (step ∷ steps) db = all_steps steps (step db)

run_steps-all :
    (raises : ℕ → Bool) (n : ℕ) (steps : List Step) (db db' : Database)
    → run_steps raises n steps db ≡ some db'
    → db' ≡ all_steps steps db
unfolding run_steps
run_steps-all raises n [] db db' h = ground arith
run_steps-all raises n (step ∷ steps) db db' h =
    ground (arith, run_steps-all raises (n + 1) steps (step db) db')

all_steps-append :
    (xs ys : List Step) (db : Database) → all_steps (xs ++ ys) db ≡ all_steps ys (all_steps xs db)
all_steps-append [] ys db = refl
all_steps-append (x ∷ xs) ys db = all_steps-append xs ys (x db)

-- New columns leave the rows alone.
add_columns-keep :
    (existing cs : List String) (db : Database)
    → (all_steps (add_columns existing cs) db).tables ≡ db.tables
unfolding add_columns
add_columns-keep existing [] db = refl
add_columns-keep existing (c ∷ cs) db = elim (Bool-cases (any (str_eq c) existing)) [
  | inl e ↦ rw e (add_columns-keep existing cs db)
  | inr e ↦ rw e (add_columns-keep existing cs _)
]

-- What the statements write, whatever was there.
abbrev written_database : Text → Text → Tables → Database → Database
written_database id profile staged db = record {
  stop_columns = (all_steps (add_columns db.stop_columns added_columns) db).stop_columns;
  tables = published staged;
  meta = some (id, profile);
}

written :
    (id profile : Text) (staged : Tables) (db : Database)
    → all_steps
        (add_columns db.stop_columns added_columns ++ (table_steps staged ++ meta_steps id profile))
        db
      ≡ written_database id profile staged db
unfolding table_steps meta_steps
written id profile staged db =
    all_steps-append (add_columns db.stop_columns added_columns)
      (table_steps staged ++ meta_steps id profile) db

-- A publication that raises leaves the database as it was; one that does not leaves all staged
-- rows, and no others, under its own snapshot and profile.
pub publish_atomic :
    (raises : ℕ → Bool) (staged : Tables) (id profile : Text) (db db' : Database) (failed : Bool)
    → publish_schedule raises staged id profile db ≡ (db', failed)
    → ((failed ≡ true) × (db' ≡ db))
      ⊎ ((failed ≡ false) × (db'.tables ≡ published staged) × (db'.meta ≡ some (id, profile)))
unfolding publish_schedule
publish_atomic raises staged id profile db db' failed h = go _ refl
  where
    steps : List Step
    steps =
        add_columns db.stop_columns added_columns ++ (table_steps staged ++ meta_steps id profile)

    go :
        (o : Option Database)
        → run_steps raises 0 steps db ≡ o
        → ((failed ≡ true) × (db' ≡ db))
          ⊎ ((failed ≡ false) × (db'.tables ≡ published staged) × (db'.meta ≡ some (id, profile)))
    go none e = let k = rw (e, publish_schedule) at h in inl (cc, cc)
    go (some d) e =
        let k = rw (e, publish_schedule) at h in
        let done = run_steps-all raises 0 steps db d e ∙ written id profile staged db in
        let same : db' ≡ d = cc in inr (cc, rw same (rw done refl), rw same (rw done refl))

-- One publication of a worker: which statements fail, what is staged, and under which names.
pub record Attempt : Type 0 where
  pub raises : ℕ → Bool
  pub staged : Tables
  pub snapshot_id : Text
  pub profile : Text

unfoldable pub publish_all : List Attempt → Database → Database
publish_all [] db = db
publish_all (a ∷ rest) db =
    publish_all rest (publish_schedule a.raises a.staged a.snapshot_id a.profile db).0

-- The snapshot that a database holds was staged by one of the attempts.
abbrev pub Holds : List Attempt → Tables → Text → Text → Type 0
Holds [] tables id profile = ⊥
Holds (a ∷ rest) tables id profile =
    ((a.snapshot_id ≡ id) × (a.profile ≡ profile) × (tables ≡ published a.staged))
    ⊎ Holds rest tables id profile

publish_all-Holds :
    (rest : List Attempt) (db : Database) (id profile : Text)
    → (publish_all rest db).meta ≡ some (id, profile)
    → (db.meta ≡ some (id, profile)) × ((publish_all rest db).tables ≡ db.tables)
      ⊎ Holds rest (publish_all rest db).tables id profile
unfolding publish_all
publish_all-Holds [] db id profile h = inl (h, refl)
publish_all-Holds (a ∷ rest) db id profile h =
    let r = publish_schedule a.raises a.staged a.snapshot_id a.profile db in
    elim (publish_all-Holds rest r.0 id profile h) [
      | inr later ↦ inr (inr later)
      | inl (m, t) ↦
          elim (publish_atomic a.raises a.staged a.snapshot_id a.profile db r.0 r.1 refl) [
            | inl (f, e) ↦
                inl
                  (ap (λ (d : Database). d.meta) (sym e) ∙ m, t ∙ ap (λ (d : Database). d.tables) e)
            | inr (f, tables, meta) ↦
                let named : (a.snapshot_id ≡ id) × (a.profile ≡ profile) =
                  names-eq (sym meta ∙ m) in
                inr (inl (named.0, named.1, t ∙ tables))
          ]
    ]
  where
    names-eq :
        {b c d e : Text}
        → ◌≡◌ {A = Option (Text × Text)} (some (b, c)) (some (d, e))
        → (b ≡ d) × (c ≡ e)
    names-eq q = (cc, cc)

-- Whatever attempts of whatever workers succeed or fail, a reader whose snapshot and profile the
-- database names reads exactly the rows that were staged for them.
pub reader_consistent :
    (rest : List Attempt) (db : Database) (id profile : Text)
    → db.meta ≡ none
    → require_snapshot (publish_all rest db) id profile ≡ true
    → Holds rest (publish_all rest db).tables id profile
unfolding require_snapshot
reader_consistent rest db id profile empty h = elim (Option-cases (publish_all rest db).meta) [
  | inl e ↦ absurd (ground (arith, e))
  | inr ((i, p), e) ↦
      let both = &&_true (same_bytes i id) (same_bytes p profile) (rw (e, require_snapshot) at h) in
      let same_id = (same_bytes_iff i id).0 both.0 in
      let same_profile = (same_bytes_iff p profile).0 both.1 in
      let named : (publish_all rest db).meta ≡ some (id, profile) =
        e ∙ (λ k. some (same_id k, same_profile k)) in
      elim (publish_all-Holds rest db id profile named) [
        | inl (m, t) ↦ absurd (ground (arith, empty, m))
        | inr held ↦ held
      ]
]
