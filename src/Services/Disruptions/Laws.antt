-- ===== src/Services/Disruptions/Laws.antt =====
-- app/services/disruptions.py: what a response shows, and what its status says of the sources.
use istanbulmcp.Prelude.Bytes.{codes, same_bytes, same_bytes_iff}
use istanbulmcp.Prelude.{
  ◌≢◌, ◌⊎◌, none, some, All-map, ℕ, ◌-◌, ◌<◌, Bool, true, false, ◌==◌, ◌≡◌, ◌↔◌, refl, Option, List,
  [], ◌∷◌, map, filter, any, length, All, length-filter-le, take, Bool-cases, inl, inr, arith,
}
use istanbulmcp.Prelude.Int.{ℤ, pos, ◌≤ℤ◌, pos_part}
use istanbulmcp.Prelude.Rows.{
  le_by-IsOrder, le_texts-IsOrder, le_texts, unique, IsUnique, unique-IsUnique, unique-All, IsFront,
  sort-IsFront,
}
use istanbulmcp.Prelude.Sort.{sort}
use istanbulmcp.Envelope.{fresh}
use istanbulmcp.Services.{Text, Python}
use istanbulmcp.Services.Disruptions.{
  same_line, on_line, supported_modes, supported_operators, SourceSpec, Disruption, is_wanted,
  identity, sort_key, le_disruption, SourceRead, Outcomes, read_source, all_rows, Response, respond,
  Query,
}
use istanbulmcp.Services.Disruptions.Choice.{
  filter-All, Among, filter-Among, Fits, fits_iff, ArePicked, IsChoice, stripped,
}

abbrev pub IsCurrent : SourceRead → Type 0
IsCurrent r = (r.is_checked ≡ true) × (r.is_stale ≡ false)

abbrev pub checked_count : List SourceRead → ℕ
checked_count reads = length (filter (λ (r : SourceRead). r.is_checked) reads)

none_checked :
    (reads : List SourceRead) → (checked_count reads ≡ 0) ↔ All (λ r. r.is_checked ≡ false) reads
none_checked [] = ((λ h. tt), (λ h. refl))
none_checked (r ∷ reads) = ground (arith, none_checked reads)

all_current :
    (reads : List SourceRead)
    → ((checked_count reads ≡ length reads) × (any (λ (r : SourceRead). r.is_stale) reads ≡ false))
      ↔ All IsCurrent reads
all_current [] = ((λ h. tt), (λ h. (refl, refl)))
all_current (r ∷ reads) =
    ground (arith, all_current reads, length-filter-le (λ (q : SourceRead). q.is_checked) reads)

module _ (py : Python) (mode operator line : Option Text) (limit : ℤ)
    (reads : List SourceRead) where
  -- With at least one source, a response is an error exactly if no source could be checked, and is
  -- called fresh exactly if every source was checked and none gave old data.
  pub respond-status :
      0 < length reads
      → (((respond py mode operator line limit reads).is_ok ≡ false)
          ↔ All (λ r. r.is_checked ≡ false) reads)
        × (((respond py mode operator line limit reads).body.freshness ≡ fresh)
            ↔ All IsCurrent reads)
  unfolding respond
  respond-status h =
      let none_of = none_checked reads in
      let all_of = all_current reads in
      let most = length-filter-le (λ (q : SourceRead). q.is_checked) reads in
      (
        ((λ k. none_of.0 (ground (arith, k, h, most))), (λ a. ground (arith, none_of.1 a))),
        ((λ k. all_of.0 (ground (arith, k, h, most))), (λ a. ground (arith, all_of.1 a, h))),
      )

  abbrev pub NamesLine : Text → Option Text → Type 0
  NamesLine wanted none = ⊥
  NamesLine wanted (some t) = py.casefold t ≡ py.casefold wanted

  abbrev pub OnLine : Option Text → Disruption → Type 0
  OnLine none d = Unit
  OnLine (some wanted) d = NamesLine wanted d.line_code ⊎ NamesLine wanted d.route_label

  -- No row of plain operation, and of the mode, the operator and the line that were asked for.
  pub record IsAsked (d : Disruption) : Type 0 where
    pub is_event : d.event_type ≢ codes "operational"
    pub of_mode : Fits mode d.mode
    pub of_operator : Fits operator d.operator
    pub of_line : OnLine line d

  same_line_iff :
      (wanted : Text) (t : Option Text) → (same_line py wanted t ≡ true) ↔ NamesLine wanted t
  same_line_iff wanted none = ((λ h. absurd (ground (arith, h))), (λ n. absurd n))
  same_line_iff wanted (some t) = same_bytes_iff (py.casefold t) (py.casefold wanted)

  on_line_iff : (l : Option Text) (d : Disruption) → (on_line py l d ≡ true) ↔ OnLine l d
  on_line_iff none d = ((λ h. tt), (λ h. refl))
  on_line_iff (some w) d =
      let a = same_line_iff w d.line_code in
      let b = same_line_iff w d.route_label in
      (
        (λ h. elim (Bool-cases (same_line py w d.line_code)) [
          | inl e ↦ inl (a.0 e)
          | inr e ↦ inr (b.0 (rw e at h))
        ]),
        λ o. elim o [
          | inl n ↦ let e = a.1 n in ground (arith, e)
          | inr n ↦ let e = b.1 n in ground (arith, e)
        ],
      )

  wanted_iff : (d : Disruption) → (is_wanted py mode operator line d ≡ true) ↔ IsAsked d
  wanted_iff d =
      let a = same_bytes_iff d.event_type (codes "operational") in
      let b = fits_iff mode d.mode in
      let c = fits_iff operator d.operator in
      let l = on_line_iff line d in
      (
        (λ h. record {
          is_event = λ same. let e = a.1 same in absurd (ground (arith, h, e));
          of_mode = b.0 (ground (arith, h));
          of_operator = c.0 (ground (arith, h));
          of_line = l.0 (ground (arith, h));
        }),
        λ (k : IsAsked d). elim (Bool-cases (same_bytes d.event_type (codes "operational"))) [
          | inl e ↦ absurd (k.is_event (a.0 e))
          | inr e ↦
              let m = b.1 k.of_mode in
              let o = c.1 k.of_operator in let n = l.1 k.of_line in ground (arith, e, m, o, n)
        ],
      )

  unasked : (d : Disruption) → is_wanted py mode operator line d ≡ false → ¬ IsAsked d
  unasked d h k = let e = (wanted_iff d).1 k in absurd (ground (arith, h, e))

  abbrev pub wanted : List Disruption
  wanted = filter (is_wanted py mode operator line) (all_rows reads)

  pub record IsResponse (r : Response) : Type 0 where
    pub front : IsFront le_disruption (pos_part limit) (unique identity wanted) r.body.shown
    pub distinct : IsUnique identity (unique identity wanted)
    pub asked : All IsAsked (unique identity wanted)
    pub complete : All (λ d. Among d wanted ⊎ (¬ IsAsked d)) (all_rows reads)

  respond-shown :
      (respond py mode operator line limit reads).body.shown
      ≡ take (pos_part limit) (sort le_disruption (unique identity wanted))
  unfolding respond
  respond-shown = elim (Bool-cases (length reads - checked_count reads == length reads)) [
    | inl e ↦ rw e refl
    | inr e ↦ rw e refl
  ]

  sorted :
      (d : Disruption)
      → Among d wanted ⊎ (is_wanted py mode operator line d ≡ false)
      → Among d wanted ⊎ (¬ IsAsked d)
  sorted d (inl a) = inl a
  sorted d (inr n) = inr (unasked d n)

  pub respond-IsResponse : IsResponse (respond py mode operator line limit reads)
  respond-IsResponse =
      let order = le_by-IsOrder le_texts sort_key le_texts-IsOrder in
      record {
        front =
            rw respond-shown
              (sort-IsFront le_disruption order (pos_part limit) (unique identity wanted));
        distinct = unique-IsUnique identity wanted;
        asked =
            unique-All identity IsAsked wanted
              (All-map wanted (λ d. (wanted_iff d).0) (filter-All _ (all_rows reads)));
        complete = All-map (all_rows reads) sorted (filter-Among _ (all_rows reads));
      }

module _ (py : Python) (has_announcements : Bool) (default_limit max_limit : ℤ) (q : Query)
    (outcomes : Outcomes) where
  pub record IsAnswered (r : Response) : Type 0 where
    pub mode : Option Text
    pub operator : Option Text
    pub line : Option Text
    pub limit : ℤ
    pub specs : List SourceSpec
    pub limit_bound : (pos 1 ≤ℤ limit) × (limit ≤ℤ max_limit)
    pub mode_asked : IsChoice py supported_modes q.mode mode
    pub operator_asked : IsChoice py supported_operators q.operator operator
    pub line_asked : line ≡ stripped q.line
    pub limit_asked : (q.limit ≡ some limit) ⊎ ((q.limit ≡ none) × (limit ≡ default_limit))
    pub picked : ArePicked has_announcements mode operator specs
    pub rows : IsResponse py mode operator line limit (map (read_source outcomes) specs) r
    pub is_error :
        (r.is_ok ≡ false) ↔ All (λ s. s.is_checked ≡ false) (map (read_source outcomes) specs)
    pub is_fresh : (r.body.freshness ≡ fresh) ↔ All IsCurrent (map (read_source outcomes) specs)
