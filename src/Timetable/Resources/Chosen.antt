-- ===== src/Timetable/Resources/Chosen.antt =====
-- What select_resources chooses.
use istanbulmcp.Prelude.{
  ◌≡◌, refl, ap, ◌∙◌, ◌⊎◌, true, false, any, length, ◌==◌, ℕ, Option, none, some, List, [], ◌∷◌,
  arith, Option-cases, inl, inr,
}
use istanbulmcp.Prelude.Bytes.{codes, same_bytes_iff}
use istanbulmcp.Timetable.{Text}
use istanbulmcp.Timetable.Rows.{
  Kind, agency, calendar, calendar_dates, routes, stops, trips, stop_times,
}
use istanbulmcp.Timetable.Resources.{
  Url, Listed, Item, is_canonical, candidates, is_optional, select_kind, select_kinds,
  select_resources, fits_path, split_at, is_id, is_one_of, file_names, is_standard_port,
  is_advertised,
}

no_length : (s : Text) → (length s == 0) ≡ true → s ≡ []
no_length [] h = refl
no_length (c ∷ s) h = absurd (ground (arith, h))

ports : (p : Option ℕ) → is_standard_port p ≡ true → (p ≡ none) ⊎ (p ≡ some 443)
ports none h = inl refl
ports (some n) h = inr (ground (arith, h))

module _ (urlsplit : Text → Option Url) (casefold : Text → Text) where
  -- `https://data.ibb.gov.tr/dataset/<id>/resource/<its id>/download/<a file name of its table>`.
  pub record HasAddress (kind : Kind) (r : Listed) : Type 0 where
    pub url : Url
    pub folder : Text
    pub file : Text
    pub parsed : urlsplit r.url ≡ some url
    pub scheme : url.scheme ≡ codes "https"
    pub hostname : url.hostname ≡ codes "data.ibb.gov.tr"
    pub port : (url.port ≡ none) ⊎ (url.port ≡ some 443)
    pub bare : (url.has_user ≡ false) × (url.has_query ≡ false) × (url.has_fragment ≡ false)
    pub path :
        split_at b'/' url.path
        ≡ [] ∷ codes "dataset" ∷ folder ∷ codes "resource" ∷ r.id ∷ codes "download" ∷ file ∷ []
    pub ids : (is_id folder ≡ true) × (is_id r.id ≡ true)
    pub named : is_one_of file (file_names kind) ≡ true

  fits_path-parts :
      (kind : Kind) (id : Text) (parts : List Text)
      → fits_path kind id parts ≡ true
      → (folder : Text) × (file : Text) × (parts
          ≡ [] ∷ codes "dataset" ∷ folder ∷ codes "resource" ∷ id ∷ codes "download" ∷ file ∷ [])
        × (is_id folder ≡ true)
        × (is_id id ≡ true)
        × (is_one_of file (file_names kind) ≡ true)
  unfolding fits_path
  fits_path-parts kind id (e ∷ d ∷ folder ∷ r ∷ captured ∷ l ∷ file ∷ []) h =
      let first : e ≡ [] = no_length e (ground (arith, h)) in
      let dataset : d ≡ codes "dataset" = (same_bytes_iff d _).0 (ground (arith, h)) in
      let resources : r ≡ codes "resource" = (same_bytes_iff r _).0 (ground (arith, h)) in
      let named : captured ≡ id = (same_bytes_iff captured id).0 (ground (arith, h)) in
      let download : l ≡ codes "download" = (same_bytes_iff l _).0 (ground (arith, h)) in
      let good : is_id captured ≡ true = ground (arith, h) in
      (
        folder,
        file,
        rw (first, dataset, resources, named, download) refl,
        ground (arith, h),
        rw named at good,
        ground (arith, h),
      )
  fits_path-parts kind id [] h = absurd (ground (arith, h))
  fits_path-parts kind id (a ∷ []) h = absurd (ground (arith, h))
  fits_path-parts kind id (a ∷ b ∷ []) h = absurd (ground (arith, h))
  fits_path-parts kind id (a ∷ b ∷ c ∷ []) h = absurd (ground (arith, h))
  fits_path-parts kind id (a ∷ b ∷ c ∷ d ∷ []) h = absurd (ground (arith, h))
  fits_path-parts kind id (a ∷ b ∷ c ∷ d ∷ e ∷ []) h = absurd (ground (arith, h))
  fits_path-parts kind id (a ∷ b ∷ c ∷ d ∷ e ∷ f ∷ []) h = absurd (ground (arith, h))
  fits_path-parts kind id (a ∷ b ∷ c ∷ d ∷ e ∷ f ∷ g ∷ i ∷ parts) h = absurd (ground (arith, h))

  is_canonical-HasAddress :
      (kind : Kind) (r : Listed) → is_canonical urlsplit casefold kind r ≡ true → HasAddress kind r
  unfolding is_canonical
  is_canonical-HasAddress kind r h = elim (Option-cases (urlsplit r.url)) [
    | inl e ↦ absurd (ground (arith, h, e))
    | inr (u, e) ↦
        let k = rw (is_canonical, e) at h in
        let (folder, file, path, id, own, named) =
          fits_path-parts kind r.id (split_at b'/' u.path) (ground (arith, k)) in
        record {
          url = u;
          folder = folder;
          file = file;
          parsed = e;
          scheme = (same_bytes_iff u.scheme _).0 (ground (arith, k));
          hostname = (same_bytes_iff u.hostname _).0 (ground (arith, k));
          port = ports u.port (ground (arith, k));
          bare = (ground (arith, k), ground (arith, k), ground (arith, k));
          path = path;
          ids = (id, own);
          named = named;
        }
  ]

  -- The one file of its table, under its canonical address.
  abbrev pub Chosen : List Item → Kind → Listed → Type 0
  Chosen items kind r = (candidates urlsplit casefold kind items ≡ r ∷ []) × HasAddress kind r

  -- Each kind in turn has its file, or is optional and has none.
  abbrev pub Covers : List Item → List Kind → List (Kind × Listed) → Type 0
  Covers items [] selected = selected ≡ []
  Covers items (kind ∷ kinds) selected =
      ((r : Listed) × (rest : List (Kind × Listed)) × (selected ≡ (kind, r) ∷ rest)
        × Chosen items kind r
        × Covers items kinds rest)
      ⊎ ((is_optional urlsplit casefold kind ≡ true)
          × (candidates urlsplit casefold kind items ≡ [])
          × (any (is_advertised urlsplit casefold) items ≡ false)
          × Covers items kinds selected)

  select_kind-Chosen :
      (items : List Item) (kind : Kind) (o : Option Listed)
      → select_kind urlsplit casefold items kind ≡ some o
      → ((r : Listed) × (o ≡ some r) × Chosen items kind r)
        ⊎ ((o ≡ none)
            × (is_optional urlsplit casefold kind ≡ true)
            × (candidates urlsplit casefold kind items ≡ [])
            × (any (is_advertised urlsplit casefold) items ≡ false))
  unfolding select_kind
  select_kind-Chosen items kind o e = go _ refl
    where
      go :
          (l : List Listed)
          → candidates urlsplit casefold kind items ≡ l
          → ((r : Listed) × (o ≡ some r) × Chosen items kind r)
            ⊎ ((o ≡ none)
                × (is_optional urlsplit casefold kind ≡ true)
                × (candidates urlsplit casefold kind items ≡ [])
                × (any (is_advertised urlsplit casefold) items ≡ false))
      go [] h =
          let k = rw (h, select_kind) at e in
          inr (ground (arith, k), ground (arith, k), h, ground (arith, k))
      go (r ∷ []) h =
          let k = rw (h, select_kind) at e in
          inl (r, ground (arith, k), (h, is_canonical-HasAddress kind r (ground (arith, k))))
      go (r ∷ q ∷ rs) h = let k = rw (h, select_kind) at e in absurd (ground (arith, k))

  select_kinds-Covers :
      (items : List Item) (kinds : List Kind) (selected : List (Kind × Listed))
      → select_kinds urlsplit casefold items kinds ≡ some selected
      → Covers items kinds selected
  unfolding select_kinds
  select_kinds-Covers items [] selected e = cc
  select_kinds-Covers items (kind ∷ kinds) selected e =
      elim (Option-cases (select_kind urlsplit casefold items kind)) [
        | inl failed ↦ absurd (ground (arith, failed))
        | inr (o, done) ↦
            let k = rw (done, select_kinds) at e in
            elim (Option-cases (select_kinds urlsplit casefold items kinds)) [
              | inl failed ↦ absurd (ground (arith, failed, done))
              | inr (rest, more) ↦
                  let covers = select_kinds-Covers items kinds rest more in
                  elim (select_kind-Chosen items kind o done) [
                    | inl (r, same, chosen) ↦
                        inl (r, rest, ground (arith, done, more, same), chosen, covers)
                    | inr (same, optional, absent, unnamed) ↦
                        let all_same : rest ≡ selected = ground (arith, done, more, same) in
                        inr (optional, absent, unnamed, rw (← all_same) covers)
                  ]
            ]
      ]

  -- A selection has, for each table but that of calendar dates, the one file of that name in the
  -- package, under its https address on data.ibb.gov.tr, which holds the resource's own id; calendar dates are
  -- left out only if there is no such file and no resource goes by that name.
  pub select_resources-Covers :
      (items : List Item) (selected : List (Kind × Listed))
      → select_resources urlsplit casefold items ≡ some selected
      → Covers items
          (agency ∷ calendar ∷ routes ∷ stops ∷ trips ∷ stop_times ∷ calendar_dates ∷ [])
          selected
  unfolding select_resources
  select_resources-Covers items selected e =
      elim (Option-cases (
        select_kinds urlsplit casefold items
          (agency ∷ calendar ∷ routes ∷ stops ∷ trips ∷ stop_times ∷ calendar_dates ∷ []))) [
            | inl failed ↦ absurd (ground (arith, failed))
            | inr (chosen, done) ↦
                let same : chosen ≡ selected = ground (arith, done) in
                select_kinds-Covers items
                  (agency ∷ calendar ∷ routes ∷ stops ∷ trips ∷ stop_times ∷ calendar_dates ∷ [])
                  selected (done ∙ ap some same)
          ]
