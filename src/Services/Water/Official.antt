-- ===== src/Services/Water/Official.antt =====
-- app/connectors/iski.py: the faults of the official API, district by district.
pub mod Laws
use istanbulmcp.Prelude.{
  String, Bool, true, false, not, ◌&&◌, ◌||◌, ◌==◌, Option, none, some, List, [], ◌∷◌, ◌++◌, map,
  filter, collect, if◌then◌else◌,
}
use istanbulmcp.Prelude.Bytes.{codes}
use istanbulmcp.Timetable.Search.{occurs_in}
use istanbulmcp.Services.{
  Text, Value, dict, array, text, null, Members, no_members, member, Elements, no_elements, element,
  elements, get, truthy, Python, str_of,
}
use istanbulmcp.Services.Water.{Result, ok, raises, payload_error, is_dict, member_of, ◌>>=◌}

-- An object with these members.
unfoldable pub members : List (String × Value) → Members
members [] = no_members
members ((key, v) ∷ rest) = member key v (members rest)

unfoldable pub to_elements : List Value → Elements
to_elements [] = no_elements
to_elements (v ∷ vs) = element v (to_elements vs)

unfoldable pub feature_collection : List Value → Value
unfolding members to_elements
feature_collection features = dict (
    members (
      ("type", text (codes "FeatureCollection")) ∷ ("features", array (to_elements features)) ∷ []))

-- `_api_fault_feature`: a row of the API as a feature of the map, without a geometry.
unfoldable pub api_fault_feature : Value → Value
unfolding get members
api_fault_feature row =
    let properties =
      ("ARIZA_NO", member_of "arizaNo" row)
      ∷ ("ILCE_KODU", member_of "ilceKodu" row)
      ∷ ("ILCE_ADI", member_of "ilceAdi" row)
      ∷ ("MAHALLE_KODU", member_of "mahalleKodu" row)
      ∷ ("MAHALLE_ADI", member_of "mahalleAdi" row)
      ∷ ("ARIZA_NEVI_ACIKLAMASI", member_of "arizaNeviAciklamasi" row)
      ∷ ("BASLAMA_TARIHI", member_of "baslamaTarihi" row)
      ∷ ("TAHMINI_BITIS_TARIHI", member_of "tahminiBitisTarihi" row)
      ∷ [] in
    dict (
      members (
        ("type", text (codes "Feature"))
        ∷ ("properties", dict (members properties))
        ∷ ("geometry", null)
        ∷ []))

-- `row for row in rows if isinstance(row, dict)`
abbrev pub dict_rows : List Value → List Value
dict_rows = filter is_dict

-- The features of a district's rows before those of later districts.
unfoldable pub add_rows : Value → Result (List Value) → Result (List Value)
unfolding elements api_fault_feature
add_rows (array rows) later =
    later >>= λ found. ok (map api_fault_feature (dict_rows (elements rows)) ++ found)
add_rows v later = raises payload_error

module _ (py : Python) where
  -- "... ariza ya da kesinti bulunmamaktadir"
  unfoldable pub is_no_fault_message : Value → Bool
  unfolding get occurs_in
  is_no_fault_message body = elim (member_of "description" body) [
    | text t ↦
        let folded =
          py.casefold (py.nfkd (map (λ c. if c == 305 || c == b'I' then b'i' else c) t)) in
        let plain = filter (λ c. not (py.is_combining c)) folded in
        occurs_in (codes "bulunmamaktadir") plain
        && (occurs_in (codes "ariza") plain || occurs_in (codes "kesinti") plain)
    | _ ↦ false
  ]

  -- The districts that have a code, with it as text.
  unfoldable pub district_code : Value → Option Text
  unfolding get truthy
  district_code district =
      let code = member_of "ilceKodu" district in
      if truthy code then some (str_of py code) else none

  -- The loop over the districts; `detail` is what the request for a district's faults comes to.
  unfoldable pub district_features : (Text → Result Value) → List Text → Result (List Value)
  unfolding get add_rows is_no_fault_message
  district_features detail [] = ok []
  district_features detail (code ∷ rest) =
      let later = district_features detail rest in
      detail code >>= λ answer.
      if is_no_fault_message (member_of "data" answer)
      then later
      else add_rows (member_of "data" answer) later

  unfoldable pub of_districts : (Text → Result Value) → Value → Result Value
  unfolding elements district_code district_features
  of_districts detail (array districts) =
      district_features detail (collect district_code (elements districts)) >>= λ features.
      ok (feature_collection features)
  of_districts detail v = raises payload_error

  -- `_faults_from_api`, given what the request for the list of districts comes to.
  unfoldable pub faults_from_api : Result Value → (Text → Result Value) → Result Value
  unfolding get is_no_fault_message of_districts
  faults_from_api listing detail = listing >>= λ body.
      if is_no_fault_message (member_of "data" body)
      then ok (feature_collection [])
      else of_districts detail (member_of "data" body)
