-- ===== src/Services/Water/Official/Laws.antt =====
-- app/connectors/iski.py, _faults_from_api: the shape of what it builds.
use istanbulmcp.Prelude.{
  true, ◌≡◌, refl, List, [], ◌∷◌, ◌++◌, map, collect, all, arith, Bool-cases, inl, inr, ap,
}
use istanbulmcp.Prelude.Bytes.{same_bytes}
use istanbulmcp.Services.{Text, Value, dict, array, text, amount, flag, null, elements, Python}
use istanbulmcp.Services.Water.{
  Result, ok, ok-bind, member_of, valid_feature, validate_fault_payload,
}
use istanbulmcp.Services.Water.Official.{
  to_elements, feature_collection, api_fault_feature, is_no_fault_message, dict_rows, district_code,
  add_rows, of_districts, district_features, faults_from_api,
}

elements-to_elements : (vs : List Value) → elements (to_elements vs) ≡ vs
unfolding elements to_elements
elements-to_elements [] = refl
elements-to_elements (v ∷ vs) = ap (λ l. v ∷ l) (elements-to_elements vs)

features_valid :
    (rows more : List Value)
    → all valid_feature more ≡ true
    → all valid_feature (map api_fault_feature rows ++ more) ≡ true
unfolding api_fault_feature valid_feature
features_valid [] more h = h
features_valid (r ∷ rows) more h = features_valid rows more h

collection_valid :
    (fs : List Value)
    → all valid_feature fs ≡ true
    → validate_fault_payload (feature_collection fs) ≡ ok (feature_collection fs)
unfolding feature_collection validate_fault_payload same_bytes
collection_valid fs h = rw (elements-to_elements fs, h) refl

module _ (py : Python) (detail : Text → Result Value) where
  add_rows_valid :
      (v : Value) (later : Result (List Value)) (fs : List Value)
      → add_rows v later ≡ ok fs
      → ((more : List Value) → later ≡ ok more → all valid_feature more ≡ true)
      → all valid_feature fs ≡ true
  unfolding add_rows
  add_rows_valid (array rows) later fs h valid =
      let (more, l, e) = ok-bind later _ fs h in
      let same : map api_fault_feature (dict_rows (elements rows)) ++ more ≡ fs =
        ground (arith, e) in
      rw (← same) (features_valid (dict_rows (elements rows)) more (valid more l))
  add_rows_valid (dict ms) later fs h valid = absurd (ground arith)
  add_rows_valid (text t) later fs h valid = absurd (ground arith)
  add_rows_valid (amount x) later fs h valid = absurd (ground arith)
  add_rows_valid (flag b) later fs h valid = absurd (ground arith)
  add_rows_valid null later fs h valid = absurd (ground arith)

  district_features_valid :
      (districts : List Text) (fs : List Value)
      → district_features py detail districts ≡ ok fs
      → all valid_feature fs ≡ true
  unfolding district_features
  district_features_valid [] fs h = ground (arith, h)
  district_features_valid (d ∷ districts) fs h =
      let later = district_features_valid districts in
      let (answer, e, k) = ok-bind (detail d) _ fs h in
      elim (Bool-cases (is_no_fault_message py (member_of "data" answer))) [
        | inl q ↦ later fs (rw q at k)
        | inr q ↦ add_rows_valid (member_of "data" answer) _ fs (rw q at k) later
      ]

  of_districts_valid :
      (data' : Value) (v : Value)
      → of_districts py detail data' ≡ ok v
      → validate_fault_payload v ≡ ok v
  unfolding of_districts
  of_districts_valid (array districts) v h =
      let codes = collect (district_code py) (elements districts) in
      let (fs, f, e) = ok-bind (district_features py detail codes) _ v h in
      let same : feature_collection fs ≡ v = ground (arith, e) in
      rw (← same) (collection_valid fs (district_features_valid codes fs f))
  of_districts_valid (dict ms) v h = absurd (ground arith)
  of_districts_valid (text t) v h = absurd (ground arith)
  of_districts_valid (amount x) v h = absurd (ground arith)
  of_districts_valid (flag b) v h = absurd (ground arith)
  of_districts_valid null v h = absurd (ground arith)

  -- What is built of the official API's replies passes the check that every payload of faults goes
  -- through.
  pub faults_from_api-valid :
      (listing : Result Value) (v : Value)
      → faults_from_api py listing detail ≡ ok v
      → validate_fault_payload v ≡ ok v
  unfolding faults_from_api
  faults_from_api-valid listing v h =
      let (body, e, k) = ok-bind listing _ v h in
      elim (Bool-cases (is_no_fault_message py (member_of "data" body))) [
        | inl q ↦
            let same : feature_collection [] ≡ v = ground (arith, rw q at k) in
            rw (← same) (collection_valid [] refl)
        | inr q ↦ of_districts_valid (member_of "data" body) v (rw q at k)
      ]
