-- ===== src/Sql/Service/Replies.antt =====
-- What a reply with rows rests on.
use istanbulmcp.Prelude.{
  ℕ, ◌≤◌, ◌≡◌, ◌⊎◌, refl, sym, ap, ◌∙◌, Bool, true, false, Option, none, some, any, List, length,
  arith, length-take-le,
}
use istanbulmcp.Prelude.Int.{ℤ, pos, ◌≤ℤ◌, pos_part}
use istanbulmcp.Prelude.Bytes.{same_bytes, strip}
use istanbulmcp.Validation.{
  Validated, raises, accepts, validate_limit, validate_identifier, validate_text,
}
use istanbulmcp.Snapshot.{Fields}
use istanbulmcp.Sql.{Text, Parser, Value, Numbers, validate_sql}
use istanbulmcp.Sql.Fetch.{
  Prepared, Executed, query_rejected, snapshot_rejected, returned, Record, execute_snapshot_query,
}
use istanbulmcp.Sql.Fetch.Answers.{IsGuarded, execute_snapshot_query_sound, yielded}
use istanbulmcp.Sql.Service.{
  Settings, Cached, captured, rate_limited, failed, succeeds, Checked, check_query, query,
}

-- The request that the arguments of a query name.
pub record IsRequest (parser : Parser) (settings : Settings) (resource_id sql : Text)
    (limit : Option ℤ) (c : Checked) : Type 0 where
  pub named : c.resource_id ≡ strip resource_id
  pub listed : any (same_bytes (strip resource_id)) settings.allowed_resource_ids ≡ true
  pub checked : validate_sql parser sql ≡ accepts c.statement
  pub positive : pos 1 ≤ℤ c.limit
  pub capped : c.limit ≤ℤ settings.max_limit
  pub small : pos_part c.limit ≤ 100
  pub asked : (limit ≡ some c.limit) ⊎ ((limit ≡ none) × (c.limit ≡ settings.default_limit))

check_query_sound :
    (parser : Parser) (settings : Settings) (resource_id sql : Text) (limit : Option ℤ)
    (c : Checked)
    → check_query parser settings resource_id sql limit ≡ accepts c
    → IsRequest parser settings resource_id sql limit c
unfolding check_query validate_limit validate_identifier validate_text
check_query_sound parser settings resource_id sql limit c e = record {
  named = ground arith;
  listed = ground arith;
  checked = ground arith;
  positive = ground arith;
  capped = ground arith;
  small = ground arith;
  asked = ground arith;
}

module _ {ℓ} {R : Type ℓ} (encoded : R → Option ℕ) (parser : Parser) (numbers : Numbers)
    (settings : Settings) where
  pub record IsAnswered (locked : Bool) (cached : Cached) (deadline : ℕ)
      (prepare : List (List Value) → Text → Option (Prepared R)) (resource_id sql : Text)
      (limit : Option ℤ) (rows : List R) (truncated : Bool) (captured_total : ℕ) : Type ℓ where
    pub request : Checked
    pub fields : Fields
    pub records : List Record
    pub asked : IsRequest parser settings resource_id sql limit request
    pub free : locked ≡ false
    pub complete : cached ≡ captured fields records
    pub all_counted : captured_total ≡ length records
    pub guarded :
        IsGuarded encoded
          (pos_part request.limit)
          deadline
          parser
          numbers
          fields
          records
          request.statement
          prepare
          rows
          truncated
    pub bounded : length rows ≤ 100

  -- A reply with rows is for the resource that was named, an allowlisted one, and runs the statement
  -- that the given SQL was checked to be, under the limit that was asked for or the default; it was
  -- made while no other query held the gate, ran guarded over all records of the capture, and has a
  -- hundred rows at most.
  pub query-IsAnswered :
      (locked : Bool) (cached : Cached) (deadline : ℕ)
      (prepare : List (List Value) → Text → Option (Prepared R)) (resource_id sql : Text)
      (limit : Option ℤ) (rows : List R) (truncated : Bool) (captured_total : ℕ)
      → query encoded parser numbers settings locked cached deadline prepare resource_id sql limit
        ≡ succeeds rows truncated captured_total
      → IsAnswered locked cached deadline prepare resource_id sql limit rows truncated
          captured_total
  unfolding query
  query-IsAnswered locked cached deadline prepare resource_id sql limit rows truncated
        captured_total e =
      go locked cached _ refl e
    where
      done :
          (c : Checked) (fields : Fields) (records : List Record)
          → check_query parser settings resource_id sql limit ≡ accepts c
          → IsGuarded encoded
              (pos_part c.limit)
              deadline
              parser
              numbers
              fields
              records
              c.statement
              prepare
              rows
              truncated
          → captured_total ≡ length records
          → IsAnswered false
              (captured fields records)
              deadline
              prepare
              resource_id
              sql
              limit
              rows
              truncated
              captured_total
      done c fields records checked guarded size =
          let asked = check_query_sound parser settings resource_id sql limit c checked in
          record {
            request = c;
            fields = fields;
            records = records;
            asked = asked;
            free = refl;
            complete = refl;
            all_counted = size;
            guarded = guarded;
            bounded = omega (
              arith,
              ap length guarded.shown,
              length-take-le (pos_part c.limit) (yielded guarded.prepared.events),
              asked.small,
            );
          }

      executed :
          (c : Checked) (fields : Fields) (records : List Record) (x : Executed R)
          → check_query parser settings resource_id sql limit ≡ accepts c
          → execute_snapshot_query encoded
              (pos_part c.limit)
              deadline
              parser
              numbers
              fields
              records
              c.statement
              prepare
            ≡ x
          → query encoded parser numbers settings false
              (captured fields records)
              deadline
              prepare
              resource_id
              sql
              limit
            ≡ succeeds rows truncated captured_total
          → IsAnswered false
              (captured fields records)
              deadline
              prepare
              resource_id
              sql
              limit
              rows
              truncated
              captured_total
      executed c fields records query_rejected checked run h =
          let h1 = rw (checked, query) at h in let h2 = rw run at h1 in absurd (cc)
      executed c fields records snapshot_rejected checked run h =
          let h1 = rw (checked, query) at h in let h2 = rw run at h1 in absurd (cc)
      executed c fields records (returned out cut) checked run h =
          let h1 = rw (checked, query) at h in
          let h2 = rw run at h1 in
          let o : out ≡ rows = cc in
          let t : cut ≡ truncated = cc in
          let size : length records ≡ captured_total = cc in
          done c fields records checked
            (execute_snapshot_query_sound encoded (pos_part c.limit) deadline parser numbers fields
              records c.statement prepare rows truncated (run ∙ (λ i. returned (o i) (t i))))
            (sym size)

      go :
          (l : Bool) (k : Cached) (v : Validated Checked)
          → check_query parser settings resource_id sql limit ≡ v
          → query encoded parser numbers settings l k deadline prepare resource_id sql limit
            ≡ succeeds rows truncated captured_total
          → IsAnswered l k deadline prepare resource_id sql limit rows truncated captured_total
      go l k (raises error) v h = let h' = rw (v, query) at h in absurd (cc)
      go true k (accepts c) v h = let h' = rw (v, query) at h in absurd (cc)
      go false rate_limited (accepts c) v h = let h' = rw (v, query) at h in absurd (cc)
      go false failed (accepts c) v h = let h' = rw (v, query) at h in absurd (cc)
      go false (captured fields records) (accepts c) v h = executed c fields records _ v refl h
