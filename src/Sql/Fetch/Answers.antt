-- ===== src/Sql/Fetch/Answers.antt =====
-- What a query returns.
use istanbulmcp.Prelude.{
  ℕ, zero, suc, ◌+◌, ◌*◌, ◌≤◌, ◌≡◌, refl, sym, ap, ◌∙◌, Bool, true, false, not, ◌&&◌, Option, none,
  some, List, [], ◌∷◌, ◌++◌, ltb, ◌==◌, all, length, length-append, map, take, arith, All, all-All,
  Bool-cases, Option-cases, inl, inr, &&_true,
}
use mathlib.Core.List.{append_assoc, append-nil}
use istanbulmcp.Validation.{Validated, raises, accepts}
use istanbulmcp.Snapshot.{Fields, has_repeat}
use istanbulmcp.Sql.{Text, Parser, Value, Numbers, validate_sql, max_vm_steps, max_result_bytes}
use istanbulmcp.Sql.Fetch.{
  authorize, Event, tick, row, fails, Prepared, returned, Record, stored_rows, fetch,
  execute_snapshot_query,
}

take-append {ℓ} : {A : Type ℓ} (xs ys : List A) → take (length xs) (xs ++ ys) ≡ xs
take-append [] [] = refl
take-append [] (y ∷ ys) = refl
take-append (x ∷ xs) ys = ap (λ l. x ∷ l) (take-append xs ys)

take_all {ℓ} : {A : Type ℓ} (n : ℕ) (xs : List A) → length xs ≤ n → take n xs ≡ xs
take_all zero [] h = refl
take_all zero (x ∷ xs) h = absurd (omega (arith, h))
take_all (suc n) [] h = refl
take_all (suc n) (x ∷ xs) h = ap (λ l. x ∷ l) (take_all n xs (omega (arith, h)))

-- The rows that a statement yields.
abbrev pub yielded {ℓ} : {R : Type ℓ} → List (Event R) → List R
yielded [] = []
yielded (tick now ∷ events) = yielded events
yielded (row r ∷ events) = r ∷ yielded events
yielded (fails ∷ events) = yielded events

abbrev pub ticks {ℓ} : {R : Type ℓ} → List (Event R) → ℕ
ticks [] = 0
ticks (tick now ∷ events) = suc (ticks events)
ticks (row r ∷ events) = ticks events
ticks (fails ∷ events) = ticks events

module _ {ℓ} {R : Type ℓ} (encoded : R → Option ℕ) (limit deadline : ℕ) where
  abbrev weight : R → ℕ
  weight r = elim (encoded r) [ none ↦ 0 | some n ↦ n ]

  -- The bytes of the JSON texts of some rows.
  abbrev pub total : List R → ℕ
  total [] = 0
  total (r ∷ rs) = weight r + total rs

  total-append : (xs ys : List R) → total (xs ++ ys) ≡ total xs + total ys
  total-append [] ys = omega arith
  total-append (x ∷ xs) ys = omega (arith, total-append xs ys)

  -- What the loop returns from some point on.
  pub record IsExact (steps : ℕ) (rows : List R) (events : List (Event R)) (out : List R)
      (truncated : Bool) : Type ℓ where
    pub shown : out ≡ take limit (rows ++ yielded events)
    pub more : truncated ≡ ltb limit (length (rows ++ yielded events))
    pub bytes : total out ≤ max_result_bytes
    pub vm_steps : truncated ≡ false → steps + ticks events * 1000 ≤ max_vm_steps

  fetch-IsExact :
      (steps size : ℕ) (rows : List R) (events : List (Event R)) (out : List R) (truncated : Bool)
      → fetch encoded limit deadline steps size rows events ≡ some (out, truncated)
      → length rows ≤ limit
      → size ≡ total rows
      → size ≤ max_result_bytes
      → steps ≤ max_vm_steps
      → IsExact steps rows events out truncated
  unfolding fetch
  fetch-IsExact steps size rows [] out truncated e short same fits slow =
      let o : rows ≡ out = ground (arith, e) in
      let t : truncated ≡ false = ground (arith, e) in
      let nil = append-nil rows in
      record {
        shown = sym o ∙ sym (take_all limit rows short) ∙ ap (take limit) (sym nil);
        more = t ∙ ground (arith, ap length nil, short);
        bytes = omega (arith, ap total o, same, fits);
        vm_steps = λ f. omega (arith, slow);
      }
  fetch-IsExact steps size rows (tick now ∷ events) out truncated e short same fits slow =
      let rest =
        fetch-IsExact (steps + 1000) size rows events out truncated (ground (arith, e)) short same
          fits (ground (arith, e)) in
      record {
        shown = rest.shown;
        more = rest.more;
        bytes = rest.bytes;
        vm_steps = λ f. omega (arith, rest.vm_steps f);
      }
  fetch-IsExact steps size rows (fails ∷ events) out truncated e short same fits slow = absurd (cc)
  fetch-IsExact steps size rows (row r ∷ events) out truncated e short same fits slow =
      elim (Bool-cases (length rows == limit)) [
        | inl full ↦
            let o : rows ≡ out = ground (arith, e, full) in
            let t : truncated ≡ true = ground (arith, e, full) in
            let p : length rows ≡ limit = ground (arith, full) in
            record {
              shown =
                  sym o
                  ∙ sym (take-append rows (r ∷ yielded events))
                  ∙ ap (λ n. take n (rows ++ (r ∷ yielded events))) p;
              more = t ∙ ground (arith, length-append rows (r ∷ yielded events), p);
              bytes = omega (arith, ap total o, same, fits);
              vm_steps = λ f. absurd (cc);
            }
        | inr room ↦ elim (Option-cases (encoded r)) [
          | inl none1 ↦ absurd (ground (arith, none1, room))
          | inr (n, some1) ↦
              let weighs : weight r ≡ n = rw (some1, weight) refl in
              let size' : size + n ≡ total (rows ++ r ∷ []) =
                omega (arith, total-append rows (r ∷ []), same, weighs) in
              let short' : length (rows ++ r ∷ []) ≤ limit =
                ground (arith, length-append rows (r ∷ []), room, short) in
              let rest =
                fetch-IsExact steps (size + n) (rows ++ r ∷ []) events out truncated
                  (ground (arith, e, room, some1)) short' size' (ground (arith, e, room, some1))
                  slow in
              let moved = append_assoc rows (r ∷ []) (yielded events) in
              record {
                shown = rest.shown ∙ ap (take limit) moved;
                more = rest.more ∙ ap (λ l. ltb limit (length l)) moved;
                bytes = rest.bytes;
                vm_steps = rest.vm_steps;
              }
        ]
      ]

  -- How a query that returns has run.
  pub record IsGuarded (parser : Parser) (f : Numbers) (fields : Fields) (records : List Record)
      (sql : Text) (prepare : List (List Value) → Text → Option (Prepared R)) (rows : List R)
      (truncated : Bool) : Type ℓ where
    pub statement : Text
    pub table : List (List Value)
    pub prepared : Prepared R
    pub valid : validate_sql parser sql ≡ accepts statement
    pub stored : stored_rows parser.lower f fields records ≡ some table
    pub compiled : prepare table statement ≡ some prepared
    pub authorized :
        All (λ a. authorize parser.lower (map (λ c. c.0) fields) a ≡ true) prepared.actions
    pub shown : rows ≡ take limit (yielded prepared.events)
    pub more : truncated ≡ ltb limit (length (yielded prepared.events))
    pub bytes : total rows ≤ max_result_bytes
    pub vm_steps : truncated ≡ false → ticks prepared.events * 1000 ≤ max_vm_steps

  -- A query that returns has run a validated statement, each action of which was authorized, over
  -- all stored records; it shows the first rows, is marked truncated exactly if there are more, and
  -- stays within its bytes and, unless truncated, its steps.
  pub execute_snapshot_query_sound :
      (parser : Parser) (f : Numbers) (fields : Fields) (records : List Record) (sql : Text)
      (prepare : List (List Value) → Text → Option (Prepared R)) (rows : List R) (truncated : Bool)
      → execute_snapshot_query encoded limit deadline parser f fields records sql prepare
        ≡ returned rows truncated
      → IsGuarded parser f fields records sql prepare rows truncated
  unfolding execute_snapshot_query
  execute_snapshot_query_sound parser f fields records sql prepare rows truncated e = go _ refl
    where
      go :
          (v : Validated Text)
          → validate_sql parser sql ≡ v
          → IsGuarded parser f fields records sql prepare rows truncated
      go (raises error) v = let k = rw (v, execute_snapshot_query) at e in absurd (cc)
      go (accepts statement) v =
          let k = rw (v, execute_snapshot_query) at e in
          elim (Option-cases (stored_rows parser.lower f fields records)) [
            | inl none1 ↦ let k1 = rw none1 at k in absurd (cc)
            | inr (table, some1) ↦
                let k1 = rw some1 at k in
                elim (Option-cases (prepare table statement)) [
                  | inl none2 ↦ let k2 = rw none2 at k1 in absurd (cc)
                  | inr (p, some2) ↦
                      let k2 = rw some2 at k1 in
                      elim (Bool-cases (
                        all (authorize parser.lower (map (λ c. c.0) fields)) p.actions
                        && not (has_repeat (map parser.casefold p.names)))) [
                          | inr bad ↦ let k3 = rw bad at k2 in absurd (cc)
                          | inl good ↦
                              let k3 = rw good at k2 in
                              elim (Option-cases (fetch encoded limit deadline 0 0 [] p.events)) [
                                | inl none4 ↦ let k4 = rw none4 at k3 in absurd (cc)
                                | inr ((out, cut), some4) ↦
                                    let k4 = rw some4 at k3 in
                                    let o : out ≡ rows = cc in
                                    let t : cut ≡ truncated = cc in
                                    let x =
                                      fetch-IsExact 0 0 [] p.events out cut some4 (omega arith) refl
                                        (omega arith) (omega arith) in
                                    record {
                                      statement = statement;
                                      table = table;
                                      prepared = p;
                                      valid = v;
                                      stored = some1;
                                      compiled = some2;
                                      authorized = all-All _ p.actions (&&_true _ _ good).0;
                                      shown = sym o ∙ x.shown;
                                      more = sym t ∙ x.more;
                                      bytes = omega (arith, ap total o, x.bytes);
                                      vm_steps = λ f. omega (arith, x.vm_steps (t ∙ f));
                                    }
                              ]
                        ]
                ]
          ]
