-- ===== src/Timetable/Search.antt =====
-- app/services/stop_search.py: stops by name. The Unicode functions of Python and the ratios of
-- difflib's SequenceMatcher, in millionths, are arguments; the time budget is left out.
pub mod Ranks
use istanbulmcp.Prelude.{
  ℕ, zero, suc, ◌+◌, ◌-◌, Bool, true, false, not, ◌&&◌, ◌||◌, Option, none, some, List, [], ◌∷◌,
  ◌++◌, ltb, leb, ◌==◌, all, any, filter, length, map, take, if◌then◌else◌,
}
use istanbulmcp.Prelude.Bytes.{same_bytes, starts_with, is_space}
use istanbulmcp.Prelude.Sort.{sort, lex}
use istanbulmcp.Timetable.{Text, Stop}

-- `text.split()`
unfoldable pub words_from : Text → Text → List Text
words_from word [] = if length word == 0 then [] else word ∷ []
words_from word (c ∷ s) =
    let done = words_from [] s in
    let more = words_from (word ++ c ∷ []) s in
    if is_space c then (if length word == 0 then done else word ∷ done) else more

unfoldable pub words : Text → List Text
unfolding words_from
words s = words_from [] s

-- `" ".join(words)`
unfoldable pub join_words : List Text → Text
join_words [] = []
join_words (w ∷ []) = w
join_words (w ∷ v ∷ ws) = w ++ (b' ' ∷ join_words (v ∷ ws))

-- `token in name`
unfoldable pub occurs_in : Text → Text → Bool
occurs_in token [] = length token == 0
occurs_in token (c ∷ s) = starts_with token (c ∷ s) || occurs_in token s

pub record Unicode : Type 0 where
  pub casefold : Text → Text
  pub nfkd : Text → Text
  pub is_combining : ℕ → Bool
  pub is_alnum : ℕ → Bool

-- 305 is the dotless i.
unfoldable pub normalize_stop_name : Unicode → Text → Text
unfolding words join_words
normalize_stop_name u value =
    let folded = u.nfkd (map (λ c. if c == 305 then 105 else c) (u.casefold value)) in
    let kept = filter (λ c. not (u.is_combining c)) folded in
    join_words (words (map (λ c. if u.is_alnum c then c else b' ') kept))

pub data MatchKind : Type 0 where
  exact prefix contains suggestion : MatchKind

-- A stop that fits, with its place in the order.
pub record Match : Type 0 where
  pub rank : ℕ
  pub name : Text
  pub stop : Stop

pub record Candidate : Type 0 where
  pub stop : Stop
  pub match_kind : MatchKind

pub record StopSearchResult : Type 0 where
  pub rows : List Candidate
  pub matched_total : ℕ
  pub suggested_total : ℕ

-- `item[:3]`, as tuples compare.
abbrev pub match_key : Match → List (List ℕ)
match_key m = (m.rank ∷ []) ∷ m.name ∷ m.stop.stop_id ∷ []

unfoldable pub match_le : Match → Match → Bool
match_le a b = lex (lex leb) (match_key a) (match_key b)

abbrev pub rank_of : Text → Text → ℕ
rank_of needle name = if same_bytes name needle then 0 else if starts_with needle name then 1 else 2

abbrev pub kind_of : ℕ → MatchKind
kind_of n = if n == 0 then exact else if n == 1 then prefix else contains

-- The stops whose names hold every token of the query.
unfoldable pub matches : (Text → Text) → Text → List Stop → List Match
matches normal needle [] = []
matches normal needle (p ∷ ps) =
    let rest = matches normal needle ps in
    let name = normal p.stop_name in
    if all (λ token. occurs_in token name) (words needle)
    then record { rank = rank_of needle name; name = name; stop = p } ∷ rest
    else rest

-- `matcher.real_quick_ratio()`, `matcher.quick_ratio()` and `matcher.ratio()` of a name.
pub record Ratios : Type 0 where
  pub real_quick : Text → ℕ
  pub quick : Text → ℕ
  pub exact_ratio : Text → ℕ

abbrev threshold : ℕ
threshold = 720000

abbrev score_of : Ratios → Text → ℕ
score_of r name =
    if leb threshold (r.real_quick name) && leb threshold (r.quick name)
    then r.exact_ratio name
    else 0

abbrev is_named : Text → List Text → Bool
is_named name names = any (same_bytes name) names

-- `scores`, one for each name; its keys.
unfoldable pub distinct : List Text → List Text
distinct [] = []
distinct (n ∷ ns) = n ∷ filter (λ m. not (same_bytes n m)) (distinct ns)

abbrev score_key : Ratios → Text → List (List ℕ)
score_key r name = ((1000000 - score_of r name) ∷ []) ∷ name ∷ []

unfoldable pub suggested_names : Ratios → List Text → List Text
unfolding distinct
suggested_names r names = take 5 (
    sort (λ a b. lex (lex leb) (score_key r a) (score_key r b))
      (filter (λ n. leb threshold (score_of r n)) (distinct names)))

-- The place of a name among the suggested ones, if it is one.
unfoldable pub index_of : Text → List Text → Option ℕ
index_of name [] = none
index_of name (n ∷ ns) =
    let rest = index_of name ns in
    if same_bytes n name then some 0 else elim rest [ none ↦ none | some i ↦ some (i + 1) ]

unfoldable pub suggestions : (Text → Text) → List Text → List Stop → List Match
unfolding index_of
suggestions normal names [] = []
suggestions normal names (p ∷ ps) =
    let rest = suggestions normal names ps in
    elim (index_of (normal p.stop_name) names) [
      | none ↦ rest
      | some i ↦ record { rank = i; name = normal p.stop_name; stop = p } ∷ rest
    ]

abbrev pub as_match : Match → Candidate
as_match m = record { stop = m.stop; match_kind = kind_of m.rank }

abbrev as_suggestion : Match → Candidate
as_suggestion m = record { stop = m.stop; match_kind = suggestion }

-- `search_stops`: matches if there are any, else names that are close to a query of four characters
-- or more.
unfoldable pub search_stops : (Text → Text) → Ratios → Text → ℕ → List Stop → StopSearchResult
unfolding suggested_names suggestions
search_stops normal ratios query limit stops =
    let needle = normal query in
    let found = matches normal needle stops in
    if ltb 0 (length found)
    then record {
      rows = map as_match (take limit (sort match_le found));
      matched_total = length found;
      suggested_total = 0;
    }
    else (let names : List Text =
          if leb 4 (length needle)
          then suggested_names ratios (map (λ p. normal p.stop_name) stops)
          else [] in
        let close = suggestions normal names stops in
        record {
          rows = map as_suggestion (take limit (sort match_le close));
          matched_total = 0;
          suggested_total = length close;
        })
