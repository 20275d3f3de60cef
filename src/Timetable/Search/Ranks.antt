-- ===== src/Timetable/Search/Ranks.antt =====
-- What a search for stops returns.
use istanbulmcp.Prelude.{◌≢◌, ◌++◌, ℕ, ◌≤◌, ◌≡◌, true, List, [], ◌∷◌, all, All}
use istanbulmcp.Timetable.{Text, Stop}
use istanbulmcp.Timetable.Search.{
  Match, MatchKind, exact, prefix, contains, suggestion, Candidate, rank_of, words, occurs_in,
}

-- Where a kind stands in the reply.
abbrev pub place : MatchKind → ℕ
place exact = 0
place prefix = 1
place contains = 2
place suggestion = 3

-- Exact names come first, then names that begin with the query, then the others.
abbrev pub IsRanked : List Candidate → Type 0
IsRanked [] = Unit
IsRanked (c ∷ cs) = All (λ d. place c.match_kind ≤ place d.match_kind) cs × IsRanked cs

module _ (normal : Text → Text) (needle : Text) where
  -- What a kind says of a name: it is the query, or goes on after it, or does not begin with it.
  abbrev pub IsKind : MatchKind → Text → Type 0
  IsKind exact name = name ≡ needle
  IsKind prefix name = (name ≢ needle) × (rest : Text) × (name ≡ needle ++ rest)
  IsKind contains name = ¬ ((rest : Text) × (name ≡ needle ++ rest))
  IsKind suggestion name = ⊥

  abbrev pub Fits : Stop → Type 0
  Fits p = all (λ token. occurs_in token (normal p.stop_name)) (words needle) ≡ true

  -- A match whose kind is the one its name has.
  pub record IsMatch (c : Candidate) : Type 0 where
    pub fits : Fits c.stop
    pub has_kind : IsKind c.match_kind (normal c.stop.stop_name)

  abbrev IsRight : Match → Type 0
  IsRight m = Fits m.stop × (m.rank ≡ rank_of needle (normal m.stop.stop_name))
